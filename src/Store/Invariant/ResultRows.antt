-- ===== src/Store/Invariant/ResultRows.antt =====
-- services/protocol-runner-api/src/store.ts, recordParallelAttemptResult: what its updates leave of the
-- invariant.
use protocol_runner.Common.{
  ℕ, ◌+◌, ◌≤◌, ◌≡◌, refl, true, false, ◌&&◌, String, some, List, All-imp, find, count, arith,
  if◌then◌else◌, Bool-cases, inl, inr, eq_iff,
}
use protocol_runner.Store.Rows.{
  ItemRow, AttemptRow, LeaseRow, ResultStatus, is_live, is_active, item_status_for,
  lease_status_for,
}
use protocol_runner.Store.Tables.{Db, update_where, at_item, at_lease, active_in, active_on}
use protocol_runner.Store.Tables.Laws.{count-update_where_away, All-update_where, count-find}
use protocol_runner.Store.AttemptResult.{
  end_attempt, end_lease, end_item, result_rows, refresh_group,
}
use protocol_runner.Store.Invariant.{IsSound, IsIdleUnlessLive, IsLinked}
use protocol_runner.Store.Invariant.Updates.{
  group_keys-update_groups, All-IsLatest-update_items, Carries-update_attempts, HasRoom-le,
  HasRoom-update_groups, IsLinked-update_attempts, All-IsLinked-update_leases,
  lease_ids-update_leases, item_keys-update_items,
}
use protocol_runner.Store.Invariant.Keys.{attempt_keys-update_attempts}

end_lease-inactive :
    (status : ResultStatus) (now : ℕ) (l : LeaseRow)
    → is_active (end_lease status now l).status ≡ false
unfolding end_lease lease_status_for
end_lease-inactive ResultStatus.cancelled now l = refl
end_lease-inactive _ now l = refl

item_status_for-idle : (status : ResultStatus) → is_live (item_status_for status) ≡ false
unfolding item_status_for
item_status_for-idle ResultStatus.completed = refl
item_status_for-idle ResultStatus.blocked = refl
item_status_for-idle _ = refl

module _ (group lease_id : String) (status : ResultStatus) (now : ℕ) where
  abbrev ended : List LeaseRow → List LeaseRow
  ended = update_where (at_lease lease_id) (end_lease status now)

  count-ended_in :
      (g : String) (ls : List LeaseRow) → count (active_in g) (ended ls) ≤ count (active_in g) ls
  count-ended_in g ls = omega (
    arith,
    count-update_where_away (at_lease lease_id) (end_lease status now) (active_in g) ls
        (λ l. ground (arith, end_lease-inactive status now l)),
  )

  count-ended_on :
      (g i : String) (ls : List LeaseRow)
      → count (active_on g i) (ended ls) + count (λ l. at_lease lease_id l && active_on g i l) ls
        ≡ count (active_on g i) ls
  count-ended_on g i ls =
      count-update_where_away (at_lease lease_id) (end_lease status now) (active_on g i) ls
        (λ l. ground (arith, end_lease-inactive status now l))

  -- The reported lease was the one active lease of its item.
  pub none_left :
      (ls : List LeaseRow) (i : String) {lease : LeaseRow}
      → find (at_lease lease_id) ls ≡ some lease
      → lease.group_id ≡ group
      → lease.item_id ≡ i
      → is_active lease.status ≡ true
      → count (active_on group i) ls ≤ 1
      → count (active_on group i) (ended ls) ≡ 0
  none_left ls i {lease} found g it act one = omega (
    arith,
    count-ended_on group i ls,
    count-find (at_lease lease_id) (active_on group i) ls {x = lease} found
        (ground (arith, eq_iff lease.group_id group, eq_iff lease.item_id i)),
  )

  module _ (attempt_id : String) (attempt : AttemptRow) where
    idle-ended :
        (ls : List LeaseRow) (it : ItemRow)
        → count (active_on group attempt.item_id) (ended ls) ≡ 0
        → IsIdleUnlessLive ls it
        → IsIdleUnlessLive
            (ended ls)
            (if at_item group attempt.item_id it then end_item status now it else it)
    unfolding end_item
    idle-ended ls it none h = elim (Bool-cases (at_item group attempt.item_id it)) [
      | inl hit ↦
          let g : it.group_id ≡ group = ground (arith, eq_iff it.group_id group) in
          let i : it.item_id ≡ attempt.item_id =
            ground (arith, eq_iff it.item_id attempt.item_id) in
          rw hit (λ _. rw (g, i) none)
      | inr miss ↦ rw miss (λ idle. omega (arith, h idle, count-ended_on it.group_id it.item_id ls))
    ]

    pub result_rows-IsSound :
        (db : Db)
        → IsSound db
        → count (active_on group attempt.item_id) (ended db.leases) ≡ 0
        → IsSound (result_rows group attempt_id lease_id status now attempt db)
    unfolding result_rows
    result_rows-IsSound db s none = record {
      capacity =
          HasRoom-le db.leases (ended db.leases) db.groups (λ g. count-ended_in g db.leases)
            s.capacity;
      single = λ g i. omega (arith, count-ended_on g i db.leases, s.single g i);
      idle =
          All-update_where (IsIdleUnlessLive db.leases) (IsIdleUnlessLive (ended db.leases)) _ _
            db.items (λ it. idle-ended db.leases it none) s.idle;
      linked =
          All-IsLinked-update_leases _ (end_lease status now)
            (unfold end_lease in λ l. (refl, refl, refl, refl)) _ db.leases
            (All-imp (IsLinked db.attempts) (IsLinked _) db.leases
              (IsLinked-update_attempts _ (end_attempt status now)
                (unfold end_attempt in λ a. (refl, refl, refl, refl)) db.attempts)
              s.linked);
      latest =
          All-IsLatest-update_items db.attempts _ _ (end_item status now) db.items
            (unfold end_item in λ it. (refl, refl, refl))
            (Carries-update_attempts _ (end_attempt status now)
              (unfold end_attempt in λ a. (refl, refl, refl, refl)) db.attempts)
            s.latest;
      item_keys =
          item_keys-update_items _ (end_item status now) (unfold end_item in λ it. (refl, refl))
            db.items s.item_keys;
      lease_ids =
          lease_ids-update_leases _ (end_lease status now)
            (unfold end_lease in λ l. (refl, refl, refl, refl)) db.leases s.lease_ids;
      group_keys = s.group_keys;
      attempt_keys =
          attempt_keys-update_attempts _ (end_attempt status now)
            (unfold end_attempt in λ a. (refl, refl, refl, refl)) db.attempts s.attempt_keys;
    }

pub refresh_group-IsSound :
    (group : String) (now : ℕ) (db : Db) → IsSound db → IsSound (refresh_group group now db)
unfolding refresh_group
refresh_group-IsSound group now db s = record {
  capacity = HasRoom-update_groups _ _ (λ g. (refl, refl, refl)) db.leases db.groups s.capacity;
  single = s.single;
  idle = s.idle;
  linked = s.linked;
  latest = s.latest;
  item_keys = s.item_keys;
  lease_ids = s.lease_ids;
  group_keys = group_keys-update_groups _ _ (λ g. (refl, refl, refl)) db.groups s.group_keys;
  attempt_keys = s.attempt_keys;
}
