-- ===== src/Store/Invariant/Control.antt =====
-- services/protocol-runner-api/src/store.ts: `controlParallelGroup`,
-- `recordParallelPreflight` and the invariant of the tables.
use protocol_runner.Common.{
  ℕ, ◌+◌, ◌≤◌, ◌≡◌, refl, sym, ◌∙◌, subst, ap, Bool, true, false, ◌&&◌, ◌==◌, String, some, List,
  All-imp, find, count, arith, if◌then◌else◌, Bool-cases, inl, inr, eq_iff, not,
}
use protocol_runner.Store.Error.{ok, >>=-eq-ok, ok_pair}
use protocol_runner.Store.Ids.{
  assert_safe_run_instance_id, assert_safe_parallel_id, assert_safe_parallel_id-same,
}
use protocol_runner.Store.Rows.{ItemRow, LeaseRow, is_completed}
use protocol_runner.Store.Tables.{
  Db, update_where, at_group, at_item, active_in, active_on, load_run_row, load_group,
}
use protocol_runner.Store.Tables.Laws.{
  count-update_where_away, find-update_where, All-update_where, count-eq-count,
}
use protocol_runner.Store.Control.{
  ControlAction, control_parallel_group, control_effect, set_group, cancel_lease, cancel_attempt,
  stop_item,
}
use protocol_runner.Store.Grant.{PreflightResult, record_parallel_preflight, preflight_group}
use protocol_runner.Store.Invariant.{IsSound, IsIdleUnlessLive, IsLinked}
use protocol_runner.Store.Invariant.Updates.{
  group_keys-update_groups, All-IsLatest-update_items, Carries-update_attempts, HasRoom-le,
  HasRoom-update_groups, IsLinked-update_attempts, All-IsLinked-update_leases,
  lease_ids-update_leases, item_keys-update_items,
}
use protocol_runner.Store.Invariant.Keys.{attempt_keys-update_attempts}

module _ (group : String) (now : ℕ) where
  abbrev cancelled : List LeaseRow → List LeaseRow
  cancelled = update_where (active_in group) (cancel_lease now)

  count-cancelled_in :
      (g : String) (ls : List LeaseRow)
      → count (active_in g) (cancelled ls) ≤ count (active_in g) ls
  unfolding cancel_lease
  count-cancelled_in g ls = omega (
    arith,
    count-update_where_away (active_in group) (cancel_lease now) (active_in g) ls
        (λ l. ground arith),
  )

  count-cancelled_on :
      (g i : String) (ls : List LeaseRow)
      → count (active_on g i) (cancelled ls) + count (λ l. active_in group l && active_on g i l) ls
        ≡ count (active_on g i) ls
  unfolding cancel_lease
  count-cancelled_on g i ls =
      count-update_where_away (active_in group) (cancel_lease now) (active_on g i) ls
        (λ l. ground arith)

  none_on : (i : String) (ls : List LeaseRow) → count (active_on group i) (cancelled ls) ≡ 0
  none_on i ls = omega (
    arith,
    count-cancelled_on group i ls,
    count-eq-count (active_on group i) (λ l. active_in group l && active_on group i l) ls
        (λ l. ground arith),
  )

  none_in : (ls : List LeaseRow) → count (active_in group) (cancelled ls) ≡ 0
  unfolding cancel_lease
  none_in ls = omega (
    arith,
    count-update_where_away (active_in group) (cancel_lease now) (active_in group) ls
        (λ l. ground arith),
    count-eq-count (active_in group) (λ l. active_in group l && active_in group l) ls
        (λ l. ground arith),
  )

  idle-stopped :
      (ls : List LeaseRow) (it : ItemRow)
      → IsIdleUnlessLive ls it
      → IsIdleUnlessLive
          (cancelled ls)
          (if it.group_id == group && not (is_completed it.status) then stop_item now it else it)
  unfolding stop_item
  idle-stopped ls it h = elim (Bool-cases (it.group_id == group && not (is_completed it.status))) [
    | inl hit ↦
        let g : it.group_id ≡ group = ground (arith, eq_iff it.group_id group) in
        rw hit (λ _. rw g (none_on it.item_id ls))
    | inr miss ↦
        rw miss (λ idle. omega (arith, h idle, count-cancelled_on it.group_id it.item_id ls))
  ]

  control_effect-IsSound :
      (action : ControlAction) (db : Db) → IsSound db → IsSound (control_effect action group now db)
  unfolding control_effect
  control_effect-IsSound ControlAction.pause db s = record {
    capacity =
        HasRoom-update_groups _ (set_group _ now) (unfold set_group in λ g. (refl, refl, refl))
          db.leases db.groups s.capacity;
    single = s.single;
    idle = s.idle;
    linked = s.linked;
    latest = s.latest;
    item_keys = s.item_keys;
    lease_ids = s.lease_ids;
    group_keys =
        group_keys-update_groups _ (set_group _ now) (unfold set_group in λ g. (refl, refl, refl))
          db.groups s.group_keys;
    attempt_keys = s.attempt_keys;
  }
  control_effect-IsSound ControlAction.stop db s = record {
    capacity =
        HasRoom-update_groups _ (set_group _ now) (unfold set_group in λ g. (refl, refl, refl)) _
          db.groups
          (HasRoom-le db.leases (cancelled db.leases) db.groups
            (λ g. count-cancelled_in g db.leases) s.capacity);
    single = λ g i. omega (arith, count-cancelled_on g i db.leases, s.single g i);
    idle =
        All-update_where (IsIdleUnlessLive db.leases) (IsIdleUnlessLive (cancelled db.leases)) _ _
          db.items (idle-stopped db.leases) s.idle;
    linked =
        All-IsLinked-update_leases _ (cancel_lease now)
          (unfold cancel_lease in λ l. (refl, refl, refl, refl)) _ db.leases
          (All-imp (IsLinked db.attempts) (IsLinked _) db.leases
            (IsLinked-update_attempts _ (cancel_attempt now)
              (unfold cancel_attempt in λ a. (refl, refl, refl, refl)) db.attempts)
            s.linked);
    latest =
        All-IsLatest-update_items db.attempts _ _ (stop_item now) db.items
          (unfold stop_item in λ it. (refl, refl, refl))
          (Carries-update_attempts _ (cancel_attempt now)
            (unfold cancel_attempt in λ a. (refl, refl, refl, refl)) db.attempts)
          s.latest;
    item_keys =
        item_keys-update_items _ (stop_item now) (unfold stop_item in λ it. (refl, refl)) db.items
          s.item_keys;
    lease_ids =
        lease_ids-update_leases _ (cancel_lease now)
          (unfold cancel_lease in λ l. (refl, refl, refl, refl)) db.leases s.lease_ids;
    group_keys =
        group_keys-update_groups _ (set_group _ now) (unfold set_group in λ g. (refl, refl, refl))
          db.groups s.group_keys;
    attempt_keys =
        attempt_keys-update_attempts _ (cancel_attempt now)
          (unfold cancel_attempt in λ a. (refl, refl, refl, refl)) db.attempts s.attempt_keys;
  }

-- What a control that succeeds has found, and the tables that it leaves.
control_parallel_group-tables :
    (action : ControlAction) (run group : String) (now : ℕ) (db : Db) {u : Unit {0}} {db' : Db}
    → control_parallel_group action run group now db ≡ ok (u, db')
    → db' ≡ control_effect action group now db
unfolding control_parallel_group
control_parallel_group-tables action run group now db {u} {db'} h =
    let (r, e1, h1) = >>=-eq-ok (assert_safe_run_instance_id run) _ h in
    let (g, e2, h2) = >>=-eq-ok (assert_safe_parallel_id group) _ h1 in
    let (v, e3, h3) = >>=-eq-ok (load_run_row db r) _ h2 in
    let (row, e4, h4) = >>=-eq-ok (load_group db g) _ h3 in
    sym (ok_pair h4).1
    ∙ ap (λ x. control_effect action x now db) (assert_safe_parallel_id-same group e2)

-- A pause or a stop of a group that succeeds keeps sound tables sound.
pub control_parallel_group-IsSound :
    (action : ControlAction) (run group : String) (now : ℕ) (db : Db) {u : Unit {0}} {db' : Db}
    → IsSound db
    → control_parallel_group action run group now db ≡ ok (u, db')
    → IsSound db'
control_parallel_group-IsSound action run group now db s h =
    subst IsSound (sym (control_parallel_group-tables action run group now db h))
      (control_effect-IsSound group now action db s)

abbrev pub IsStopped : String → Db → Db → Type 0
IsStopped group db db' =
    (count (active_in group) db'.leases ≡ 0)
    × ((item : String) (it : ItemRow)
        → find (at_item group item) db.items ≡ some it
        → is_completed it.status ≡ true
        → find (at_item group item) db'.items ≡ some it)

control_effect-IsStopped :
    (group : String) (now : ℕ) (db : Db)
    → IsStopped group db (control_effect ControlAction.stop group now db)
unfolding control_effect
control_effect-IsStopped group now db = (
  none_in group now db.leases,
  λ item it found done.
      find-update_where _ (stop_item now) (at_item group item) db.items
        (unfold stop_item in λ x. refl) found
      ∙ ap some (rw done (kept (it.group_id == group))),
)
  where
    kept : {it : ItemRow} (b : Bool) → (if b && false then stop_item now it else it) ≡ it
    kept true = refl
    kept false = refl

-- After a stop that succeeds the group has no active lease, and every item of it that was completed
-- is still there, unchanged.
pub control_parallel_group-IsStopped :
    (run group : String) (now : ℕ) (db : Db) {u : Unit {0}} {db' : Db}
    → control_parallel_group ControlAction.stop run group now db ≡ ok (u, db')
    → IsStopped group db db'
control_parallel_group-IsStopped run group now db h =
    subst (IsStopped group db)
      (sym (control_parallel_group-tables ControlAction.stop run group now db h))
      (control_effect-IsStopped group now db)

-- A preflight result that is recorded keeps sound tables sound.
pub record_parallel_preflight-IsSound :
    (run group : String) (result : PreflightResult) (db : Db) {r : PreflightResult} {db' : Db}
    → IsSound db
    → record_parallel_preflight run group result db ≡ ok (r, db')
    → IsSound db'
unfolding record_parallel_preflight
record_parallel_preflight-IsSound run group result db {r} {db'} s h =
    let (rr, e1, h1) = >>=-eq-ok (assert_safe_run_instance_id run) _ h in
    let (g, e2, h2) = >>=-eq-ok (assert_safe_parallel_id group) _ h1 in
    let (v, e3, h3) = >>=-eq-ok (load_run_row db rr) _ h2 in
    let (row, e4, h4) = >>=-eq-ok (load_group db g) _ h3 in
    subst IsSound (ok_pair h4).1 (record {
      capacity =
          HasRoom-update_groups (at_group g) (preflight_group result)
            (unfold preflight_group in λ x. (refl, refl, refl)) db.leases db.groups s.capacity;
      single = s.single;
      idle = s.idle;
      linked = s.linked;
      latest = s.latest;
      item_keys = s.item_keys;
      lease_ids = s.lease_ids;
      group_keys =
          group_keys-update_groups (at_group g) (preflight_group result)
            (unfold preflight_group in λ x. (refl, refl, refl)) db.groups s.group_keys;
      attempt_keys = s.attempt_keys;
    })
