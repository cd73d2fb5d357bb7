-- ===== src/Store/Invariant/GrantRound.antt =====
-- services/protocol-runner-api/src/store.ts, grantParallelLeases: what one round of the loop leaves of
-- the invariant.
use mathlib.Core.Path.{subst₂}
use protocol_runner.Common.{
  suc, ◌≤◌, ◌≡◌, refl, sym, ◌∙◌, subst, ap, false, ◌&&◌, ◌==◌, String, some, List, [], ◌∷◌, All-imp,
  All-append, find, count, arith, if◌then◌else◌, Bool-cases, inl, inr, eq_iff, any,
}
use protocol_runner.Store.Rows.{GroupRow, ItemRow, AttemptRow, ItemStatus, AttemptStatus}
use protocol_runner.Store.Tables.{
  Db, update_where, at_group, at_item, at_attempt, at_lease, active_in, active_on,
}
use protocol_runner.Store.Tables.Laws.{All-update_where}
use protocol_runner.Store.Tables.Inserts.{Pairwise-append_new, other_leases}
use protocol_runner.Store.Grant.{GrantContext, new_lease, mark_leased}
use protocol_runner.Store.Invariant.{IsSound, IsIdleUnlessLive, IsLinked, IsOtherLease, HasRoom}
use protocol_runner.Store.Invariant.Updates.{
  Carries, Carries-trans, Carries-update_attempts, IsLinked-Carries, All-IsLatest-assign,
  item_keys-update_items,
}
use protocol_runner.Store.Invariant.Keys.{attempt_keys-update_attempts}
use protocol_runner.Store.Invariant.GrantRows.{
  Chosen, round, with_lease, count-with_lease_in, count-with_lease_on,
}

module _ (c : GrantContext) (item : ItemRow) (db : Db) where
  unfoldable pub lease_attempt : String → AttemptRow → AttemptRow
  lease_attempt dir a = record a {
    status = AttemptStatus.leased;
    evidence_dir = some dir;
    updated_at = c.leased_at;
  }

  lease_item : String → ItemRow → ItemRow
  lease_item id it = record it {
    status = ItemStatus.leased;
    latest_attempt_id = some id;
    updated_at = c.leased_at;
  }

  -- The attempts of a round, after its update.
  pub Carries-round :
      (attempts : List AttemptRow) (id dir : String)
      → Carries attempts (update_where (at_attempt id) (lease_attempt dir) attempts)
  unfolding lease_attempt
  Carries-round attempts id dir =
      Carries-update_attempts (at_attempt id) (lease_attempt dir) (λ a. (refl, refl, refl, refl))
        attempts

  idle-round :
      (id lease_id : String) (it : ItemRow)
      → IsIdleUnlessLive db.leases it
      → IsIdleUnlessLive
          (with_lease c item db id lease_id)
          (if at_item c.group.group_id item.item_id it then lease_item id it else it)
  unfolding lease_item
  idle-round id lease_id it h = elim (Bool-cases (at_item c.group.group_id item.item_id it)) [
    | inl hit ↦ rw hit (λ idle. absurd (cc))
    | inr miss ↦ rw miss (λ idle. ground (
      arith,
      h idle,
      count-with_lease_on c item db id lease_id it.group_id it.item_id,
      miss,
      eq_iff c.group.group_id it.group_id,
      eq_iff it.group_id c.group.group_id,
      eq_iff item.item_id it.item_id,
      eq_iff it.item_id item.item_id,
    ))
  ]

  capacity-round :
      (id lease_id : String)
      → HasRoom db.leases db.groups
      → find (at_group c.group.group_id) db.groups ≡ some c.group
      → suc (count (active_in c.group.group_id) db.leases) ≤ c.group.max_concurrency
      → HasRoom (with_lease c item db id lease_id) db.groups
  capacity-round id lease_id h group_row room g row e = elim (Bool-cases (c.group.group_id == g)) [
    | inl same ↦
        let named : c.group.group_id ≡ g = ground (arith, same, eq_iff c.group.group_id g) in
        let one : c.group ≡ row =
          some-equal
            (sym group_row ∙ subst (λ x. find (at_group x) db.groups ≡ some row) (sym named) e) in
        let counted = count-with_lease_in c item db id lease_id g in
        let here : suc (count (active_in g) db.leases) ≤ c.group.max_concurrency =
          subst (λ x. suc (count (active_in x) db.leases) ≤ c.group.max_concurrency) named room in
        ground (arith, same, counted, here, ap (λ (x : GroupRow). x.max_concurrency) one)
    | inr other ↦ ground (arith, other, count-with_lease_in c item db id lease_id g, h g row e)
  ]
    where
      some-equal : {x y : GroupRow} → some x ≡ some y → x ≡ y
      some-equal q = cc

  single-round :
      (id lease_id g i : String)
      → count (active_on g i) db.leases ≤ 1
      → count (active_on c.group.group_id item.item_id) db.leases ≡ 0
      → count (active_on g i) (with_lease c item db id lease_id) ≤ 1
  single-round id lease_id g i one free =
      elim (Bool-cases (c.group.group_id == g && item.item_id == i)) [
        | inl same ↦
            let g_same : c.group.group_id ≡ g = ground (arith, same, eq_iff c.group.group_id g) in
            let i_same : item.item_id ≡ i = ground (arith, same, eq_iff item.item_id i) in
            let none_yet : count (active_on g i) db.leases ≡ 0 =
              subst₂ (λ x y. count (active_on x y) db.leases ≡ 0) g_same i_same free in
            ground (arith, same, count-with_lease_on c item db id lease_id g i, none_yet)
        | inr other ↦ ground (arith, other, count-with_lease_on c item db id lease_id g i)
      ]

  -- One round leaves sound tables sound if its item has no active lease and the group has room.
  pub round-IsSound :
      {id : String} {db1 : Db} (ch : Chosen c item db id db1) (dir lease_id : String)
      → IsSound db
      → find (at_group c.group.group_id) db.groups ≡ some c.group
      → count (active_on c.group.group_id item.item_id) db.leases ≡ 0
      → suc (count (active_in c.group.group_id) db.leases) ≤ c.group.max_concurrency
      → any (at_lease lease_id) db.leases ≡ false
      → IsSound (round c item db ch.attempts id dir lease_id)
  unfolding mark_leased lease_attempt lease_item new_lease
  round-IsSound {id} ch dir lease_id s group_row free room fresh =
      let moved =
        Carries-trans db.attempts ch.attempts
          (update_where (at_attempt id) (lease_attempt dir) ch.attempts) ch.carries
          (Carries-round ch.attempts id dir) in
      let (b, found, g_same, i_same) = Carries-round ch.attempts id dir id ch.attempt ch.found in
      record {
        capacity = capacity-round id lease_id s.capacity group_row room;
        single = λ g i. single-round id lease_id g i (s.single g i) free;
        idle =
            All-update_where (IsIdleUnlessLive db.leases)
              (IsIdleUnlessLive (with_lease c item db id lease_id)) _ (lease_item id) db.items
              (idle-round id lease_id) s.idle;
        linked =
            All-append (IsLinked _) db.leases (new_lease c item id lease_id ∷ [])
              (All-imp (IsLinked db.attempts) (IsLinked _) db.leases
                (IsLinked-Carries db.attempts _ moved) s.linked)
              ((b, found, g_same ∙ ch.of_group, i_same ∙ ch.of_item), tt);
        latest =
            All-IsLatest-assign db.attempts _ c.group.group_id item.item_id id (lease_item id)
              db.items b (λ it. (refl, refl, refl)) moved found (g_same ∙ ch.of_group)
              (i_same ∙ ch.of_item) s.latest;
        item_keys =
            item_keys-update_items (at_item c.group.group_id item.item_id) (lease_item id)
              (λ it. (refl, refl)) db.items s.item_keys;
        lease_ids =
            Pairwise-append_new IsOtherLease db.leases (new_lease c item id lease_id) s.lease_ids
              (other_leases lease_id db.leases fresh);
        group_keys = s.group_keys;
        attempt_keys =
            attempt_keys-update_attempts (at_attempt id) (lease_attempt dir)
              (λ a. (refl, refl, refl, refl)) ch.attempts (ch.keys s.attempt_keys);
      }
