-- ===== src/Store/Invariant/RecoverRows.antt =====
-- services/protocol-runner-api/src/store.ts, recoverStaleParallelLeases: what the loop over the stale
-- leases leaves of the invariant.
use protocol_runner.Common.{
  ℕ, ◌+◌, ◌≤◌, ◌≡◌, ◌≢◌, refl, sym, ◌∙◌, subst, Bool, true, false, ◌&&◌, String, some, List, [],
  ◌∷◌, ◌++◌, All, All-imp, Pairwise, find, count, arith, if◌then◌else◌, Bool-cases, inl, inr,
  eq_iff,
}
use protocol_runner.Store.Error.{ok, >>=-eq-ok, ok_pair}
use protocol_runner.Store.Rows.{ItemRow, AttemptRow, LeaseRow, ItemStatus, is_live, is_active}
use protocol_runner.Store.Tables.{
  Db, update_where, at_item, at_lease, active_in, active_on, load_attempt,
}
use protocol_runner.Store.Tables.Laws.{
  count-update_where_away, count-find, find-update_where_other, All-update_where,
}
use protocol_runner.Store.Recover.{
  Recovery, recover_rows, recover_effect, can_requeue, expire_lease, requeue_attempt, stale_attempt,
  set_item,
}
use protocol_runner.Store.Invariant.{IsSound, IsIdleUnlessLive, IsLinked, IsOtherLease}
use protocol_runner.Store.Invariant.Updates.{
  HasRoom-le, KeepsAttempts, Carries-update_attempts, IsLinked-update_attempts,
  All-IsLatest-update_items, All-IsLinked-update_leases, lease_ids-update_leases,
  item_keys-update_items,
}
use protocol_runner.Store.Invariant.Keys.{attempt_keys-update_attempts}

find-refine :
    (p q : LeaseRow → Bool) (xs : List LeaseRow) {x : LeaseRow}
    → find p xs ≡ some x
    → q x ≡ true
    → find (λ y. p y && q y) xs ≡ some x
find-refine p q [] h e = absurd (cc)
find-refine p q (y ∷ ys) {x} h e = elim (Bool-cases (p y)) [
  | inl here ↦
      let same : y ≡ x = some-equal (rw here at h) in
      ground (arith, here, subst (λ z. q z ≡ true) (sym same) e, h)
  | inr there ↦ rw there (find-refine p q ys (rw there at h) e)
]
  where
    some-equal : {a b : LeaseRow} → some a ≡ some b → a ≡ b
    some-equal r = cc

module _ (g : String) (observed : ℕ) (row : LeaseRow) where
  abbrev is_row : LeaseRow → Bool
  is_row l = at_lease row.lease_id l && is_active l.status

  abbrev expired : List LeaseRow → List LeaseRow
  expired = update_where is_row (expire_lease observed)

  abbrev recovered_attempt : Bool → AttemptRow → AttemptRow
  recovered_attempt requeue = if requeue then requeue_attempt observed else stale_attempt observed

  abbrev recovered_item : Bool → ItemRow → ItemRow
  recovered_item requeue =
      set_item (if requeue then ItemStatus.pending else ItemStatus.needs_recovery) observed

  recovered_attempt-keeps : (requeue : Bool) → KeepsAttempts (recovered_attempt requeue)
  unfolding requeue_attempt stale_attempt
  recovered_attempt-keeps true a = (refl, refl, refl, refl)
  recovered_attempt-keeps false a = (refl, refl, refl, refl)

  count-expired_in :
      (h : String) (ls : List LeaseRow) → count (active_in h) (expired ls) ≤ count (active_in h) ls
  unfolding expire_lease
  count-expired_in h ls = omega (
    arith,
    count-update_where_away is_row (expire_lease observed) (active_in h) ls (λ l. ground arith),
  )

  count-expired_on :
      (h i : String) (ls : List LeaseRow)
      → count (active_on h i) (expired ls) + count (λ l. is_row l && active_on h i l) ls
        ≡ count (active_on h i) ls
  unfolding expire_lease
  count-expired_on h i ls =
      count-update_where_away is_row (expire_lease observed) (active_on h i) ls (λ l. ground arith)

  -- The row of the table that is stale, still as the loop has read it.
  abbrev pub IsStillActive : List LeaseRow → Type 0
  IsStillActive ls =
      (k : LeaseRow) × (find (at_lease row.lease_id) ls ≡ some k)
      × (k.group_id ≡ g)
      × (k.item_id ≡ row.item_id)
      × (is_active k.status ≡ true)

  none_on :
      (ls : List LeaseRow)
      → IsStillActive ls
      → count (active_on g row.item_id) ls ≤ 1
      → count (active_on g row.item_id) (expired ls) ≡ 0
  none_on ls (k, found, group, item, active) one = omega (
    arith,
    one,
    count-expired_on g row.item_id ls,
    count-find is_row (active_on g row.item_id) ls {x = k}
        (find-refine (at_lease row.lease_id) (λ l. is_active l.status) ls found active)
        (ground (arith, active, eq_iff k.group_id g, eq_iff k.item_id row.item_id)),
  )

  idle-recovered :
      (requeue : Bool) (ls : List LeaseRow) (it : ItemRow)
      → count (active_on g row.item_id) (expired ls) ≡ 0
      → IsIdleUnlessLive ls it
      → IsIdleUnlessLive
          (expired ls)
          (if at_item g row.item_id it && is_live it.status then recovered_item requeue it else it)
  unfolding set_item
  idle-recovered requeue ls it none_left h =
      elim (Bool-cases (at_item g row.item_id it && is_live it.status)) [
        | inl hit ↦
            let group : it.group_id ≡ g = ground (arith, hit, eq_iff it.group_id g) in
            let item : it.item_id ≡ row.item_id =
              ground (arith, hit, eq_iff it.item_id row.item_id) in
            rw hit (λ _. rw (group, item) none_left)
        | inr miss ↦
            rw miss (λ idle. omega (arith, h idle, count-expired_on it.group_id it.item_id ls))
      ]

  recover_effect-IsSound :
      (requeue : Bool) (db : Db)
      → IsSound db
      → IsStillActive db.leases
      → IsSound (recover_effect g observed requeue row db)
  unfolding recover_effect
  recover_effect-IsSound requeue db s still =
      let none_left = none_on db.leases still (s.single g row.item_id) in
      let keeps = recovered_attempt-keeps requeue in
      record {
        capacity =
            HasRoom-le db.leases (expired db.leases) db.groups (λ h. count-expired_in h db.leases)
              s.capacity;
        single = λ h i. omega (arith, count-expired_on h i db.leases, s.single h i);
        idle =
            All-update_where (IsIdleUnlessLive db.leases) (IsIdleUnlessLive (expired db.leases)) _ _
              db.items (λ it. idle-recovered requeue db.leases it none_left) s.idle;
        linked =
            All-IsLinked-update_leases is_row (expire_lease observed)
              (unfold expire_lease in λ l. (refl, refl, refl, refl)) _ db.leases
              (All-imp (IsLinked db.attempts) (IsLinked _) db.leases
                (IsLinked-update_attempts _ (recovered_attempt requeue) keeps db.attempts)
                s.linked);
        latest =
            All-IsLatest-update_items db.attempts _ _ (recovered_item requeue) db.items
              (unfold set_item in λ it. (refl, refl, refl))
              (Carries-update_attempts _ (recovered_attempt requeue) keeps db.attempts) s.latest;
        item_keys =
            item_keys-update_items _ (recovered_item requeue)
              (unfold set_item in λ it. (refl, refl)) db.items s.item_keys;
        lease_ids =
            lease_ids-update_leases is_row (expire_lease observed)
              (unfold expire_lease in λ l. (refl, refl, refl, refl)) db.leases s.lease_ids;
        group_keys = s.group_keys;
        attempt_keys =
            attempt_keys-update_attempts _ (recovered_attempt requeue) keeps db.attempts
              s.attempt_keys;
      }

  -- A row with another id is left as it was.
  others_stay :
      (other : LeaseRow) (ls : List LeaseRow)
      → row.lease_id ≢ other.lease_id
      → find (at_lease other.lease_id) (expired ls) ≡ find (at_lease other.lease_id) ls
  unfolding expire_lease
  others_stay other ls apart =
      find-update_where_other is_row (expire_lease observed) (at_lease other.lease_id) ls (λ x h.
        ground (arith, h, apart, eq_iff x.lease_id row.lease_id, eq_iff x.lease_id other.lease_id))

pub recover_rows-IsSound :
    (absent : LeaseRow → Bool) (g : String) (observed : ℕ) (rows : List LeaseRow) (r : Recovery)
    (db : Db) {r' : Recovery} {db' : Db}
    → IsSound db
    → All (λ (l : LeaseRow). IsStillActive g observed l db.leases) rows
    → Pairwise IsOtherLease rows
    → recover_rows absent g observed rows r db ≡ ok (r', db')
    → IsSound db'
unfolding recover_rows
recover_rows-IsSound absent g observed [] r db s a p h = subst IsSound (ok_pair h).1 s
recover_rows-IsSound absent g observed (row ∷ rows) r db {r'} {db'} s (still, a) (o, p) h =
    let (attempt, e1, h1) = >>=-eq-ok (load_attempt db row.attempt_id) _ h in
    let requeue = can_requeue absent row attempt in
    let next : Recovery =
      if requeue
      then record r { requeued = r.requeued ++ row ∷ [] }
      else record r { attention = r.attention ++ row ∷ [] } in
    recover_rows-IsSound absent g observed rows next (recover_effect g observed requeue row db)
      {r' = r'} {db' = db'} (recover_effect-IsSound g observed row requeue db s still)
      (unfold recover_effect in later rows a o) p h1
  where
    later :
        (ls : List LeaseRow)
        → All (λ (l : LeaseRow). IsStillActive g observed l db.leases) ls
        → All (IsOtherLease row) ls
        → All (λ (l : LeaseRow). IsStillActive g observed l (expired g observed row db.leases)) ls
    later [] b q = tt
    later (l ∷ ls) ((k, found, group, item, active), b) (apart, q) = (
      (k, others_stay g observed row l db.leases apart ∙ found, group, item, active),
      later ls b q,
    )
