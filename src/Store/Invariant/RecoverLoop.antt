-- ===== src/Store/Invariant/RecoverLoop.antt =====
-- services/protocol-runner-api/src/store.ts: `recoverStaleParallelLeases` and the invariant of the
-- tables.
use protocol_runner.Common.{
  ℕ, ◌≡◌, refl, sym, subst, Bool, String, some, List, [], ◌∷◌, All, All-keep, All-sort_by, Pairwise,
  Pairwise-keep, Pairwise-sort_by, sort_by, keep, find, arith, Bool-cases, inl, inr, eq_iff,
}
use protocol_runner.Store.Error.{ok, StoreError, >>=-eq-ok, ok_pair}
use protocol_runner.Store.Ids.{assert_safe_run_instance_id, assert_safe_parallel_id}
use protocol_runner.Store.Heartbeat.{TimeInput, read_time}
use protocol_runner.Store.Rows.{GroupRow, LeaseRow}
use protocol_runner.Store.Tables.{Db, at_lease, active_in, load_run_row, load_group}
use protocol_runner.Store.Recover.{
  Recovery, recover_rows, refresh_unless_paused, recover_stale_parallel_leases, stale_rows,
  lease_le,
}
use protocol_runner.Store.Invariant.{IsSound, IsOtherLease}
use protocol_runner.Store.Invariant.Updates.{group_keys-update_groups, HasRoom-update_groups}
use protocol_runner.Store.Invariant.RecoverRows.{IsStillActive, recover_rows-IsSound}

-- In a table with distinct ids every lease is found by its id.
all_found :
    (leases : List LeaseRow)
    → Pairwise IsOtherLease leases
    → All (λ (l : LeaseRow). find (at_lease l.lease_id) leases ≡ some l) leases
all_found [] p = tt
all_found (x ∷ xs) (o, p) =
    (ground (arith, eq_iff x.lease_id x.lease_id), past xs o (all_found xs p))
  where
    past :
        (ys : List LeaseRow)
        → All (IsOtherLease x) ys
        → All (λ (l : LeaseRow). find (at_lease l.lease_id) xs ≡ some l) ys
        → All (λ (l : LeaseRow). find (at_lease l.lease_id) (x ∷ xs) ≡ some l) ys
    past [] a b = tt
    past (y ∷ ys) (apart, a) (found, b) =
        (ground (arith, found, apart, eq_iff x.lease_id y.lease_id), past ys a b)

IsOtherLease-sym : (x y : LeaseRow) → IsOtherLease x y → IsOtherLease y x
IsOtherLease-sym x y other same = other (sym same)

-- The rows that the loop goes over, in sound tables.
stale_rows-still :
    (db : Db) (g : String) (observed : ℕ)
    → IsSound db
    → All (λ (l : LeaseRow). IsStillActive g observed l db.leases) (stale_rows db g observed)
unfolding stale_rows
stale_rows-still db g observed s = All-keep _ _ (sort_by lease_le (keep (active_in g) db.leases)) (
    All-sort_by _ lease_le (keep (active_in g) db.leases)
      (actives db.leases (all_found db.leases s.lease_ids)))
  where
    actives :
        (ls : List LeaseRow)
        → All (λ (l : LeaseRow). find (at_lease l.lease_id) db.leases ≡ some l) ls
        → All (λ (l : LeaseRow). IsStillActive g observed l db.leases) (keep (active_in g) ls)
    actives [] a = tt
    actives (l ∷ ls) (found, a) = elim (Bool-cases (active_in g l)) [
      | inl hit ↦ rw hit (
        (l, found, ground (arith, hit, eq_iff l.group_id g), refl, ground (arith, hit)),
        actives ls a,
      )
      | inr miss ↦ rw miss (actives ls a)
    ]

stale_rows-IsOtherLease :
    (db : Db) (g : String) (observed : ℕ)
    → IsSound db
    → Pairwise IsOtherLease (stale_rows db g observed)
unfolding stale_rows
stale_rows-IsOtherLease db g observed s =
    Pairwise-keep IsOtherLease _ (sort_by lease_le (keep (active_in g) db.leases)) (
      Pairwise-sort_by IsOtherLease IsOtherLease-sym lease_le (keep (active_in g) db.leases)
        (Pairwise-keep IsOtherLease (active_in g) db.leases s.lease_ids))

refresh_unless_paused-IsSound :
    (row : GroupRow) (g : String) (observed : ℕ) (stale : List LeaseRow) (db : Db)
    → IsSound db
    → IsSound (refresh_unless_paused row g observed stale db)
unfolding refresh_unless_paused
refresh_unless_paused-IsSound row g observed [] db s = s
refresh_unless_paused-IsSound row g observed (l ∷ ls) db s = record {
  capacity = HasRoom-update_groups _ _ (λ x. (refl, refl, refl)) db.leases db.groups s.capacity;
  single = s.single;
  idle = s.idle;
  linked = s.linked;
  latest = s.latest;
  item_keys = s.item_keys;
  lease_ids = s.lease_ids;
  group_keys = group_keys-update_groups _ _ (λ x. (refl, refl, refl)) db.groups s.group_keys;
  attempt_keys = s.attempt_keys;
}

-- A recovery of stale leases that succeeds keeps sound tables sound.
pub recover_stale_parallel_leases-IsSound :
    (absent : LeaseRow → Bool) (run group : String) (input : TimeInput) (now : ℕ) (db : Db)
    {r : Recovery} {db' : Db}
    → IsSound db
    → recover_stale_parallel_leases absent run group input now db ≡ ok (r, db')
    → IsSound db'
unfolding recover_stale_parallel_leases
recover_stale_parallel_leases-IsSound absent run group input now db s h =
    let (run', e1, h1) = >>=-eq-ok (assert_safe_run_instance_id run) _ h in
    let (g, e2, h2) = >>=-eq-ok (assert_safe_parallel_id group) _ h1 in
    let (u, e3, h3) = >>=-eq-ok (load_run_row db run') _ h2 in
    let (observed, e4, h4) = >>=-eq-ok (read_time input now StoreError.invalid_observed_at) _ h3 in
    let (row, e5, h5) = >>=-eq-ok (load_group db g) _ h4 in
    let stale = stale_rows db g observed in
    let start : Recovery = record { requeued = []; attention = [] } in
    let (done, e6, h6) = >>=-eq-ok (recover_rows absent g observed stale start db) _ h5 in
    let sound =
      recover_rows-IsSound absent g observed stale start db {r' = done.0} {db' = done.1} s
        (stale_rows-still db g observed s) (stale_rows-IsOtherLease db g observed s) e6 in
    subst IsSound (ok_pair h6).1 (refresh_unless_paused-IsSound row g observed stale done.1 sound)
