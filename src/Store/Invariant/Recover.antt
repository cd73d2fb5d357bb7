-- ===== src/Store/Invariant/Recover.antt =====
-- services/protocol-runner-api/src/store.ts: `recoverStaleParallelLeases` and a paused group.
use protocol_runner.Common.{
  ℕ, ◌++◌, ◌≡◌, refl, sym, ◌∙◌, subst, ap, Bool, true, String, some, List, [], ◌∷◌, find,
  find-passes, if◌then◌else◌,
}
use protocol_runner.Store.Error.{ok, StoreError, >>=-eq-ok, require-eq-ok, ok_pair}
use protocol_runner.Store.Ids.{
  assert_safe_run_instance_id, assert_safe_parallel_id, assert_safe_parallel_id-same,
}
use protocol_runner.Store.Rows.{GroupRow, GroupStatus, LeaseRow, is_paused}
use protocol_runner.Store.Tables.{Db, at_group, load_run_row, load_group, load_attempt}
use protocol_runner.Store.Tables.Laws.{find-update_where}
use protocol_runner.Store.Heartbeat.{TimeInput, read_time}
use protocol_runner.Store.Recover.{
  Recovery, recover_rows, recover_effect, can_requeue, refresh_unless_paused,
  recover_stale_parallel_leases, stale_rows,
}

module _ (absent : LeaseRow → Bool) (g : String) (observed : ℕ) where
  recover_rows-groups :
      (rows : List LeaseRow) (r : Recovery) (db : Db) {r' : Recovery} {db' : Db}
      → recover_rows absent g observed rows r db ≡ ok (r', db')
      → db'.groups ≡ db.groups
  unfolding recover_rows
  recover_rows-groups [] r db h = ap (λ (d : Db). d.groups) (sym (ok_pair h).1)
  recover_rows-groups (row ∷ rows) r db {r'} {db'} h =
      let (attempt, e1, h1) = >>=-eq-ok (load_attempt db row.attempt_id) _ h in
      let requeue = can_requeue absent row attempt in
      let next : Recovery =
        if requeue
        then record r { requeued = r.requeued ++ row ∷ [] }
        else record r { attention = r.attention ++ row ∷ [] } in
      unfold recover_effect in
      recover_rows-groups rows next (recover_effect g observed requeue row db) {r' = r'} {db' = db'}
        h1

-- A group with the id is paused.
abbrev pub IsPausedIn : String → Db → Type 0
IsPausedIn g db =
    (row : GroupRow) × (find (at_group g) db.groups ≡ some row) × (is_paused row.status ≡ true)

refresh-IsPausedIn :
    (row : GroupRow) (g : String) (observed : ℕ) (stale : List LeaseRow) (db : Db)
    → find (at_group g) db.groups ≡ some row
    → is_paused row.status ≡ true
    → IsPausedIn g (refresh_unless_paused row g observed stale db)
unfolding refresh_unless_paused
refresh-IsPausedIn row g observed [] db found paused = (row, found, paused)
refresh-IsPausedIn row g observed (l ∷ ls) db found paused =
    let f : GroupRow → GroupRow =
      λ x. record x { status = GroupStatus.paused; updated_at = observed } in
    let here : at_group g row ≡ true = find-passes (at_group g) db.groups found in
    (
      f row,
      rw paused (
          find-update_where (at_group g) f (at_group g) db.groups (λ y. refl) found
          ∙ ap some (chosen (f row) row (at_group g row) here)),
      refl,
    )
  where
    chosen : (x y : GroupRow) (b : Bool) → b ≡ true → (if b then x else y) ≡ x
    chosen x y b h = rw h refl

-- A recovery that succeeds leaves a paused group paused.
pub recover_stale_parallel_leases-IsPausedIn :
    (absent : LeaseRow → Bool) (run g : String) (input : TimeInput) (now : ℕ) (db : Db)
    {r : Recovery} {db' : Db}
    → IsPausedIn g db
    → recover_stale_parallel_leases absent run g input now db ≡ ok (r, db')
    → IsPausedIn g db'
unfolding recover_stale_parallel_leases
recover_stale_parallel_leases-IsPausedIn absent run group input now db {r} {db'}
      (row, found, paused) h =
    let (run', e1, h1) = >>=-eq-ok (assert_safe_run_instance_id run) _ h in
    let (g, e2, h2) = >>=-eq-ok (assert_safe_parallel_id group) _ h1 in
    let (u, e3, h3) = >>=-eq-ok (load_run_row db run') _ h2 in
    let (observed, e4, h4) = >>=-eq-ok (read_time input now StoreError.invalid_observed_at) _ h3 in
    let (loaded, e5, h5) = >>=-eq-ok (load_group db g) _ h4 in
    let stale = stale_rows db g observed in
    let (done, e6, h6) =
      >>=-eq-ok (recover_rows absent g observed stale (record { requeued = []; attention = [] }) db)
        _ h5 in
    let same = assert_safe_parallel_id-same group e2 in
    let found_g = subst (λ x. find (at_group x) db.groups ≡ some row) (sym same) found in
    let loaded_row : loaded ≡ row = some-equal (sym (require-eq-ok _ _ e5) ∙ found_g) in
    let kept =
      recover_rows-groups absent g observed stale (record { requeued = []; attention = [] }) db
        {r' = done.0} {db' = done.1} e6 in
    subst (λ x. IsPausedIn x db') same
      (subst (IsPausedIn g) (ok_pair h6).1 (
        subst (λ x. IsPausedIn g (refresh_unless_paused x g observed stale done.1)) (sym loaded_row)
          (refresh-IsPausedIn row g observed stale done.1 (ap (find (at_group g)) kept ∙ found_g)
            paused)))
  where
    some-equal : {x y : GroupRow} → some x ≡ some y → x ≡ y
    some-equal e = cc
