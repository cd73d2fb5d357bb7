-- ===== src/Store/Invariant/AttemptResult.antt =====
-- services/protocol-runner-api/src/store.ts: `recordParallelAttemptResult` and the
-- invariant of the tables.
use mathlib.Core.Path.{subst₂}
use protocol_runner.Common.{
  ℕ, ◌<◌, ◌≡◌, ◌≢◌, sym, ◌∙◌, subst, ap, true, String, some, All-find, find, arith, eq_iff,
}
use protocol_runner.Store.Error.{ok, >>=-eq-ok, require-eq-ok, ok_pair}
use protocol_runner.Store.Ids.{
  assert_safe_run_instance_id, assert_safe_parallel_id, assert_safe_parallel_id-same,
}
use protocol_runner.Store.Rows.{AttemptRow, LeaseRow, ResultStatus, is_active, is_active_attempt}
use protocol_runner.Store.Tables.{
  Db, at_item, at_attempt, at_lease, load_run_row, load_attempt, load_lease, lease_is_expired,
  effective_expiry_ms,
}
use protocol_runner.Store.Tables.Laws.{find-update_where_other}
use protocol_runner.Store.AttemptResult.{
  record_parallel_attempt_result, check_result, end_item, result_rows, refresh_group,
}
use protocol_runner.Store.Invariant.{IsSound, IsLinked}
use protocol_runner.Store.Invariant.ResultRows.{
  none_left, refresh_group-IsSound, result_rows-IsSound,
}

-- What a report that is recorded has found, and the tables that it leaves.
pub record Reported (db : Db) (group_id attempt_id lease_id : String) (status : ResultStatus)
    (now : ℕ) (db' : Db) : Type 0 where
  pub attempt : AttemptRow
  pub lease : LeaseRow
  pub attempt_found : find (at_attempt attempt_id) db.attempts ≡ some attempt
  pub lease_found : find (at_lease lease_id) db.leases ≡ some lease
  pub checked : check_result group_id attempt_id now attempt lease ≡ ok tt
  pub tables :
      db'
      ≡ refresh_group group_id now (result_rows group_id attempt_id lease_id status now attempt db)

module _ (run group_id attempt_id lease_id : String) (status : ResultStatus) (now : ℕ)
    (db : Db) where
  record_parallel_attempt_result-Reported :
      {a : AttemptRow} {l : LeaseRow} {db' : Db}
      → record_parallel_attempt_result run group_id attempt_id lease_id status now db
        ≡ ok ((a, l), db')
      → Reported db group_id attempt_id lease_id status now db'
  unfolding record_parallel_attempt_result
  record_parallel_attempt_result-Reported {db'} h =
      let (r, e1, h1) = >>=-eq-ok (assert_safe_run_instance_id run) _ h in
      let (g, e2, h2) = >>=-eq-ok (assert_safe_parallel_id group_id) _ h1 in
      let (a, e3, h3) = >>=-eq-ok (assert_safe_parallel_id attempt_id) _ h2 in
      let (l, e4, h4) = >>=-eq-ok (assert_safe_parallel_id lease_id) _ h3 in
      let (u, e5, h5) = >>=-eq-ok (load_run_row db r) _ h4 in
      let (attempt, e6, h6) = >>=-eq-ok (load_attempt db a) _ h5 in
      let (lease, e7, h7) = >>=-eq-ok (load_lease db l) _ h6 in
      let (v, e8, h8) = >>=-eq-ok (check_result g a now attempt lease) _ h7 in
      let same_g = assert_safe_parallel_id-same group_id e2 in
      let same_a = assert_safe_parallel_id-same attempt_id e3 in
      let same_l = assert_safe_parallel_id-same lease_id e4 in
      record {
        attempt = attempt;
        lease = lease;
        attempt_found =
            subst (λ k. find (at_attempt k) db.attempts ≡ some attempt) same_a
              (require-eq-ok _ _ e6);
        lease_found =
            subst (λ k. find (at_lease k) db.leases ≡ some lease) same_l (require-eq-ok _ _ e7);
        checked = subst₂ (λ x y. check_result x y now attempt lease ≡ ok tt) same_g same_a e8;
        tables =
            sym (ok_pair h8).1
            ∙ ap (λ x. refresh_group x now (result_rows x a l status now attempt db)) same_g
            ∙ ap (λ x. refresh_group group_id now (result_rows group_id x l status now attempt db))
                same_a
            ∙ ap
                (λ x.
                  refresh_group group_id now
                    (result_rows group_id attempt_id x status now attempt db))
                same_l;
      }

check_result-ok :
    (g a : String) (now : ℕ) (attempt : AttemptRow) (lease : LeaseRow)
    → check_result g a now attempt lease ≡ ok tt
    → (attempt.group_id ≡ g)
      × (lease.group_id ≡ g)
      × (lease.attempt_id ≡ a)
      × (is_active lease.status ≡ true)
      × (now < effective_expiry_ms lease)
      × (is_active_attempt attempt.status ≡ true)
unfolding check_result lease_is_expired
check_result-ok g a now attempt lease h =
    ground (arith, eq_iff attempt.group_id g, eq_iff lease.group_id g, eq_iff lease.attempt_id a)

-- In sound tables the lease and the attempt of a recorded report belong to the same item.
same_item :
    {db db' : Db} {g a l : String} {status : ResultStatus} {now : ℕ}
    → IsSound db
    → (r : Reported db g a l status now db') → r.lease.item_id ≡ r.attempt.item_id
same_item {db} {g} {a} {l} {now} s r =
    let (g1, g2, same, act, fresh, running) = check_result-ok g a now r.attempt r.lease r.checked in
    let (linked, found, group, item) =
      All-find (IsLinked db.attempts) (at_lease l) db.leases s.linked r.lease_found in
    let one : linked ≡ r.attempt =
      some-equal (sym found ∙ ap (λ k. find (at_attempt k) db.attempts) same ∙ r.attempt_found) in
    sym item ∙ ap (λ (x : AttemptRow). x.item_id) one
  where
    some-equal : {x y : AttemptRow} → some x ≡ some y → x ≡ y
    some-equal e = cc

-- A recorded report leaves sound tables sound.
pub record_parallel_attempt_result-IsSound :
    (run group_id attempt_id lease_id : String) (status : ResultStatus) (now : ℕ) (db : Db)
    {a : AttemptRow} {l : LeaseRow} {db' : Db}
    → record_parallel_attempt_result run group_id attempt_id lease_id status now db
      ≡ ok ((a, l), db')
    → IsSound db
    → IsSound db'
record_parallel_attempt_result-IsSound run g a l status now db h s =
    let r = record_parallel_attempt_result-Reported run g a l status now db h in
    let (g1, g2, same, act, fresh, running) = check_result-ok g a now r.attempt r.lease r.checked in
    let none_active =
      none_left g l status now db.leases r.attempt.item_id r.lease_found g2 (same_item s r) act
        (s.single g r.attempt.item_id) in
    subst IsSound (sym r.tables) (
      refresh_group-IsSound g now _
        (result_rows-IsSound g l status now a r.attempt db s none_active))

result_rows-sibling :
    (g a l : String) (status : ResultStatus) (now : ℕ) (attempt : AttemptRow) (db : Db) (j : String)
    → j ≢ attempt.item_id
    → find (at_item g j) (refresh_group g now (result_rows g a l status now attempt db)).items
      ≡ find (at_item g j) db.items
unfolding refresh_group result_rows end_item
result_rows-sibling g a l status now attempt db j other =
    find-update_where_other (at_item g attempt.item_id) (end_item status now) (at_item g j) db.items
      (λ x h. ground (arith, eq_iff x.item_id attempt.item_id, eq_iff x.item_id j))

-- A report is recorded only for a lease of that attempt which is active and has not run out, of an
-- attempt that is leased or running; no other item of the group changes.
pub record_parallel_attempt_result_lem :
    (run g a l : String) (status : ResultStatus) (now : ℕ) (db : Db) {x : AttemptRow} {y : LeaseRow}
    {db' : Db}
    → record_parallel_attempt_result run g a l status now db ≡ ok ((x, y), db')
    → (attempt : AttemptRow) × (lease : LeaseRow) × (find (at_attempt a) db.attempts ≡ some attempt)
      × (find (at_lease l) db.leases ≡ some lease)
      × (is_active_attempt attempt.status ≡ true)
      × (lease.attempt_id ≡ a)
      × (is_active lease.status ≡ true)
      × (now < effective_expiry_ms lease)
      × ((j : String)
          → j ≢ attempt.item_id
          → find (at_item g j) db'.items ≡ find (at_item g j) db.items)
record_parallel_attempt_result_lem run g a l status now db h =
    let r = record_parallel_attempt_result-Reported run g a l status now db h in
    let (g1, g2, same, act, fresh, running) = check_result-ok g a now r.attempt r.lease r.checked in
    (
      r.attempt,
      r.lease,
      r.attempt_found,
      r.lease_found,
      running,
      same,
      act,
      fresh,
      λ j other.
          subst (λ d. find (at_item g j) d.items ≡ find (at_item g j) db.items) (sym r.tables)
            (result_rows-sibling g a l status now r.attempt db j other),
    )
