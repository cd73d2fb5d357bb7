-- ===== src/Store/AttemptResult.antt =====
-- services/protocol-runner-api/src/store.ts: `recordParallelAttemptResult`. The reports and paths of
-- the request are not stored by it, and are left out.
use protocol_runner.Common.{ℕ, ◌==◌, String, ◌&&◌, not}
use protocol_runner.Store.Error.{Result, ok, ◌>>=◌, ◌>>◌, guard, StoreError}
use protocol_runner.Store.Rows.{
  ResultStatus, AttemptRow, ItemRow, LeaseRow, is_active, is_active_attempt, item_status_for,
  attempt_status_of, lease_status_for,
}
use protocol_runner.Store.Ids.{assert_safe_run_instance_id, assert_safe_parallel_id}
use protocol_runner.Store.Tables.{
  Db, update_where, at_group, at_item, at_attempt, at_lease, load_run_row, load_lease, load_attempt,
  lease_is_expired, compute_group_status,
}

-- The checks of the transaction, on the two rows.
unfoldable pub check_result : String → String → ℕ → AttemptRow → LeaseRow → Result (Unit {0})
check_result group attempt_id now attempt lease = do
  guard (attempt.group_id == group && lease.group_id == group) StoreError.attempt_group_mismatch
  guard (lease.attempt_id == attempt_id) StoreError.lease_attempt_mismatch
  guard (is_active lease.status) StoreError.lease_not_active
  guard (not (lease_is_expired lease now)) StoreError.lease_expired
  guard (is_active_attempt attempt.status) StoreError.attempt_not_active

unfoldable pub end_attempt : ResultStatus → ℕ → AttemptRow → AttemptRow
end_attempt status now a = record a { status = attempt_status_of status; updated_at = now }

unfoldable pub end_lease : ResultStatus → ℕ → LeaseRow → LeaseRow
end_lease status now l = record l { status = lease_status_for status; updated_at = now }

unfoldable pub end_item : ResultStatus → ℕ → ItemRow → ItemRow
end_item status now it = record it { status = item_status_for status; updated_at = now }

-- The first three updates.
unfoldable pub result_rows : String → String → String → ResultStatus → ℕ → AttemptRow → Db → Db
unfolding end_attempt end_lease end_item
result_rows group attempt_id lease_id status now attempt db = record db {
  attempts = update_where (at_attempt attempt_id) (end_attempt status now) db.attempts;
  leases = update_where (at_lease lease_id) (end_lease status now) db.leases;
  items = update_where (at_item group attempt.item_id) (end_item status now) db.items;
}

-- The last update, which reads the tables as the first three have left them.
unfoldable pub refresh_group : String → ℕ → Db → Db
refresh_group group now db = record db {
  groups =
      update_where (at_group group)
        (λ g. record g { status = compute_group_status db group; updated_at = now }) db.groups;
}

unfoldable pub record_parallel_attempt_result :
    String
    → String
    → String
    → String
    → ResultStatus
    → ℕ
    → Db
    → Result ((AttemptRow × LeaseRow) × Db)
unfolding check_result result_rows refresh_group
record_parallel_attempt_result run_instance_id group_id attempt_id lease_id status now db = do
  run ← assert_safe_run_instance_id run_instance_id
  group ← assert_safe_parallel_id group_id
  safe_attempt ← assert_safe_parallel_id attempt_id
  safe_lease ← assert_safe_parallel_id lease_id
  load_run_row db run
  attempt ← load_attempt db safe_attempt
  lease ← load_lease db safe_lease
  check_result group safe_attempt now attempt lease
  ok (
    (end_attempt status now attempt, end_lease status now lease),
    refresh_group group now (result_rows group safe_attempt safe_lease status now attempt db),
  )
