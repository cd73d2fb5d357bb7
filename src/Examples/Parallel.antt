-- ===== src/Examples/Parallel.antt =====
-- services/protocol-runner-api/src/store.ts: a group with one item that runs, fails, is tried again,
-- or is stopped.
use protocol_runner.Common.{
  ◌≤◌, ◌<◌, ◌≡◌, ◌≢◌, refl, String, true, none, some, [], ◌∷◌, find, or_else,
}
use protocol_runner.Store.Error.{StoreError, ok, err}
use protocol_runner.Store.Rows.{
  GroupStatus, ItemStatus, AttemptStatus, LeaseStatus, ResultStatus, ItemRow, AttemptRow, LeaseRow,
  is_active, is_active_attempt, attempt_status_of, lease_status_for, item_status_for, is_attention,
}
use protocol_runner.Store.Tables.{
  Db, at_item, at_attempt, at_lease, effective_expiry_ms, lease_is_expired, lease_ttl_ms,
  update_where, compute_group_status, next_attempt_number, max_attempt_number, insert_attempt,
}
use protocol_runner.Store.Ids.{
  assert_safe_run_instance_id, assert_safe_parallel_id, parallel_attempt_id, format_attempt,
  parallel_attempt_relative_dir,
}
use protocol_runner.Store.AttemptResult.{record_parallel_attempt_result}
use protocol_runner.Store.Control.{ControlAction, control_parallel_group}
use protocol_runner.Store.Retry.{retry_parallel_item}
use protocol_runner.Store.Grant.{PreflightResult, record_parallel_preflight}
use protocol_runner.Store.Invariant.{IsSound}
use protocol_runner.Store.Invariant.AttemptResult.{
  record_parallel_attempt_result-IsSound, record_parallel_attempt_result_lem,
}
use protocol_runner.Store.Invariant.Control.{
  control_parallel_group-IsSound, control_parallel_group-IsStopped, IsStopped,
}
use protocol_runner.Store.Invariant.Retry.{retry_parallel_item-IsSound, retry_parallel_item_lem}
use protocol_runner.Store.Heartbeat.{TimeInput, record_parallel_heartbeat}
use protocol_runner.Store.Invariant.Heartbeat.{IsTimeOf, record_parallel_heartbeat_lem}
use protocol_runner.Examples.Tables.{
  group, item, attempt, lease, leased, leased-IsSound, failed, failed-IsSound,
}

abbrev beaten : Db
beaten = record leased {
  items = item ItemStatus.running "a1" 500 ∷ [];
  attempts = attempt AttemptStatus.running 500 ∷ [];
  leases = lease LeaseStatus.active (some 450) 1_500 500 ∷ [];
}

beats :
    record_parallel_heartbeat "run1" "g" "l1" (TimeInput.at 450) [] 450 500 leased
    ≡ ok (lease LeaseStatus.active (some 450) 1_500 500, beaten)
unfolding record_parallel_heartbeat assert_safe_run_instance_id assert_safe_parallel_id
    lease_is_expired lease_ttl_ms update_where
beats = refl

record_parallel_heartbeat_lem_example :
    (row : LeaseRow) × (find (at_lease "l1") leased.leases ≡ some row)
    × (row.status ≡ LeaseStatus.active)
    × (500 < effective_expiry_ms row)
    × (or_else row.heartbeat_at row.leased_at ≤ 450)
    × (find (at_lease "l1") beaten.leases ≡ some (lease LeaseStatus.active (some 450) 1_500 500))
    × IsTimeOf (TimeInput.at 450) 450 (some 450)
    × (LeaseStatus.active ≡ LeaseStatus.active)
    × (500 < effective_expiry_ms (lease LeaseStatus.active (some 450) 1_500 500))
record_parallel_heartbeat_lem_example =
    record_parallel_heartbeat_lem "run1" "g" "l1" (TimeInput.at 450) [] 450 500 leased beats

reports :
    record_parallel_attempt_result "run1" "g" "a1" "l1" ResultStatus.failed 600 leased
    ≡ ok (
      (attempt AttemptStatus.failed 600, lease LeaseStatus.released none 1_100 600),
      record failed {
        groups = record (group GroupStatus.needs_attention) { updated_at = 600 } ∷ [];
      },
    )
unfolding record_parallel_attempt_result assert_safe_run_instance_id assert_safe_parallel_id
    lease_is_expired attempt_status_of lease_status_for update_where compute_group_status
    item_status_for
reports = refl

record_parallel_attempt_result-IsSound_example : IsSound (record failed {
  groups = record (group GroupStatus.needs_attention) { updated_at = 600 } ∷ [];
})
record_parallel_attempt_result-IsSound_example =
    record_parallel_attempt_result-IsSound "run1" "g" "a1" "l1" ResultStatus.failed 600 leased
      reports leased-IsSound

record_parallel_attempt_result_lem_example :
    (attempt : AttemptRow) × (lease : LeaseRow) × (find (at_attempt "a1") leased.attempts
      ≡ some attempt)
    × (find (at_lease "l1") leased.leases ≡ some lease)
    × (is_active_attempt attempt.status ≡ true)
    × (lease.attempt_id ≡ "a1")
    × (is_active lease.status ≡ true)
    × (600 < effective_expiry_ms lease)
    × ((j : String)
        → j ≢ attempt.item_id
        → find (at_item "g" j) failed.items ≡ find (at_item "g" j) leased.items)
record_parallel_attempt_result_lem_example =
    record_parallel_attempt_result_lem "run1" "g" "a1" "l1" ResultStatus.failed 600 leased reports

abbrev second_attempt : AttemptRow
second_attempt = record {
  step_id = "s1";
  group_id = "g";
  item_id = "i";
  attempt_id = "g_i_attempt_002";
  attempt_number = 2;
  status = AttemptStatus.created;
  evidence_dir = some "parallel_groups/g/items/i/attempts/g_i_attempt_002";
  warnings = [];
  created_at = 700;
  updated_at = 700;
}

abbrev retried : Db
retried = record failed {
  groups = record (group GroupStatus.ready_to_lease) { updated_at = 700 } ∷ [];
  items = item ItemStatus.pending "g_i_attempt_002" 700 ∷ [];
  attempts = attempt AttemptStatus.failed 600 ∷ second_attempt ∷ [];
}

retries : retry_parallel_item "run1" "g" "i" 700 failed ≡ ok ((second_attempt, some "a1"), retried)
unfolding retry_parallel_item assert_safe_run_instance_id assert_safe_parallel_id
    parallel_attempt_id next_attempt_number max_attempt_number parallel_attempt_relative_dir
    insert_attempt update_where
retries = refl

retry_parallel_item-IsSound_example : IsSound retried
retry_parallel_item-IsSound_example =
    retry_parallel_item-IsSound "run1" "g" "i" 700 failed retries failed-IsSound

retry_parallel_item_lem_example :
    (item : ItemRow) × (find (at_item "g" "i") failed.items ≡ some item)
    × (is_attention item.status ≡ true)
    × (some "a1" ≡ item.latest_attempt_id)
    × ((a : String) (row : AttemptRow)
        → find (at_attempt a) failed.attempts ≡ some row
        → row.group_id ≡ "g"
        → row.item_id ≡ "i"
        → row.attempt_number < 2)
    × ((j : String)
        → j ≢ "i"
        → find (at_item "g" j) retried.items ≡ find (at_item "g" j) failed.items)
retry_parallel_item_lem_example = retry_parallel_item_lem "run1" "g" "i" 700 failed retries

abbrev stopped : Db
stopped = record leased {
  groups = record (group GroupStatus.stopped) { updated_at = 800 } ∷ [];
  items = item ItemStatus.stopped "a1" 800 ∷ [];
  attempts = attempt AttemptStatus.cancelled 800 ∷ [];
  leases = lease LeaseStatus.cancelled none 1_100 800 ∷ [];
}

stops : control_parallel_group ControlAction.stop "run1" "g" 800 leased ≡ ok (tt, stopped)
unfolding control_parallel_group assert_safe_run_instance_id assert_safe_parallel_id update_where
stops = refl

control_parallel_group-IsSound_example : IsSound stopped
control_parallel_group-IsSound_example =
    control_parallel_group-IsSound ControlAction.stop "run1" "g" 800 leased leased-IsSound stops

control_parallel_group-IsStopped_example : IsStopped "g" leased stopped
control_parallel_group-IsStopped_example =
    control_parallel_group-IsStopped "run1" "g" 800 leased stops

abbrev checked : PreflightResult
checked = record { passed = true; checked_at = 900; checked_by = "checker" }

abbrev preflighted : Db
preflighted = record failed {
  groups =
      record (group GroupStatus.ready_to_lease) { checked_at = some 900; updated_at = 900 } ∷ [];
}

preflights : record_parallel_preflight "run1" "g" checked failed ≡ ok (checked, preflighted)
unfolding record_parallel_preflight assert_safe_run_instance_id assert_safe_parallel_id update_where
preflights = refl

ids_test :
    (parallel_attempt_id "g-1" "a" 7 ≡ ok "g-1_a_attempt_007")
    × (format_attempt 1234 ≡ ok "1234")
    × (assert_safe_parallel_id "../a" ≡ err StoreError.invalid_parallel_id)
unfolding parallel_attempt_id format_attempt assert_safe_parallel_id
ids_test = (refl, refl, refl)
