-- ===== src/Examples/Leases.antt =====
-- services/protocol-runner-api/src/store.ts: a lease that is granted, and one that has run out.
use protocol_runner.Common.{◌+◌, count, ◌≤◌, ◌≡◌, refl, true, false, none, some, [], ◌∷◌, find}
use protocol_runner.Store.Error.{ok}
use protocol_runner.Store.Rows.{
  GroupStatus, ItemStatus, AttemptStatus, LeaseStatus, GroupRow, LeaseRow, is_passed, is_leaseable,
}
use protocol_runner.Store.Tables.{
  Db, at_group, active_in, lease_candidates, insert_lease, lease_is_expired, update_where,
}
use protocol_runner.Store.Ids.{
  assert_safe_run_instance_id, assert_safe_parallel_id, parallel_lease_id,
  parallel_attempt_relative_dir,
}
use protocol_runner.Store.Grant.{GrantInput, grant_parallel_leases, grant_item}
use protocol_runner.Store.Invariant.Grant.{
  grant_parallel_leases-bound, grant_parallel_leases-IsSound,
}
use protocol_runner.Store.Invariant.RecoverLoop.{recover_stale_parallel_leases-IsSound}
use protocol_runner.Store.Invariant.{IsSound}
use protocol_runner.Store.Recover.{recover_stale_parallel_leases, stale_rows, recover_rows}
use protocol_runner.Store.Invariant.Recover.{IsPausedIn, recover_stale_parallel_leases-IsPausedIn}
use protocol_runner.Store.Heartbeat.{TimeInput}
use protocol_runner.Examples.Tables.{
  group, item, attempt, lease, waiting, waiting-IsSound, paused, paused-IsSound,
}

abbrev input : GrantInput
input = record { executor_id = "e"; capacity = 4; lease_ttl_ms = none }

abbrev new_row : LeaseRow
new_row = record (lease LeaseStatus.active none 301_000 1_000) {
  lease_id = "a1_lease_u";
  leased_at = 1_000;
  created_at = 1_000;
}

abbrev granted : Db
granted = record waiting {
  groups = record (group GroupStatus.running) { updated_at = 1_000 } ∷ [];
  items = item ItemStatus.leased "a1" 1_000 ∷ [];
  attempts =
      record (attempt AttemptStatus.leased 1_000) {
        evidence_dir = some "parallel_groups/g/items/i/attempts/a1";
      }
      ∷ [];
  leases = lease LeaseStatus.expired none 1_100 600 ∷ new_row ∷ [];
}

grants :
    grant_parallel_leases "run1" "g" input 1_000 (λ n. "u") waiting ≡ ok (new_row ∷ [], granted)
unfolding grant_parallel_leases assert_safe_run_instance_id assert_safe_parallel_id lease_candidates
    grant_item parallel_attempt_relative_dir parallel_lease_id insert_lease update_where
grants = refl

grant_parallel_leases-bound_example :
    (group : GroupRow) × (find (at_group "g") waiting.groups ≡ some group)
    × (is_passed group.preflight_status ≡ true)
    × (is_leaseable group.status ≡ true)
    × (1 ≤ 4)
    × (count (active_in "g") waiting.leases + 1 ≤ group.max_concurrency)
grant_parallel_leases-bound_example =
    grant_parallel_leases-bound "run1" "g" input 1_000 (λ n. "u") waiting waiting-IsSound grants

abbrev recovered : Db
recovered = record paused {
  groups = record (group GroupStatus.paused) { updated_at = 2_000 } ∷ [];
  items = item ItemStatus.needs_recovery "a1" 2_000 ∷ [];
  attempts = attempt AttemptStatus.stale 2_000 ∷ [];
  leases = lease LeaseStatus.expired none 1_100 2_000 ∷ [];
}

recovers :
    recover_stale_parallel_leases (λ l. false) "run1" "g" TimeInput.omitted 2_000 paused
    ≡ ok (
      record { requeued = []; attention = lease LeaseStatus.active none 1_100 600 ∷ [] },
      recovered,
    )
unfolding recover_stale_parallel_leases assert_safe_run_instance_id assert_safe_parallel_id
    stale_rows lease_is_expired recover_rows update_where
recovers = refl

recover_stale_parallel_leases-IsPausedIn_example : IsPausedIn "g" recovered
recover_stale_parallel_leases-IsPausedIn_example =
    recover_stale_parallel_leases-IsPausedIn (λ l. false) "run1" "g" TimeInput.omitted 2_000 paused
      (group GroupStatus.paused, refl, refl) recovers

grant_parallel_leases-IsSound_example : IsSound granted
grant_parallel_leases-IsSound_example =
    grant_parallel_leases-IsSound "run1" "g" input 1_000 (λ n. "u") waiting waiting-IsSound grants

recover_stale_parallel_leases-IsSound_example : IsSound recovered
recover_stale_parallel_leases-IsSound_example =
    recover_stale_parallel_leases-IsSound (λ l. false) "run1" "g" TimeInput.omitted 2_000 paused
      paused-IsSound recovers
