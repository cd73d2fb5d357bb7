-- ===== src/Controller/Parallel.antt =====
-- services/protocol-runner-api/src/controller.ts: the calls about the parallel group that is the
-- current step: preflight, leases, heartbeats, recovery, results, retries, pause and stop.

use protocol_runner.Common.{
  ℕ, String, Bool, true, false, not, ◌&&◌, ◌==◌, Option, none, some, List, [], ◌∷◌, or_else,
  template, decimal, length, all, find, leb, is_empty_list, if◌then◌else◌,
}
use protocol_runner.Core.Types.{
  RunStatus, RunState, RunStep, ParallelGroupStep, Participation, ready, running, paused,
}
use protocol_runner.Store.Error.{Result, ok, err}
use protocol_runner.Store.Rows.{GroupRow, GroupStatus, LeaseRow, AttemptWarning, is_passed}
use protocol_runner.Store.Tables.{load_group}
use protocol_runner.Store.Grant.{
  PreflightResult, GrantInput, record_parallel_preflight, grant_parallel_leases,
}
use protocol_runner.Store.Heartbeat.{TimeInput, record_parallel_heartbeat}
use protocol_runner.Store.Retry.{retry_parallel_item}
use protocol_runner.Store.Recover.{Recovery, recover_stale_parallel_leases}
use protocol_runner.Store.Control.{ControlAction, control_parallel_group}
use protocol_runner.Controller.Manual.{require_string}
use protocol_runner.Controller.{StoredRun, Details, Failure}
use protocol_runner.Controller.Action.{
  Action, return, throw, ◌>>=◌, ◌>>◌, require, when, load_run, current_step, append_event,
  update_stored_state, append_state_changed, on_tables, current_time,
}

unfoldable pub the_group : String → RunStep → Action ParallelGroupStep
the_group group_id (RunStep.serial s) = throw Failure.current_step_not_parallel_group
the_group group_id (RunStep.parallel_group g) = do
  require (g.group_id == group_id) Failure.parallel_group_not_current
  return g

-- `currentParallelStep`: the current step, if it is the group.
unfoldable pub current_parallel_step : StoredRun → String → Action ParallelGroupStep
current_parallel_step stored group_id = do
  resolved ← current_step stored
  the_group group_id resolved.step

abbrev pub loaded : Result GroupRow → Action GroupRow
loaded (ok row) = return row
loaded (err e) = throw (Failure.store e)

-- `getParallelGroup`, of which the calls read the group's row.
unfoldable pub get_parallel_group : String → Action GroupRow
get_parallel_group group_id w = loaded (load_group w.tables group_id) w

-- `updateStoredState` with the status and the reason, and the event that follows it.
abbrev pub put_status : RunStatus → Option String → RunState → RunState
put_status status reason s = record s { status = status; blocked_reason = reason }

abbrev is_ready_status : RunStatus → Bool
is_ready_status ready = true
is_ready_status _ = false

abbrev pub is_running_status : RunStatus → Bool
is_running_status running = true
is_running_status _ = false

abbrev pub after_preflight : Bool → String → RunState → RunState
after_preflight true summary = put_status ready none
after_preflight false summary =
    put_status RunStatus.blocked (some (template ("Parallel preflight failed: " ∷ summary ∷ [])))

-- The checks of a preflight read files: `result` is what they gave, `summary` their errors.
unfoldable pub preflight_parallel_group : PreflightResult → String → String → Action (Unit {0})
preflight_parallel_group result summary group_id = do
  stored ← load_run
  step ← current_parallel_step stored group_id
  before ← get_parallel_group group_id
  recorded ← on_tables (record_parallel_preflight stored.run_instance_id group_id result)
  prior ← load_run
  next ← update_stored_state prior (after_preflight recorded.passed summary)
  append_event (some step.step_id) (Details.diagnostic "parallel_preflight")
  append_state_changed prior next
      (if recorded.passed then "parallel preflight passed" else "parallel preflight failed")

-- The run goes to `running` unless it is there.
unfoldable pub set_running : StoredRun → String → Action (Unit {0})
set_running latest reason = when (not (is_running_status latest.state.status)) (do
  updated ← update_stored_state latest (put_status running none)
  append_state_changed latest updated reason)

abbrev is_some : {A : Type 0} → Option A → Bool
is_some none = false
is_some (some a) = true

-- The lookups for the leases of a source writer, which need its base and the items' own files.
abbrev owns_files : ParallelGroupStep → LeaseRow → Bool
owns_files step lease = elim (find (λ i. i.item_id == lease.item_id) step.items) [
  | none ↦ false
  | some item ↦ is_some item.owned_source_paths
]

abbrev is_complete_plan : ParallelGroupStep → List LeaseRow → Bool
is_complete_plan step leases = elim step.participation [
  | some Participation.source_writer ↦
      all (λ l. is_some step.source_base_commit && owns_files step l) leases
  | _ ↦ true
]

-- `capacity` and `lease_ttl_ms` have to be positive.
unfoldable pub grant_leases : String → GrantInput → ℕ → (ℕ → String) → Action (List LeaseRow)
grant_leases group_id input now uuid = do
  stored ← load_run
  step ← current_parallel_step stored group_id
  executor ← require_string input.executor_id
  require (leb 1 input.capacity) Failure.invalid_request
  require (leb 1 (or_else input.lease_ttl_ms 1)) Failure.invalid_request
  leases ← on_tables (
      grant_parallel_leases stored.run_instance_id group_id
        (record input { executor_id = executor }) now uuid)
  require (is_complete_plan step leases) Failure.invalid_source_writer_plan
  latest ← load_run
  when (not (is_empty_list leases)) (set_running latest "parallel leases granted")
  append_event latest.state.current_step_id (Details.diagnostic "parallel_leases_granted")
  return leases

unfoldable pub heartbeat_lease :
    String → String → TimeInput → List AttemptWarning → ℕ → ℕ → Action LeaseRow
heartbeat_lease group_id lease_id input warnings called_at now = do
  stored ← load_run
  step ← current_parallel_step stored group_id
  lease ← on_tables (
      record_parallel_heartbeat stored.run_instance_id group_id lease_id input warnings called_at
        now)
  append_event stored.state.current_step_id (Details.diagnostic "parallel_heartbeat")
  return lease

abbrev asks_attention : GroupStatus → Bool
asks_attention GroupStatus.needs_attention = true
asks_attention _ = false

unfoldable pub recover_leases : (LeaseRow → Bool) → String → TimeInput → ℕ → Action Recovery
recover_leases absent group_id input now = do
  stored ← load_run
  step ← current_parallel_step stored group_id
  recovery ←
      on_tables (recover_stale_parallel_leases absent stored.run_instance_id group_id input now)
  group ← get_parallel_group group_id
  append_event (some step.step_id) (Details.diagnostic "parallel_recover_stale_leases")
  when (not (is_empty_list recovery.attention) && asks_attention group.status) (do
    latest ← load_run
    updated ← update_stored_state latest (
        put_status RunStatus.blocked (
          some (
            template (
              "Parallel group "
              ∷ group_id
              ∷ " needs attention after "
              ∷ decimal (length recovery.attention)
              ∷ " evidence-bearing or ambiguous stale lease(s)."
              ∷ []))))
    append_state_changed latest updated "parallel stale leases recovered")
  return recovery

unfoldable pub retry_item : String → String → ℕ → Action (Unit {0})
retry_item group_id item_id now = do
  stored ← load_run
  step ← current_parallel_step stored group_id
  retried ← on_tables (retry_parallel_item stored.run_instance_id group_id item_id now)
  latest ← load_run
  when (not (is_ready_status latest.state.status)) (do
    updated ← update_stored_state latest (put_status ready none)
    append_state_changed latest updated "parallel item retry requested")
  append_event (some step.step_id) (Details.manual_action "parallel_retry_item")

abbrev control_name : ControlAction → String
control_name ControlAction.pause = "pause"
control_name ControlAction.stop = "stop"

abbrev pub after_control : ControlAction → String → Option String → RunState → RunState
after_control ControlAction.pause group_id reason s = put_status paused s.blocked_reason s
after_control ControlAction.stop group_id reason s =
    put_status RunStatus.blocked
      (some (or_else reason (template ("Parallel group stopped: " ∷ group_id ∷ [])))) s

unfoldable pub control_group : ControlAction → String → Option String → ℕ → Action (Unit {0})
control_group action group_id reason now = do
  stored ← load_run
  step ← current_parallel_step stored group_id
  done ← on_tables (control_parallel_group action stored.run_instance_id group_id now)
  latest ← load_run
  updated ← update_stored_state latest (after_control action group_id reason)
  append_event (some step.step_id)
      (Details.manual_action (template ("parallel_" ∷ control_name action ∷ [])))
  append_state_changed latest updated (template ("parallel group " ∷ control_name action ∷ []))

-- `startParallelGroup`, on the run that its caller has loaded.
unfoldable pub start_parallel_group :
    PreflightResult → String → StoredRun → ParallelGroupStep → Action (Unit {0})
start_parallel_group result summary stored step = do
  append_event (some step.step_id) (Details.manual_action "start_parallel_group")
  preflight_parallel_group result summary step.group_id
  latest ← load_run
  group ← get_parallel_group step.group_id
  when (is_passed group.preflight_status) (do
    now ← current_time
    started ← update_stored_state latest (λ s. record (put_status running none s) {
      pending_start_report = none;
      timestamps = record s.timestamps { started_at = some (or_else s.timestamps.started_at now) };
    })
    append_state_changed latest started "parallel group started")

abbrev is_resumable : GroupStatus → Bool
is_resumable GroupStatus.ready_to_lease = true
is_resumable GroupStatus.leasing = true
is_resumable GroupStatus.running = true
is_resumable _ = false

unfoldable pub resume_parallel_group : StoredRun → ParallelGroupStep → Action (Unit {0})
resume_parallel_group stored step = do
  group ← get_parallel_group step.group_id
  require (is_resumable group.status) Failure.parallel_group_not_resumable
  append_event (some step.step_id) (Details.manual_action "resume_parallel_group")
  now ← current_time
  resumed ← update_stored_state stored (λ s. record (put_status running none s) {
    pending_start_report = none;
    timestamps = record s.timestamps { started_at = some (or_else s.timestamps.started_at now) };
  })
  append_state_changed stored resumed "parallel group resumed"
