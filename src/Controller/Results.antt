-- ===== src/Controller/Results.antt =====
-- services/protocol-runner-api/src/controller.ts: the results of the attempts of a parallel group, and
-- what the group's status then does to the run.
pub mod Laws
use protocol_runner.Common.{
  ℕ, String, Bool, true, false, not, ◌&&◌, ◌||◌, ◌==◌, Option, none, some, List, [], ◌∷◌, ◌++◌, map,
  or_else, template, includes, find, take, length, leb, ◌-◌, is_empty, is_empty_list, trim, ltb,
  keep, decimal, if◌then◌else◌,
}
use protocol_runner.Core.Types.{
  RunStatus, RunState, RunTimestamps, ResolvedStep, RunStep, ParallelGroupStep, CompletionReturn,
  CompletionStatus, TransitionResolution, Value, Fields, str, running,
}
use protocol_runner.Core.Completion.{get}
use protocol_runner.Core.Transitions.{resolve_transition}
use protocol_runner.Store.Rows.{GroupStatus, ResultStatus, AttemptRow, LeaseRow}
use protocol_runner.Store.AttemptResult.{record_parallel_attempt_result}
use protocol_runner.Controller.{World, StoredRun, Details, Failure}
use protocol_runner.Controller.Action.{
  Action, return, throw, ◌>>=◌, ◌>>◌, require, when, load_run, append_event, update_stored_state,
  append_state_changed, on_tables, current_step,
}
use protocol_runner.Controller.Attention.{parallel_group_attention_reason}
use protocol_runner.Controller.Manual.{require_string}
use protocol_runner.Controller.Transition.{apply_transition}
use protocol_runner.Controller.Parallel.{
  current_parallel_step, get_parallel_group, put_status, set_running,
}

-- The launcher's words that are taken over as they are.
unfoldable pub launcher_failure : String → Option ResultStatus
launcher_failure s =
    if s == "failed"
    then some ResultStatus.failed
    else if s == "cancelled"
    then some ResultStatus.cancelled
    else if s == "timed_out"
    then some ResultStatus.timed_out
    else if s == "evidence_missing"
    then some ResultStatus.evidence_missing
    else if s == "output_missing"
    then some ResultStatus.output_missing
    else if s == "status_invalid"
    then some ResultStatus.status_invalid
    else none

-- `value === text`.
unfoldable pub is_text : Value → String → Bool
is_text (str s) t = s == t
is_text v t = false

-- What a classification reads: the ids that a report has to name, the launcher's word, the report's
-- properties, and the path of the sealed output.
pub record AttemptEvidence : Type 0 where
  pub run_instance_id : String
  pub step_id : String
  pub group_id : String
  pub attempt_id : String
  pub launcher_status : String
  pub status_report : Option Fields
  pub sealed_output_path : Option String

unfoldable pub ids_match : AttemptEvidence → Fields → Bool
unfolding is_text
ids_match e report =
    is_text (get "run_instance_id" report) e.run_instance_id
    && is_text (get "step_id" report) e.step_id
    && is_text (get "group_id" report) e.group_id
    && is_text (get "attempt_id" report) e.attempt_id

abbrev pub has_path : Option String → Bool
has_path none = false
has_path (some p) = not (is_empty (trim p))

unfoldable pub classify_report : AttemptEvidence → Fields → ResultStatus
unfolding ids_match is_text
classify_report e report =
    let status = get "status" report in
    if not (ids_match e report) || not (is_text status "completed" || is_text status "blocked")
    then ResultStatus.status_invalid
    else if is_text status "blocked" || e.launcher_status == "blocked"
    then ResultStatus.blocked
    else if not (has_path e.sealed_output_path)
    then ResultStatus.output_missing
    else ResultStatus.completed

-- Without a report there is no evidence.
abbrev pub classify_optional : AttemptEvidence → Option Fields → ResultStatus
classify_optional e none = ResultStatus.evidence_missing
classify_optional e (some report) = classify_report e report

-- What remains when the launcher's word is not taken over.
abbrev pub classify_after : AttemptEvidence → Option ResultStatus → ResultStatus
classify_after e (some status) = status
classify_after e none =
    if not (e.launcher_status == "completed" || e.launcher_status == "blocked")
    then ResultStatus.status_invalid
    else classify_optional e e.status_report

unfoldable pub classify_parallel_attempt_status : AttemptEvidence → ResultStatus
unfolding launcher_failure
classify_parallel_attempt_status e = classify_after e (launcher_failure e.launcher_status)

-- The fields of `ParallelAttemptResultRequest` that decide the result.
pub record AttemptResultRequest : Type 0 where
  pub lease_id : String
  pub attempt_id : Option String
  pub launcher_status : String
  pub status_report : Option Fields
  pub sealed_output_path : Option String

-- The lease and the status that are recorded.
unfoldable pub normalize_parallel_attempt_result :
    String → String → String → String → AttemptResultRequest → Action (String × ResultStatus)
normalize_parallel_attempt_result run_instance_id group_id step_id attempt_id input = do
  lease_id ← require_string input.lease_id
  requested ← require_string (or_else input.attempt_id attempt_id)
  require (requested == attempt_id) Failure.attempt_mismatch
  launcher_status ← require_string input.launcher_status
  return (
    lease_id,
    classify_parallel_attempt_status (record {
      run_instance_id = run_instance_id;
      step_id = step_id;
      group_id = group_id;
      attempt_id = attempt_id;
      launcher_status = launcher_status;
      status_report = input.status_report;
      sealed_output_path = input.sealed_output_path;
    }),
  )

-- The completion of a group, as a report on its step.
unfoldable pub group_completion : String → ParallelGroupStep → CompletionReturn
group_completion run_instance_id step = record {
  run_instance_id = run_instance_id;
  step_id = step.step_id;
  status = CompletionStatus.completed;
  summary = some (template ("Parallel group " ∷ step.group_id ∷ " completed procedurally." ∷ []));
}

-- `applyParallelGroupOutcome`, for the group's status after a result. `attention` is the reason that
-- is given when the group needs it, `resolved` the step with its
-- place in the plan.
abbrev pub group_outcome :
    ResolvedStep → ParallelGroupStep → String → StoredRun → GroupStatus → Action (Unit {0})
group_outcome resolved step attention stored GroupStatus.completed = do
  let completion = group_completion stored.run_instance_id step
  let transition = resolve_transition stored.work_plan resolved completion
  append_event (some step.step_id) (Details.transition_resolved transition)
  updated ← apply_transition stored completion transition
  append_state_changed stored updated "parallel group completed"
group_outcome resolved step attention stored GroupStatus.needs_attention = do
  updated ← update_stored_state stored (put_status RunStatus.blocked (some attention))
  append_state_changed stored updated "parallel group needs attention"
group_outcome resolved step attention stored status =
    set_running stored "parallel group still running"

unfoldable pub apply_parallel_group_outcome :
    ResolvedStep → ParallelGroupStep → GroupStatus → Action (Unit {0})
apply_parallel_group_outcome resolved step status = do
  stored ← load_run
  attention ← λ w. return (parallel_group_attention_reason step.group_id w.tables) w
  group_outcome resolved step attention stored status

-- A result is recorded, and the group's outcome applied to the run.
unfoldable pub record_outcome :
    StoredRun → String → String → String → ResultStatus → Details → ℕ → Action (Unit {0})
record_outcome stored group_id attempt_id lease_id status details now = do
  step ← current_parallel_step stored group_id
  resolved ← current_step stored
  recorded ← on_tables (
      record_parallel_attempt_result stored.run_instance_id group_id attempt_id lease_id status now)
  group ← get_parallel_group group_id
  append_event (some step.step_id) details
  apply_parallel_group_outcome resolved step group.status

unfoldable pub accept_parallel_attempt_result :
    String → String → AttemptResultRequest → ℕ → Action (Unit {0})
accept_parallel_attempt_result group_id attempt_id input now = do
  stored ← load_run
  step ← current_parallel_step stored group_id
  decided ←
      normalize_parallel_attempt_result stored.run_instance_id group_id step.step_id attempt_id
        input
  record_outcome stored group_id attempt_id decided.0 decided.1
      (Details.diagnostic "parallel_attempt_result") now

unfoldable pub cancel_parallel_attempt : String → String → String → ℕ → Action (Unit {0})
cancel_parallel_attempt group_id attempt_id lease_id now = do
  stored ← load_run
  step ← current_parallel_step stored group_id
  lease ← require_string lease_id
  record_outcome stored group_id attempt_id lease ResultStatus.cancelled
      (Details.manual_action "parallel_cancel_attempt") now
