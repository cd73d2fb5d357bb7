-- ===== src/Controller/Reports.antt =====
-- services/protocol-runner-api/src/controller.ts: the reports of the worker, at the start of a step
-- and at its end.
pub mod Laws
pub mod Landing
use protocol_runner.Common.{
  ℕ, ◌-◌, String, Bool, true, false, ◌&&◌, Option, none, some, List, [], ◌∷◌, map, leb, template,
  if◌then◌else◌,
}
use protocol_runner.Core.Types.{
  Value, RunStatus, RunStatus-discrete, RunState, StepStartReport, CompletionReturn, ResolvedStep,
  RunAutomationSettings, PromptStartExpectation, ValidationIssue, ValidationResult,
  TransitionResolution, waiting_for_start_report, waiting_for_completion_report, accept_return,
  step_id,
}
use protocol_runner.Core.Completion.{
  parse_step_start_report, parse_status_report, validate_step_start_report,
  validate_status_report_for_step, StepStartReportParseResult, StatusReportParseResult,
}
use protocol_runner.Core.Transitions.{resolve_transition}
use protocol_runner.Core.StateMachine.{join_comma}
use protocol_runner.Controller.{World, StoredRun, Details, FileKind, Failure}
use protocol_runner.Controller.Action.{
  Action, return, ◌>>=◌, ◌>>◌, require, load_run, current_step, require_manual_action, append_event,
  update_stored_state, append_state_changed,
}
use protocol_runner.Controller.Files.{file_of, write_once, next_file_attempt_number}
use protocol_runner.Controller.Transition.{block_run, apply_transition}

-- `issueSummary`.
unfoldable pub issue_summary : List ValidationIssue → String
issue_summary [] = ""
issue_summary (i ∷ []) = template (i.code ∷ ": " ∷ i.message ∷ [])
issue_summary (i ∷ j ∷ is) =
    template (i.code ∷ ": " ∷ i.message ∷ "; " ∷ issue_summary (j ∷ is) ∷ [])

abbrev pub awaits_start : RunStatus → Bool
awaits_start waiting_for_start_report = true
awaits_start _ = false

-- The expected report is filed, and the run waits for the completion of the step.
unfoldable pub apply_start :
    StoredRun → ResolvedStep → PromptStartExpectation → StepStartReport → Action (Unit {0})
apply_start stored step expected report = do
  write_once (file_of step FileKind.start_report expected.attempt)
  updated ← update_stored_state stored (λ s. record s {
    status = waiting_for_completion_report;
    pending_start_report = none;
    last_start_report = some report;
  })
  append_state_changed stored updated "start report accepted"

-- The report that is accepted: for the run and the step, with what the run expects of it.
abbrev pub expected_report : StoredRun → ResolvedStep → PromptStartExpectation → StepStartReport
expected_report stored step expected = record {
  run_instance_id = stored.run_instance_id;
  step_id = step_id step.step;
  prompt_attempt_id = expected.prompt_attempt_id;
  start_token = expected.start_token;
}

-- A start report that was read, against the one that is expected.
unfoldable pub judge_start_report :
    StoredRun → ResolvedStep → PromptStartExpectation → StepStartReport → Action (Unit {0})
judge_start_report stored step expected report =
    let validation = validate_step_start_report report (expected_report stored step expected) in
    if validation.ok
    then apply_start stored step expected report
    else block_run stored
        (template ("Start report rejected: " ∷ issue_summary validation.issues ∷ []))

-- What was read, or the issues that kept it from being read.
abbrev pub read_start_report :
    StoredRun
    → ResolvedStep
    → PromptStartExpectation
    → List ValidationIssue
    → Option StepStartReport
    → Action (Unit {0})
read_start_report stored step expected issues none =
    block_run stored (template ("Start report invalid: " ∷ issue_summary issues ∷ []))
read_start_report stored step expected issues (some report) =
    judge_start_report stored step expected report

unfoldable pub take_start_report :
    StoredRun → ResolvedStep → PromptStartExpectation → Value → Action (Unit {0})
take_start_report stored step expected input = do
  let parsed = parse_step_start_report input
  append_event (some (step_id step.step)) (Details.start_report_received expected.attempt parsed.ok)
  read_start_report stored step expected parsed.issues parsed.start_report

-- A run that waits without an expectation is blocked.
abbrev pub take_expected :
    StoredRun → ResolvedStep → Value → Option PromptStartExpectation → Action (Unit {0})
take_expected stored step input none =
    block_run stored "Start report expected, but run state has no pending start-report expectation."
take_expected stored step input (some expected) = take_start_report stored step expected input

unfoldable pub accept_start_report : Value → Action (Unit {0})
accept_start_report input = do
  stored ← load_run
  require (awaits_start stored.state.status) Failure.invalid_status
  step ← current_step stored
  take_expected stored step input stored.state.pending_start_report

-- The transition of a report on the current step is applied.
unfoldable pub apply_report : StoredRun → ResolvedStep → CompletionReturn → Action (Unit {0})
apply_report stored step report = do
  let transition = resolve_transition stored.work_plan step report
  append_event (some (step_id step.step)) (Details.transition_resolved transition)
  updated ← apply_transition stored report transition
  append_state_changed stored updated "status report accepted"

-- A status report that was read: it is filed, compared with the step, and its transition applied.
unfoldable pub judge_status_report :
    StoredRun → ResolvedStep → ℕ → CompletionReturn → Action (Unit {0})
judge_status_report stored step attempt report = do
  write_once (file_of step FileKind.status_report attempt)
  let validation = validate_status_report_for_step report stored.run_instance_id (step_id step.step)
  if validation.ok
      then apply_report stored step report
      else block_run stored
          (template ("Status report rejected: " ∷ issue_summary validation.issues ∷ []))

abbrev pub read_status_report :
    StoredRun
    → ResolvedStep
    → ℕ
    → List ValidationIssue
    → Option CompletionReturn
    → Action (Unit {0})
read_status_report stored step attempt issues none =
    block_run stored (template ("Status report invalid: " ∷ issue_summary issues ∷ []))
read_status_report stored step attempt issues (some report) =
    judge_status_report stored step attempt report

unfoldable pub accept_structured_status_report :
    StoredRun → ResolvedStep → ℕ → Value → Action (Unit {0})
accept_structured_status_report stored step attempt input = do
  let parsed = parse_status_report input
  append_event (some (step_id step.step)) (Details.status_report_received attempt parsed.ok)
  read_status_report stored step attempt parsed.issues parsed.status_report

-- `currentAttemptNumber`.
unfoldable pub current_attempt_number : ResolvedStep → Action ℕ
current_attempt_number step = do
  next ← λ w. return (next_file_attempt_number step w) w
  require (leb 1 (next - 1)) Failure.prompt_attempt_missing
  return (next - 1)

unfoldable pub accept_return_report : Value → Action (Unit {0})
accept_return_report input = do
  stored ← load_run
  require_manual_action stored accept_return
  require stored.state.automation.auto_pickup Failure.auto_pickup_disabled
  step ← current_step stored
  attempt ← current_attempt_number step
  accept_structured_status_report stored step attempt input
