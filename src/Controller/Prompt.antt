-- ===== src/Controller/Prompt.antt =====
-- services/protocol-runner-api/src/controller.ts: sending the prompt of the current step. The call is
-- modelled in two parts: one up to the call of the desktop adapter, and one from its answer on, since
-- other calls may run in between.
pub mod Laws
use mathlib.Core.Logic.{ite}
use protocol_runner.Common.{
  ℕ, zero, suc, String, Bool, true, false, ◌==◌, Option, none, some, List, [], ◌∷◌, template,
  or_else, leb, ◌&&◌, is_empty, not,
}
use protocol_runner.Core.Types.{
  RunStatus, RunStatus-discrete, RunState, RunTimestamps, BindingMetadata, BindingKind,
  PromptStartExpectation, dispatching_prompt, waiting_for_start_report, step_id, is_serial_step,
}
use protocol_runner.Core.StateMachine.{status_name}
use protocol_runner.Controller.{
  World, StoredRun, Details, Dispatch, RunFile, FileKind, PromptSendResult, SendStatus, Failure,
}
use protocol_runner.Controller.Action.{
  Action, return, throw, ◌>>=◌, ◌>>◌, require, present, when, load_run, current_step, current_time,
  append_event, update_stored_state, append_state_changed,
}
use protocol_runner.Controller.Files.{
  file_of, write_once, next_file_attempt_number, format_prompt_attempt_id,
}
use protocol_runner.Controller.Transition.{block_run}

abbrev is_serial_desktop : BindingKind → Bool
is_serial_desktop BindingKind.serial_desktop = true
is_serial_desktop _ = false

-- `Boolean(visible_thread_label)`.
abbrev pub has_label : Option String → Bool
has_label none = false
has_label (some l) = not (is_empty l)

-- `requireSerialDesktopBinding`.
unfoldable pub require_serial_desktop_binding : BindingMetadata → Action (Unit {0})
require_serial_desktop_binding b =
    require (is_serial_desktop b.binding_kind && has_label b.visible_thread_label)
      Failure.serial_desktop_binding_required

-- What of the surroundings a send uses: the issues of the contract files, a fresh token, and the
-- path of a file.
pub record SendContext : Type 0 where
  pub contract_issues : Option String
  pub start_token : String
  pub path_of : RunFile → String

abbrev pub add_dispatch : Dispatch → Action (Unit {0})
add_dispatch d w = return tt (record w { sending = d ∷ w.sending })

abbrev pub dispatching : String → RunState → RunState
dispatching now s = record s {
  status = dispatching_prompt;
  blocked_reason = none;
  pending_start_report = none;
  timestamps = record s.timestamps { started_at = some (or_else s.timestamps.started_at now) };
}

-- After the guards: the attempt is numbered, the run goes to `dispatching_prompt`, the files are
-- written and the prompt leaves. Its text is not modelled.
unfoldable pub dispatch : SendContext → StoredRun → String → Action (Unit {0})
dispatch context stored operation = do
  step ← current_step stored
  require (is_serial_step step.step) Failure.parallel_group_not_supported
  binding ← present stored.state.thread_binding Failure.not_bound
  require_serial_desktop_binding binding
  attempt ← λ w. return (next_file_attempt_number step w) w
  now ← current_time
  dispatched ← update_stored_state stored (dispatching now)
  append_event (some (step_id step.step)) (Details.manual_action operation)
  append_state_changed stored dispatched operation
  let file = file_of step
  when (leb attempt 1) (write_once (file FileKind.step 0))
  write_once (file FileKind.prompt attempt)
  append_event (some (step_id step.step)) (Details.prompt_rendered operation attempt)
  add_dispatch (record {
    operation = operation;
    step_id = step_id step.step;
    ordinal = step.ordinal;
    attempt = attempt;
    prompt_attempt_id = format_prompt_attempt_id attempt;
    start_token = context.start_token;
    prompt_file = context.path_of (file FileKind.prompt attempt);
  })

-- The contract files are checked before anything else.
abbrev pub send_unless : SendContext → StoredRun → String → Option String → Action (Unit {0})
send_unless context stored operation none = dispatch context stored operation
send_unless context stored operation (some summary) =
    block_run stored (template ("Contract preflight failed: " ∷ summary ∷ []))

-- `sendCurrentPrompt` up to the call of the desktop adapter.
unfoldable pub begin_send : SendContext → StoredRun → String → Action (Unit {0})
begin_send context stored operation = do
  binding ← present stored.state.thread_binding Failure.not_bound
  send_unless context stored operation context.contract_issues

abbrev send_status_name : SendStatus → String
send_status_name SendStatus.sent = "sent"
send_status_name SendStatus.not_sent = "not_sent"
send_status_name SendStatus.unknown = "unknown"

abbrev prompt_message_id : PromptSendResult → Option String
prompt_message_id r = elim r.item_id [ some id ↦ some id | none ↦ r.turn_id ]

-- `shouldAwaitStartReport`.
abbrev pub should_await_start_report : PromptSendResult → Bool
should_await_start_report r = elim r.send_status [ SendStatus.sent ↦ true | _ ↦ false ]

-- The answer of a prompt that the run still waits for.
unfoldable pub apply_send_result :
    Dispatch → PromptSendResult → StoredRun → Bool → Action (Unit {0})
apply_send_result d result latest false = do
  blocked ← update_stored_state latest (λ s. record s {
    status = RunStatus.blocked;
    blocked_reason = some (
        template (
          "Prompt send did not reach start-report wait state: send_status="
          ∷ send_status_name result.send_status
          ∷ ", desktop_result="
          ∷ result.desktop_result
          ∷ "."
          ∷ []));
    last_sent_prompt_message_id = prompt_message_id result;
    pending_start_report = none;
  })
  append_state_changed latest blocked "prompt send blocked"
apply_send_result d result latest true = do
  now ← current_time
  let expectation : PromptStartExpectation = record {
    run_instance_id = latest.run_instance_id;
    step_id = d.step_id;
    prompt_attempt_id = d.prompt_attempt_id;
    start_token = d.start_token;
    attempt = d.attempt;
    prompt_file = d.prompt_file;
    sent_at = now;
  }
  waiting ← update_stored_state latest (λ s. record s {
    status = waiting_for_start_report;
    last_sent_prompt_message_id = prompt_message_id result;
    pending_start_report = some expectation;
  })
  append_state_changed latest waiting "prompt sent; waiting for start report"

-- The element at the index `i`, and the others.
unfoldable pub pick : {A : Type 0} → ℕ → List A → Option (A × List A)
pick i [] = none
pick zero (d ∷ ds) = some (d, ds)
pick (suc i) (d ∷ ds) = elim (pick i ds) [ none ↦ none | some (e, es) ↦ some (e, d ∷ es) ]

-- `sendCurrentPrompt` from the adapter's answer on. The prompt is the
-- one at the index `i` of those on their way. An adapter that throws answers `unknown`.
unfoldable pub finish_send : ℕ → PromptSendResult → Action (Unit {0})
unfolding RunStatus-discrete
finish_send i result = do
  picked ← λ w. present (pick i w.sending) Failure.prompt_attempt_missing w
  let d = picked.0
  λ w. return tt (record w { sending = picked.1 })
  append_event (some d.step_id) (Details.prompt_sent d.operation d.attempt result)
  latest ← load_run
  ite (RunStatus-discrete latest.state.status dispatching_prompt)
      (apply_send_result d result latest (should_await_start_report result))
      (append_event (some d.step_id) (Details.diagnostic "prompt_send_result_not_applied"))
