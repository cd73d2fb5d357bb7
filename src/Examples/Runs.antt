-- ===== src/Examples/Runs.antt =====
-- services/protocol-runner-api/src/controller.ts: a run of two serial steps, at several of its calls.
use protocol_runner.Common.{
  ℕ, ◌≤◌, ◌≡◌, ◌≢◌, ◌↔◌, refl, arith, String, Bool, true, false, none, some, [], ◌∷◌, any, trim,
}
use protocol_runner.Core.Types.{
  RunStatus, RunAutomationSettings, BindingMetadata, BindingKind, PromptStartExpectation, Value,
  Fields, field, end, str, obj, failed, waiting_for_start_report, waiting_for_completion_report,
}
use protocol_runner.Core.Steps.{
  resolve_step_by_ordinal, resolve_current_step, resolve_step, to_resolved_step,
}
use protocol_runner.Core.Completion.{parse_step_start_report, get}
use protocol_runner.Store.Error.{ok}
use protocol_runner.Store.Rows.{ResultStatus}
use protocol_runner.Store.Setup.{insert_steps, empty_tables}
use protocol_runner.Controller.{
  World, StoredRun, FileKind, Notification, PromptSendResult, SendStatus, Dispatch,
}
use protocol_runner.Controller.Action.{names_step}
use protocol_runner.Controller.Files.{same_file, file_of, next_file_attempt_number}
use protocol_runner.Controller.Files.Laws.{next_file_attempt_number-IsNew}
use protocol_runner.Controller.Prompt.{pick, finish_send}
use protocol_runner.Controller.Prompt.Laws.{finish_send-late}
use protocol_runner.Controller.Manual.{BindRequest}
use protocol_runner.Controller.Start.{StartContext}
use protocol_runner.Controller.Reports.{accept_start_report, expected_report}
use protocol_runner.Controller.Reports.{accept_return_report}
use protocol_runner.Core.Completion.{parse_status_report}
use protocol_runner.Core.Types.{CompletionReturn, CompletionStatus, TransitionRule}
use protocol_runner.Common.{leb, ◌-◌}
use protocol_runner.Controller.Reports.Landing.{accept_return_report-IsLanded, IsLanded}
use protocol_runner.Controller.Reports.Laws.{accept_start_report-exact}
use protocol_runner.Controller.Runs.{status_after}
use protocol_runner.Controller.Results.{
  AttemptEvidence, classify_parallel_attempt_status, classify_report, ids_match, is_text, has_path,
}
use protocol_runner.Controller.Results.Laws.{classify_parallel_attempt_status-completed, IsReportOf}
use protocol_runner.Examples.Plans.{plan, first}

abbrev pub automation : RunAutomationSettings
automation = record { auto_pickup = true; auto_advance = false }

abbrev pub clock : ℕ → String
clock n = "2026-01-01T00:00:00.000Z"

abbrev pub delivers : Notification → Bool
delivers n = true

abbrev pub bind_request : BindRequest
bind_request = record {
  binding_kind = none;
  visible_thread_label = some "Thread";
  is_legacy = false;
}

abbrev pub context : StartContext
context = record {
  send = record { contract_issues = none; start_token = "token"; path_of = λ f. "prompts/p.md" };
  preflight = record { passed = true; checked_at = 0; checked_by = "c" };
  summary = "";
}

abbrev pub answered : PromptSendResult
answered = record {
  send_status = SendStatus.sent;
  desktop_result = "sent";
  turn_id = none;
  item_id = some "m1";
}

abbrev pub given : BindingMetadata
given = record {
  binding_kind = BindingKind.serial_desktop;
  visible_thread_label = some "Thread";
  relay_channel_id = none;
  relay_channel_name = none;
  binding_id = none;
}

pub starts : resolve_step_by_ordinal plan 1 ≡ some first
unfolding resolve_step_by_ordinal to_resolved_step
starts = refl

pub filled : insert_steps plan.steps 0 (empty_tables "run1") ≡ ok (empty_tables "run1")
unfolding insert_steps
filled = refl

abbrev expectation : PromptStartExpectation
expectation = record {
  run_instance_id = "run1";
  step_id = "s1";
  prompt_attempt_id = "attempt_001";
  start_token = "token";
  attempt = 1;
  prompt_file = "prompts/p.md";
  sent_at = "2026-01-01T00:00:00.000Z";
}

abbrev pub run_in : RunStatus → StoredRun
run_in status = record {
  run_instance_id = "run1";
  work_plan = plan;
  state = record {
    run_instance_id = "run1";
    work_plan_path = "work_plan.json";
    status = status;
    current_step_id = some "s1";
    current_step_ordinal = some 1;
    automation = automation;
    thread_binding = none;
    last_sent_prompt_message_id = none;
    pending_start_report = some expectation;
    last_start_report = none;
    last_completion = none;
    blocked_reason = none;
    timestamps = record {
      created_at = "";
      updated_at = "";
      started_at = none;
      completed_at = none;
    };
  };
}

abbrev pub sent_prompt : Dispatch
sent_prompt = record {
  operation = "start";
  step_id = "s1";
  ordinal = 1;
  attempt = 1;
  prompt_attempt_id = "attempt_001";
  start_token = "token";
  prompt_file = "prompts/p.md";
}

abbrev pub world : World
world = record {
  stored = none;
  events = [];
  files = file_of first FileKind.prompt 1 ∷ [];
  tables = empty_tables "run1";
  notifications = [];
  sending = sent_prompt ∷ [];
  clock = clock;
  readings = 0;
  delivers = delivers;
}

abbrev body : String → Value
body token = obj (
    field "run_instance_id" (str "run1") (
      field "step_id" (str "s1")
        (field "prompt_attempt_id" (str "attempt_001") (field "start_token" (str token) end))))

current : resolve_current_step plan (some "s1") (some 1) ≡ some first
unfolding resolve_current_step resolve_step to_resolved_step
current = refl

new_report : any (same_file (file_of first FileKind.start_report 1)) world.files ≡ false
unfolding same_file
new_report = refl

named : (status : RunStatus) → names_step (run_in status) ≡ true
unfolding names_step
named status = refl

accept_start_report-exact_example :
    ((parse_step_start_report (body "token")).start_report
        ≡ some (expected_report (run_in waiting_for_start_report) first expectation)
      → status_after (
          accept_start_report
            (body "token")
            (record world { stored = some (run_in waiting_for_start_report) }))
        ≡ some waiting_for_completion_report)
    × ((parse_step_start_report (body "token")).start_report
          ≢ some (expected_report (run_in waiting_for_start_report) first expectation)
        → status_after (
            accept_start_report
              (body "token")
              (record world { stored = some (run_in waiting_for_start_report) }))
          ≡ some RunStatus.blocked)
accept_start_report-exact_example =
    accept_start_report-exact (run_in waiting_for_start_report) first expectation (body "token")
      world (named waiting_for_start_report) refl current refl new_report

-- The body is the expected one.
read :
    (parse_step_start_report (body "token")).start_report
    ≡ some (expected_report (run_in waiting_for_start_report) first expectation)
unfolding parse_step_start_report trim
read = refl

only : pick 0 world.sending ≡ some (sent_prompt, [])
unfolding pick
only = refl

finish_send-late_example :
    (finish_send 0 answered (record world { stored = some (run_in failed) })).1.stored
    ≡ some (run_in failed)
finish_send-late_example =
    finish_send-late 0 answered (run_in failed) sent_prompt [] world (named failed) only (λ e. cc)

small : next_file_attempt_number first world ≤ 999
unfolding next_file_attempt_number
small = omega arith

next_file_attempt_number-IsNew_example :
    any
      (same_file (file_of first FileKind.prompt (next_file_attempt_number first world)))
      world.files
    ≡ false
next_file_attempt_number-IsNew_example =
    next_file_attempt_number-IsNew first FileKind.prompt world (λ e. cc) small

abbrev evidence : AttemptEvidence
evidence = record {
  run_instance_id = "run1";
  step_id = "s1";
  group_id = "g";
  attempt_id = "g_i_attempt_001";
  launcher_status = "completed";
  status_report = some (
      field "run_instance_id" (str "run1") (
        field "step_id" (str "s1") (
          field "group_id" (str "g")
            (field "attempt_id" (str "g_i_attempt_001") (field "status" (str "completed") end)))));
  sealed_output_path = some "out/i/result.md";
}

classify_parallel_attempt_status-completed_example :
    (classify_parallel_attempt_status evidence ≡ ResultStatus.completed) ↔ (
      (evidence.launcher_status ≡ "completed")
      × ((report : Fields) × (evidence.status_report ≡ some report) × IsReportOf evidence report)
      × (has_path evidence.sealed_output_path ≡ true))
classify_parallel_attempt_status-completed_example =
    classify_parallel_attempt_status-completed evidence

-- The evidence counts as completed.
counted : classify_parallel_attempt_status evidence ≡ ResultStatus.completed
unfolding classify_parallel_attempt_status classify_report ids_match is_text get trim
counted = refl

abbrev return_body : Value
return_body = obj (
    field "run_instance_id" (str "run1")
      (field "step_id" (str "s1") (field "status" (str "completed") end)))

abbrev completed_report : CompletionReturn
completed_report = record {
  run_instance_id = "run1";
  step_id = "s1";
  status = CompletionStatus.completed;
  summary = none;
}

sent_once : leb 1 (next_file_attempt_number first world - 1) ≡ true
unfolding next_file_attempt_number
sent_once = refl

new_status :
    any
      (same_file (file_of first FileKind.status_report (next_file_attempt_number first world - 1)))
      world.files
    ≡ false
unfolding next_file_attempt_number same_file
new_status = refl

returned : (parse_status_report return_body).status_report ≡ some completed_report
unfolding parse_status_report trim
returned = refl

accept_return_report-IsLanded_example :
    IsLanded plan first TransitionRule.next
      (accept_return_report return_body
        (record world { stored = some (run_in waiting_for_completion_report) })).1.stored
accept_return_report-IsLanded_example =
    accept_return_report-IsLanded (run_in waiting_for_completion_report) first completed_report
      return_body world (named waiting_for_completion_report) refl refl current sent_once new_status
      returned refl refl
