-- ===== src/Controller/Manual.antt =====
-- services/protocol-runner-api/src/controller.ts: the calls of an operator: binding, automation,
-- pause, fail and close. Binding and closing are modelled in two parts each, since other calls may run
-- while they await the relay adapter.
use protocol_runner.Common.{
  String, Bool, true, false, not, ◌&&◌, ◌||◌, Option, none, some, [], any, or_else, is_empty, trim,
  if◌then◌else◌,
}
use protocol_runner.Core.Types.{
  RunStatus, RunAutomationSettings, BindingMetadata, BindingKind, WorkPlan, ManualAction, draft,
  bound, failed, closed, bind_thread, is_serial_step, fail, close,
}
use protocol_runner.Store.Setup.{empty_tables}
use protocol_runner.Controller.{StoredRun, Details, Failure}
use protocol_runner.Controller.Action.{
  Action, return, ◌>>=◌, ◌>>◌, require, present, when, load_run, require_manual_action,
  append_event, update_stored_state, append_state_changed,
}
use protocol_runner.Controller.Prompt.{has_label}

-- The fields of `BindRunRequest` that its checks read. A request with the old fields `thread_id` or
-- `thread_label` is `is_legacy`.
pub record BindRequest : Type 0 where
  pub binding_kind : Option BindingKind
  pub visible_thread_label : Option String
  pub is_legacy : Bool

-- `requireString` on a text.
unfoldable pub require_string : String → Action String
require_string s = do require (not (is_empty (trim s))) Failure.invalid_request; return (trim s)

-- `requireString` on a property that may be absent.
unfoldable pub optional_string : Option String → Action (Option String)
optional_string none = return none
optional_string (some s) = do t ← require_string s; return (some t)

abbrev is_desktop : BindingKind → Bool
is_desktop BindingKind.serial_desktop = true
is_desktop BindingKind.parallel_only = false

-- The kind and the label of `normalizeBindRunRequest`.
unfoldable pub normalize_bind_run_request :
    WorkPlan → BindRequest → Action (BindingKind × Option String)
normalize_bind_run_request plan input = do
  require (not input.is_legacy) Failure.invalid_request
  label ← optional_string input.visible_thread_label
  let kind =
      or_else input.binding_kind
        (if has_label label then BindingKind.serial_desktop else BindingKind.parallel_only)
  require (if is_desktop kind then has_label label else true) Failure.visible_thread_label_required
  require (is_desktop kind || not (any is_serial_step plan.steps)) Failure.serial_binding_required
  return (kind, label)

abbrev pub status_after_bind : RunStatus → RunStatus
status_after_bind draft = bound
status_after_bind status = status

-- A call of `bindRun` that awaits the relay adapter: the run as it was loaded, and what is asked of the
-- adapter.
pub record PendingBind : Type 0 where
  pub stored : StoredRun
  pub binding_kind : BindingKind
  pub visible_thread_label : Option String

-- `bindRun` up to the call of the relay adapter.
unfoldable pub begin_bind : BindRequest → Action PendingBind
begin_bind input = do
  stored ← load_run
  require_manual_action stored bind_thread
  request ← normalize_bind_run_request stored.work_plan input
  return (record { stored = stored; binding_kind = request.0; visible_thread_label = request.1 })

-- `bindRun` from the adapter's answer on: the binding, or `none` when it throws. What is written then
-- replaces properties of the state that was loaded before the await.
unfoldable pub finish_bind : PendingBind → Option BindingMetadata → Action (Unit {0})
finish_bind pending answer = do
  binding ← present answer Failure.relay_bind_failed
  updated ←
      update_stored_state pending.stored
        (λ s. record s { status = status_after_bind s.status; thread_binding = some binding })
  append_event none (Details.run_bound binding)
  append_state_changed pending.stored updated "bind"

-- A request about automation, where the two shorthands take precedence over the object.
pub record AutomationPatch : Type 0 where
  pub auto_pickup : Option Bool
  pub auto_advance : Option Bool

pub record AutomationRequest : Type 0 where
  pub automation : AutomationPatch
  pub auto_pickup : Option Bool
  pub auto_advance : Option Bool

abbrev first_of : Option Bool → Option Bool → Option Bool
first_of (some b) c = some b
first_of none c = c

unfoldable pub normalize_automation_request : AutomationRequest → AutomationPatch
normalize_automation_request r = record {
  auto_pickup = first_of r.auto_pickup r.automation.auto_pickup;
  auto_advance = first_of r.auto_advance r.automation.auto_advance;
}

unfoldable pub merge_automation : RunAutomationSettings → AutomationPatch → RunAutomationSettings
merge_automation current patch = record {
  auto_pickup = or_else patch.auto_pickup current.auto_pickup;
  auto_advance = or_else patch.auto_advance current.auto_advance;
}

abbrev is_closed : RunStatus → Bool
is_closed closed = true
is_closed _ = false

unfoldable pub set_automation : AutomationRequest → Action (Unit {0})
set_automation input = do
  stored ← load_run
  require (not (is_closed stored.state.status)) Failure.invalid_status
  let automation = merge_automation stored.state.automation (normalize_automation_request input)
  updated ← update_stored_state stored (λ s. record s { automation = automation })
  append_event stored.state.current_step_id (Details.automation_updated automation)
  append_state_changed stored updated "automation"

unfoldable pub pause_run : Action (Unit {0})
pause_run = do
  stored ← load_run
  require_manual_action stored ManualAction.pause
  updated ← update_stored_state stored (λ s. record s { status = RunStatus.paused })
  append_event stored.state.current_step_id (Details.manual_action "pause")
  append_state_changed stored updated "pause"

unfoldable pub fail_run : String → Action (Unit {0})
fail_run reason = do
  stored ← load_run
  require_manual_action stored fail
  updated ←
      update_stored_state stored (λ s. record s { status = failed; blocked_reason = some reason })
  append_event stored.state.current_step_id (Details.manual_action "fail")
  append_state_changed stored updated "fail"

-- What closing asks of the file system: whether the source handoffs are released, and whether sealed
-- outputs lie in the run's directory before and after their deletion.
pub record CloseContext : Type 0 where
  pub is_released : StoredRun → Bool
  pub overlaps : StoredRun → Bool
  pub overlaps_after : StoredRun → Bool

-- `deleteRun`: the rows of the run, and its directory.
abbrev pub delete_run : String → Action (Unit {0})
delete_run run w =
    return tt (record w { stored = none; events = []; files = []; tables = empty_tables run })

-- `closeRun` up to the point where the relay is asked to clean up.
unfoldable pub begin_close : CloseContext → Bool → Action StoredRun
begin_close context delete_sealed_outputs = do
  stored ← load_run
  require_manual_action stored close
  require (context.is_released stored) Failure.handoff_required
  require (not (context.overlaps stored)) Failure.sealed_output_run_dir_overlap
  when delete_sealed_outputs
      (append_event stored.state.current_step_id (Details.diagnostic "sealed_output_cleanup"))
  require (not (delete_sealed_outputs && context.overlaps_after stored))
      Failure.sealed_output_run_dir_overlap
  updated ← update_stored_state stored (λ s. record s { status = closed })
  append_event stored.state.current_step_id (Details.manual_action "close")
  append_state_changed stored updated "close"
  closed_run ← load_run
  return closed_run

-- `binding?.relay_channel_id !== undefined`.
abbrev pub has_channel : Option BindingMetadata → Bool
has_channel none = false
has_channel (some b) = elim b.relay_channel_id [ none ↦ false | some id ↦ true ]

-- What is written of the relay's cleanup, from the state that was loaded before. The property of the
-- binding that it sets is left out.
unfoldable pub record_cleanup : StoredRun → Action (Unit {0})
record_cleanup closed_run = do
  updated ← update_stored_state closed_run (λ s. s)
  append_event closed_run.state.current_step_id (Details.diagnostic "relay_cleanup")

-- `closeRun` from the relay's answer on. The relay is asked only about a run with a channel.
unfoldable pub finish_close : StoredRun → Action (Unit {0})
finish_close closed_run = do
  when (has_channel closed_run.state.thread_binding) (record_cleanup closed_run)
  delete_run closed_run.run_instance_id
