-- ===== src/Controller/History.antt =====
-- services/protocol-runner-api/src/controller.ts: a run over its life, from its creation through any
-- sequence of calls. A call has its arguments and what it asks of the other parts. The
-- answers of the desktop and the relay adapter come as calls of their own.
pub mod Laws
use protocol_runner.Common.{ℕ, String, Bool, true, Option, none, some, List, [], ◌∷◌, ◌≡◌}
use protocol_runner.Core.Types.{
  WorkPlan, RunState, RunTimestamps, RunAutomationSettings, Value, ResolvedStep, BindingMetadata,
  draft, step_id,
}
use protocol_runner.Core.Steps.{resolve_step_by_ordinal}
use protocol_runner.Store.Rows.{LeaseRow, AttemptWarning}
use protocol_runner.Store.Tables.{Db}
use protocol_runner.Store.Grant.{PreflightResult, GrantInput}
use protocol_runner.Store.Heartbeat.{TimeInput}
use protocol_runner.Store.Control.{ControlAction}
use protocol_runner.Controller.{
  World, StoredRun, Details, PromptSendResult, Notification, Outcome, value, thrown,
}
use protocol_runner.Controller.Prompt.{SendContext, finish_send, pick}
use protocol_runner.Controller.Manual.{
  PendingBind, BindRequest, AutomationRequest, AutomationPatch, CloseContext, begin_bind,
  finish_bind, set_automation, pause_run, fail_run, begin_close, finish_close,
  normalize_automation_request, merge_automation,
}
use protocol_runner.Controller.Reports.{accept_start_report, accept_return_report}
use protocol_runner.Controller.Parallel.{
  preflight_parallel_group, grant_leases, heartbeat_lease, recover_leases, retry_item,
  control_group,
}
use protocol_runner.Controller.Results.{
  AttemptResultRequest, accept_parallel_attempt_result, cancel_parallel_attempt,
}
use protocol_runner.Controller.Start.{StartContext, start_run, resume_run, retry_current_step}

pub data RunCall : Type 0 where
  bind : (input : BindRequest) → RunCall
  answer_bind : (index : ℕ) (binding : Option BindingMetadata) → RunCall
  automate : (input : AutomationRequest) → RunCall
  begin : (context : StartContext) → RunCall
  resume : (context : StartContext) → RunCall
  retry : (context : SendContext) → RunCall
  answer : (index : ℕ) (result : PromptSendResult) → RunCall
  pause : RunCall
  fail : (reason : String) → RunCall
  close : (context : CloseContext) (delete_sealed_outputs : Bool) → RunCall
  answer_close : (index : ℕ) → RunCall
  report_start : (input : Value) → RunCall
  report_status : (input : Value) → RunCall
  preflight : (result : PreflightResult) (summary group : String) → RunCall
  grant : (group : String) (input : GrantInput) (now : ℕ) (uuid : ℕ → String) → RunCall
  heartbeat :
      (group lease : String) (input : TimeInput) (warnings : List AttemptWarning) (called now : ℕ)
      → RunCall
  recover : (absent : LeaseRow → Bool) (group : String) (input : TimeInput) (now : ℕ) → RunCall
  report_attempt : (group attempt : String) (input : AttemptResultRequest) (now : ℕ) → RunCall
  cancel : (group attempt lease : String) (now : ℕ) → RunCall
  retry_in_group : (group item : String) (now : ℕ) → RunCall
  control : (action : ControlAction) (group : String) (reason : Option String) (now : ℕ) → RunCall

-- A run with the calls of `bindRun` and of `closeRun` that await the relay adapter.
pub record Session : Type 0 where
  pub world : World
  pub binding : List PendingBind
  pub closing : List StoredRun

-- What a call leaves, whether it returns or throws.
abbrev pub left : {A : Type 0} → Session → Outcome A × World → Session
left s o = record s { world = o.1 }

abbrev pub awaiting : Session → Outcome PendingBind × World → Session
awaiting s (value pending, w) = record s { world = w; binding = pending ∷ s.binding }
awaiting s (thrown f, w) = record s { world = w }

abbrev pub answered_bind :
    Session → Option BindingMetadata → Option (PendingBind × List PendingBind) → Session
answered_bind s given none = s
answered_bind s given (some (pending, rest)) = record s {
  world = (finish_bind pending given s.world).1;
  binding = rest;
}

abbrev pub awaiting_close : Session → Outcome StoredRun × World → Session
awaiting_close s (value r, w) = record s { world = w; closing = r ∷ s.closing }
awaiting_close s (thrown f, w) = record s { world = w }

abbrev pub answered_close : Session → Option (StoredRun × List StoredRun) → Session
answered_close s none = s
answered_close s (some (r, rest)) = record s { world = (finish_close r s.world).1; closing = rest }

-- The state after a call.
unfoldable pub perform : RunCall → Session → Session
perform (RunCall.bind input) s = awaiting s (begin_bind input s.world)
perform (RunCall.answer_bind i given) s = answered_bind s given (pick i s.binding)
perform (RunCall.automate input) s = left s (set_automation input s.world)
perform (RunCall.begin context) s = left s (start_run context s.world)
perform (RunCall.resume context) s = left s (resume_run context s.world)
perform (RunCall.retry context) s = left s (retry_current_step context s.world)
perform (RunCall.answer i result) s = left s (finish_send i result s.world)
perform RunCall.pause s = left s (pause_run s.world)
perform (RunCall.fail reason) s = left s (fail_run reason s.world)
perform (RunCall.close context delete) s = awaiting_close s (begin_close context delete s.world)
perform (RunCall.answer_close i) s = answered_close s (pick i s.closing)
perform (RunCall.report_start input) s = left s (accept_start_report input s.world)
perform (RunCall.report_status input) s = left s (accept_return_report input s.world)
perform (RunCall.preflight result summary group) s =
    left s (preflight_parallel_group result summary group s.world)
perform (RunCall.grant group input now uuid) s = left s (grant_leases group input now uuid s.world)
perform (RunCall.heartbeat group lease input warnings called now) s =
    left s (heartbeat_lease group lease input warnings called now s.world)
perform (RunCall.recover absent group input now) s =
    left s (recover_leases absent group input now s.world)
perform (RunCall.report_attempt group attempt input now) s =
    left s (accept_parallel_attempt_result group attempt input now s.world)
perform (RunCall.cancel group attempt lease now) s =
    left s (cancel_parallel_attempt group attempt lease now s.world)
perform (RunCall.retry_in_group group item now) s = left s (retry_item group item now s.world)
perform (RunCall.control action group reason now) s =
    left s (control_group action group reason now s.world)

unfoldable pub perform_all : List RunCall → Session → Session
unfolding perform
perform_all [] s = s
perform_all (c ∷ cs) s = perform_all cs (perform c s)

-- The parts of a resolved step that a run points to.
abbrev pub id_of : Option ResolvedStep → Option String
id_of none = none
id_of (some s) = some (step_id s.step)

abbrev pub ordinal_of : Option ResolvedStep → Option ℕ
ordinal_of none = none
ordinal_of (some s) = some s.ordinal

-- The state that `createRun` stores.
unfoldable pub new_state : String → WorkPlan → RunAutomationSettings → String → RunState
new_state run plan automation created_at =
    let first = resolve_step_by_ordinal plan 1 in
    record {
      run_instance_id = run;
      work_plan_path = "work_plan.json";
      status = draft;
      current_step_id = id_of first;
      current_step_ordinal = ordinal_of first;
      automation = automation;
      thread_binding = none;
      last_sent_prompt_message_id = none;
      pending_start_report = none;
      last_start_report = none;
      last_completion = none;
      blocked_reason = none;
      timestamps = record {
        created_at = created_at;
        updated_at = created_at;
        started_at = none;
        completed_at = none;
      };
    }

-- A run that was just created, with the tables that were filled for its plan.
unfoldable pub new_world :
    String → WorkPlan → RunAutomationSettings → Db → (ℕ → String) → (Notification → Bool) → World
unfolding new_state
new_world run plan automation tables clock delivers = record {
  stored = some (record {
    run_instance_id = run;
    work_plan = plan;
    state = new_state run plan automation (clock 0);
  });
  events = record { step_id = none; details = Details.plan_validated } ∷ [];
  files = [];
  tables = tables;
  notifications = [];
  sending = [];
  clock = clock;
  readings = 1;
  delivers = delivers;
}

-- No call awaits an answer yet.
unfoldable pub new_session :
    String → WorkPlan → RunAutomationSettings → Db → (ℕ → String) → (Notification → Bool) → Session
unfolding new_world
new_session run plan automation tables clock delivers = record {
  world = new_world run plan automation tables clock delivers;
  binding = [];
  closing = [];
}

-- The state that a call of `bindRun` writes is the one that it loaded, with properties replaced. It is
-- undisturbed when the run is still stored as it was loaded.
abbrev pub IsStillLoaded : Option (PendingBind × List PendingBind) → World → Type 0
IsStillLoaded none w = Unit
IsStillLoaded (some (pending, rest)) w = w.stored ≡ some pending.stored

abbrev pub IsUndisturbed : RunCall → Session → Type 0
IsUndisturbed (RunCall.answer_bind i (some binding)) s = IsStillLoaded (pick i s.binding) s.world
IsUndisturbed _ s = Unit

-- No call of `bindRun` gets a binding after the run was changed by another call.
unfoldable pub AreUndisturbed : List RunCall → Session → Type 0
AreUndisturbed [] s = Unit
AreUndisturbed (c ∷ cs) s = IsUndisturbed c s × AreUndisturbed cs (perform c s)
