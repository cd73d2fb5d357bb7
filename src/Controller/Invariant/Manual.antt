-- ===== src/Controller/Invariant/Manual.antt =====
-- services/protocol-runner-api/src/controller.ts: an operator's calls keep a run consistent.
use protocol_runner.Common.{
  String, Bool, true, false, Option, some, List, [], ◌≡◌, refl, inl, inr, arith,
}
use protocol_runner.Core.Types.{
  RunStatus, ManualAction, validate, fail, close, refresh, failed, WorkPlan,
}
use protocol_runner.Core.Actions.{is_manual_action_allowed}
use protocol_runner.Controller.{World, Details, Dispatch}
use protocol_runner.Controller.Action.{require_manual_action}
use protocol_runner.Controller.Manual.{AutomationRequest, set_automation, pause_run, fail_run}
use protocol_runner.Controller.Invariant.{IsConsistent, IsSent, holds_send, Keeps}
use protocol_runner.Controller.Invariant.Steps.{Keeps-load, Keeps-require}
use protocol_runner.Controller.Invariant.Change.{Keeps-update_event}

-- The actions that are refused while a prompt may be on its way.
abbrev pub is_quiet : ManualAction → Bool
is_quiet validate = false
is_quiet fail = false
is_quiet close = false
is_quiet refresh = false
is_quiet _ = true

-- A quiet action is refused while a prompt may be on its way.
pub is_quiet-holds_send :
    (st : RunStatus) (a : ManualAction)
    → is_quiet a ≡ true
    → is_manual_action_allowed st a ≡ true
    → holds_send st ≡ false
unfolding is_manual_action_allowed
is_quiet-holds_send st a q h = ground arith

-- A status that holds no prompt has none on its way.
pub IsSent-empty :
    (plan : WorkPlan) (st : RunStatus) (current : Option String) (sending : List Dispatch)
    → IsSent plan st current sending
    → holds_send st ≡ false
    → sending ≡ []
IsSent-empty plan st current sending (inl e) h = e
IsSent-empty plan st current sending (inr (d, e, c, s, held)) h = absurd (cc)

-- A prompt that is on its way stays so.
pub IsSent-holds :
    (plan : WorkPlan) (st to : RunStatus) (current : Option String) (sending : List Dispatch)
    → IsSent plan st current sending
    → holds_send to ≡ true
    → IsSent plan to current sending
IsSent-holds plan st to current sending (inl e) h = inl e
IsSent-holds plan st to current sending (inr (d, e, c, s, held)) h = inr (d, e, c, s, h)

pub pause_run-Keeps : (w : World) → IsConsistent w → Keeps (pause_run w)
unfolding pause_run require_manual_action
pause_run-Keeps w c = Keeps-load _ w c (λ r g s.
    Keeps-require (is_manual_action_allowed r.state.status ManualAction.pause) _ _
      (record w { stored = some r }) (g, s)
      (λ allowed.
        Keeps-update_event r "pause" _ _ (Details.manual_action "pause") w refl g.distinct
          (record {
            current_step = g.placed.current_step;
            explained = tt;
            awaited = tt;
            sent = inl (
                IsSent-empty r.work_plan r.state.status r.state.current_step_id w.sending
                  g.placed.sent
                  (is_quiet-holds_send r.state.status ManualAction.pause refl allowed));
          })
          g.logged s))

pub set_automation-Keeps :
    (input : AutomationRequest) (w : World) → IsConsistent w → Keeps (set_automation input w)
unfolding set_automation
set_automation-Keeps input w c = Keeps-load _ w c (λ r g s.
    Keeps-require _ _ _ (record w { stored = some r }) (g, s)
      (λ allowed.
        Keeps-update_event r "automation" _ _ (Details.automation_updated _) w refl g.distinct
          g.placed g.logged s))

pub fail_run-Keeps : (reason : String) (w : World) → IsConsistent w → Keeps (fail_run reason w)
unfolding fail_run require_manual_action
fail_run-Keeps reason w c = Keeps-load _ w c (λ r g s.
    Keeps-require (is_manual_action_allowed r.state.status fail) _ _ (record w { stored = some r })
      (g, s)
      (λ allowed.
        Keeps-update_event r "fail" _ _ (Details.manual_action "fail") w refl g.distinct
          (record {
            current_step = g.placed.current_step;
            explained = (reason, refl);
            awaited = tt;
            sent =
                IsSent-holds r.work_plan r.state.status failed r.state.current_step_id w.sending
                  g.placed.sent refl;
          })
          g.logged s))
