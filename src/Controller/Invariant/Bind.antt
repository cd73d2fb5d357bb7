-- ===== src/Controller/Invariant/Bind.antt =====
-- services/protocol-runner-api/src/controller.ts: binding keeps a run consistent, if its second
-- part finds the run as the first had loaded it.
use protocol_runner.Common.{
  String, true, Option, none, some, List, ◌≡◌, refl, sym, subst, inl, inr, arith,
}
use protocol_runner.Core.Types.{
  RunStatus, PromptStartExpectation, bind_thread, WorkPlan, BindingMetadata,
}
use protocol_runner.Core.Actions.{is_manual_action_allowed}
use protocol_runner.Controller.{World, Details, Dispatch}
use protocol_runner.Controller.Action.{require_manual_action}
use protocol_runner.Controller.Manual.{
  PendingBind, BindRequest, status_after_bind, begin_bind, finish_bind,
}
use protocol_runner.Store.Invariant.{IsSound}
use protocol_runner.Controller.Invariant.Reads.{Keeps-read, normalize_bind_run_request-IsRead}
use protocol_runner.Controller.Invariant.{
  IsConsistent, IsGoodRun, IsGoodWhen, IsExplained, IsAwaited, IsSent, holds_send, Keeps,
}
use protocol_runner.Controller.Invariant.Steps.{Keeps-load, Keeps-require, Keeps-present}
use protocol_runner.Controller.Invariant.Change.{Keeps-update_event}

-- Binding changes only the status `draft`.
status_after_bind-IsExplained :
    (st : RunStatus) (reason : Option String)
    → IsExplained st reason
    → IsExplained (status_after_bind st) reason
status_after_bind-IsExplained st reason h = ground arith

status_after_bind-IsAwaited :
    (st : RunStatus) (run : String) (current : Option String) (e : Option PromptStartExpectation)
    → IsAwaited st run current e
    → IsAwaited (status_after_bind st) run current e
status_after_bind-IsAwaited st run current e h = ground arith

holds_send-status_after_bind :
    (st : RunStatus) → holds_send st ≡ true → holds_send (status_after_bind st) ≡ true
holds_send-status_after_bind st h = ground arith

status_after_bind-IsSent :
    (plan : WorkPlan) (st : RunStatus) (current : Option String) (sending : List Dispatch)
    → IsSent plan st current sending
    → IsSent plan (status_after_bind st) current sending
status_after_bind-IsSent plan st current sending (inl e) = inl e
status_after_bind-IsSent plan st current sending (inr (d, e, c, s, held)) =
    inr (d, e, c, s, holds_send-status_after_bind st held)

pub begin_bind-Keeps :
    (input : BindRequest) (w : World) → IsConsistent w → Keeps (begin_bind input w)
unfolding begin_bind require_manual_action
begin_bind-Keeps input w c = Keeps-load _ w c (λ r g s.
    Keeps-require (is_manual_action_allowed r.state.status bind_thread) _ _
      (record w { stored = some r }) (g, s)
      (λ allowed.
        Keeps-read _ _ (record w { stored = some r })
          (normalize_bind_run_request-IsRead r.work_plan input) (g, s) (λ request decided. (g, s))))

-- The answer comes while the run is as the call loaded it.
finish_bind_loaded :
    (p : PendingBind) (binding : BindingMetadata) (w : World)
    → IsGoodRun p.stored w.sending w.events
    → IsSound w.tables
    → Keeps (finish_bind p (some binding) (record w { stored = some p.stored }))
unfolding finish_bind
finish_bind_loaded p binding w g s =
    let r = p.stored in
    Keeps-present _ _ _ (record w { stored = some r }) (g, s)
      (λ received answered.
        Keeps-update_event r "bind" _ _ (Details.run_bound received) w refl g.distinct
          (record {
            current_step = g.placed.current_step;
            explained =
                status_after_bind-IsExplained r.state.status r.state.blocked_reason
                  g.placed.explained;
            awaited =
                status_after_bind-IsAwaited r.state.status r.run_instance_id r.state.current_step_id
                  r.state.pending_start_report g.placed.awaited;
            sent =
                status_after_bind-IsSent r.work_plan r.state.status r.state.current_step_id
                  w.sending g.placed.sent;
          })
          g.logged s)

pub finish_bind-Keeps :
    (p : PendingBind) (binding : BindingMetadata) (w : World)
    → w.stored ≡ some p.stored
    → IsConsistent w
    → Keeps (finish_bind p (some binding) w)
finish_bind-Keeps p binding w e (good, sound) =
    subst (λ o. IsGoodWhen o w → Keeps (finish_bind p (some binding) (record w { stored = o })))
      (sym e) (λ g. finish_bind_loaded p binding w g sound) good

-- An adapter that throws leaves the state alone.
pub finish_bind_thrown-Keeps :
    (p : PendingBind) (w : World) → IsConsistent w → Keeps (finish_bind p none w)
unfolding finish_bind
finish_bind_thrown-Keeps p w c = Keeps-present none _ _ w c (λ binding answered. absurd (cc))
