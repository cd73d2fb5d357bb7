-- ===== src/Controller/Invariant/Start.antt =====
-- services/protocol-runner-api/src/controller.ts: starting, resuming and retrying keep a run
-- consistent.
use protocol_runner.Common.{suc, String, true, some, [], ◌∷◌, ◌≡◌, refl, sym, ◌∙◌, ap, inl}
use protocol_runner.Core.Types.{
  RunStatus, RunStep, ParallelGroupStep, ManualAction, start, resume, retry_current, paused,
}
use protocol_runner.Core.Actions.{is_manual_action_allowed}
use protocol_runner.Store.Grant.{PreflightResult}
use protocol_runner.Store.Rows.{is_passed}
use protocol_runner.Store.Invariant.{IsSound}
use protocol_runner.Controller.{World, StoredRun, Details}
use protocol_runner.Controller.Action.{require_manual_action}
use protocol_runner.Controller.Prompt.{SendContext}
use protocol_runner.Controller.Parallel.{
  start_parallel_group, resume_parallel_group, preflight_parallel_group,
}
use protocol_runner.Controller.Start.{
  StartContext, start_run, resume_run, retry_current_step, start_step, resume_step, resume_group,
}
use protocol_runner.Controller.Invariant.{IsConsistent, IsGoodRun, Keeps}
use protocol_runner.Controller.Invariant.Steps.{Keeps-load, Keeps-require, Keeps-bind, Keeps-when}
use protocol_runner.Controller.Invariant.Change.{
  Keeps-log, Keeps-time, Keeps-update, IsGoodRun-event,
}
use protocol_runner.Controller.Invariant.Reads.{
  Keeps-read, current_step-IsRead, get_parallel_group-IsRead,
}
use protocol_runner.Controller.Invariant.Manual.{IsSent-empty, is_quiet-holds_send, is_quiet}
use protocol_runner.Controller.Invariant.Prompt.{begin_send-Keeps}
use protocol_runner.Controller.Invariant.Groups.{preflight_parallel_group-Keeps}
use protocol_runner.Controller.Invariant.Still.{preflight_parallel_group-IsStill}

module _ (r : StoredRun) (step : ParallelGroupStep) (w : World) (g : IsGoodRun r w.sending w.events)
    (s : IsSound w.tables) (empty : w.sending ≡ []) where
  resume_parallel_group-Keeps : Keeps (resume_parallel_group r step (record w { stored = some r }))
  unfolding resume_parallel_group
  resume_parallel_group-Keeps =
      let here : World = record w { stored = some r } in
      Keeps-read _ _ here (get_parallel_group-IsRead step.group_id) (g, s)
        (λ row found.
          Keeps-require _ _ _ here (g, s)
            (λ resumable.
              let event = Details.manual_action "resume_parallel_group" in
              let g' = IsGoodRun-event r w.sending w.events (some step.step_id) event refl g in
              let v : World = record w {
                events = record { step_id = some step.step_id; details = event } ∷ w.events;
              } in
              Keeps-log r (some step.step_id) event _ w (
                Keeps-time _ (record v { stored = some r })
                  (Keeps-update r "parallel group resumed" _
                    (record v { readings = suc w.readings }) g.distinct
                    (record {
                      current_step = g.placed.current_step;
                      explained = refl;
                      awaited = tt;
                      sent = inl empty;
                    })
                    g'.logged s))))

  start_parallel_group-Keeps :
      (result : PreflightResult) (summary : String)
      → Keeps (start_parallel_group result summary r step (record w { stored = some r }))
  unfolding start_parallel_group
  start_parallel_group-Keeps result summary =
      let event = Details.manual_action "start_parallel_group" in
      let g' = IsGoodRun-event r w.sending w.events (some step.step_id) event refl g in
      let v : World = record w {
        stored = some r;
        events = record { step_id = some step.step_id; details = event } ∷ w.events;
      } in
      Keeps-log r (some step.step_id) event _ w (
        Keeps-bind (preflight_parallel_group result summary step.group_id) _ v
          (preflight_parallel_group-Keeps result summary step.group_id v (g', s))
          (λ done u e cu.
            let still : u.sending ≡ [] =
              ap (λ o. o.1.sending) (sym e)
              ∙ preflight_parallel_group-IsStill result summary step.group_id v
              ∙ empty in
            Keeps-load _ u cu (λ q gq sq.
              let there : World = record u { stored = some q } in
              Keeps-read _ _ there (get_parallel_group-IsRead step.group_id) (gq, sq)
                (λ row found.
                  Keeps-when (is_passed row.preflight_status) _ there (gq, sq)
                    (Keeps-time _ there (
                      Keeps-update q "parallel group started" _
                        (record u { readings = suc u.readings }) gq.distinct
                        (record {
                          current_step = gq.placed.current_step;
                          explained = refl;
                          awaited = tt;
                          sent = inl still;
                        })
                        gq.logged sq))))))

-- A call that an operator may make while no prompt is on its way.
quiet :
    (r : StoredRun) (a : ManualAction) (w : World)
    → IsGoodRun r w.sending w.events
    → is_quiet a ≡ true
    → is_manual_action_allowed r.state.status a ≡ true
    → w.sending ≡ []
quiet r a w g q allowed =
    IsSent-empty r.work_plan r.state.status r.state.current_step_id w.sending g.placed.sent
      (is_quiet-holds_send r.state.status a q allowed)

start_step-Keeps :
    (context : StartContext) (r : StoredRun) (step : RunStep) (w : World)
    → IsGoodRun r w.sending w.events
    → IsSound w.tables
    → w.sending ≡ []
    → Keeps (start_step context r step (record w { stored = some r }))
start_step-Keeps context r (RunStep.parallel_group p) w g s empty =
    start_parallel_group-Keeps r p w g s empty context.preflight context.summary
start_step-Keeps context r (RunStep.serial t) w g s empty =
    begin_send-Keeps context.send r "start" w g s empty

pub start_run-Keeps :
    (context : StartContext) (w : World) → IsConsistent w → Keeps (start_run context w)
unfolding start_run require_manual_action
start_run-Keeps context w c = Keeps-load _ w c (λ r g s.
    let here : World = record w { stored = some r } in
    Keeps-require (is_manual_action_allowed r.state.status start) _ _ here (g, s)
      (λ allowed.
        Keeps-read _ _ here (current_step-IsRead r) (g, s)
          (λ step found.
            start_step-Keeps context r step.step w g s (quiet r start w g refl allowed))))

resume_group-Keeps :
    (context : StartContext) (r : StoredRun) (st : RunStatus) (p : ParallelGroupStep) (w : World)
    → IsGoodRun r w.sending w.events
    → IsSound w.tables
    → w.sending ≡ []
    → Keeps (resume_group context r st p (record w { stored = some r }))
resume_group-Keeps context r paused p w g s empty = resume_parallel_group-Keeps r p w g s empty
resume_group-Keeps context r RunStatus.draft p w g s empty =
    start_parallel_group-Keeps r p w g s empty context.preflight context.summary
resume_group-Keeps context r RunStatus.bound p w g s empty =
    start_parallel_group-Keeps r p w g s empty context.preflight context.summary
resume_group-Keeps context r RunStatus.ready p w g s empty =
    start_parallel_group-Keeps r p w g s empty context.preflight context.summary
resume_group-Keeps context r RunStatus.dispatching_prompt p w g s empty =
    start_parallel_group-Keeps r p w g s empty context.preflight context.summary
resume_group-Keeps context r RunStatus.waiting_for_start_report p w g s empty =
    start_parallel_group-Keeps r p w g s empty context.preflight context.summary
resume_group-Keeps context r RunStatus.waiting_for_completion_report p w g s empty =
    start_parallel_group-Keeps r p w g s empty context.preflight context.summary
resume_group-Keeps context r RunStatus.running p w g s empty =
    start_parallel_group-Keeps r p w g s empty context.preflight context.summary
resume_group-Keeps context r RunStatus.blocked p w g s empty =
    start_parallel_group-Keeps r p w g s empty context.preflight context.summary
resume_group-Keeps context r RunStatus.completed p w g s empty =
    start_parallel_group-Keeps r p w g s empty context.preflight context.summary
resume_group-Keeps context r RunStatus.failed p w g s empty =
    start_parallel_group-Keeps r p w g s empty context.preflight context.summary
resume_group-Keeps context r RunStatus.closed p w g s empty =
    start_parallel_group-Keeps r p w g s empty context.preflight context.summary

resume_step-Keeps :
    (context : StartContext) (r : StoredRun) (step : RunStep) (w : World)
    → IsGoodRun r w.sending w.events
    → IsSound w.tables
    → w.sending ≡ []
    → Keeps (resume_step context r step (record w { stored = some r }))
resume_step-Keeps context r (RunStep.parallel_group p) w g s empty =
    resume_group-Keeps context r r.state.status p w g s empty
resume_step-Keeps context r (RunStep.serial t) w g s empty =
    begin_send-Keeps context.send r "resume" w g s empty

pub resume_run-Keeps :
    (context : StartContext) (w : World) → IsConsistent w → Keeps (resume_run context w)
unfolding resume_run require_manual_action
resume_run-Keeps context w c = Keeps-load _ w c (λ r g s.
    let here : World = record w { stored = some r } in
    Keeps-require (is_manual_action_allowed r.state.status resume) _ _ here (g, s)
      (λ allowed.
        Keeps-read _ _ here (current_step-IsRead r) (g, s)
          (λ step found.
            resume_step-Keeps context r step.step w g s (quiet r resume w g refl allowed))))

pub retry_current_step-Keeps :
    (context : SendContext) (w : World) → IsConsistent w → Keeps (retry_current_step context w)
unfolding retry_current_step require_manual_action
retry_current_step-Keeps context w c = Keeps-load _ w c (λ r g s.
    Keeps-require (is_manual_action_allowed r.state.status retry_current) _ _
      (record w { stored = some r }) (g, s)
      (λ allowed.
        begin_send-Keeps context r "retry-current" w g s (quiet r retry_current w g refl allowed)))
