-- ===== src/Controller/Invariant/Reports.antt =====
-- services/protocol-runner-api/src/controller.ts: a worker's reports keep a run consistent.
use protocol_runner.Common.{
  ℕ, suc, String, Bool, true, false, Option, none, some, [], ◌∷◌, ◌≡◌, refl, inl, arith,
  if◌then◌else◌,
}
use protocol_runner.Core.Types.{
  RunStatus, ResolvedStep, StepStartReport, CompletionReturn, PromptStartExpectation,
  TransitionAction, TransitionResolution, WorkPlan, step_id,
}
use protocol_runner.Core.Completion.{validate_step_start_report, validate_status_report_for_step}
use protocol_runner.Core.Steps.Laws.{HasDistinctIds}
use protocol_runner.Core.Transitions.{resolve_transition}
use protocol_runner.Core.Transitions.Laws.{
  resolve_transition-target, resolve_transition-moves_on, moves_on,
}
use protocol_runner.Store.Invariant.{IsSound}
use protocol_runner.Controller.{World, StoredRun, Details}
use protocol_runner.Controller.Action.{Action, ◌>>=◌, current_time, append_state_changed}
use protocol_runner.Controller.Transition.{block_run, apply_transition}
use protocol_runner.Controller.Reports.{
  judge_start_report, apply_report, apply_start, expected_report, judge_status_report, awaits_start,
}
use protocol_runner.Controller.Invariant.{IsGoodRun, IsCurrent, IsExplained, holds_send, Keeps}
use protocol_runner.Controller.Invariant.Change.{Keeps-update, Keeps-log, replay_plain}
use protocol_runner.Controller.Invariant.Prompt.{block_run-Keeps, Keeps-write}

time_first :
    {A B : Type 0} (f : String → Action A) (k : A → Action B) (w : World)
    → Keeps ((f (w.clock w.readings) >>= k) (record w { readings = suc w.readings }))
    → Keeps (((current_time >>= f) >>= k) w)
unfolding ◌>>=◌ current_time
time_first f k w h = h

module _ (r : StoredRun) (completion : CompletionReturn) (reason : String) where
  -- A transition whose target is a step of the plan.
  pub apply_transition-Keeps :
      (t : TransitionResolution) (w : World)
      → IsGoodRun r w.sending w.events
      → IsSound w.tables
      → w.sending ≡ []
      → (moves_on t.action ≡ true → IsCurrent r.work_plan t.next_step_id)
      → Keeps (
          (apply_transition r completion t >>= (λ u. append_state_changed r u reason))
            (record w { stored = some r }))
  unfolding apply_transition
  apply_transition-Keeps t w g s empty target = cases t.action target
    where
      cases :
          (a : TransitionAction)
          → (moves_on a ≡ true → IsCurrent r.work_plan t.next_step_id)
          → Keeps (
              (apply_transition r completion (record t { action = a })
                  >>= (λ u. append_state_changed r u reason))
                (record w { stored = some r }))
      cases TransitionAction.pause h =
          Keeps-update r reason _ w g.distinct
            (record {
              current_step = g.placed.current_step;
              explained = tt;
              awaited = tt;
              sent = inl empty;
            })
            g.logged s
      cases TransitionAction.stop h =
          time_first _ _ (record w { stored = some r })
            (Keeps-update r reason _ (record w { readings = suc w.readings }) g.distinct
              (record {
                current_step = g.placed.current_step;
                explained = refl;
                awaited = tt;
                sent = inl empty;
              })
              g.logged s)
      cases TransitionAction.block h =
          Keeps-update r reason _ w g.distinct
            (record {
              current_step = g.placed.current_step;
              explained = (t.reason, refl);
              awaited = tt;
              sent = inl empty;
            })
            g.logged s
      cases TransitionAction.advance h =
          Keeps-update r reason _ w g.distinct
            (record { current_step = h refl; explained = refl; awaited = tt; sent = inl empty })
            g.logged s
      cases TransitionAction.go_to h =
          Keeps-update r reason _ w g.distinct
            (record { current_step = h refl; explained = refl; awaited = tt; sent = inl empty })
            g.logged s

pub resolve_transition-IsCurrent :
    (plan : WorkPlan) (step : ResolvedStep) (completion : CompletionReturn)
    → HasDistinctIds plan.steps
    → moves_on (resolve_transition plan step completion).action ≡ true
    → IsCurrent plan (resolve_transition plan step completion).next_step_id
resolve_transition-IsCurrent plan step completion d h =
    let (id, named) = resolve_transition-moves_on plan step completion h in
    let (target, found, ordinal) = resolve_transition-target plan step completion d named in
    (id, target, named, found)

-- A run that waits for a start report has no prompt on its way, and no reason to be stopped.
pub awaits_start-holds_send : (st : RunStatus) → awaits_start st ≡ true → holds_send st ≡ false
awaits_start-holds_send st h = ground arith

pub awaits_start-clear :
    (st : RunStatus) (reason : Option String)
    → awaits_start st ≡ true
    → IsExplained st reason
    → reason ≡ none
awaits_start-clear st reason h e = ground arith

Keeps-if :
    (b : Bool) (m n : Action (Unit {0})) (w : World)
    → Keeps (m w)
    → Keeps (n w)
    → Keeps ((if b then m else n) w)
Keeps-if true m n w f g = f
Keeps-if false m n w f g = g

module _ (r : StoredRun) (step : ResolvedStep) (w : World) (g : IsGoodRun r w.sending w.events)
    (s : IsSound w.tables) (empty : w.sending ≡ []) where
  pub judge_start_report-Keeps :
      (expected : PromptStartExpectation) (report : StepStartReport)
      → r.state.blocked_reason ≡ none
      → Keeps (judge_start_report r step expected report (record w { stored = some r }))
  unfolding judge_start_report apply_start
  judge_start_report-Keeps expected report clear =
      Keeps-if (validate_step_start_report report (expected_report r step expected)).ok
        (apply_start r step expected report) (block_run r _) (record w { stored = some r })
        (Keeps-write _ _ (record w { stored = some r }) (g, s)
          (λ fs.
            Keeps-update r "start report accepted" _ (record w { files = fs }) g.distinct
              (record {
                current_step = g.placed.current_step;
                explained = clear;
                awaited = tt;
                sent = inl empty;
              })
              g.logged s))
        (block_run-Keeps r _ w g s empty)

  pub judge_status_report-Keeps :
      (attempt : ℕ) (report : CompletionReturn)
      → Keeps (judge_status_report r step attempt report (record w { stored = some r }))
  unfolding judge_status_report apply_report
  judge_status_report-Keeps attempt report =
      let transition = resolve_transition r.work_plan step report in
      let event = Details.transition_resolved transition in
      Keeps-write _ _ (record w { stored = some r }) (g, s)
        (λ fs.
          Keeps-if (validate_status_report_for_step report r.run_instance_id (step_id step.step)).ok
            (apply_report r step report) (block_run r _) (record w { stored = some r; files = fs })
            (Keeps-log r (some (step_id step.step)) event _ (record w { files = fs })
              (apply_transition-Keeps r report "status report accepted" transition
                (record w {
                  files = fs;
                  events =
                      record { step_id = some (step_id step.step); details = event } ∷ w.events;
                })
                (record {
                  distinct = g.distinct;
                  placed = g.placed;
                  logged = replay_plain (some (step_id step.step)) event w.events refl g.logged;
                })
                s empty (resolve_transition-IsCurrent r.work_plan step report g.distinct)))
            (block_run-Keeps r _ (record w { files = fs }) g s empty))
