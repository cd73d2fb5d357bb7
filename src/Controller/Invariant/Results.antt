-- ===== src/Controller/Invariant/Results.antt =====
-- services/protocol-runner-api/src/controller.ts: results of attempts keep a run consistent.
use protocol_runner.Common.{ℕ, String, true, some, [], ◌∷◌, ◌≡◌, refl}
use protocol_runner.Core.Types.{RunStatus, ResolvedStep, ParallelGroupStep}
use protocol_runner.Core.Transitions.{resolve_transition}
use protocol_runner.Store.Rows.{GroupStatus, ResultStatus}
use protocol_runner.Store.AttemptResult.{record_parallel_attempt_result}
use protocol_runner.Store.Invariant.{IsSound}
use protocol_runner.Store.Invariant.AttemptResult.{record_parallel_attempt_result-IsSound}
use protocol_runner.Controller.{World, StoredRun, Details}
use protocol_runner.Controller.Attention.{parallel_group_attention_reason}
use protocol_runner.Controller.Action.{return}
use protocol_runner.Controller.Parallel.{put_status}
use protocol_runner.Controller.Results.{
  AttemptResultRequest, group_completion, group_outcome, apply_parallel_group_outcome,
  record_outcome, accept_parallel_attempt_result, cancel_parallel_attempt,
}
use protocol_runner.Controller.Invariant.{IsConsistent, IsGoodRun, Keeps}
use protocol_runner.Controller.Invariant.Steps.{Keeps-load, Keeps-reload, Keeps-on_tables, is_plain}
use protocol_runner.Controller.Invariant.Change.{Keeps-log, Keeps-update, IsGoodRun-event}
use protocol_runner.Controller.Invariant.Reads.{
  Keeps-read, current_step-IsRead, get_parallel_group-IsRead, require_string-IsRead,
  normalize_parallel_attempt_result-IsRead,
}
use protocol_runner.Controller.Invariant.Parallel.{
  Keeps-parallel, put_status-IsPlaced, set_running-Keeps,
}
use protocol_runner.Controller.Invariant.Reports.{
  apply_transition-Keeps, resolve_transition-IsCurrent,
}

module _ (resolved : ResolvedStep) (step : ParallelGroupStep) (r : StoredRun) (w : World)
    (g : IsGoodRun r w.sending w.events) (s : IsSound w.tables) (empty : w.sending ≡ []) where
  group_outcome-Keeps :
      (attention : String) (st : GroupStatus)
      → Keeps (group_outcome resolved step attention r st (record w { stored = some r }))
  group_outcome-Keeps attention GroupStatus.completed =
      let completion = group_completion r.run_instance_id step in
      let transition = resolve_transition r.work_plan resolved completion in
      let event = Details.transition_resolved transition in
      Keeps-log r (some step.step_id) event _ w (
        apply_transition-Keeps r completion "parallel group completed" transition
          (record w { events = record { step_id = some step.step_id; details = event } ∷ w.events })
          (IsGoodRun-event r w.sending w.events (some step.step_id) event refl g) s empty
          (resolve_transition-IsCurrent r.work_plan resolved completion g.distinct))
  group_outcome-Keeps attention GroupStatus.needs_attention =
      Keeps-update r "parallel group needs attention" (put_status RunStatus.blocked _) w g.distinct
        (put_status-IsPlaced r w RunStatus.blocked (some _) g empty (_, refl) tt) g.logged s
  group_outcome-Keeps attention GroupStatus.pending =
      set_running-Keeps r "parallel group still running" w g s empty
  group_outcome-Keeps attention GroupStatus.preflighting =
      set_running-Keeps r "parallel group still running" w g s empty
  group_outcome-Keeps attention GroupStatus.ready_to_lease =
      set_running-Keeps r "parallel group still running" w g s empty
  group_outcome-Keeps attention GroupStatus.leasing =
      set_running-Keeps r "parallel group still running" w g s empty
  group_outcome-Keeps attention GroupStatus.running =
      set_running-Keeps r "parallel group still running" w g s empty
  group_outcome-Keeps attention GroupStatus.paused =
      set_running-Keeps r "parallel group still running" w g s empty
  group_outcome-Keeps attention GroupStatus.stopped =
      set_running-Keeps r "parallel group still running" w g s empty
  group_outcome-Keeps attention GroupStatus.cancelled =
      set_running-Keeps r "parallel group still running" w g s empty

module _ (r : StoredRun) (w : World) (g : IsGoodRun r w.sending w.events)
    (s : IsSound w.tables) where
  record_outcome-Keeps :
      (group attempt lease : String) (status : ResultStatus) (d : Details) (now : ℕ)
      → is_plain d ≡ true
      → Keeps (record_outcome r group attempt lease status d now (record w { stored = some r }))
  unfolding record_outcome apply_parallel_group_outcome
  record_outcome-Keeps group attempt lease status d now plain =
      let here : World = record w { stored = some r } in
      Keeps-parallel r group _ w g s (λ step empty.
        Keeps-read _ _ here (current_step-IsRead r) (g, s)
          (λ resolved found.
            Keeps-on_tables
              (record_parallel_attempt_result r.run_instance_id group attempt lease status now) _
              here (g, s)
              (λ recorded db done.
                let s' =
                  record_parallel_attempt_result-IsSound r.run_instance_id group attempt lease
                    status now w.tables done s in
                let v : World = record w { tables = db } in
                Keeps-read _ _ (record v { stored = some r }) (get_parallel_group-IsRead group)
                  (g, s')
                  (λ row there.
                    let g' = IsGoodRun-event r w.sending w.events (some step.step_id) d plain g in
                    let v' : World = record v {
                      events = record { step_id = some step.step_id; details = d } ∷ w.events;
                    } in
                    Keeps-log r (some step.step_id) d _ v (
                      Keeps-reload r _ v' g.placed.current_step (
                        Keeps-read
                          (λ u. return (parallel_group_attention_reason step.group_id u.tables) u) _
                          (record v' { stored = some r }) (λ u. refl) (g', s')
                          (λ attention read.
                            group_outcome-Keeps resolved step r v' g' s' empty attention
                              row.status)))))))

pub accept_parallel_attempt_result-Keeps :
    (group attempt : String) (input : AttemptResultRequest) (now : ℕ) (w : World)
    → IsConsistent w
    → Keeps (accept_parallel_attempt_result group attempt input now w)
unfolding accept_parallel_attempt_result
accept_parallel_attempt_result-Keeps group attempt input now w c = Keeps-load _ w c (λ r g s.
    Keeps-parallel r group _ w g s (λ step empty.
      Keeps-read _ _ (record w { stored = some r })
        (normalize_parallel_attempt_result-IsRead r.run_instance_id group step.step_id attempt
          input)
        (g, s)
        (λ decided found.
          record_outcome-Keeps r w g s group attempt decided.0 decided.1
            (Details.diagnostic "parallel_attempt_result") now refl)))

pub cancel_parallel_attempt-Keeps :
    (group attempt lease : String) (now : ℕ) (w : World)
    → IsConsistent w
    → Keeps (cancel_parallel_attempt group attempt lease now w)
unfolding cancel_parallel_attempt
cancel_parallel_attempt-Keeps group attempt lease now w c = Keeps-load _ w c (λ r g s.
    Keeps-parallel r group _ w g s (λ step empty.
      Keeps-read _ _ (record w { stored = some r }) (require_string-IsRead lease) (g, s)
        (λ id trimmed.
          record_outcome-Keeps r w g s group attempt id ResultStatus.cancelled
            (Details.manual_action "parallel_cancel_attempt") now refl)))
