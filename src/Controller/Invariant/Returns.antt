-- ===== src/Controller/Invariant/Returns.antt =====
-- services/protocol-runner-api/src/controller.ts: reading the reports of a worker keeps a run
-- consistent.
use protocol_runner.Common.{ℕ, Option, none, some, [], ◌∷◌, ◌≡◌, refl}
use protocol_runner.Core.Types.{
  ResolvedStep, Value, StepStartReport, CompletionReturn, PromptStartExpectation, accept_return,
  step_id,
}
use protocol_runner.Core.Actions.{is_manual_action_allowed}
use protocol_runner.Core.Completion.{parse_step_start_report, parse_status_report}
use protocol_runner.Store.Invariant.{IsSound}
use protocol_runner.Controller.{World, StoredRun, Details}
use protocol_runner.Controller.Action.{return, require_manual_action}
use protocol_runner.Controller.Files.{next_file_attempt_number}
use protocol_runner.Controller.Reports.{
  read_start_report, read_status_report, take_expected, take_start_report, accept_start_report,
  accept_structured_status_report, current_attempt_number, accept_return_report, awaits_start,
}
use protocol_runner.Controller.Invariant.{IsConsistent, IsGoodRun, Keeps}
use protocol_runner.Controller.Invariant.Steps.{Keeps-load, Keeps-require}
use protocol_runner.Controller.Invariant.Change.{Keeps-log, IsGoodRun-event}
use protocol_runner.Controller.Invariant.Reads.{
  IsRead, Keeps-read, bind-IsRead, checked, current_step-IsRead,
}
use protocol_runner.Controller.Invariant.Manual.{IsSent-empty, is_quiet-holds_send}
use protocol_runner.Controller.Invariant.Prompt.{block_run-Keeps}
use protocol_runner.Controller.Invariant.Reports.{
  awaits_start-clear, awaits_start-holds_send, judge_start_report-Keeps, judge_status_report-Keeps,
}

take_start_report-Keeps :
    (r : StoredRun) (step : ResolvedStep) (expected : PromptStartExpectation) (input : Value)
    (w : World)
    → IsGoodRun r w.sending w.events
    → IsSound w.tables
    → w.sending ≡ []
    → r.state.blocked_reason ≡ none
    → Keeps (take_start_report r step expected input (record w { stored = some r }))
unfolding take_start_report
take_start_report-Keeps r step expected input w g s empty clear =
    let parsed = parse_step_start_report input in
    let event = Details.start_report_received expected.attempt parsed.ok in
    let g' = IsGoodRun-event r w.sending w.events (some (step_id step.step)) event refl g in
    Keeps-log r (some (step_id step.step)) event _ w (cases g' parsed.start_report)
  where
    v : World
    v = record w {
      events =
          record {
            step_id = some (step_id step.step);
            details =
                Details.start_report_received expected.attempt (parse_step_start_report input).ok;
          }
          ∷ w.events;
    }

    cases :
        IsGoodRun r v.sending v.events
        → (o : Option StepStartReport)
        → Keeps (
            read_start_report r step expected
              (parse_step_start_report input).issues
              o
              (record v { stored = some r }))
    cases g' none = block_run-Keeps r _ v g' s empty
    cases g' (some report) = judge_start_report-Keeps r step v g' s empty expected report clear

pub accept_start_report-Keeps :
    (input : Value) (w : World) → IsConsistent w → Keeps (accept_start_report input w)
unfolding accept_start_report
accept_start_report-Keeps input w c = Keeps-load _ w c (λ r g s.
    Keeps-require (awaits_start r.state.status) _ _ (record w { stored = some r }) (g, s)
      (λ waits.
        Keeps-read _ _ (record w { stored = some r }) (current_step-IsRead r) (g, s)
          (λ step found.
            cases r step g s
              (IsSent-empty r.work_plan r.state.status r.state.current_step_id w.sending
                g.placed.sent (awaits_start-holds_send r.state.status waits))
              (awaits_start-clear r.state.status r.state.blocked_reason waits g.placed.explained)
              r.state.pending_start_report)))
  where
    cases :
        (r : StoredRun) (step : ResolvedStep)
        → IsGoodRun r w.sending w.events
        → IsSound w.tables
        → w.sending ≡ []
        → r.state.blocked_reason ≡ none
        → (o : Option PromptStartExpectation)
        → Keeps (take_expected r step input o (record w { stored = some r }))
    cases r step g s empty clear none = block_run-Keeps r _ w g s empty
    cases r step g s empty clear (some expected) =
        take_start_report-Keeps r step expected input w g s empty clear

current_attempt_number-IsRead : (step : ResolvedStep) → IsRead (current_attempt_number step)
unfolding current_attempt_number
current_attempt_number-IsRead step =
    bind-IsRead (λ w. return (next_file_attempt_number step w) w) _ (λ w. refl)
      (λ next. checked _ _ _ (λ w. refl))

accept_structured_status_report-Keeps :
    (r : StoredRun) (step : ResolvedStep) (attempt : ℕ) (input : Value) (w : World)
    → IsGoodRun r w.sending w.events
    → IsSound w.tables
    → w.sending ≡ []
    → Keeps (accept_structured_status_report r step attempt input (record w { stored = some r }))
unfolding accept_structured_status_report
accept_structured_status_report-Keeps r step attempt input w g s empty =
    let event = Details.status_report_received attempt (parse_status_report input).ok in
    let g' = IsGoodRun-event r w.sending w.events (some (step_id step.step)) event refl g in
    Keeps-log r (some (step_id step.step)) event _ w
      (cases g' (parse_status_report input).status_report)
  where
    v : World
    v = record w {
      events =
          record {
            step_id = some (step_id step.step);
            details = Details.status_report_received attempt (parse_status_report input).ok;
          }
          ∷ w.events;
    }

    cases :
        IsGoodRun r v.sending v.events
        → (o : Option CompletionReturn)
        → Keeps (
            read_status_report r step attempt
              (parse_status_report input).issues
              o
              (record v { stored = some r }))
    cases g' none = block_run-Keeps r _ v g' s empty
    cases g' (some report) = judge_status_report-Keeps r step v g' s empty attempt report

pub accept_return_report-Keeps :
    (input : Value) (w : World) → IsConsistent w → Keeps (accept_return_report input w)
unfolding accept_return_report require_manual_action
accept_return_report-Keeps input w c = Keeps-load _ w c (λ r g s.
    let here : World = record w { stored = some r } in
    Keeps-require (is_manual_action_allowed r.state.status accept_return) _ _ here (g, s)
      (λ allowed.
        Keeps-require r.state.automation.auto_pickup _ _ here (g, s)
          (λ picks.
            Keeps-read _ _ here (current_step-IsRead r) (g, s)
              (λ step found.
                Keeps-read _ _ here (current_attempt_number-IsRead step) (g, s)
                  (λ attempt numbered.
                    accept_structured_status_report-Keeps r step attempt input w g s (
                      IsSent-empty r.work_plan r.state.status r.state.current_step_id w.sending
                        g.placed.sent
                        (is_quiet-holds_send r.state.status accept_return refl allowed)))))))
