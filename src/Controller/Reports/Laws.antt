-- ===== src/Controller/Reports/Laws.antt =====
-- services/protocol-runner-api/src/controller.ts: what a report does to the run.
use protocol_runner.Common.{
  String, true, false, Option, none, some, List, ◌∷◌, ◌≡◌, ◌≢◌, ◌∙◌, ap, any, Bool-cases, inl, inr,
}
use protocol_runner.Core.Types.{
  RunStatus, ResolvedStep, Value, StepStartReport, PromptStartExpectation, ValidationIssue,
  waiting_for_start_report, waiting_for_completion_report, step_id,
}
use protocol_runner.Core.Completion.{parse_step_start_report, validate_step_start_report}
use protocol_runner.Core.Completion.Laws.{validate_step_start_report_iff}
use protocol_runner.Core.Steps.{resolve_current_step}
use protocol_runner.Controller.{World, StoredRun, Details, FileKind, Failure}
use protocol_runner.Controller.Action.{
  Action, ◌>>=◌, present, load_run, names_step, current_step, append_event,
}
use protocol_runner.Controller.Files.{write_once, same_file, file_of}
use protocol_runner.Controller.Transition.{block_run}
use protocol_runner.Controller.Reports.{
  judge_start_report, apply_start, read_start_report, take_start_report, take_expected,
  accept_start_report, awaits_start, expected_report,
}
use protocol_runner.Controller.Runs.{
  bind_runs, present_runs, require_runs, load_run_runs, update_stored, write_runs, status_of,
  status_after, if_true, if_false,
}

block_run-status :
    (r : StoredRun) (reason : String) (w : World)
    → status_after (block_run r reason (record w { stored = some r })) ≡ some RunStatus.blocked
unfolding block_run ◌>>=◌ append_event
block_run-status r reason w = ap status_of (
    update_stored r _ "blocked" (record w {
      events =
          record { step_id = r.state.current_step_id; details = Details.diagnostic reason }
          ∷ w.events;
    }))

module _ (r : StoredRun) (step : ResolvedStep) (e : PromptStartExpectation) (w : World)
    (new : any (same_file (file_of step FileKind.start_report e.attempt)) w.files ≡ false) where
  apply_start-status :
      (report : StepStartReport)
      → status_after (apply_start r step e report (record w { stored = some r }))
        ≡ some waiting_for_completion_report
  unfolding apply_start
  apply_start-status report =
      let f = file_of step FileKind.start_report e.attempt in
      ap status_after (
        bind_runs (write_once f) _ (record w { stored = some r })
          (write_runs f (record w { stored = some r }) new))
      ∙ ap status_of (update_stored r _ "start report accepted" (record w { files = f ∷ w.files }))

  judge_start_report-status :
      (report : StepStartReport)
      → (report ≡ expected_report r step e
          → status_after (judge_start_report r step e report (record w { stored = some r }))
            ≡ some waiting_for_completion_report)
        × (report ≢ expected_report r step e
            → status_after (judge_start_report r step e report (record w { stored = some r }))
              ≡ some RunStatus.blocked)
  unfolding judge_start_report
  judge_start_report-status report =
      let exact = validate_step_start_report_iff report (expected_report r step e) in
      elim (Bool-cases (validate_step_start_report report (expected_report r step e)).ok) [
        | inl fits ↦ (
          λ same.
              ap (λ (m : Action (Unit {0})). status_after (m (record w { stored = some r })))
                (if_true _ _ _ fits)
              ∙ apply_start-status report,
          λ other. absurd (other (exact.0 fits)),
        )
        | inr fails ↦ (
          λ same. absurd (let right = exact.1 same in cc),
          λ other.
              ap (λ (m : Action (Unit {0})). status_after (m (record w { stored = some r })))
                (if_false _ _ _ fails)
              ∙ block_run-status r _ w,
        )
      ]

  read_start_report-status :
      (issues : List ValidationIssue) (o : Option StepStartReport)
      → (o ≡ some (expected_report r step e)
          → status_after (read_start_report r step e issues o (record w { stored = some r }))
            ≡ some waiting_for_completion_report)
        × (o ≢ some (expected_report r step e)
            → status_after (read_start_report r step e issues o (record w { stored = some r }))
              ≡ some RunStatus.blocked)
  read_start_report-status issues none = (λ same. absurd (cc), λ other. block_run-status r _ w)
  read_start_report-status issues (some report) =
      let judged = judge_start_report-status report in
      (λ same. judged.0 (cc), λ other. judged.1 (λ same. other (ap some same)))

-- In `waiting_for_start_report`, with an expectation, and the report's file not yet there: the run goes
-- on to `waiting_for_completion_report` when the body reads as exactly the expected report, of the run
-- and the current step with the prompt's attempt and token; on any other body it is blocked.
pub accept_start_report-exact :
    (r : StoredRun) (step : ResolvedStep) (e : PromptStartExpectation) (input : Value) (w : World)
    → names_step r ≡ true
    → r.state.status ≡ waiting_for_start_report
    → resolve_current_step r.work_plan r.state.current_step_id r.state.current_step_ordinal
      ≡ some step
    → r.state.pending_start_report ≡ some e
    → any (same_file (file_of step FileKind.start_report e.attempt)) w.files ≡ false
    → ((parse_step_start_report input).start_report ≡ some (expected_report r step e)
        → status_after (accept_start_report input (record w { stored = some r }))
          ≡ some waiting_for_completion_report)
      × ((parse_step_start_report input).start_report ≢ some (expected_report r step e)
          → status_after (accept_start_report input (record w { stored = some r }))
            ≡ some RunStatus.blocked)
unfolding accept_start_report take_start_report current_step ◌>>=◌ append_event
accept_start_report-exact r step e input w named waits found pending new =
    let here : World = record w { stored = some r } in
    let parsed = parse_step_start_report input in
    let logged : World = record w {
      events =
          record {
            step_id = some (step_id step.step);
            details = Details.start_report_received e.attempt parsed.ok;
          }
          ∷ w.events;
    } in
    let opened : accept_start_report input here
        ≡ read_start_report r step e parsed.issues parsed.start_report
            (record logged { stored = some r }) =
      bind_runs load_run _ here (load_run_runs r w named)
      ∙ require_runs (awaits_start r.state.status) Failure.invalid_status _ here
          (ap awaits_start waits)
      ∙ bind_runs (present _ Failure.current_step_missing) _ here
          (present_runs _ Failure.current_step_missing here found)
      ∙ ap (λ o. take_expected r step input o here) pending in
    let judged = read_start_report-status r step e logged new parsed.issues parsed.start_report in
    (
      λ same. ap status_after opened ∙ judged.0 same,
      λ other. ap status_after opened ∙ judged.1 other,
    )
