-- ===== src/Controller/Reports/Landing.antt =====
-- services/protocol-runner-api/src/controller.ts: where a status report leads the run.
use protocol_runner.Common.{
  suc, ◌+◌, ◌-◌, String, true, false, Option, none, some, ◌∷◌, ◌≡◌, sym, ◌∙◌, ap, subst, any, leb,
}
use protocol_runner.Core.Types.{
  RunStatus, ResolvedStep, WorkPlan, Value, CompletionReturn, TransitionAction,
  TransitionResolution, TransitionRule, accept_return, waiting_for_completion_report, step_id,
  ready, paused,
}
use protocol_runner.Core.Actions.{is_manual_action_allowed}
use protocol_runner.Core.Completion.{parse_status_report}
use protocol_runner.Core.Completion.Laws.{validate_status_report_for_step_iff}
use protocol_runner.Core.Steps.{resolve_step, resolve_step_by_ordinal, resolve_current_step}
use protocol_runner.Core.Transitions.{resolve_transition, rule_for}
use protocol_runner.Core.Transitions.Laws.{IsResolved, resolve_transition-IsResolved, moves_on}
use protocol_runner.Controller.{World, StoredRun, Details, FileKind, Failure}
use protocol_runner.Controller.Action.{
  Action, return, ◌>>=◌, present, load_run, names_step, current_step, current_time, append_event,
  append_state_changed, require_manual_action,
}
use protocol_runner.Controller.Files.{write_once, same_file, file_of, next_file_attempt_number}
use protocol_runner.Controller.Transition.{apply_transition}
use protocol_runner.Controller.Reports.{
  apply_report, judge_status_report, read_status_report, accept_structured_status_report,
  current_attempt_number, accept_return_report,
}
use protocol_runner.Controller.Runs.{
  bind_runs, present_runs, require_runs, load_run_runs, update_stored, write_runs, status_of,
  if_true,
}

abbrev pub current_of : Option StoredRun → Option String
current_of none = none
current_of (some r) = r.state.current_step_id

-- The run stands where a rule asks for: halted, ready at another step of the plan, or blocked where
-- there is no such step.
abbrev pub IsLanded : WorkPlan → ResolvedStep → TransitionRule → Option StoredRun → Type 0
IsLanded plan step TransitionRule.pause s = status_of s ≡ some paused
IsLanded plan step TransitionRule.stop s = status_of s ≡ some RunStatus.completed
IsLanded plan step (TransitionRule.go_to id) s =
    ((t : ResolvedStep)
      → resolve_step plan id ≡ some t
      → (status_of s ≡ some ready) × (current_of s ≡ some (step_id t.step)))
    × (resolve_step plan id ≡ none → status_of s ≡ some RunStatus.blocked)
IsLanded plan step TransitionRule.next s =
    ((t : ResolvedStep)
      → resolve_step_by_ordinal plan (step.ordinal + 1) ≡ some t
      → (status_of s ≡ some ready) × (current_of s ≡ some (step_id t.step)))
    × (resolve_step_by_ordinal plan (step.ordinal + 1) ≡ none
        → status_of s ≡ some RunStatus.blocked)

abbrev status_for : TransitionAction → RunStatus
status_for TransitionAction.advance = ready
status_for TransitionAction.go_to = ready
status_for TransitionAction.pause = paused
status_for TransitionAction.stop = RunStatus.completed
status_for TransitionAction.block = RunStatus.blocked

-- The state that a transition stores.
apply_transition-stored :
    (r : StoredRun) (completion : CompletionReturn) (reason : String) (t : TransitionResolution)
    (w : World)
    → let s =
        ((apply_transition r completion t >>= (λ u. append_state_changed r u reason))
          (record w { stored = some r })).1.stored in
      (status_of s ≡ some (status_for t.action))
      × (moves_on t.action ≡ true → current_of s ≡ t.next_step_id)
unfolding apply_transition ◌>>=◌ current_time
apply_transition-stored r completion reason t w = cases t.action
  where
    stored_of : TransitionAction → Option StoredRun
    stored_of a =
        ((apply_transition r completion (record t { action = a })
            >>= (λ u. append_state_changed r u reason))
          (record w { stored = some r })).1.stored

    cases :
        (a : TransitionAction)
        → (status_of (stored_of a) ≡ some (status_for a))
          × (moves_on a ≡ true → current_of (stored_of a) ≡ t.next_step_id)
    cases TransitionAction.pause = (ap status_of (update_stored r _ reason w), λ h. absurd (cc))
    cases TransitionAction.stop = (
      ap status_of (update_stored r _ reason (record w { readings = suc w.readings })),
      λ h. absurd (cc),
    )
    cases TransitionAction.block = (ap status_of (update_stored r _ reason w), λ h. absurd (cc))
    cases TransitionAction.advance =
        (ap status_of (update_stored r _ reason w), λ h. ap current_of (update_stored r _ reason w))
    cases TransitionAction.go_to =
        (ap status_of (update_stored r _ reason w), λ h. ap current_of (update_stored r _ reason w))

landed :
    (plan : WorkPlan) (step : ResolvedStep) (rule : TransitionRule) (t : TransitionResolution)
    (s : Option StoredRun)
    → IsResolved plan step rule t
    → status_of s ≡ some (status_for t.action)
    → (moves_on t.action ≡ true → current_of s ≡ t.next_step_id)
    → IsLanded plan step rule s
landed plan step TransitionRule.pause t s h at current = at ∙ ap (λ a. some (status_for a)) h
landed plan step TransitionRule.stop t s h at current = at ∙ ap (λ a. some (status_for a)) h
landed plan step (TransitionRule.go_to id) t s (h, h') at current = (
  λ target found.
      let (a, n) = h target found in
      (at ∙ ap (λ x. some (status_for x)) a, current (ap moves_on a) ∙ n),
  λ missing. at ∙ ap (λ x. some (status_for x)) (h' missing),
)
landed plan step TransitionRule.next t s (h, h') at current = (
  λ target found.
      let (a, n) = h target found in
      (at ∙ ap (λ x. some (status_for x)) a, current (ap moves_on a) ∙ n),
  λ missing. at ∙ ap (λ x. some (status_for x)) (h' missing),
)

apply_report-IsLanded :
    (r : StoredRun) (step : ResolvedStep) (report : CompletionReturn) (w : World)
    → report.step_id ≡ step_id step.step
    → IsLanded r.work_plan step
        (rule_for step report.status)
        (apply_report r step report (record w { stored = some r })).1.stored
unfolding apply_report ◌>>=◌ append_event
apply_report-IsLanded r step report w same =
    let t = resolve_transition r.work_plan step report in
    let after = apply_transition-stored r report "status report accepted" t (record w {
      events =
          record { step_id = some (step_id step.step); details = Details.transition_resolved t }
          ∷ w.events;
    }) in
    landed r.work_plan step (rule_for step report.status) t _
      (resolve_transition-IsResolved r.work_plan step report same) after.0 after.1

allowed :
    (st : RunStatus)
    → st ≡ waiting_for_completion_report
    → is_manual_action_allowed st accept_return ≡ true
unfolding is_manual_action_allowed
allowed st h = ap (λ s. is_manual_action_allowed s accept_return) h

-- In `waiting_for_completion_report`, with reports picked up, a prompt sent for the current step, and
-- no report filed for it yet: a body that reads as a report on the run and the step leads the run to
-- where the step's rule for the report's status asks. It is paused or completed, or ready at the next
-- step or the step that the rule names, or blocked where there is no such step.
pub accept_return_report-IsLanded :
    (r : StoredRun) (step : ResolvedStep) (report : CompletionReturn) (input : Value) (w : World)
    → names_step r ≡ true
    → r.state.status ≡ waiting_for_completion_report
    → r.state.automation.auto_pickup ≡ true
    → resolve_current_step r.work_plan r.state.current_step_id r.state.current_step_ordinal
      ≡ some step
    → leb 1 (next_file_attempt_number step w - 1) ≡ true
    → any
        (same_file (file_of step FileKind.status_report (next_file_attempt_number step w - 1)))
        w.files
      ≡ false
    → (parse_status_report input).status_report ≡ some report
    → report.run_instance_id ≡ r.run_instance_id
    → report.step_id ≡ step_id step.step
    → IsLanded r.work_plan step
        (rule_for step report.status)
        (accept_return_report input (record w { stored = some r })).1.stored
unfolding accept_return_report require_manual_action current_step current_attempt_number
    accept_structured_status_report judge_status_report ◌>>=◌ append_event next_file_attempt_number
accept_return_report-IsLanded r step report input w named waits picks found sent new parsed run
      same =
    let here : World = record w { stored = some r } in
    let attempt = next_file_attempt_number step w - 1 in
    let logged : World = record here {
      events =
          record {
            step_id = some (step_id step.step);
            details = Details.status_report_received attempt (parse_status_report input).ok;
          }
          ∷ w.events;
    } in
    let f = file_of step FileKind.status_report attempt in
    let valid =
      (validate_status_report_for_step_iff report r.run_instance_id (step_id step.step)).1
        (run, same) in
    let opened : accept_return_report input here
        ≡ apply_report r step report (record logged { files = f ∷ w.files }) =
      bind_runs load_run _ here (load_run_runs r w named)
      ∙ require_runs (is_manual_action_allowed r.state.status accept_return) Failure.invalid_status
          _ here (allowed r.state.status waits)
      ∙ require_runs r.state.automation.auto_pickup Failure.auto_pickup_disabled _ here picks
      ∙ bind_runs (present _ Failure.current_step_missing) _ here
          (present_runs _ Failure.current_step_missing here found)
      ∙ bind_runs (current_attempt_number step) _ here
          (require_runs (leb 1 attempt) Failure.prompt_attempt_missing (return attempt) here sent)
      ∙ ap (λ o. read_status_report r step attempt (parse_status_report input).issues o logged)
          parsed
      ∙ bind_runs (write_once f) _ logged (write_runs f logged new)
      ∙ ap (λ (m : Action (Unit {0})). m (record logged { files = f ∷ w.files }))
          (if_true _ (apply_report r step report) _ valid) in
    subst (λ o. IsLanded r.work_plan step (rule_for step report.status) o.1.stored) (sym opened)
      (apply_report-IsLanded r step report (record logged { files = f ∷ w.files }) same)
