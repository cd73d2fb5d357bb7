-- ===== src/Examples/Plans.antt =====
-- packages/protocol-runner-core/src: a plan of two steps, its lookups, transitions and statuses.
use protocol_runner.Common.{
  ◌≤◌, ◌≡◌, ◌≢◌, ◌↔◌, refl, eq_iff, arith, String, true, none, some, [], ◌∷◌, get_elem?,
}
use protocol_runner.Core.Types.{
  RunStatus, ManualAction, SerialStepKind, ExecutionMode, ContractReference, TransitionRule,
  SerialRunStep, RunStep, WorkPlan, ResolvedStep, Fields, CompletionReturn, CompletionStatus,
  step_id,
}
use protocol_runner.Core.StateMachine.{
  allowed_transitions, can_transition_run_status, validate_run_status_transition,
}
use protocol_runner.Core.StateMachine.Laws.{
  ◌⟶◌, ◌⟶*◌, here, next, IsListed, reach-ne-initial, reach-closed,
  validate_run_status_transition_iff,
}
use protocol_runner.Core.Actions.{is_manual_action_allowed}
use protocol_runner.Core.Actions.Laws.{is_manual_action_allowed-can_transition}
use protocol_runner.Core.Steps.{
  resolve_step, resolve_step_by_ordinal, list_resolved_steps, to_resolved_step,
}
use protocol_runner.Core.Steps.Laws.{
  HasDistinctIds, resolve_step-by_ordinal, resolve_step_by_ordinal-by_id,
  list_resolved_steps-by_ordinal,
}
use protocol_runner.Core.Transitions.{resolve_transition}
use protocol_runner.Core.Transitions.Laws.{resolve_transition-target}

abbrev contract : ContractReference
contract = record { title = "Base"; path = "contracts/base.md" }

abbrev work : String → TransitionRule → SerialRunStep
work id on_completed = record {
  step_id = id;
  step_kind = SerialStepKind.work;
  contract = none;
  planned_step = "Do it.";
  visible_work_item = Fields.end;
  on_completed = on_completed;
  on_blocked = TransitionRule.pause;
}

abbrev pub plan : WorkPlan
plan = record {
  run_title = "Two steps";
  execution_mode = ExecutionMode.serial;
  default_contract = contract;
  steps =
      RunStep.serial (work "s1" TransitionRule.next)
      ∷ RunStep.serial (work "s2" (TransitionRule.go_to "s1"))
      ∷ [];
}

abbrev pub first : ResolvedStep
first = record {
  step = RunStep.serial (work "s1" TransitionRule.next);
  contract = some contract;
  ordinal = 1;
  total_steps = 2;
}

abbrev second : ResolvedStep
second = record {
  step = RunStep.serial (work "s2" (TransitionRule.go_to "s1"));
  contract = some contract;
  ordinal = 2;
  total_steps = 2;
}

abbrev completed_step : String → CompletionReturn
completed_step id = record {
  run_instance_id = "run1";
  step_id = id;
  status = CompletionStatus.completed;
  summary = none;
}

pub distinct : HasDistinctIds plan.steps
distinct = (((λ h. absurd (ground (arith, eq_iff "s2" "s1"))), tt), (tt, tt))

resolves : resolve_step plan "s2" ≡ some second
unfolding resolve_step to_resolved_step
resolves = refl

resolves_ordinal : resolve_step_by_ordinal plan 2 ≡ some second
unfolding resolve_step_by_ordinal to_resolved_step
resolves_ordinal = refl

advances : (resolve_transition plan first (completed_step "s1")).next_step_id ≡ some "s2"
unfolding resolve_transition resolve_step_by_ordinal to_resolved_step
advances = refl

resolve_step-by_ordinal_example :
    (step_id second.step ≡ "s2")
    × (1 ≤ 2)
    × (2 ≤ 2)
    × (resolve_step_by_ordinal plan 2 ≡ some second)
resolve_step-by_ordinal_example = resolve_step-by_ordinal plan "s2" resolves

resolve_step_by_ordinal-by_id_example : resolve_step plan "s2" ≡ some second
resolve_step_by_ordinal-by_id_example =
    resolve_step_by_ordinal-by_id plan 2 distinct resolves_ordinal

list_resolved_steps-by_ordinal_example :
    get_elem? (list_resolved_steps plan) 1 ≡ resolve_step_by_ordinal plan 2
list_resolved_steps-by_ordinal_example = list_resolved_steps-by_ordinal plan 1

resolve_transition-target_example :
    (r : ResolvedStep) × (resolve_step plan "s2" ≡ some r)
    × ((resolve_transition plan first (completed_step "s1")).next_step_ordinal ≡ some r.ordinal)
resolve_transition-target_example =
    resolve_transition-target plan first (completed_step "s1") distinct advances

pauses : RunStatus.ready ⟶ RunStatus.paused
unfolding can_transition_run_status
pauses = refl

ready_pauses : RunStatus.ready ⟶* RunStatus.paused
ready_pauses = next here pauses

reach-ne-initial_example :
    (RunStatus.paused ≢ RunStatus.draft) × (RunStatus.paused ≢ RunStatus.bound)
reach-ne-initial_example = reach-ne-initial (λ h. absurd (cc)) (λ h. absurd (cc)) ready_pauses

reach-closed_example : RunStatus.draft ⟶* RunStatus.closed
reach-closed_example = reach-closed RunStatus.draft

validate_run_status_transition_iff_example :
    (((validate_run_status_transition RunStatus.ready RunStatus.draft).ok ≡ true)
      ↔ IsListed RunStatus.draft (allowed_transitions RunStatus.ready))
    × (((validate_run_status_transition RunStatus.ready RunStatus.draft).issues ≡ [])
        ↔ IsListed RunStatus.draft (allowed_transitions RunStatus.ready))
validate_run_status_transition_iff_example =
    validate_run_status_transition_iff RunStatus.ready RunStatus.draft

is_manual_action_allowed-can_transition_example :
    (is_manual_action_allowed RunStatus.ready ManualAction.fail
      ≡ can_transition_run_status RunStatus.ready RunStatus.failed)
    × (is_manual_action_allowed RunStatus.ready ManualAction.close
        ≡ can_transition_run_status RunStatus.ready RunStatus.closed)
    × (is_manual_action_allowed RunStatus.ready ManualAction.pause
        ≡ can_transition_run_status RunStatus.ready RunStatus.paused)
is_manual_action_allowed-can_transition_example =
    is_manual_action_allowed-can_transition RunStatus.ready
