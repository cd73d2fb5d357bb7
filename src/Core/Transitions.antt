-- ===== src/Core/Transitions.antt =====
-- packages/protocol-runner-core/src/transitions.ts: where a report leads.
pub mod Laws
use protocol_runner.Common.{
  ℕ, ◌+◌, String, ◌==◌, Bool, true, false, Option, none, some, List, [], ◌∷◌, template, not,
  if◌then◌else◌,
}
use protocol_runner.Core.Types.{
  WorkPlan, ResolvedStep, CompletionReturn, CompletionStatus, TransitionRule, TransitionAction,
  TransitionResolution, step_id, on_completed, on_blocked,
}
use protocol_runner.Core.Steps.{resolve_step, resolve_step_by_ordinal}

unfoldable pub completion_name : CompletionStatus → String
completion_name CompletionStatus.completed = "completed"
completion_name CompletionStatus.blocked = "blocked"

-- `completion.status === 'completed' ? step.on_completed : step.on_blocked`.
abbrev pub rule_for : ResolvedStep → CompletionStatus → TransitionRule
rule_for step CompletionStatus.completed = on_completed step.step
rule_for step CompletionStatus.blocked = on_blocked step.step

block : String → TransitionResolution
block reason = record {
  action = TransitionAction.block;
  next_step_id = none;
  next_step_ordinal = none;
  reason = reason;
}

halt : TransitionAction → String → CompletionStatus → TransitionResolution
halt action word status = record {
  action = action;
  next_step_id = none;
  next_step_ordinal = none;
  reason =
      template
        ("Transition rule for status=" ∷ completion_name status ∷ " requested " ∷ word ∷ "." ∷ []);
}

move : TransitionAction → String → CompletionStatus → ResolvedStep → TransitionResolution
move action word status target = record {
  action = action;
  next_step_id = some (step_id target.step);
  next_step_ordinal = some target.ordinal;
  reason = template (
      "Transition rule for status="
      ∷ completion_name status
      ∷ word
      ∷ step_id target.step
      ∷ "."
      ∷ []);
}

apply_rule : WorkPlan → ResolvedStep → CompletionStatus → TransitionRule → TransitionResolution
unfolding block halt move
apply_rule plan step status TransitionRule.pause = halt TransitionAction.pause "pause" status
apply_rule plan step status TransitionRule.stop = halt TransitionAction.stop "stop" status
apply_rule plan step status (TransitionRule.go_to target_id) = elim (resolve_step plan target_id) [
  | none ↦ block (template ("Transition target does not exist: " ∷ target_id ∷ "." ∷ []))
  | some target ↦ move TransitionAction.go_to " routed to " status target
]
apply_rule plan step status TransitionRule.next =
    elim (resolve_step_by_ordinal plan (step.ordinal + 1)) [
      | none ↦ block (
          template
            ("Transition rule requested next after final step " ∷ step_id step.step ∷ "." ∷ []))
      | some target ↦ move TransitionAction.advance " advanced to " status target
    ]

unfoldable pub resolve_transition :
    WorkPlan → ResolvedStep → CompletionReturn → TransitionResolution
unfolding apply_rule
resolve_transition plan step completion =
    if not (completion.step_id == step_id step.step)
    then block (
        template (
          "Completion step_id "
          ∷ completion.step_id
          ∷ " does not match current step "
          ∷ step_id step.step
          ∷ "."
          ∷ []))
    else apply_rule plan step completion.status (rule_for step completion.status)
