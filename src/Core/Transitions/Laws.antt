-- ===== src/Core/Transitions/Laws.antt =====
-- What a resolved transition promises.
use protocol_runner.Common.{
  ◌+◌, String, ◌==◌, eq_iff, Bool, true, false, none, some, refl, ◌≡◌, ◌≢◌, arith, Option-cases,
  Bool-cases, inl, inr, subst, sym, ◌∙◌,
}
use protocol_runner.Core.Types.{
  WorkPlan, ResolvedStep, CompletionReturn, CompletionStatus, TransitionRule, TransitionAction,
  TransitionResolution, step_id,
}
use protocol_runner.Core.Steps.{resolve_step, resolve_step_by_ordinal}
use protocol_runner.Core.Steps.Laws.{
  resolve_step-by_ordinal, HasDistinctIds, resolve_step_by_ordinal-by_id,
}
use protocol_runner.Core.Transitions.{resolve_transition, apply_rule, rule_for}

module _ (plan : WorkPlan) (step : ResolvedStep) (completion : CompletionReturn) where
  -- A report for another step than the current one blocks.
  pub resolve_transition-mismatch :
      completion.step_id ≢ step_id step.step
      → (resolve_transition plan step completion).action ≡ TransitionAction.block
  unfolding resolve_transition
  resolve_transition-mismatch h = ground (arith, eq_iff completion.step_id (step_id step.step))

apply_rule-target :
    (plan : WorkPlan) (step : ResolvedStep) (status : CompletionStatus) (rule : TransitionRule)
    {id : String}
    → HasDistinctIds plan.steps
    → (apply_rule plan step status rule).next_step_id ≡ some id
    → (r : ResolvedStep) × (resolve_step plan id ≡ some r)
      × ((apply_rule plan step status rule).next_step_ordinal ≡ some r.ordinal)
unfolding apply_rule
apply_rule-target plan step status TransitionRule.pause d e = absurd (cc)
apply_rule-target plan step status TransitionRule.stop d e = absurd (cc)
apply_rule-target plan step status (TransitionRule.go_to t) {id} d e =
    elim (Option-cases (resolve_step plan t)) [
      | inl missing ↦ absurd (ground arith)
      | inr (r, found) ↦
          let named : step_id r.step ≡ id = ground arith in
          let same : t ≡ id = sym (resolve_step-by_ordinal plan t found).0 ∙ named in
          (r, subst (λ i. resolve_step plan i ≡ some r) same found, ground arith)
    ]
apply_rule-target plan step status TransitionRule.next {id} d e =
    elim (Option-cases (resolve_step_by_ordinal plan (step.ordinal + 1))) [
      | inl missing ↦ absurd (ground arith)
      | inr (r, found) ↦
          let named : step_id r.step ≡ id = ground arith in
          let back = resolve_step_by_ordinal-by_id plan (step.ordinal + 1) d found in
          (r, subst (λ i. resolve_step plan i ≡ some r) named back, ground arith)
    ]

matching :
    (plan : WorkPlan) (step : ResolvedStep) (completion : CompletionReturn)
    → (completion.step_id == step_id step.step) ≡ true
    → resolve_transition plan step completion
      ≡ apply_rule plan step completion.status (rule_for step completion.status)
unfolding resolve_transition
matching plan step completion h = rw h

-- In a plan with distinct step ids, the id and the ordinal that a transition names are those of one
-- and the same step of the plan.
pub resolve_transition-target :
    (plan : WorkPlan) (step : ResolvedStep) (completion : CompletionReturn) {id : String}
    → HasDistinctIds plan.steps
    → (resolve_transition plan step completion).next_step_id ≡ some id
    → (r : ResolvedStep) × (resolve_step plan id ≡ some r)
      × ((resolve_transition plan step completion).next_step_ordinal ≡ some r.ordinal)
unfolding resolve_transition
resolve_transition-target plan step completion {id} d e =
    elim (Bool-cases (completion.step_id == step_id step.step)) [
      | inl same ↦
          let opened = matching plan step completion same in
          rw opened (apply_rule-target plan step completion.status _ d (rw opened at e))
      | inr other ↦ absurd (ground arith)
    ]

-- The two actions that go to another step.
abbrev pub moves_on : TransitionAction → Bool
moves_on TransitionAction.advance = true
moves_on TransitionAction.go_to = true
moves_on _ = false

-- So does the rule by itself.
apply_rule-moves_on :
    (plan : WorkPlan) (step : ResolvedStep) (status : CompletionStatus) (rule : TransitionRule)
    → moves_on (apply_rule plan step status rule).action ≡ true
    → (id : String) × ((apply_rule plan step status rule).next_step_id ≡ some id)
unfolding apply_rule
apply_rule-moves_on plan step status TransitionRule.pause h = absurd (cc)
apply_rule-moves_on plan step status TransitionRule.stop h = absurd (cc)
apply_rule-moves_on plan step status (TransitionRule.go_to id) h =
    elim (Option-cases (resolve_step plan id)) [
      | inl missing ↦ absurd (ground arith)
      | inr (s, found) ↦ (step_id s.step, ground arith)
    ]
apply_rule-moves_on plan step status TransitionRule.next h =
    elim (Option-cases (resolve_step_by_ordinal plan (step.ordinal + 1))) [
      | inl missing ↦ absurd (ground arith)
      | inr (s, found) ↦ (step_id s.step, ground arith)
    ]

-- A transition that moves on names its target.
pub resolve_transition-moves_on :
    (plan : WorkPlan) (step : ResolvedStep) (completion : CompletionReturn)
    → moves_on (resolve_transition plan step completion).action ≡ true
    → (id : String) × ((resolve_transition plan step completion).next_step_id ≡ some id)
unfolding resolve_transition
resolve_transition-moves_on plan step completion h =
    elim (Bool-cases (completion.step_id == step_id step.step)) [
      | inl same ↦
          let opened = matching plan step completion same in
          rw opened (apply_rule-moves_on plan step completion.status _ (rw opened at h))
      | inr other ↦ absurd (ground arith)
    ]

-- What a rule asks for: a halt, or a step of the plan, and a block where there is no such step.
abbrev pub IsResolved : WorkPlan → ResolvedStep → TransitionRule → TransitionResolution → Type 0
IsResolved plan step TransitionRule.pause t = t.action ≡ TransitionAction.pause
IsResolved plan step TransitionRule.stop t = t.action ≡ TransitionAction.stop
IsResolved plan step (TransitionRule.go_to id) t =
    ((s : ResolvedStep)
      → resolve_step plan id ≡ some s
      → (t.action ≡ TransitionAction.go_to) × (t.next_step_id ≡ some (step_id s.step)))
    × (resolve_step plan id ≡ none → t.action ≡ TransitionAction.block)
IsResolved plan step TransitionRule.next t =
    ((s : ResolvedStep)
      → resolve_step_by_ordinal plan (step.ordinal + 1) ≡ some s
      → (t.action ≡ TransitionAction.advance) × (t.next_step_id ≡ some (step_id s.step)))
    × (resolve_step_by_ordinal plan (step.ordinal + 1) ≡ none → t.action ≡ TransitionAction.block)

apply_rule-IsResolved :
    (plan : WorkPlan) (step : ResolvedStep) (status : CompletionStatus) (rule : TransitionRule)
    → IsResolved plan step rule (apply_rule plan step status rule)
unfolding apply_rule
apply_rule-IsResolved plan step status TransitionRule.pause = refl
apply_rule-IsResolved plan step status TransitionRule.stop = refl
apply_rule-IsResolved plan step status (TransitionRule.go_to id) =
    (λ s found. (ground arith, ground arith), λ missing. ground arith)
apply_rule-IsResolved plan step status TransitionRule.next =
    (λ s found. (ground arith, ground arith), λ missing. ground arith)

-- The transition of a report on the step is what the rule for its status asks for.
pub resolve_transition-IsResolved :
    (plan : WorkPlan) (step : ResolvedStep) (completion : CompletionReturn)
    → completion.step_id ≡ step_id step.step
    → IsResolved plan step
        (rule_for step completion.status)
        (resolve_transition plan step completion)
resolve_transition-IsResolved plan step completion same =
    subst (IsResolved plan step (rule_for step completion.status))
      (sym (
        matching plan step completion
          (ground (arith, eq_iff completion.step_id (step_id step.step)))))
      (apply_rule-IsResolved plan step completion.status (rule_for step completion.status))
