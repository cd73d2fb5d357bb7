-- ===== src/Core/Steps.antt =====
-- packages/protocol-runner-core/src/steps.ts: finding a step of the plan.
pub mod Laws
use protocol_runner.Common.{
  ℕ, zero, suc, ◌+◌, ◌-◌, String, ◌==◌, Bool, true, false, Option, none, some, List, [], ◌∷◌,
  length, get_elem?, ltb, leb, or_else, if◌then◌else◌, ◌||◌,
}
use protocol_runner.Core.Types.{RunStep, serial, parallel_group, step_id, WorkPlan, ResolvedStep}
use protocol_runner.Core.Types.{ContractReference, SerialRunStep}

resolve_contract : WorkPlan → SerialRunStep → ContractReference
resolve_contract plan step = or_else step.contract plan.default_contract

contract_of : WorkPlan → RunStep → Option ContractReference
contract_of plan (serial step) = some (resolve_contract plan step)
contract_of plan (parallel_group step) = none

unfoldable pub to_resolved_step : WorkPlan → RunStep → ℕ → ResolvedStep
unfolding contract_of resolve_contract
to_resolved_step plan step index = record {
  step = step;
  contract = contract_of plan step;
  ordinal = index + 1;
  total_steps = length plan.steps;
}

-- `steps.map((step, index) => …)`, from the index `i` on.
map_from : WorkPlan → ℕ → List RunStep → List ResolvedStep
map_from plan i [] = []
map_from plan i (s ∷ ss) = to_resolved_step plan s i ∷ map_from plan (i + 1) ss

pub list_resolved_steps : WorkPlan → List ResolvedStep
unfolding map_from
list_resolved_steps plan = map_from plan 0 plan.steps

-- `findIndex`; `none` stands for -1.
abbrev pub find_index {ℓ} : {A : Type ℓ} → (A → Bool) → List A → Option ℕ
find_index p [] = none
find_index p (x ∷ xs) =
    if p x then some 0 else elim (find_index p xs) [ none ↦ none | some i ↦ some (suc i) ]

-- `toResolvedStep(plan, plan.steps[index], index)` at an index that may be out of range.
resolved : WorkPlan → ℕ → Option RunStep → Option ResolvedStep
resolved plan index none = none
resolved plan index (some step) = some (to_resolved_step plan step index)

resolve_at : WorkPlan → ℕ → Option ResolvedStep
unfolding resolved
resolve_at plan index = resolved plan index (get_elem? plan.steps index)

unfoldable pub resolve_step : WorkPlan → String → Option ResolvedStep
unfolding resolve_at
resolve_step plan id = elim (find_index (λ step. step_id step == id) plan.steps) [
  | none ↦ none
  | some index ↦ resolve_at plan index
]

unfoldable pub resolve_step_by_ordinal : WorkPlan → ℕ → Option ResolvedStep
unfolding resolve_at
resolve_step_by_ordinal plan ordinal =
    if ltb ordinal 1 || ltb (length plan.steps) ordinal then none else resolve_at plan (ordinal - 1)

unfoldable pub resolve_current_step : WorkPlan → Option String → Option ℕ → Option ResolvedStep
resolve_current_step plan (some id) ordinal = resolve_step plan id
resolve_current_step plan none (some ordinal) = resolve_step_by_ordinal plan ordinal
resolve_current_step plan none none = none
