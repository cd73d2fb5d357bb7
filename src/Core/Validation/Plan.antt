-- ===== src/Core/Validation/Plan.antt =====
-- packages/protocol-runner-core/src/validation.ts: `validateWorkPlan`.
use mathlib.Core.List.{List, [], ◌∷◌, ◌++◌}
use protocol_runner.Common.{
  ℕ, ◌+◌, String, includes, template, Bool, true, false, not, ◌&&◌, ◌||◌, if◌then◌else◌,
  is_empty_list,
}
use protocol_runner.Core.Types.{
  Value, Fields, null, obj, arr, str, cons, ValidationIssue, ValidationResult,
}
use protocol_runner.Core.Completion.{get, has_key}
use protocol_runner.Core.Validation.{
  demand, fail, at, is_record, is_exactly, is_non_empty_string, entries, contract_issues,
  transition_issues, unique_id_issues, with_id,
}
use protocol_runner.Core.Validation.Capabilities.{indexed}
use protocol_runner.Core.Validation.SourcePaths.{Map}
use protocol_runner.Core.Validation.Groups.{validate_parallel_group_step}

-- A `go_to` that was seen: where, and its target.
pub record Target : Type 0 where
  pub path : String
  pub step_id : Value

-- What the loop over the steps changes.
pub record PlanWalk : Type 0 where
  pub issues : List ValidationIssue
  pub step_ids : List String
  pub group_ids : List String
  pub targets : Map
  pub transitions : List Target
  pub saw_group : Bool

unfoldable pub id_walk : Fields → String → PlanWalk → PlanWalk
unfolding unique_id_issues with_id
id_walk fs path w = record w {
  issues =
      w.issues
      ++ unique_id_issues "step_id.duplicate" "Duplicate step id: " (get "step_id" fs)
          (at path ".step_id") w.step_ids;
  step_ids = with_id (get "step_id" fs) w.step_ids;
}

abbrev pub is_kind : Value → Bool
is_kind (str s) = includes s ("work" ∷ "review" ∷ "parallel_group" ∷ [])
is_kind v = false

-- The override of the contract: `null`, or a reference.
abbrev override_issues : Value → String → List ValidationIssue
override_issues null path = []
override_issues v path = contract_issues v path

unfoldable pub serial_issues : Fields → String → List ValidationIssue
unfolding contract_issues is_non_empty_string
serial_issues fs path =
    (if has_key "contract" fs
      then override_issues (get "contract" fs) (at path ".contract")
      else fail "step.contract_missing" (at path ".contract")
          "contract must be null to use the default contract or a contract reference object to override it.")
    ++ demand (is_non_empty_string (get "planned_step" fs)) "step.planned_step"
        (at path ".planned_step") "planned_step must be a non-empty string."
    ++ demand (is_record (get "visible_work_item" fs)) "step.visible_work_item"
        (at path ".visible_work_item") "visible_work_item must be an object."
    ++ demand (is_exactly "generic_step" (get "prompt_template" fs)) "step.prompt_template"
        (at path ".prompt_template")
        "Only prompt_template=generic_step is supported for serial work/review steps."

module _ (lower : String → String) where
  unfoldable pub group_walk : Fields → String → PlanWalk → PlanWalk
  unfolding unique_id_issues with_id validate_parallel_group_step
  group_walk fs path w =
      let issues =
        w.issues
        ++ unique_id_issues "parallel_group.group_id.duplicate" "Duplicate parallel group id: "
            (get "group_id" fs) (at path ".group_id") w.group_ids in
      let walked = validate_parallel_group_step lower fs path issues w.targets in
      record w {
        issues = walked.issues;
        group_ids = with_id (get "group_id" fs) w.group_ids;
        targets = walked.targets;
        saw_group = true;
      }

  unfoldable pub kind_walk : Fields → String → PlanWalk → PlanWalk
  unfolding group_walk serial_issues
  kind_walk fs path w =
      if is_exactly "parallel_group" (get "step_kind" fs)
      then group_walk fs path w
      else record w { issues = w.issues ++ serial_issues fs path }

  abbrev pub target_at : Value → String → List Target
  target_at (obj fs) path =
      if is_exactly "go_to" (get "action" fs)
      then record { path = at path ".step_id"; step_id = get "step_id" fs } ∷ []
      else []
  target_at v path = []

  -- One of a step's two rules.
  unfoldable pub rule_walk : Value → String → PlanWalk → PlanWalk
  unfolding transition_issues
  rule_walk rule path w =
      let own = transition_issues rule path in
      record w {
        issues = w.issues ++ own;
        transitions =
            if is_empty_list own then w.transitions ++ target_at rule path else w.transitions;
      }

  unfoldable pub rules_walk : Fields → String → PlanWalk → PlanWalk
  unfolding rule_walk
  rules_walk fs path w =
      rule_walk (get "on_blocked" fs) (at path ".on_blocked")
        (rule_walk (get "on_completed" fs) (at path ".on_completed") w)

  abbrev refuse : String → String → String → PlanWalk → PlanWalk
  refuse code path message w = record w { issues = w.issues ++ fail code path message }

  unfoldable pub walk_step : Value → String → PlanWalk → PlanWalk
  unfolding id_walk kind_walk rules_walk
  walk_step (obj fs) path w =
      if is_kind (get "step_kind" fs)
      then rules_walk fs path (kind_walk fs path (id_walk fs path w))
      else refuse "step.step_kind" (at path ".step_kind")
          "step_kind must be work, review, or parallel_group." (id_walk fs path w)
  walk_step v path w = refuse "step.not_object" path "Step must be an object." w

  unfoldable pub walk_steps : ℕ → List Value → PlanWalk → PlanWalk
  unfolding walk_step
  walk_steps n [] w = w
  walk_steps n (v ∷ vs) w = walk_steps (n + 1) vs (walk_step v (indexed "$.steps" n) w)

abbrev pub known : Value → List String → Bool
known (str s) step_ids = includes s step_ids
known v step_ids = false

abbrev text : Value → String
text (str s) = s
text v = ""

-- The loop over the targets of transitions.
unfoldable pub unknown_targets : List String → List Target → List ValidationIssue
unknown_targets step_ids [] = []
unknown_targets step_ids (t ∷ ts) =
    demand (known t.step_id step_ids) "transition.unknown_step_id" t.path (
      template ("Transition target does not exist in this work plan: " ∷ text t.step_id ∷ "." ∷ []))
    ++ unknown_targets step_ids ts

unfoldable pub header_issues : Fields → List ValidationIssue
unfolding is_non_empty_string contract_issues
header_issues fs =
    demand (is_exactly "protocol_runner.work_plan.v1" (get "schema_version" fs))
      "work_plan.schema_version" "$.schema_version"
      "Work plan schema_version must be protocol_runner.work_plan.v1."
    ++ demand (is_non_empty_string (get "run_title" fs)) "work_plan.run_title" "$.run_title"
        "run_title must be a non-empty string."
    ++ demand
        (is_exactly "serial" (get "execution_mode" fs)
          || is_exactly "mixed" (get "execution_mode" fs))
        "work_plan.execution_mode" "$.execution_mode" "execution_mode must be serial or mixed."
    ++ contract_issues (get "default_contract" fs) "$.default_contract"

unfoldable pub end_issues : Fields → PlanWalk → List ValidationIssue
unfolding unknown_targets
end_issues fs w =
    unknown_targets w.step_ids w.transitions
    ++ demand (not (is_exactly "serial" (get "execution_mode" fs) && w.saw_group))
        "work_plan.execution_mode_parallel_group" "$.execution_mode"
        "execution_mode=serial cannot contain parallel_group steps; use execution_mode=mixed."

abbrev pub start_walk : List ValidationIssue → PlanWalk
start_walk issues = record {
  issues = issues;
  step_ids = [];
  group_ids = [];
  targets = [];
  transitions = [];
  saw_group = false;
}

abbrev pub result_of : List ValidationIssue → ValidationResult
result_of issues = record { ok = is_empty_list issues; issues = issues }

unfoldable pub steps_issues : (String → String) → Value → Fields → List ValidationIssue
unfolding walk_steps end_issues header_issues
steps_issues lower (arr (cons v vs)) fs =
    let w = walk_steps lower 0 (v ∷ entries vs) (start_walk (header_issues fs)) in
    w.issues ++ end_issues fs w
steps_issues lower v fs =
    header_issues fs ++ fail "work_plan.steps" "$.steps" "steps must be a non-empty array."

unfoldable pub validate_work_plan : (String → String) → Value → ValidationResult
unfolding steps_issues
validate_work_plan lower (obj fs) = result_of (steps_issues lower (get "steps" fs) fs)
validate_work_plan lower v =
    result_of (fail "work_plan.not_object" "$" "Work plan must be an object.")
