-- ===== src/Examples/Validation.antt =====
-- packages/protocol-runner-core/src/validation.ts: a plan of two steps, the first of which goes to the
-- second, and plans that are refused.
use protocol_runner.Common.{template, String, ◌≡◌, refl, true, false, [], trim, id_pattern}
use protocol_runner.Core.Types.{Value, Fields, Items, field, end, obj, arr, str, nil, cons, null}
use protocol_runner.Core.Completion.{get, has_key}
use protocol_runner.Core.Validation.{entries}
use protocol_runner.Core.Validation.Capabilities.{participation_issues}
use protocol_runner.Core.Validation.Plan.{validate_work_plan}
use protocol_runner.Core.Validation.Accepted.{IsAccepted, validate_work_plan-IsAccepted}

abbrev next_rule : Value
next_rule = obj (field "action" (str "next") end)

abbrev go_to_rule : String → Value
go_to_rule s = obj (field "action" (str "go_to") (field "step_id" (str s) end))

abbrev step : String → Value → Value
step id rule = obj (
    field "step_id" (str id) (
      field "step_kind" (str "work") (
        field "contract" null (
          field "planned_step" (str "Do it.") (
            field "visible_work_item" (obj end) (
              field "prompt_template" (str "generic_step")
                (field "on_completed" rule (field "on_blocked" next_rule end))))))))

abbrev steps : Items
steps = cons (step "s1" (go_to_rule "s2")) (cons (step "s2" next_rule) nil)

abbrev plan : Items → Fields
plan listed = field "schema_version" (str "protocol_runner.work_plan.v1") (
    field "run_title" (str "A run") (
      field "execution_mode" (str "serial") (
        field "default_contract"
          (obj (field "title" (str "Contract") (field "path" (str "contract.md") end)))
          (field "steps" (arr listed) end))))

accepts : (validate_work_plan (λ s. s) (obj (plan steps))).ok ≡ true
unfolding validate_work_plan get trim id_pattern has_key
accepts = refl

validate_work_plan-IsAccepted_example :
    (fs : Fields) × (listed : Items) × (obj (plan steps) ≡ obj fs)
    × (get "steps" fs ≡ arr listed)
    × IsAccepted fs (entries listed)
validate_work_plan-IsAccepted_example =
    validate_work_plan-IsAccepted (λ s. s) (obj (plan steps)) accepts

-- One id twice, and a rule that goes to no step.
duplicate_test :
    (validate_work_plan
      (λ s. s)
      (obj (plan (cons (step "s1" next_rule) (cons (step "s1" next_rule) nil))))).ok
    ≡ false
unfolding validate_work_plan get trim id_pattern has_key
duplicate_test = refl

unknown_target_test :
    (validate_work_plan (λ s. s) (obj (plan (cons (step "s1" (go_to_rule "s3")) nil)))).ok ≡ false
unfolding validate_work_plan get trim id_pattern has_key
unknown_target_test = refl

-- An array with one of the two words passes the check on the participation.
participation_test :
    participation_issues (field "participation" (arr (cons (str "source_writer") nil)) end) "$" ≡ []
unfolding participation_issues get template
participation_test = refl
