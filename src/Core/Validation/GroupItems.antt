-- ===== src/Core/Validation/GroupItems.antt =====
-- packages/protocol-runner-core/src/validation.ts: the loop over the items of a parallel group. `lower`
-- is `toLowerCase`, which reads Unicode's tables.
use Prim.Native.String.{String}
use mathlib.Core.List.{List, ◌++◌}
use protocol_runner.Common.{
  any, ◌==◌, template, Bool, false, not, ◌&&◌, ◌||◌, if◌then◌else◌, ℕ, ◌+◌, is_empty_list, Option,
  none, some, or_else,
}
use protocol_runner.Core.Types.{Value, Fields, obj, arr, str, ValidationIssue}
use protocol_runner.Core.Completion.{get}
use protocol_runner.Core.Paths.{normalize_pathish}
use protocol_runner.Core.Validation.{
  demand, fail, at, is_record, is_undefined, is_text, is_non_empty_string, entries, step_id_issues,
  pathish_issues, unique_id_issues, with_id,
}
use protocol_runner.Core.Validation.Capabilities.{indexed}
use protocol_runner.Core.Validation.SourcePaths.{
  Map, lookup, text_of, GroupContext, ItemWalk, push, source_walk,
}

module _ (lower : String → String) where
  -- The item's id, label, input, variables and contract.
  unfoldable pub item_field_issues : Fields → String → List String → List ValidationIssue
  unfolding unique_id_issues is_non_empty_string
  item_field_issues fs path seen =
      unique_id_issues "parallel_group.item_id.duplicate" "Duplicate parallel item id in group: "
        (get "item_id" fs) (at path ".item_id") seen
      ++ demand (is_undefined (get "label" fs) || is_text (get "label" fs))
          "parallel_group.item.label" (at path ".label") "label must be a string when provided."
      ++ demand (is_non_empty_string (get "input_ref" fs)) "parallel_group.item.input_ref"
          (at path ".input_ref") "parallel_group item input_ref must be a non-empty string."
      ++ demand (is_undefined (get "variables" fs) || is_record (get "variables" fs))
          "parallel_group.item.variables" (at path ".variables")
          "variables must be an object when provided."
      ++ demand
          (is_undefined (get "contract_ref" fs) || is_non_empty_string (get "contract_ref" fs))
          "parallel_group.item.contract_ref" (at path ".contract_ref")
          "item contract_ref must be a non-empty string when provided."

  -- The properties of `sealed_output`, where it is an object.
  unfoldable pub sealed_issues : Value → String → List ValidationIssue
  unfolding step_id_issues pathish_issues
  sealed_issues (obj s) path =
      (if is_undefined (get "unit_id" s)
        then List.[]
        else step_id_issues (get "unit_id" s) (at path ".unit_id"))
      ++ (if is_undefined (get "primary_artifact" s)
          then List.[]
          else pathish_issues (get "primary_artifact" s) (at path ".primary_artifact")
              "sealed_output.primary_artifact")
  sealed_issues v path = List.[]

  -- `sealedOutput?.[key]`, where it is a text.
  abbrev sealed_text : Value → String → Option String
  sealed_text (obj s) key = text_of (get key s)
  sealed_text v key = none

  -- `parallelItemPrimaryTarget`.
  unfoldable pub parallel_item_primary_target :
      (base_dir default_artifact item_id : String) (unit_id artifact : Option String) → String
  parallel_item_primary_target base_dir default_artifact item_id unit_id artifact =
      normalize_pathish (
        template (
          List.◌∷◌ base_dir (
            List.◌∷◌ "/" (
              List.◌∷◌ (or_else unit_id item_id)
                (List.◌∷◌ "/" (List.◌∷◌ (or_else artifact default_artifact) List.[]))))))

  abbrev default_text : Value → String → Option String
  default_text (obj d) key = if is_non_empty_string (get key d) then text_of (get key d) else none
  default_text v key = none

  -- The target of an item, where the code gets to it.
  unfoldable pub target_of : GroupContext → Fields → Option String
  unfolding step_id_issues parallel_item_primary_target
  target_of c fs = elim (text_of (get "item_id" fs)) [
    | none ↦ none
    | some id ↦ elim (default_text c.defaults "base_dir") [
      | none ↦ none
      | some base ↦ elim (default_text c.defaults "primary_artifact") [
        | none ↦ none
        | some artifact ↦
            if c.defaults_ok && is_empty_list (step_id_issues (str id) "")
            then some (
                parallel_item_primary_target base artifact id
                  (sealed_text (get "sealed_output" fs) "unit_id")
                  (sealed_text (get "sealed_output" fs) "primary_artifact"))
            else none
      ]
    ]
  ]

  abbrev owns_target : Value → String → Bool
  owns_target (arr vs) target =
      any (λ v. elim (text_of v) [ none ↦ false | some s ↦ lower s == lower target ]) (entries vs)
  owns_target v target = false

  unfoldable pub target_issues : GroupContext → Fields → String → Map → List ValidationIssue
  unfolding target_of lookup
  target_issues c fs path targets = elim (target_of c fs) [
    | none ↦ List.[]
    | some target ↦
        demand (not (c.source_writer && owns_target (get "owned_source_paths" fs) target))
          "parallel_group.source_output_overlap" (at path ".owned_source_paths")
          "Source files and the sealed output must have distinct ownership."
        ++ (elim (lookup target targets) [
          | none ↦ List.[]
          | some previous ↦
              fail "parallel_group.sealed_output_target.duplicate" (at path ".sealed_output") (
                template (
                  List.◌∷◌ "Duplicate sealed-output primary artifact target " (
                    List.◌∷◌ target (
                      List.◌∷◌ "; first declared at " (List.◌∷◌ previous (List.◌∷◌ "." List.[]))))))
        ])
  ]

  unfoldable pub with_target : GroupContext → Fields → String → Map → Map
  unfolding target_of lookup
  with_target c fs path targets = elim (target_of c fs) [
    | none ↦ targets
    | some target ↦ elim (lookup target targets) [
      | none ↦ List.◌∷◌ (target, at path ".sealed_output") targets
      | some previous ↦ targets
    ]
  ]

  abbrev pub sealed_is_bad : Value → Bool
  sealed_is_bad v = not (is_undefined v || is_record v)

  unfoldable pub walk_item : GroupContext → Value → String → ItemWalk → ItemWalk
  unfolding source_walk item_field_issues with_id sealed_issues target_issues with_target
  walk_item c (obj fs) path w =
      let owned = source_walk lower c fs (at path ".owned_source_paths") w in
      let sealed = get "sealed_output" fs in
      if sealed_is_bad sealed
      then record owned {
        issues =
            (owned.issues ++ item_field_issues fs path owned.item_ids)
            ++ fail "parallel_group.item.sealed_output" (at path ".sealed_output")
                "sealed_output must be an object when provided.";
        item_ids = with_id (get "item_id" fs) owned.item_ids;
      }
      else record owned {
        issues =
            (owned.issues ++ item_field_issues fs path owned.item_ids)
            ++ sealed_issues sealed (at path ".sealed_output")
            ++ target_issues c fs path owned.targets;
        item_ids = with_id (get "item_id" fs) owned.item_ids;
        targets = with_target c fs path owned.targets;
      }
  walk_item c v path w =
      push (fail "parallel_group.item.not_object" path "parallel_group item must be an object.") w

  unfoldable pub walk_items : GroupContext → String → ℕ → List Value → ItemWalk → ItemWalk
  unfolding walk_item
  walk_items c path n List.[] w = w
  walk_items c path n (List.◌∷◌ v vs) w =
      walk_items c path (n + 1) vs (walk_item c v (indexed path n) w)
