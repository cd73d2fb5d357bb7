-- ===== src/Core/Validation/Capabilities.antt =====
-- packages/protocol-runner-core/src/validation.ts: the properties of a parallel group other than its
-- items.
use Prim.Native.Char.{code}
use Prim.Native.String.{String, [], ◌∷◌}
use mathlib.Core.List.{List, ◌++◌}
use protocol_runner.Common.{
  any, zero, suc, ◌==◌, includes, template, Bool, true, false, not, ◌&&◌, ◌||◌, if◌then◌else◌, ℕ,
  ◌+◌, leb, is_digit, all_chars, decimal,
}
use protocol_runner.Core.Types.{
  Value, Items, Fields, undefined, null, obj, arr, str, num, other_num, bool, nil, cons,
  ValidationIssue,
}
use protocol_runner.Core.Completion.{get}
use protocol_runner.Core.Validation.{
  is_exactly, demand, fail, at, is_record, is_undefined, is_text, is_non_empty_string,
  is_positive_integer, entries, sealed_defaults_issues,
}

-- A nullish entry of a joined array has no text.
abbrev entry_text : Value → String → String
entry_text undefined text = ""
entry_text null text = ""
entry_text v text = text

-- `String(value)`: an array is the texts of its entries, joined by commas.
unfoldable mutual
  pub string_of : Value → String
  string_of undefined = "undefined"
  string_of null = "null"
  string_of (obj fs) = "[object Object]"
  string_of (arr nil) = ""
  string_of (arr (cons v others)) =
      template (List.◌∷◌ (entry_text v (string_of v)) (List.◌∷◌ (joined others) List.[]))
  string_of (str s) = s
  string_of (bool true) = "true"
  string_of (bool false) = "false"
  string_of (num n) = decimal n
  string_of (other_num s) = s

  joined : Items → String
  joined nil = ""
  joined (cons v others) =
      template
        (List.◌∷◌ "," (List.◌∷◌ (entry_text v (string_of v)) (List.◌∷◌ (joined others) List.[])))

-- `/^[0-9a-f]{40}$/` on a text.
unfoldable pub is_commit : Value → Bool
is_commit (str s) = has_length 40 s && all_hex s
  where
    has_length : ℕ → String → Bool
    has_length zero [] = true
    has_length (suc n) (c ∷ s) = has_length n s
    has_length n s = false

    all_hex : String → Bool
    all_hex s = all_chars (λ c. is_digit c || leb b'a' (code c) && leb (code c) b'f') s
is_commit v = false

-- `value.includes('source_writer')` on an array.
unfoldable pub has_source_writer : Value → Bool
has_source_writer (arr vs) = any is_source_writer (entries vs)
  where
    is_source_writer : Value → Bool
    is_source_writer (str s) = s == "source_writer"
    is_source_writer v = false
has_source_writer v = false

abbrev pub is_source_writer : Fields → Bool
is_source_writer fs = is_exactly "source_writer" (get "participation" fs)

unfoldable pub participation_issues : Fields → String → List ValidationIssue
unfolding string_of is_commit has_source_writer
participation_issues fs path =
    demand
      (is_undefined (get "participation" fs)
        || includes (string_of (get "participation" fs))
            (List.◌∷◌ "artifact_only" (List.◌∷◌ "source_writer" List.[])))
      "parallel_group.participation" (at path ".participation")
      "participation must be artifact_only or source_writer."
    ++ (if is_source_writer fs
        then demand (is_commit (get "source_base_commit" fs)) "parallel_group.source_base_commit"
            (at path ".source_base_commit")
            "Source writers require an exact 40-character Git commit."
          ++ demand (has_source_writer (get "required_worker_capabilities" fs))
              "parallel_group.source_capability" (at path ".required_worker_capabilities")
              "Source writers must explicitly require source_writer so older backends/executors cannot silently use the artifact-only lane."
        else demand (is_undefined (get "source_base_commit" fs))
            "parallel_group.source_base_unexpected" (at path ".source_base_commit")
            "source_base_commit is only valid for source_writer participation.")

abbrev worker_capabilities : List String
worker_capabilities = List.◌∷◌ "base" (List.◌∷◌ "json_transform" (List.◌∷◌ "source_writer" List.[]))

-- One entry of the loop over the capabilities, and the set after it.
unfoldable pub capability_issues : Value → String → List String → List ValidationIssue
capability_issues (str c) path seen =
    if includes c worker_capabilities
    then demand (not (includes c seen)) "parallel_group.required_worker_capability.duplicate" path (
        template
          (List.◌∷◌ "Duplicate required worker capability: " (List.◌∷◌ c (List.◌∷◌ "." List.[]))))
    else unknown path
  where
    unknown : String → List ValidationIssue
    unknown path =
        fail "parallel_group.required_worker_capability.unknown" path
          "required_worker_capabilities entries must be one of: base, json_transform, source_writer."
capability_issues v path seen =
    fail "parallel_group.required_worker_capability.unknown" path
      "required_worker_capabilities entries must be one of: base, json_transform, source_writer."

unfoldable pub with_capability : Value → List String → List String
with_capability (str c) seen = if includes c worker_capabilities then List.◌∷◌ c seen else seen
with_capability v seen = seen

-- `${path}[${index}]`.
abbrev pub indexed : String → ℕ → String
indexed path n =
    template (List.◌∷◌ path (List.◌∷◌ "[" (List.◌∷◌ (decimal n) (List.◌∷◌ "]" List.[]))))

unfoldable pub capabilities_loop : String → ℕ → List Value → List String → List ValidationIssue
unfolding capability_issues with_capability
capabilities_loop path n List.[] seen = List.[]
capabilities_loop path n (List.◌∷◌ v vs) seen =
    capability_issues v (indexed path n) seen
    ++ capabilities_loop path (n + 1) vs (with_capability v seen)

unfoldable pub required_capabilities_issues : Value → String → List ValidationIssue
unfolding capabilities_loop
required_capabilities_issues undefined path = List.[]
required_capabilities_issues (arr (cons v vs)) path =
    capabilities_loop path 0 (List.◌∷◌ v (entries vs)) List.[]
required_capabilities_issues v path =
    fail "parallel_group.required_worker_capabilities" path
      "required_worker_capabilities must be a non-empty array when provided."

-- The checks of `validateParallelGroupStep` before the items, in their order.
unfoldable pub group_field_issues : Fields → String → List ValidationIssue
unfolding participation_issues is_non_empty_string is_positive_integer required_capabilities_issues
    sealed_defaults_issues
group_field_issues fs path =
    participation_issues fs path
    ++ demand (is_undefined (get "label" fs) || is_text (get "label" fs)) "parallel_group.label"
        (at path ".label") "label must be a string when provided."
    ++ demand (is_exactly "codex_exec" (get "executor" fs)) "parallel_group.executor"
        (at path ".executor") "parallel_group executor must be codex_exec."
    ++ demand (is_non_empty_string (get "contract_ref" fs)) "parallel_group.contract_ref"
        (at path ".contract_ref") "parallel_group contract_ref must be a non-empty string."
    ++ demand (is_positive_integer (get "max_concurrency" fs)) "parallel_group.max_concurrency"
        (at path ".max_concurrency") "parallel_group max_concurrency must be a positive integer."
    ++ required_capabilities_issues (get "required_worker_capabilities" fs)
        (at path ".required_worker_capabilities")
    ++ sealed_defaults_issues (get "sealed_output_defaults" fs) (at path ".sealed_output_defaults")
    ++ demand (is_undefined (get "timeout_policy" fs) || is_record (get "timeout_policy" fs))
        "parallel_group.timeout_policy" (at path ".timeout_policy")
        "timeout_policy must be an object when provided."
