-- ===== src/Core/Validation.antt =====
-- packages/protocol-runner-core/src/validation.ts: the checks on single values of a work plan. Each
-- gives the issues that it pushes; where the code's check also returns a Boolean, it is true exactly
-- where no issue was pushed.
pub mod Capabilities
pub mod SourcePaths
pub mod GroupItems
pub mod Groups
pub mod Plan
pub mod Clean
pub mod Names
pub mod ItemIds
pub mod Steps
pub mod Accepted
use Prim.Native.Char.{Char, code}
use Prim.Native.String.{String, [], ◌∷◌}
use mathlib.Core.List
use mathlib.Core.List.{List, ◌++◌}
use protocol_runner.Common.{
  ◌==◌, includes, is_empty, trim, template, Bool, true, false, not, ◌&&◌, ◌||◌, if◌then◌else◌, ltb,
  is_char, is_upper, is_lower, all_chars, id_pattern, is_empty_list,
}
use protocol_runner.Core.Types.{
  Value, Items, Fields, undefined, null, obj, arr, str, num, nil, cons, ValidationIssue,
}
use protocol_runner.Core.Completion.{get, has_key, issue}
use protocol_runner.Core.Paths.{normalize_pathish}

-- `pushIssue` on one issue, where the check does not pass.
abbrev pub demand : Bool → String → String → String → List ValidationIssue
demand true code path message = List.[]
demand false code path message = List.◌∷◌ (issue code path message) List.[]

abbrev pub fail : String → String → String → List ValidationIssue
fail code path message = demand false code path message

-- `${path}${suffix}`.
abbrev pub at : String → String → String
at path suffix = template (List.◌∷◌ path (List.◌∷◌ suffix List.[]))

abbrev pub is_record : Value → Bool
is_record (obj fs) = true
is_record v = false

abbrev pub is_undefined : Value → Bool
is_undefined undefined = true
is_undefined v = false

abbrev pub is_text : Value → Bool
is_text (str s) = true
is_text v = false

abbrev pub is_exactly : String → Value → Bool
is_exactly t (str s) = s == t
is_exactly t v = false

unfoldable pub is_non_empty_string : Value → Bool
is_non_empty_string (str s) = not (is_empty (trim s))
is_non_empty_string v = false

unfoldable pub is_positive_integer : Value → Bool
is_positive_integer (num n) = ltb 0 n
is_positive_integer v = false

abbrev pub entries : Items → List Value
entries nil = List.[]
entries (cons v others) = List.◌∷◌ v (entries others)

-- `value.split('/')`, with the part that has been read so far.
unfoldable pub split_slash : String → List String
split_slash [] = List.◌∷◌ [] List.[]
split_slash (c ∷ s) =
    let rest = split_slash s in if is_char b'/' c then List.◌∷◌ [] rest else add_first c rest
  where
    add_first : Char → List String → List String
    add_first c List.[] = List.◌∷◌ (c ∷ []) List.[]
    add_first c (List.◌∷◌ p ps) = List.◌∷◌ (c ∷ p) ps

unfoldable pub starts_with_slash : String → Bool
starts_with_slash [] = false
starts_with_slash (c ∷ s) = is_char b'/' c

-- `/^[A-Za-z]:\//`.
unfoldable pub has_drive : String → Bool
has_drive (c ∷ d ∷ e ∷ s) = (is_upper c || is_lower c) && is_char b':' d && is_char b'/' e
has_drive s = false

unfoldable pub is_escaping_pathish : String → Bool
unfolding split_slash starts_with_slash has_drive
is_escaping_pathish value =
    let normalized = normalize_pathish value in
    starts_with_slash normalized || has_drive normalized || includes ".." (split_slash normalized)

unfoldable pub contract_issues : Value → String → List ValidationIssue
unfolding is_non_empty_string
contract_issues (obj fs) path =
    demand (is_non_empty_string (get "title" fs)) "contract.title" (at path ".title")
      "Contract title must be a non-empty string."
    ++ demand (is_non_empty_string (get "path" fs)) "contract.path" (at path ".path")
        "Contract path must be a non-empty string."
contract_issues v path = fail "contract.not_object" path "Contract reference must be an object."

unfoldable pub step_id_issues : Value → String → List ValidationIssue
step_id_issues (str s) path =
    if is_empty (trim s)
    then fail "step_id.required" path "Step id must be a non-empty string."
    else demand (id_pattern s) "step_id.invalid" path
        "Step id must start with a letter or number and contain only letters, numbers, underscores, or hyphens."
step_id_issues v path = fail "step_id.required" path "Step id must be a non-empty string."

unfoldable pub pathish_issues : Value → String → String → List ValidationIssue
unfolding is_escaping_pathish
pathish_issues (str s) path label =
    if is_empty (trim s)
    then fail "path.required" path (at label " must be a non-empty string.")
    else demand (not (is_escaping_pathish s)) "path.unsafe" path
        (at label " must be a relative non-escaping path.")
pathish_issues v path label = fail "path.required" path (at label " must be a non-empty string.")

abbrev transition_actions : List String
transition_actions = List.◌∷◌ "next" (List.◌∷◌ "pause" (List.◌∷◌ "stop" (List.◌∷◌ "go_to" List.[])))

abbrev action_fail : String → List ValidationIssue
action_fail path =
    fail "transition.action" (at path ".action")
      "Transition action must be one of next, pause, stop, or go_to."

unfoldable pub action_issues : Value → Fields → String → List ValidationIssue
unfolding step_id_issues
action_issues (str action) fs path =
    if not (includes action transition_actions)
    then action_fail path
    else (if action == "go_to"
        then step_id_issues (get "step_id" fs) (at path ".step_id")
        else demand (not (has_key "step_id" fs)) "transition.step_id_unexpected"
            (at path ".step_id") "step_id is only valid for go_to transition rules.")
action_issues v fs path = action_fail path

unfoldable pub transition_issues : Value → String → List ValidationIssue
unfolding action_issues
transition_issues (obj fs) path = action_issues (get "action" fs) fs path
transition_issues v path = fail "transition.not_object" path "Transition rule must be an object."

abbrev base_dir_fail : String → List ValidationIssue
base_dir_fail path =
    fail "parallel_group.sealed_output_defaults.base_dir" (at path ".base_dir")
      "sealed_output_defaults.base_dir must be a non-empty relative non-escaping path."

unfoldable pub base_dir_issues : Value → String → List ValidationIssue
unfolding is_escaping_pathish
base_dir_issues (str s) path =
    if is_empty (trim s) || is_escaping_pathish s then base_dir_fail path else List.[]
base_dir_issues v path = base_dir_fail path

unfoldable pub sealed_defaults_issues : Value → String → List ValidationIssue
unfolding base_dir_issues pathish_issues
sealed_defaults_issues (obj fs) path =
    base_dir_issues (get "base_dir" fs) path
    ++ pathish_issues (get "primary_artifact" fs) (at path ".primary_artifact")
        "sealed_output_defaults.primary_artifact"
sealed_defaults_issues v path =
    fail "parallel_group.sealed_output_defaults" path "sealed_output_defaults must be an object."

-- An id that is checked and then kept in a set of ids: the issues, and the set. `code` and `noun` are
-- those of the issue for an id that is in the set.
unfoldable pub unique_id_issues :
    String → String → Value → String → List String → List ValidationIssue
unfolding step_id_issues
unique_id_issues code noun (str s) path seen =
    let own = step_id_issues (str s) path in
    if is_empty_list own
    then demand (not (includes s seen)) code path
        (template (List.◌∷◌ noun (List.◌∷◌ s (List.◌∷◌ "." List.[]))))
    else own
unique_id_issues code noun v path seen = step_id_issues v path

unfoldable pub with_id : Value → List String → List String
unfolding step_id_issues
with_id (str s) seen = if is_empty_list (step_id_issues (str s) "") then List.◌∷◌ s seen else seen
with_id v seen = seen
