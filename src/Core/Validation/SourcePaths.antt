-- ===== src/Core/Validation/SourcePaths.antt =====
-- packages/protocol-runner-core/src/validation.ts: the owned source paths of an item, and what the loop
-- over the items reads and changes. `lower` is `toLowerCase`, which reads Unicode's tables.
use Prim.Native.Char.{code}
use Prim.Native.String.{String, [], ◌∷◌}
use mathlib.Core.List.{List, ◌++◌}
use protocol_runner.Common.{
  any, ◌==◌, is_empty, trim, template, Bool, false, not, ◌||◌, if◌then◌else◌, ℕ, ◌+◌, leb, is_char,
  Option, none, some,
}
use protocol_runner.Core.Types.{Value, Fields, arr, str, cons, ValidationIssue}
use protocol_runner.Core.Completion.{get}
use protocol_runner.Core.Validation.{
  demand, fail, is_undefined, entries, split_slash, starts_with_slash,
}
use protocol_runner.Core.Validation.Capabilities.{indexed}

-- A `Map` from texts to texts: `set` puts a pair before the others.
abbrev pub Map : Type 0
Map = List (String × String)

unfoldable pub lookup : String → Map → Option String
lookup key List.[] = none
lookup key (List.◌∷◌ (k, v) m) = if k == key then some v else lookup key m

-- `/[\\:*?[\]\x00-\x1f]/`.
unfoldable pub has_forbidden : String → Bool
has_forbidden [] = false
has_forbidden (c ∷ s) =
    is_char b'\\' c
    || is_char b':' c
    || is_char b'*' c
    || is_char b'?' c
    || is_char b'[' c
    || is_char b']' c
    || leb (code c) 31
    || has_forbidden s

abbrev pub text_of : Value → Option String
text_of (str s) = some s
text_of v = none

-- What the group's step fixes for its items.
pub record GroupContext : Type 0 where
  pub source_writer : Bool
  pub defaults_ok : Bool
  pub defaults : Value

-- What the loop changes: the issues, the group's sets, and the targets of the whole plan.
pub record ItemWalk : Type 0 where
  pub issues : List ValidationIssue
  pub item_ids : List String
  pub owners : Map
  pub targets : Map

abbrev pub push : List ValidationIssue → ItemWalk → ItemWalk
push more w = record w { issues = w.issues ++ more }

module _ (lower : String → String) where
  unfoldable pub unsafe_source : String → Bool
  unfolding has_forbidden split_slash starts_with_slash
  unsafe_source s =
      is_empty s
      || not (s == trim s)
      || has_forbidden s
      || starts_with_slash s
      || any (λ p. is_empty p || p == "." || p == ".." || lower p == ".git") (split_slash s)

  -- One owned source path, and the owners after it.
  unfoldable pub source_issues : Value → String → Map → List ValidationIssue
  unfolding unsafe_source lookup
  source_issues (str s) label owners =
      if unsafe_source s
      then fail "parallel_group.source_path_unsafe" label
          "Owned source must be an exact slash-separated repo-relative file path without traversal or pathspec syntax."
      else (elim (lookup (lower s) owners) [
        | none ↦ List.[]
        | some owner ↦ fail "parallel_group.source_path_overlap" label (
            template
              (List.◌∷◌ "Source file is already owned at " (List.◌∷◌ owner (List.◌∷◌ "." List.[]))))
      ])
  source_issues v label owners =
      fail "parallel_group.source_path_unsafe" label
        "Owned source must be an exact slash-separated repo-relative file path without traversal or pathspec syntax."

  unfoldable pub with_source : Value → String → Map → Map
  unfolding unsafe_source
  with_source (str s) label owners =
      if unsafe_source s then owners else List.◌∷◌ (lower s, label) owners
  with_source v label owners = owners

  unfoldable pub sources_loop : String → ℕ → List Value → ItemWalk → ItemWalk
  unfolding source_issues with_source
  sources_loop path n List.[] w = w
  sources_loop path n (List.◌∷◌ v vs) w = sources_loop path (n + 1) vs (record w {
    issues = w.issues ++ source_issues v (indexed path n) w.owners;
    owners = with_source v (indexed path n) w.owners;
  })

  unfoldable pub owned_sources : Value → String → ItemWalk → ItemWalk
  unfolding sources_loop
  owned_sources (arr (cons v vs)) path w = sources_loop path 0 (List.◌∷◌ v (entries vs)) w
  owned_sources v path w =
      push
        (fail "parallel_group.source_paths" path
          "Source writers require a nonempty list of exact owned source files.")
        w

  unfoldable pub source_walk : GroupContext → Fields → String → ItemWalk → ItemWalk
  unfolding owned_sources
  source_walk c fs path w =
      if c.source_writer
      then owned_sources (get "owned_source_paths" fs) path w
      else push
          (demand (is_undefined (get "owned_source_paths" fs))
            "parallel_group.source_paths_unexpected" path
            "owned_source_paths is only valid for source_writer participation.")
          w
