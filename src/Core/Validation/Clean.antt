-- ===== src/Core/Validation/Clean.antt =====
-- packages/protocol-runner-core/src/validation.ts: what holds where a check has pushed no issue, and
-- that no check takes an issue back.
use mathlib.Core.List.{List, [], ◌∷◌, ◌++◌}
use protocol_runner.Common.{
  ◌≡◌, refl, sym, ◌∙◌, String, includes, Bool, true, false, if_cases, arith, ℕ, ◌+◌, Bool-cases,
  inl, inr, id_pattern, is_empty_list,
}
use protocol_runner.Core.Types.{
  Value, Fields, undefined, null, obj, arr, str, bool, num, other_num, nil, cons, ValidationIssue,
}
use protocol_runner.Core.Completion.{get}
use protocol_runner.Core.Validation.{demand, at, entries, step_id_issues, unique_id_issues, with_id}
use protocol_runner.Core.Validation.Capabilities.{indexed}
use protocol_runner.Core.Validation.SourcePaths.{
  Map, GroupContext, ItemWalk, source_walk, owned_sources, sources_loop,
}
use protocol_runner.Core.Validation.GroupItems.{
  sealed_is_bad, walk_item, walk_items, item_field_issues, sealed_issues,
}
use protocol_runner.Core.Validation.Groups.{
  group_items, validate_parallel_group_step, group_context,
}

pub append_empty {ℓ} : {A : Type ℓ} (xs ys : List A) → xs ++ ys ≡ [] → (xs ≡ []) × (ys ≡ [])
append_empty [] ys h = (refl, h)
append_empty (x ∷ xs) ys h = absurd (cc)

pub is_empty_list-nil {ℓ} : {A : Type ℓ} (xs : List A) → is_empty_list xs ≡ true → xs ≡ []
is_empty_list-nil [] h = refl
is_empty_list-nil (x ∷ xs) h = absurd (cc)

pub demand-passes :
    (b : Bool) (code path message : String) → demand b code path message ≡ [] → b ≡ true
demand-passes true code path message h = refl
demand-passes false code path message h = absurd (cc)

-- The id of a step, an item or a group, where it is sound and new.
pub record Named (v : Value) (seen : List String) : Type 0 where
  pub id : String
  pub reads : v ≡ str id
  pub matches : id_pattern id ≡ true
  pub fresh : includes id seen ≡ false
  pub kept : with_id v seen ≡ id ∷ seen

pub step_id_issues-matches :
    (s path : String) → is_empty_list (step_id_issues (str s) path) ≡ true → id_pattern s ≡ true
unfolding step_id_issues
step_id_issues-matches s path h = ground arith

same_empty :
    (s path other : String)
    → is_empty_list (step_id_issues (str s) path) ≡ is_empty_list (step_id_issues (str s) other)
unfolding step_id_issues
same_empty s path other = ground arith

text-Named :
    (code noun s path : String) (seen : List String)
    → unique_id_issues code noun (str s) path seen ≡ []
    → Named (str s) seen
unfolding unique_id_issues with_id
text-Named code noun s path seen h =
    elim (Bool-cases (is_empty_list (step_id_issues (str s) path))) [
      | inl ok ↦
          let fresh : includes s seen ≡ false = ground (arith, h, ok) in
          record {
            id = s;
            reads = refl;
            matches = step_id_issues-matches s path ok;
            fresh = fresh;
            kept = rw (sym (same_empty s path "") ∙ ok) refl;
          }
      | inr bad ↦ absurd (ground (arith, h, bad))
    ]

pub unique_id_issues-Named :
    (code noun : String) (v : Value) (path : String) (seen : List String)
    → unique_id_issues code noun v path seen ≡ []
    → Named v seen
unfolding unique_id_issues step_id_issues
unique_id_issues-Named code noun (str s) path seen h = text-Named code noun s path seen h
unique_id_issues-Named code noun undefined path seen h = absurd (cc)
unique_id_issues-Named code noun null path seen h = absurd (cc)
unique_id_issues-Named code noun (obj fs) path seen h = absurd (cc)
unique_id_issues-Named code noun (arr vs) path seen h = absurd (cc)
unique_id_issues-Named code noun (bool b) path seen h = absurd (cc)
unique_id_issues-Named code noun (num n) path seen h = absurd (cc)
unique_id_issues-Named code noun (other_num s) path seen h = absurd (cc)

module _ (lower : String → String) where
  sources_loop-clean :
      (path : String) (n : ℕ) (vs : List Value) (w : ItemWalk)
      → (sources_loop lower path n vs w).issues ≡ []
      → w.issues ≡ []
  unfolding sources_loop
  sources_loop-clean path n [] w h = h
  sources_loop-clean path n (v ∷ vs) w h =
      (append_empty w.issues _ (sources_loop-clean path (n + 1) vs _ h)).0

  owned_sources-clean :
      (v : Value) (path : String) (w : ItemWalk)
      → (owned_sources lower v path w).issues ≡ []
      → w.issues ≡ []
  unfolding owned_sources
  owned_sources-clean (arr (cons v vs)) path w h = sources_loop-clean path 0 (v ∷ entries vs) w h
  owned_sources-clean (arr nil) path w h = (append_empty w.issues _ h).0
  owned_sources-clean (str s) path w h = (append_empty w.issues _ h).0
  owned_sources-clean undefined path w h = (append_empty w.issues _ h).0
  owned_sources-clean null path w h = (append_empty w.issues _ h).0
  owned_sources-clean (obj fs) path w h = (append_empty w.issues _ h).0
  owned_sources-clean (bool b) path w h = (append_empty w.issues _ h).0
  owned_sources-clean (num n) path w h = (append_empty w.issues _ h).0
  owned_sources-clean (other_num s) path w h = (append_empty w.issues _ h).0

  source_walk-clean :
      (c : GroupContext) (fs : Fields) (path : String) (w : ItemWalk)
      → (source_walk lower c fs path w).issues ≡ []
      → w.issues ≡ []
  unfolding source_walk
  source_walk-clean c fs path w h =
      if_cases (λ (r : ItemWalk). r.issues ≡ []) c.source_writer h
        (λ yes k. owned_sources-clean (get "owned_source_paths" fs) path w k)
        (λ no k. (append_empty w.issues _ k).0)

  walk_item-clean :
      (c : GroupContext) (v : Value) (path : String) (w : ItemWalk)
      → (walk_item lower c v path w).issues ≡ []
      → w.issues ≡ []
  unfolding walk_item
  walk_item-clean c (obj fs) path w h =
      let owned = source_walk lower c fs (at path ".owned_source_paths") w in
      let fields = item_field_issues lower fs path owned.item_ids in
      source_walk-clean c fs (at path ".owned_source_paths") w (
        if_cases (λ (r : ItemWalk). r.issues ≡ []) (sealed_is_bad lower (get "sealed_output" fs)) h
          (λ yes k.
            (append_empty owned.issues fields (append_empty (owned.issues ++ fields) _ k).0).0)
          (λ no k.
            let sealed = sealed_issues lower (get "sealed_output" fs) (at path ".sealed_output") in
            let kept = append_empty (owned.issues ++ fields ++ sealed) _ k in
            (append_empty owned.issues fields
              (append_empty (owned.issues ++ fields) sealed kept.0).0).0))
  walk_item-clean c (arr vs) path w h = (append_empty w.issues _ h).0
  walk_item-clean c (str s) path w h = (append_empty w.issues _ h).0
  walk_item-clean c undefined path w h = (append_empty w.issues _ h).0
  walk_item-clean c null path w h = (append_empty w.issues _ h).0
  walk_item-clean c (bool b) path w h = (append_empty w.issues _ h).0
  walk_item-clean c (num n) path w h = (append_empty w.issues _ h).0
  walk_item-clean c (other_num s) path w h = (append_empty w.issues _ h).0

  pub walk_items-clean :
      (c : GroupContext) (path : String) (n : ℕ) (vs : List Value) (w : ItemWalk)
      → (walk_items lower c path n vs w).issues ≡ []
      → w.issues ≡ []
  unfolding walk_items
  walk_items-clean c path n [] w h = h
  walk_items-clean c path n (v ∷ vs) w h =
      walk_item-clean c v (indexed path n) w (walk_items-clean c path (n + 1) vs _ h)

  group_items-clean :
      (v : Value) (fs : Fields) (path : String) (issues : List ValidationIssue) (targets : Map)
      → (group_items lower v fs path issues targets).issues ≡ []
      → issues ≡ []
  unfolding group_items
  group_items-clean (arr (cons v vs)) fs path issues targets h =
      walk_items-clean (group_context fs path) (at path ".items") 0 (v ∷ entries vs) _ h
  group_items-clean (arr nil) fs path issues targets h = (append_empty issues _ h).0
  group_items-clean (str s) fs path issues targets h = (append_empty issues _ h).0
  group_items-clean undefined fs path issues targets h = (append_empty issues _ h).0
  group_items-clean null fs path issues targets h = (append_empty issues _ h).0
  group_items-clean (obj f) fs path issues targets h = (append_empty issues _ h).0
  group_items-clean (bool b) fs path issues targets h = (append_empty issues _ h).0
  group_items-clean (num n) fs path issues targets h = (append_empty issues _ h).0
  group_items-clean (other_num s) fs path issues targets h = (append_empty issues _ h).0

  pub validate_parallel_group_step-clean :
      (fs : Fields) (path : String) (issues : List ValidationIssue) (targets : Map)
      → (validate_parallel_group_step lower fs path issues targets).issues ≡ []
      → issues ≡ []
  unfolding validate_parallel_group_step
  validate_parallel_group_step-clean fs path issues targets h =
      (append_empty issues _ (group_items-clean (get "items" fs) fs path _ targets h)).0
