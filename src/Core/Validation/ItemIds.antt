-- ===== src/Core/Validation/ItemIds.antt =====
-- packages/protocol-runner-core/src/validation.ts: the items of a parallel group that has passed.
use mathlib.Core.List.{List, [], ◌∷◌, ◌++◌}
use protocol_runner.Common.{
  ◌≡◌, ◌≢◌, refl, sym, subst, String, Bool, true, false, if_intro, arith, ℕ, ◌+◌, All, Pairwise,
  eq_iff, id_pattern, inl, inr,
}
use protocol_runner.Core.Types.{
  Value, Items, Fields, undefined, null, obj, arr, str, bool, num, other_num, nil, cons,
  ValidationIssue,
}
use protocol_runner.Core.Completion.{get}
use protocol_runner.Core.Validation.{at, entries, is_exactly, with_id}
use protocol_runner.Core.Validation.Capabilities.{indexed}
use protocol_runner.Core.Validation.Clean.{
  append_empty, Named, unique_id_issues-Named, walk_items-clean,
}
use protocol_runner.Core.Validation.Names.{
  IsOther, IsNewIn, Adds, keeps_new, others, is_object, object_cases, Named-new,
}
use protocol_runner.Core.Validation.SourcePaths.{
  Map, GroupContext, ItemWalk, source_walk, owned_sources, sources_loop,
}
use protocol_runner.Core.Validation.GroupItems.{
  walk_item, walk_items, item_field_issues, sealed_issues, sealed_is_bad,
}
use protocol_runner.Core.Validation.Groups.{
  group_items, validate_parallel_group_step, group_context,
}

abbrev pub has_item : String → Value → Bool
has_item t (obj fs) = is_exactly t (get "item_id" fs)
has_item t v = false

abbrev pub IsItem : Value → Type 0
IsItem v = (s : String) × (has_item s v ≡ true) × (id_pattern s ≡ true)

-- The items are an array of objects with well-formed ids, none of which occurs twice.
abbrev pub HasItems : Value → Type 0
HasItems v =
    (items : Items) × (v ≡ arr items)
    × All IsItem (entries items)
    × Pairwise (IsOther has_item) (entries items)

module _ (lower : String → String) where
  sources_loop-item_ids :
      (path : String) (n : ℕ) (vs : List Value) (w : ItemWalk)
      → (sources_loop lower path n vs w).item_ids ≡ w.item_ids
  unfolding sources_loop
  sources_loop-item_ids path n [] w = refl
  sources_loop-item_ids path n (v ∷ vs) w = sources_loop-item_ids path (n + 1) vs _

  owned_sources-item_ids :
      (v : Value) (path : String) (w : ItemWalk)
      → (owned_sources lower v path w).item_ids ≡ w.item_ids
  unfolding owned_sources
  owned_sources-item_ids (arr (cons v vs)) path w = sources_loop-item_ids path 0 (v ∷ entries vs) w
  owned_sources-item_ids (arr nil) path w = refl
  owned_sources-item_ids (str s) path w = refl
  owned_sources-item_ids undefined path w = refl
  owned_sources-item_ids null path w = refl
  owned_sources-item_ids (obj fs) path w = refl
  owned_sources-item_ids (bool b) path w = refl
  owned_sources-item_ids (num n) path w = refl
  owned_sources-item_ids (other_num s) path w = refl

  source_walk-item_ids :
      (c : GroupContext) (fs : Fields) (path : String) (w : ItemWalk)
      → (source_walk lower c fs path w).item_ids ≡ w.item_ids
  unfolding source_walk
  source_walk-item_ids c fs path w =
      if_intro (λ (r : ItemWalk). r.item_ids ≡ w.item_ids) c.source_writer
        (λ writer. owned_sources-item_ids (get "owned_source_paths" fs) path w) (λ reader. refl)

  item_field_issues-Named :
      (fs : Fields) (path : String) (seen : List String)
      → item_field_issues lower fs path seen ≡ []
      → Named (get "item_id" fs) seen
  unfolding item_field_issues
  item_field_issues-Named fs path seen h =
      let up_to_variables = (append_empty _ _ h).0 in
      let up_to_input = (append_empty _ _ up_to_variables).0 in
      let up_to_label = (append_empty _ _ up_to_input).0 in
      let own = (append_empty _ _ up_to_label).0 in
      unique_id_issues-Named _ _ (get "item_id" fs) _ seen own

  abbrev ItemKept : Fields → ItemWalk → ItemWalk → Type 0
  ItemKept fs w r =
      (named : Named (get "item_id" fs) w.item_ids) × (r.item_ids ≡ named.id ∷ w.item_ids)

  walk_item-ItemKept :
      (c : GroupContext) (fs : Fields) (path : String) (w : ItemWalk)
      → (walk_item lower c (obj fs) path w).issues ≡ []
      → ItemKept fs w (walk_item lower c (obj fs) path w)
  unfolding walk_item
  walk_item-ItemKept c fs path w =
      let owned = source_walk lower c fs (at path ".owned_source_paths") w in
      let same = source_walk-item_ids c fs (at path ".owned_source_paths") w in
      let fields = item_field_issues lower fs path owned.item_ids in
      if_intro (λ (r : ItemWalk). r.issues ≡ [] → ItemKept fs w r)
        (sealed_is_bad lower (get "sealed_output" fs))
        (λ bad h.
          let own =
            (append_empty owned.issues fields (append_empty (owned.issues ++ fields) _ h).0).1 in
          let named = item_field_issues-Named fs path owned.item_ids own in
          subst
            (λ seen.
              (n : Named (get "item_id" fs) seen) × (with_id (get "item_id" fs) owned.item_ids
                ≡ n.id ∷ seen))
            same (named, named.kept))
        (λ good h.
          let sealed = sealed_issues lower (get "sealed_output" fs) (at path ".sealed_output") in
          let kept = (append_empty (owned.issues ++ fields ++ sealed) _ h).0 in
          let own =
            (append_empty owned.issues fields
              (append_empty (owned.issues ++ fields) sealed kept).0).1 in
          let named = item_field_issues-Named fs path owned.item_ids own in
          subst
            (λ seen.
              (n : Named (get "item_id" fs) seen) × (with_id (get "item_id" fs) owned.item_ids
                ≡ n.id ∷ seen))
            same (named, named.kept))

  refused :
      (c : GroupContext) (v : Value) (path : String) (w : ItemWalk)
      → is_object v ≡ false
      → (walk_item lower c v path w).issues ≢ []
  unfolding walk_item is_object
  refused c (obj fs) path w e h = absurd (cc)
  refused c (arr vs) path w e h = absurd (ground (arith, (append_empty w.issues _ h).1))
  refused c (str s) path w e h = absurd (ground (arith, (append_empty w.issues _ h).1))
  refused c undefined path w e h = absurd (ground (arith, (append_empty w.issues _ h).1))
  refused c null path w e h = absurd (ground (arith, (append_empty w.issues _ h).1))
  refused c (bool b) path w e h = absurd (ground (arith, (append_empty w.issues _ h).1))
  refused c (num n) path w e h = absurd (ground (arith, (append_empty w.issues _ h).1))
  refused c (other_num s) path w e h = absurd (ground (arith, (append_empty w.issues _ h).1))

  record Listed (vs : List Value) (seen : List String) : Type 0 where
    named : All IsItem vs
    new : All (IsNewIn has_item seen) vs
    distinct : Pairwise (IsOther has_item) vs

  Listed-cons :
      (fs : Fields) (vs : List Value) (seen seen' : List String) (n : Named (get "item_id" fs) seen)
      → seen' ≡ n.id ∷ seen
      → Listed vs seen'
      → Listed (obj fs ∷ vs) seen
  Listed-cons fs vs seen seen' n kept l =
      let adds : Adds has_item (obj fs) seen seen' = λ s. rw kept (rw n.reads refl) in
      record {
        named = ((n.id, rw n.reads (ground (arith, eq_iff n.id n.id)), n.matches), l.named);
        new = (
          Named-new (get "item_id" fs) seen n,
          keeps_new has_item (obj fs) seen seen' vs adds l.new,
        );
        distinct = (others has_item (obj fs) seen seen' vs adds l.new, l.distinct);
      }

  walk_items-Listed :
      (c : GroupContext) (path : String) (n : ℕ) (vs : List Value) (w : ItemWalk)
      → (walk_items lower c path n vs w).issues ≡ []
      → Listed vs w.item_ids
  unfolding walk_items
  walk_items-Listed c path n [] w h = record { named = tt; new = tt; distinct = tt }
  walk_items-Listed c path n (v ∷ vs) w h =
      let w1 = walk_item lower c v (indexed path n) w in
      let rest = walk_items-Listed c path (n + 1) vs w1 h in
      let clean = walk_items-clean lower c path (n + 1) vs w1 h in
      elim (object_cases v) [
        | inl (fs, e) ↦
            let (named, kept) =
              walk_item-ItemKept c fs (indexed path n) w
                (subst (λ x. (walk_item lower c x (indexed path n) w).issues ≡ []) e clean) in
            subst (λ x. Listed (x ∷ vs) w.item_ids) (sym e)
              (Listed-cons fs vs w.item_ids (walk_item lower c (obj fs) (indexed path n) w).item_ids
                named kept
                (subst (λ x. Listed vs (walk_item lower c x (indexed path n) w).item_ids) e rest))
        | inr other ↦ absurd (refused c v (indexed path n) w other clean)
      ]

  group_items-HasItems :
      (v : Value) (fs : Fields) (path : String) (issues : List ValidationIssue) (targets : Map)
      → (group_items lower v fs path issues targets).issues ≡ []
      → HasItems v
  unfolding group_items
  group_items-HasItems (arr (cons v vs)) fs path issues targets h =
      let l = walk_items-Listed (group_context fs path) (at path ".items") 0 (v ∷ entries vs) _ h in
      (cons v vs, refl, l.named, l.distinct)
  group_items-HasItems (arr nil) fs path issues targets h =
      absurd (ground (arith, (append_empty issues _ h).1))
  group_items-HasItems (str s) fs path issues targets h =
      absurd (ground (arith, (append_empty issues _ h).1))
  group_items-HasItems undefined fs path issues targets h =
      absurd (ground (arith, (append_empty issues _ h).1))
  group_items-HasItems null fs path issues targets h =
      absurd (ground (arith, (append_empty issues _ h).1))
  group_items-HasItems (obj f) fs path issues targets h =
      absurd (ground (arith, (append_empty issues _ h).1))
  group_items-HasItems (bool b) fs path issues targets h =
      absurd (ground (arith, (append_empty issues _ h).1))
  group_items-HasItems (num n) fs path issues targets h =
      absurd (ground (arith, (append_empty issues _ h).1))
  group_items-HasItems (other_num s) fs path issues targets h =
      absurd (ground (arith, (append_empty issues _ h).1))

  pub validate_parallel_group_step-HasItems :
      (fs : Fields) (path : String) (issues : List ValidationIssue) (targets : Map)
      → (validate_parallel_group_step lower fs path issues targets).issues ≡ []
      → HasItems (get "items" fs)
  unfolding validate_parallel_group_step
  validate_parallel_group_step-HasItems fs path issues targets h =
      group_items-HasItems (get "items" fs) fs path _ targets h
