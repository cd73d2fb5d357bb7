-- ===== src/Core/Validation/Steps.antt =====
-- packages/protocol-runner-core/src/validation.ts: what one step of the loop over the steps has
-- checked, where it has pushed no issue.
use mathlib.Core.List.{List, [], ◌∷◌, ◌++◌}
use protocol_runner.Common.{
  ◌≡◌, refl, sym, ◌∙◌, subst, String, includes, Bool, true, false, ◌&&◌, ◌||◌, any, if_intro, arith,
}
use protocol_runner.Core.Types.{Value, Fields, undefined, null, obj, arr, str, bool, num, other_num}
use protocol_runner.Core.Completion.{get}
use protocol_runner.Core.Validation.{at, is_exactly, transition_issues}
use protocol_runner.Core.Validation.ItemIds.{HasItems, validate_parallel_group_step-HasItems}
use protocol_runner.Core.Validation.Names.{Named-new}
use protocol_runner.Core.Validation.Clean.{
  append_empty, Named, unique_id_issues-Named, validate_parallel_group_step-clean,
}
use protocol_runner.Core.Validation.Plan.{
  Target, PlanWalk, id_walk, is_kind, kind_walk, group_walk, rule_walk, rules_walk, walk_step,
  target_at,
}

-- The step's id, and the id of a parallel group, as the plan reads.
abbrev pub has_id : String → Value → Bool
has_id t (obj fs) = is_exactly t (get "step_id" fs)
has_id t v = false

abbrev pub is_group : Value → Bool
is_group (obj fs) = is_exactly "parallel_group" (get "step_kind" fs)
is_group v = false

abbrev pub has_group : String → Value → Bool
has_group t (obj fs) = is_group (obj fs) && is_exactly t (get "group_id" fs)
has_group t v = false

-- A rule that goes to a step, and a step with such a rule.
abbrev pub rule_goes_to : String → Value → Bool
rule_goes_to t (obj r) = is_exactly "go_to" (get "action" r) && is_exactly t (get "step_id" r)
rule_goes_to t v = false

abbrev pub goes_to : String → Value → Bool
goes_to t (obj fs) = rule_goes_to t (get "on_completed" fs) || rule_goes_to t (get "on_blocked" fs)
goes_to t v = false

abbrev pub has_target : String → List Target → Bool
has_target t ts = any (λ (x : Target). is_exactly t x.step_id) ts

any-append {ℓ} :
    {A : Type ℓ} (p : A → Bool) (xs ys : List A) → any p (xs ++ ys) ≡ (any p xs || any p ys)
any-append p [] ys = refl
any-append p (x ∷ xs) ys = ground (arith, any-append p xs ys)

either-moved :
    (a b c : Bool) {d e : Bool}
    → ((a || b) || c) ≡ true
    → ((a || c) ≡ true → d ≡ true)
    → ((b || d) ≡ true → e ≡ true)
    → e ≡ true
either-moved true b c h f g = ground (arith, f refl, g)
either-moved false b true h f g = ground (arith, f refl, g)
either-moved false b false h f g = ground (arith, g, h)

module _ (lower : String → String) where
  target_at-goes :
      (t : String) (rule : Value) (path : String)
      → rule_goes_to t rule ≡ true
      → has_target t (target_at lower rule path) ≡ true
  target_at-goes t (obj r) path h = ground (arith, h)
  target_at-goes t (str s) path h = absurd (cc)
  target_at-goes t undefined path h = absurd (cc)
  target_at-goes t null path h = absurd (cc)
  target_at-goes t (arr vs) path h = absurd (cc)
  target_at-goes t (bool b) path h = absurd (cc)
  target_at-goes t (num n) path h = absurd (cc)
  target_at-goes t (other_num s) path h = absurd (cc)

  rule_walk-clean :
      (rule : Value) (path : String) (w : PlanWalk)
      → (rule_walk lower rule path w).issues ≡ []
      → (w.issues ≡ [])
        × ((t : String)
            → (rule_goes_to t rule || has_target t w.transitions) ≡ true
            → has_target t (rule_walk lower rule path w).transitions ≡ true)
  unfolding rule_walk
  rule_walk-clean rule path w h =
      let (clean, own) = append_empty w.issues (transition_issues rule path) h in
      (
        clean,
        λ t e. rw own (
            any-append (λ (x : Target). is_exactly t x.step_id) w.transitions
              (target_at lower rule path)
            ∙ ground (arith, e, target_at-goes t rule path)),
      )

  pub record Stepped (fs : Fields) (w w' : PlanWalk) : Type 0 where
    pub clean : w.issues ≡ []
    pub named : Named (get "step_id" fs) w.step_ids
    pub ids : w'.step_ids ≡ named.id ∷ w.step_ids
    pub groups :
        (s : String) → includes s w'.group_ids ≡ (has_group s (obj fs) || includes s w.group_ids)
    pub new_group : (s : String) → has_group s (obj fs) ≡ true → includes s w.group_ids ≡ false
    pub items : is_group (obj fs) ≡ true → HasItems (get "items" fs)
    pub saw : w'.saw_group ≡ (is_group (obj fs) || w.saw_group)
    pub targets :
        (t : String)
        → (goes_to t (obj fs) || has_target t w.transitions) ≡ true
        → has_target t w'.transitions ≡ true

  -- What the branch on the kind has done.
  record Kinded (fs : Fields) (w w' : PlanWalk) : Type 0 where
    clean : w.issues ≡ []
    same_ids : w'.step_ids ≡ w.step_ids
    same_transitions : w'.transitions ≡ w.transitions
    groups :
        (s : String) → includes s w'.group_ids ≡ (has_group s (obj fs) || includes s w.group_ids)
    new_group : (s : String) → has_group s (obj fs) ≡ true → includes s w.group_ids ≡ false
    items : is_group (obj fs) ≡ true → HasItems (get "items" fs)
    saw : w'.saw_group ≡ (is_group (obj fs) || w.saw_group)

  group_walk-Kinded :
      (fs : Fields) (path : String) (w : PlanWalk)
      → is_group (obj fs) ≡ true
      → (group_walk lower fs path w).issues ≡ []
      → Kinded fs w (group_walk lower fs path w)
  unfolding group_walk
  group_walk-Kinded fs path w group h =
      let before = validate_parallel_group_step-clean lower fs path _ w.targets h in
      let (clean, own) = append_empty w.issues _ before in
      let named = unique_id_issues-Named _ _ (get "group_id" fs) _ w.group_ids own in
      record {
        clean = clean;
        same_ids = refl;
        same_transitions = refl;
        groups = λ s. rw group (rw named.kept (rw named.reads refl));
        new_group =
            λ s e. Named-new (get "group_id" fs) w.group_ids named s (ground (arith, e, group));
        items = λ e. validate_parallel_group_step-HasItems lower fs path _ w.targets h;
        saw = rw group refl;
      }

  kind_walk-Kinded :
      (fs : Fields) (path : String) (w : PlanWalk)
      → (kind_walk lower fs path w).issues ≡ []
      → Kinded fs w (kind_walk lower fs path w)
  unfolding kind_walk
  kind_walk-Kinded fs path w =
      if_intro (λ (r : PlanWalk). r.issues ≡ [] → Kinded fs w r)
        (is_exactly "parallel_group" (get "step_kind" fs))
        (λ group h. group_walk-Kinded fs path w group h)
        (λ serial h. record {
          clean = (append_empty w.issues _ h).0;
          same_ids = refl;
          same_transitions = refl;
          groups = λ s. rw serial refl;
          new_group = λ s e. absurd (ground (arith, e, serial));
          items = λ e. absurd (ground (arith, e, serial));
          saw = rw serial refl;
        })

  pub walk_step-Stepped :
      (fs : Fields) (path : String) (w : PlanWalk)
      → (walk_step lower (obj fs) path w).issues ≡ []
      → Stepped fs w (walk_step lower (obj fs) path w)
  unfolding walk_step id_walk rules_walk
  walk_step-Stepped fs path w =
      if_intro (λ (r : PlanWalk). r.issues ≡ [] → Stepped fs w r) (is_kind (get "step_kind" fs))
        (λ known h.
          let identified = id_walk fs path w in
          let kinded = kind_walk lower fs path identified in
          let completed =
            rule_walk lower (get "on_completed" fs) (at path ".on_completed") kinded in
          let (clean2, moved2) =
            rule_walk-clean (get "on_blocked" fs) (at path ".on_blocked") completed h in
          let (clean1, moved1) =
            rule_walk-clean (get "on_completed" fs) (at path ".on_completed") kinded clean2 in
          let k = kind_walk-Kinded fs path identified clean1 in
          let (clean, own) = append_empty w.issues _ k.clean in
          let named = unique_id_issues-Named _ _ (get "step_id" fs) _ w.step_ids own in
          record {
            clean = clean;
            named = named;
            ids = k.same_ids ∙ named.kept;
            groups = k.groups;
            new_group = k.new_group;
            items = k.items;
            saw = k.saw;
            targets = λ t e.
                either-moved (rule_goes_to t (get "on_completed" fs))
                  (rule_goes_to t (get "on_blocked" fs)) (has_target t w.transitions) e
                  (λ x. moved1 t (
                    subst (λ ts. (rule_goes_to t (get "on_completed" fs) || has_target t ts) ≡ true)
                      (sym k.same_transitions) x))
                  (moved2 t);
          })
        (λ unknown h. absurd (ground (arith, (append_empty (id_walk fs path w).issues _ h).1)))
