-- ===== src/Core/Validation/Accepted.antt =====
-- packages/protocol-runner-core/src/validation.ts: what an accepted work plan promises to the run that
-- is made from it.
use mathlib.Core.List.{List, [], ◌∷◌}
use protocol_runner.Common.{
  ◌≡◌, ◌≢◌, refl, sym, subst, String, includes, true, false, ◌||◌, any, arith, ℕ, ◌+◌, Bool-cases,
  inl, inr, All, All-imp, Pairwise, id_pattern, eq_iff,
}
use protocol_runner.Core.Types.{
  Value, Items, Fields, undefined, null, obj, arr, str, bool, num, other_num, nil, cons,
}
use protocol_runner.Core.Completion.{get}
use protocol_runner.Core.Validation.{is_exactly, entries}
use protocol_runner.Core.Validation.Capabilities.{indexed}
use protocol_runner.Core.Validation.ItemIds.{HasItems}
use protocol_runner.Core.Validation.Names.{
  IsOther, IsNewIn, Adds, keeps_new, others, is_object, object_cases, Named-new,
}
use protocol_runner.Core.Validation.Clean.{append_empty, is_empty_list-nil, demand-passes}
use protocol_runner.Core.Validation.Plan.{
  Target, PlanWalk, walk_step, walk_steps, unknown_targets, end_issues, header_issues, start_walk,
  steps_issues, validate_work_plan, known,
}
use protocol_runner.Core.Validation.Steps.{
  has_id, is_group, has_group, goes_to, has_target, Stepped, walk_step-Stepped,
}

-- The step is an object with a well-formed id.
abbrev pub IsNamed : Value → Type 0
IsNamed v = (s : String) × (has_id s v ≡ true) × (id_pattern s ≡ true)

abbrev pub HasKnownTargets : List Value → Value → Type 0
HasKnownTargets steps v = (t : String) → goes_to t v ≡ true → any (has_id t) steps ≡ true

-- The items of a parallel group are objects with distinct and well-formed ids.
abbrev pub HasGroupItems : Value → Type 0
HasGroupItems v = (fs : Fields) → v ≡ obj fs → is_group v ≡ true → HasItems (get "items" fs)

-- Every step has a well-formed id, ids of steps and of parallel groups do not occur twice, a rule
-- goes to a step of the plan, the items of a group have well-formed ids of which none occurs twice, and
-- a serial plan has no parallel group.
pub record IsAccepted (plan : Fields) (steps : List Value) : Type 0 where
  pub named : All IsNamed steps
  pub other_steps : Pairwise (IsOther has_id) steps
  pub other_groups : Pairwise (IsOther has_group) steps
  pub group_items : All HasGroupItems steps
  pub known_targets : All (HasKnownTargets steps) steps
  pub mode : is_exactly "serial" (get "execution_mode" plan) ≡ true → any is_group steps ≡ false

exactly_known :
    (v : Value) (t : String) (ids : List String)
    → is_exactly t v ≡ true
    → known v ids ≡ true
    → includes t ids ≡ true
exactly_known (str s) t ids h k =
    subst (λ x. includes x ids ≡ true) (ground (arith, h, eq_iff s t)) k
exactly_known (arr vs) t ids h k = absurd (cc)
exactly_known (obj fs) t ids h k = absurd (cc)
exactly_known undefined t ids h k = absurd (cc)
exactly_known null t ids h k = absurd (cc)
exactly_known (bool b) t ids h k = absurd (cc)
exactly_known (num n) t ids h k = absurd (cc)
exactly_known (other_num s) t ids h k = absurd (cc)

module _ (lower : String → String) where
  -- What the loop has checked, from `w` to its end `w'`.
  record Walked (vs : List Value) (w w' : PlanWalk) : Type 0 where
    clean : w.issues ≡ []
    named : All IsNamed vs
    new_ids : All (IsNewIn has_id w.step_ids) vs
    other_steps : Pairwise (IsOther has_id) vs
    ids : (s : String) → includes s w'.step_ids ≡ (any (has_id s) vs || includes s w.step_ids)
    new_groups : All (IsNewIn has_group w.group_ids) vs
    other_groups : Pairwise (IsOther has_group) vs
    group_items : All HasGroupItems vs
    saw : w'.saw_group ≡ (any is_group vs || w.saw_group)
    targets : All (λ v. (t : String) → goes_to t v ≡ true → has_target t w'.transitions ≡ true) vs
    kept : (t : String) → has_target t w.transitions ≡ true → has_target t w'.transitions ≡ true

  Stepped-ids :
      (fs : Fields) (w w' : PlanWalk) (p : Stepped lower fs w w')
      → Adds has_id (obj fs) w.step_ids w'.step_ids
  Stepped-ids fs w w' p s = rw p.ids (rw p.named.reads refl)

  Stepped-IsNamed : (fs : Fields) (w w' : PlanWalk) (p : Stepped lower fs w w') → IsNamed (obj fs)
  Stepped-IsNamed fs w w' p =
      (p.named.id, rw p.named.reads (ground (arith, eq_iff p.named.id p.named.id)), p.named.matches)

  Stepped-items : (fs : Fields) (w w' : PlanWalk) → Stepped lower fs w w' → HasGroupItems (obj fs)
  Stepped-items fs w w' p gs same group =
      let eq : fs ≡ gs = cc in subst (λ x. HasItems (get "items" x)) eq (p.items group)

  Walked-cons :
      (fs : Fields) (vs : List Value) (w w1 w' : PlanWalk)
      → Stepped lower fs w w1
      → Walked vs w1 w'
      → Walked (obj fs ∷ vs) w w'
  Walked-cons fs vs w w1 w' p r = record {
    clean = p.clean;
    named = (Stepped-IsNamed fs w w1 p, r.named);
    new_ids = (
      Named-new (get "step_id" fs) w.step_ids p.named,
      keeps_new has_id (obj fs) w.step_ids w1.step_ids vs (Stepped-ids fs w w1 p) r.new_ids,
    );
    other_steps = (
      others has_id (obj fs) w.step_ids w1.step_ids vs (Stepped-ids fs w w1 p) r.new_ids,
      r.other_steps,
    );
    ids = λ s. ground (arith, r.ids s, Stepped-ids fs w w1 p s);
    new_groups = (
      p.new_group,
      keeps_new has_group (obj fs) w.group_ids w1.group_ids vs p.groups r.new_groups,
    );
    other_groups = (
      others has_group (obj fs) w.group_ids w1.group_ids vs p.groups r.new_groups,
      r.other_groups,
    );
    group_items = (Stepped-items fs w w1 p, r.group_items);
    saw = ground (arith, r.saw, p.saw);
    targets = ((λ t e. r.kept t (p.targets t (ground (arith, e)))), r.targets);
    kept = λ t e. r.kept t (p.targets t (ground (arith, e)));
  }

  refused :
      (v : Value) (path : String) (w : PlanWalk)
      → is_object v ≡ false
      → (walk_step lower v path w).issues ≢ []
  unfolding walk_step is_object
  refused (obj fs) path w e h = absurd (cc)
  refused (arr vs) path w e h = absurd (ground (arith, (append_empty w.issues _ h).1))
  refused (str s) path w e h = absurd (ground (arith, (append_empty w.issues _ h).1))
  refused undefined path w e h = absurd (ground (arith, (append_empty w.issues _ h).1))
  refused null path w e h = absurd (ground (arith, (append_empty w.issues _ h).1))
  refused (bool b) path w e h = absurd (ground (arith, (append_empty w.issues _ h).1))
  refused (num n) path w e h = absurd (ground (arith, (append_empty w.issues _ h).1))
  refused (other_num s) path w e h = absurd (ground (arith, (append_empty w.issues _ h).1))

  walk_steps-Walked :
      (n : ℕ) (vs : List Value) (w : PlanWalk)
      → (walk_steps lower n vs w).issues ≡ []
      → Walked vs w (walk_steps lower n vs w)
  unfolding walk_steps
  walk_steps-Walked n [] w h = record {
    clean = h;
    named = tt;
    new_ids = tt;
    other_steps = tt;
    ids = λ s. refl;
    new_groups = tt;
    other_groups = tt;
    group_items = tt;
    saw = refl;
    targets = tt;
    kept = λ t e. e;
  }
  walk_steps-Walked n (v ∷ vs) w h =
      let w1 = walk_step lower v (indexed "$.steps" n) w in
      let rest = walk_steps-Walked (n + 1) vs w1 h in
      elim (object_cases v) [
        | inl (fs, e) ↦
            let clean : (walk_step lower (obj fs) (indexed "$.steps" n) w).issues ≡ [] =
              subst (λ x. (walk_step lower x (indexed "$.steps" n) w).issues ≡ []) e rest.clean in
            subst (λ x. Walked (x ∷ vs) w (walk_steps lower (n + 1) vs w1)) (sym e)
              (Walked-cons fs vs w w1 (walk_steps lower (n + 1) vs w1)
                (subst (λ x. Stepped lower fs w (walk_step lower x (indexed "$.steps" n) w)) (sym e)
                  (walk_step-Stepped lower fs (indexed "$.steps" n) w clean))
                rest)
        | inr other ↦ absurd (refused v (indexed "$.steps" n) w other rest.clean)
      ]

unknown_targets-known :
    (step_ids : List String) (ts : List Target)
    → unknown_targets step_ids ts ≡ []
    → (t : String) → has_target t ts ≡ true
    → includes t step_ids ≡ true
unfolding unknown_targets
unknown_targets-known step_ids [] h t e = absurd (cc)
unknown_targets-known step_ids (x ∷ ts) h t e =
    let (own, rest) = append_empty _ (unknown_targets step_ids ts) h in
    let found = demand-passes _ _ _ _ own in
    elim (Bool-cases (is_exactly t x.step_id)) [
      | inl hit ↦ exactly_known x.step_id t step_ids hit found
      | inr miss ↦ unknown_targets-known step_ids ts rest t (ground (arith, e, miss))
    ]

module _ (lower : String → String) where
  Walked-IsAccepted :
      (plan : Fields) (vs : List Value) (w' : PlanWalk)
      → Walked lower vs (start_walk (header_issues plan)) w'
      → end_issues plan w' ≡ []
      → IsAccepted plan vs
  unfolding end_issues
  Walked-IsAccepted plan vs w' r h =
      let (targets, mode) = append_empty (unknown_targets w'.step_ids w'.transitions) _ h in
      record {
        named = r.named;
        other_steps = r.other_steps;
        other_groups = r.other_groups;
        group_items = r.group_items;
        known_targets =
            All-imp (λ v. (t : String) → goes_to t v ≡ true → has_target t w'.transitions ≡ true)
              (HasKnownTargets vs) vs
              (λ v goes t e.
                let found = unknown_targets-known w'.step_ids w'.transitions targets t (goes t e) in
                ground (arith, found, r.ids t))
              r.targets;
        mode = λ serial.
            let passed = demand-passes _ _ _ _ mode in ground (arith, serial, passed, r.saw);
      }

  steps_issues-IsAccepted :
      (v : Value) (plan : Fields)
      → steps_issues lower v plan ≡ []
      → (steps : Items) × (v ≡ arr steps) × IsAccepted plan (entries steps)
  unfolding steps_issues
  steps_issues-IsAccepted (arr (cons v vs)) plan h =
      let start = start_walk (header_issues plan) in
      let (walked, ended) = append_empty (walk_steps lower 0 (v ∷ entries vs) start).issues _ h in
      (
        cons v vs,
        refl,
        Walked-IsAccepted plan (v ∷ entries vs) (walk_steps lower 0 (v ∷ entries vs) start)
            (walk_steps-Walked lower 0 (v ∷ entries vs) start walked) ended,
      )
  steps_issues-IsAccepted (arr nil) plan h =
      absurd (ground (arith, (append_empty (header_issues plan) _ h).1))
  steps_issues-IsAccepted (obj fs) plan h =
      absurd (ground (arith, (append_empty (header_issues plan) _ h).1))
  steps_issues-IsAccepted (str s) plan h =
      absurd (ground (arith, (append_empty (header_issues plan) _ h).1))
  steps_issues-IsAccepted undefined plan h =
      absurd (ground (arith, (append_empty (header_issues plan) _ h).1))
  steps_issues-IsAccepted null plan h =
      absurd (ground (arith, (append_empty (header_issues plan) _ h).1))
  steps_issues-IsAccepted (bool b) plan h =
      absurd (ground (arith, (append_empty (header_issues plan) _ h).1))
  steps_issues-IsAccepted (num n) plan h =
      absurd (ground (arith, (append_empty (header_issues plan) _ h).1))
  steps_issues-IsAccepted (other_num s) plan h =
      absurd (ground (arith, (append_empty (header_issues plan) _ h).1))

  -- A value that is accepted as a work plan is an object whose steps are an array; every step has a
  -- well-formed id, no two steps have one id and no two parallel groups have one group id, every
  -- `go_to` rule of a step names a step of the plan, the items of a group have well-formed ids of which
  -- none occurs twice, and a serial plan has no parallel group.
  pub validate_work_plan-IsAccepted :
      (v : Value)
      → (validate_work_plan lower v).ok ≡ true
      → (plan : Fields) × (steps : Items) × (v ≡ obj plan)
        × (get "steps" plan ≡ arr steps)
        × IsAccepted plan (entries steps)
  unfolding validate_work_plan
  validate_work_plan-IsAccepted (obj fs) h =
      let (steps, e, accepted) =
        steps_issues-IsAccepted (get "steps" fs) fs (is_empty_list-nil _ h) in
      (fs, steps, refl, e, accepted)
  validate_work_plan-IsAccepted (arr vs) h = absurd (cc)
  validate_work_plan-IsAccepted (str s) h = absurd (cc)
  validate_work_plan-IsAccepted undefined h = absurd (cc)
  validate_work_plan-IsAccepted null h = absurd (cc)
  validate_work_plan-IsAccepted (bool b) h = absurd (cc)
  validate_work_plan-IsAccepted (num n) h = absurd (cc)
  validate_work_plan-IsAccepted (other_num s) h = absurd (cc)
