-- ===== src/Core/Steps/Laws.antt =====
-- Looking a step up by its id and by its ordinal.
use protocol_runner.Common.{
  ℕ, zero, suc, ◌+◌, ◌≤◌, ◌<◌, String, ◌==◌, eq_iff, Bool, true, false, none, some, List, [], ◌∷◌,
  length, get_elem?, All, ◌≡◌, ◌≢◌, ◌↔◌, refl, sym, arith, Option-cases, Bool-cases, inl, inr,
  subst, ap, ◌-◌, ◌∙◌,
}
use protocol_runner.Core.Types.{RunStep, step_id, WorkPlan, ResolvedStep}
use protocol_runner.Core.Steps.{
  find_index, to_resolved_step, resolve_step, resolve_step_by_ordinal, list_resolved_steps,
  resolve_at, resolved, map_from,
}

-- No two steps of the list have the same id.
abbrev pub HasDistinctIds : List RunStep → Type 0
HasDistinctIds [] = Unit
HasDistinctIds (s ∷ ss) = All (λ t. step_id t ≢ step_id s) ss × HasDistinctIds ss

module _ {ℓ} {A : Type ℓ} (p : A → Bool) where
  find_index-finds :
      (xs : List A) {i : ℕ}
      → find_index p xs ≡ some i
      → (x : A) × (get_elem? xs i ≡ some x) × (p x ≡ true)
  find_index-finds [] {i} h = absurd (cc)
  find_index-finds (x ∷ xs) {i} h = elim (Bool-cases (p x)) [
    | inl e ↦ let e0 : 0 ≡ i = ground arith in rw (← e0) (x, refl, e)
    | inr e ↦ elim (Option-cases (find_index p xs)) [
      | inl none_left ↦ absurd (ground arith)
      | inr (j, found) ↦
          let (y, at, passes) = find_index-finds xs found in
          let e1 : suc j ≡ i = ground arith in rw (← e1) (y, at, passes)
    ]
  ]

  find_index-none : (xs : List A) → (find_index p xs ≡ none) ↔ All (λ x. p x ≡ false) xs
  find_index-none [] = ground arith
  find_index-none (x ∷ xs) = ground (arith, find_index-none xs)

get_elem?-lt {ℓ} :
    {A : Type ℓ} (xs : List A) (i : ℕ) {x : A} → get_elem? xs i ≡ some x → i < length xs
get_elem?-lt [] i h = absurd (cc)
get_elem?-lt (y ∷ ys) zero h = omega arith
get_elem?-lt (y ∷ ys) (suc i) h = omega (arith, get_elem?-lt ys i h)

All-get_elem? {ℓ κ} :
    {A : Type ℓ} (P : A → Type κ) (xs : List A) (i : ℕ) {x : A}
    → All P xs
    → get_elem? xs i ≡ some x
    → P x
All-get_elem? P [] i h e = absurd (cc)
All-get_elem? P (y ∷ ys) zero {x} h e = let same : y ≡ x = cc in subst P same h.0
All-get_elem? P (y ∷ ys) (suc i) h e = All-get_elem? P ys i h.1 e

find_index_distinct :
    (ss : List RunStep) (i : ℕ) {s : RunStep}
    → HasDistinctIds ss
    → get_elem? ss i ≡ some s
    → find_index (λ t. step_id t == step_id s) ss ≡ some i
find_index_distinct [] i d h = absurd (cc)
find_index_distinct (t ∷ ts) zero {s} d h =
    let same : t ≡ s = cc in ground (arith, eq_iff (step_id t) (step_id s), ap step_id same)
find_index_distinct (t ∷ ts) (suc i) {s} d h =
    let other : step_id s ≢ step_id t = All-get_elem? (λ u. step_id u ≢ step_id t) ts i d.0 h in
    ground (arith, eq_iff (step_id t) (step_id s), find_index_distinct ts i {s = s} d.1 h)

resolve_at-by_ordinal :
    (plan : WorkPlan) (i : ℕ) {r : ResolvedStep}
    → resolve_at plan i ≡ some r
    → (r.ordinal ≡ i + 1)
      × (i < length plan.steps)
      × (get_elem? plan.steps i ≡ some r.step)
      × (resolve_step_by_ordinal plan (i + 1) ≡ some r)
unfolding resolve_at resolve_step_by_ordinal to_resolved_step
resolve_at-by_ordinal plan i {r} h = elim (Option-cases (get_elem? plan.steps i)) [
  | inl e ↦ absurd (ground arith)
  | inr (s, e) ↦
      let bound : i < length plan.steps = get_elem?-lt plan.steps i e in
      let back : i + 1 - 1 ≡ i = omega arith in (ground arith, bound, ground arith, ground arith)
]

-- Resolving by id finds a step with that id, and resolving by the ordinal that it carries gives
-- the same step back; the ordinal lies between 1 and the number of steps.
pub resolve_step-by_ordinal :
    (plan : WorkPlan) (id : String) {r : ResolvedStep}
    → resolve_step plan id ≡ some r
    → (step_id r.step ≡ id)
      × (1 ≤ r.ordinal)
      × (r.ordinal ≤ length plan.steps)
      × (resolve_step_by_ordinal plan r.ordinal ≡ some r)
unfolding resolve_step
resolve_step-by_ordinal plan id {r} h =
    elim (Option-cases (find_index (λ s. step_id s == id) plan.steps)) [
      | inl e ↦ absurd (ground arith)
      | inr (i, e) ↦
          let (s, at, passes) = find_index-finds (λ s. step_id s == id) plan.steps e in
          let (ord, bound, same, back) = resolve_at-by_ordinal plan i {r = r} (ground arith) in
          let s_eq : s ≡ r.step = cc in
          (
            subst (λ t. step_id t ≡ id) s_eq ((eq_iff (step_id s) id).0 passes),
            omega arith,
            omega arith,
            subst (λ n. resolve_step_by_ordinal plan n ≡ some r) (sym ord) back,
          )
    ]

-- In a plan whose step ids are distinct, the id of a step resolved by its ordinal resolves to that
-- same step.
pub resolve_step_by_ordinal-by_id :
    (plan : WorkPlan) (n : ℕ) {r : ResolvedStep}
    → HasDistinctIds plan.steps
    → resolve_step_by_ordinal plan n ≡ some r
    → resolve_step plan (step_id r.step) ≡ some r
unfolding resolve_step_by_ordinal resolve_step
resolve_step_by_ordinal-by_id plan n {r} d h =
    let at : resolve_at plan (n - 1) ≡ some r = ground arith in
    let (ord, bound, same, back) = resolve_at-by_ordinal plan (n - 1) at in
    rw (resolve_step, find_index_distinct plan.steps (n - 1) {s = r.step} d same) at

resolve_found :
    (plan : WorkPlan) (id : String) (i : ℕ)
    → find_index (λ s. step_id s == id) plan.steps ≡ some i
    → resolve_at plan i ≢ none
unfolding resolve_at
resolve_found plan id i e =
    let (s, at, passes) = find_index-finds (λ s. step_id s == id) plan.steps e in ground arith

-- No step resolves for an id exactly when no step of the plan has it.
pub resolve_step-none :
    (plan : WorkPlan) (id : String)
    → (resolve_step plan id ≡ none) ↔ All (λ s. (step_id s == id) ≡ false) plan.steps
unfolding resolve_step
resolve_step-none plan id = elim (Option-cases (find_index (λ s. step_id s == id) plan.steps)) [
  | inl e ↦ ground (arith, find_index-none (λ s. step_id s == id) plan.steps)
  | inr (i, e) ↦
      ground (arith, find_index-none (λ s. step_id s == id) plan.steps, resolve_found plan id i e)
]

get_elem?-past {ℓ} : {A : Type ℓ} (xs : List A) (i : ℕ) → length xs ≤ i → get_elem? xs i ≡ none
get_elem?-past [] i h = refl
get_elem?-past (x ∷ xs) zero h = absurd (omega arith)
get_elem?-past (x ∷ xs) (suc i) h = get_elem?-past xs i (omega arith)

list_from :
    (plan : WorkPlan) (i j : ℕ) (ss : List RunStep)
    → get_elem? (map_from plan i ss) j ≡ resolved plan (i + j) (get_elem? ss j)
unfolding map_from resolved
list_from plan i j [] = refl
list_from plan i zero (s ∷ ss) = let e : i + 0 ≡ i = omega arith in rw e
list_from plan i (suc j) (s ∷ ss) =
    let e : i + suc j ≡ i + 1 + j = omega arith in rw e (list_from plan (i + 1) j ss)

by_ordinal_at : (plan : WorkPlan) (i : ℕ) → resolve_at plan i ≡ resolve_step_by_ordinal plan (i + 1)
unfolding resolve_at resolved resolve_step_by_ordinal
by_ordinal_at plan i =
    let e : i + 1 - 1 ≡ i = omega arith in rw e (ground (arith, get_elem?-past plan.steps i))

-- The list of resolved steps holds at each index what resolving by the ordinal one above finds.
pub list_resolved_steps-by_ordinal :
    (plan : WorkPlan) (i : ℕ)
    → get_elem? (list_resolved_steps plan) i ≡ resolve_step_by_ordinal plan (i + 1)
unfolding list_resolved_steps
list_resolved_steps-by_ordinal plan i =
    let f : 0 + i ≡ i = omega arith in
    let listed : get_elem? (map_from plan 0 plan.steps) i ≡ resolve_at plan i =
      unfold resolve_at in
      subst
        (λ k. get_elem? (map_from plan 0 plan.steps) i ≡ resolved plan k (get_elem? plan.steps i)) f
        (list_from plan 0 i plan.steps) in
    listed ∙ by_ordinal_at plan i
