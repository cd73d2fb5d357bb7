-- ===== src/Core/StateMachine/Laws.antt =====
-- What the table of run status transitions promises, as a relation and its reachability.
use mathlib.Core.Logic.{ite}
use protocol_runner.Common.{
  Bool, true, false, List, [], ◌∷◌, ◌≡◌, ◌≢◌, refl, sym, ◌∙◌, ◌⊎◌, ◌↔◌, inl, inr, arith,
}
use protocol_runner.Core.Types.{RunStatus, RunStatus-discrete, draft, bound, closed, failed}
use protocol_runner.Core.StateMachine.{
  allowed_transitions, includes_status, can_transition_run_status, validate_run_status_transition,
}

infix 40 ◌⟶◌ ◌⟶*◌
-- One permitted change of status.
abbrev pub ◌⟶◌ : RunStatus → RunStatus → Type 0
a ⟶ b = can_transition_run_status a b ≡ true

pub data ◌⟶*◌ (s : RunStatus) : RunStatus → Type 0 where
  here : s ⟶* s
  next : {t u : RunStatus} → s ⟶* t → t ⟶ u → s ⟶* u

abbrev is_initial : RunStatus → Bool
is_initial draft = true
is_initial bound = true
is_initial _ = false

step-started : (s t : RunStatus) → is_initial s ≡ false → s ⟶ t → is_initial t ≡ false
unfolding can_transition_run_status
step-started s t h e = ground arith

reach-started : {s t : RunStatus} → is_initial s ≡ false → s ⟶* t → is_initial t ≡ false
reach-started h here = h
reach-started h (next {t} {u} r e) = step-started t u (reach-started h r) e

-- A run that has left `draft` and `bound` never returns to either, by any sequence of permitted
-- changes of status.
pub reach-ne-initial :
    {s t : RunStatus} → s ≢ draft → s ≢ bound → s ⟶* t → (t ≢ draft) × (t ≢ bound)
reach-ne-initial {s} {t} p q r = ground (arith, reach-started {s = s} {t = t} (ground arith) r)

step_from_closed : (s t : RunStatus) → s ≡ closed → s ⟶ t → t ≡ closed
unfolding can_transition_run_status
step_from_closed s t h e = ground arith

reach_from_closed : {s t : RunStatus} → s ≡ closed → s ⟶* t → t ≡ closed
reach_from_closed h here = h
reach_from_closed h (next {t} {u} r e) = step_from_closed t u (reach_from_closed h r) e

last_steps : (s : RunStatus) → (s ⟶ failed) ⊎ (s ⟶ closed) ⊎ (s ≡ closed)
unfolding can_transition_run_status
last_steps s = ground arith

failed_closes : failed ⟶ closed
unfolding can_transition_run_status
failed_closes = refl

-- `closed` can be reached from every status by permitted changes.
pub reach-closed : (s : RunStatus) → s ⟶* closed
reach-closed s = elim (last_steps s) [
  | inl e ↦ next (next here e) failed_closes
  | inr (inl e) ↦ next here e
  | inr (inr e) ↦ rw e here
]

-- Nothing but `closed` can be reached from `closed`.
pub reach_from_closed_lem : {t : RunStatus} → closed ⟶* t → t ≡ closed
reach_from_closed_lem r = reach_from_closed refl r

-- A status is one of a list.
abbrev pub IsListed : RunStatus → List RunStatus → Type 0
IsListed t [] = ⊥
IsListed t (s ∷ ss) = (t ≡ s) ⊎ IsListed t ss

ite_yes : {P : Type 0} (d : Dec P) (b : Bool) → P → ite d true b ≡ true
ite_yes (yes p) b h = refl
ite_yes (no q) b h = absurd (q h)

ite_no : {P : Type 0} (d : Dec P) (b : Bool) → ¬ P → ite d true b ≡ b
ite_no (yes p) b n = absurd (n p)
ite_no (no q) b n = refl

includes_status_listed :
    (t : RunStatus) (ss : List RunStatus) → includes_status t ss ≡ true → IsListed t ss
unfolding includes_status
includes_status_listed t [] h = absurd (cc)
includes_status_listed t (s ∷ ss) h = elim (RunStatus-discrete s t) [
  | yes e ↦ inl (sym e)
  | no n ↦ inr (
      includes_status_listed t ss
        (sym (ite_no (RunStatus-discrete s t) (includes_status t ss) n) ∙ h))
]

listed-includes_status :
    (t : RunStatus) (ss : List RunStatus) → IsListed t ss → includes_status t ss ≡ true
unfolding includes_status
listed-includes_status t [] l = absurd l
listed-includes_status t (s ∷ ss) (inl e) =
    ite_yes (RunStatus-discrete s t) (includes_status t ss) (sym e)
listed-includes_status t (s ∷ ss) (inr l) = elim (RunStatus-discrete s t) [
  | yes e ↦ ite_yes (RunStatus-discrete s t) (includes_status t ss) e
  | no n ↦ ite_no (RunStatus-discrete s t) (includes_status t ss) n ∙ listed-includes_status t ss l
]

accepts : (s t : RunStatus) → ((validate_run_status_transition s t).ok ≡ true) ↔ (s ⟶ t)
unfolding validate_run_status_transition
accepts s t = ground arith

is_silent : (s t : RunStatus) → ((validate_run_status_transition s t).issues ≡ []) ↔ (s ⟶ t)
unfolding validate_run_status_transition
is_silent s t = ground arith

-- The validator accepts a change of status exactly when the new status is one of those that the table
-- lists for the old one, and it reports no issue exactly then.
pub validate_run_status_transition_iff :
    (s t : RunStatus)
    → (((validate_run_status_transition s t).ok ≡ true) ↔ IsListed t (allowed_transitions s))
      × (((validate_run_status_transition s t).issues ≡ []) ↔ IsListed t (allowed_transitions s))
unfolding can_transition_run_status
validate_run_status_transition_iff s t = (
  (
    λ h. includes_status_listed t (allowed_transitions s) ((accepts s t).0 h),
    λ l. (accepts s t).1 (listed-includes_status t (allowed_transitions s) l),
  ),
  (
    λ h. includes_status_listed t (allowed_transitions s) ((is_silent s t).0 h),
    λ l. (is_silent s t).1 (listed-includes_status t (allowed_transitions s) l),
  ),
)
