-- ===== src/Driver/RoundRobin.antt =====
-- services/protocol-runner-driver/src/driver.ts: the order of a tick and the run it starts.
use protocol_runner.Common.{
  ℕ, zero, suc, ◌+◌, ◌≡◌, refl, ◌∙◌, String, Bool, true, false, ◌&&◌, some, List, All, ◌≤◌, [], ◌∷◌,
  ◌++◌, take, drop, count, count-append, any, count-any, find, arith, Bool-cases, inl, inr,
}
use protocol_runner.Driver.{
  Answer, RunListItem, DriverRunView, DriverDecisionAction, about_run, auto_advances,
  decision_for_run, is_activated, is_ready, round_robin_order, start_answered, start_ready, tick,
  visit, no_runs,
}

-- The runs that the driver may start.
abbrev pub is_eligible : RunListItem → Bool
is_eligible run = is_ready run.status && auto_advances run

decision_for_run-activated :
    (run : RunListItem) → is_activated (decision_for_run run).action ≡ is_eligible run
unfolding decision_for_run about_run
decision_for_run-activated run = ground arith

module _ {ℓ} {A : Type ℓ} where
  count-split :
      (p : A → Bool) (n : ℕ) (xs : List A) → count p (take n xs) + count p (drop n xs) ≡ count p xs
  count-split p zero xs = omega arith
  count-split p (suc n) [] = refl
  count-split p (suc n) (x ∷ xs) = ground (arith, count-split p n xs)

  count-rotation :
      (p : A → Bool) (n : ℕ) (xs : List A) → count p (drop n xs ++ take n xs) ≡ count p xs
  count-rotation p n xs = omega (arith, count-append p (drop n xs) (take n xs), count-split p n xs)

-- The order of a tick has every run as often as the list does.
pub round_robin_order-count :
    (p : RunListItem → Bool) (next_index : ℕ) (runs : List RunListItem)
    → count p (round_robin_order next_index runs) ≡ count p runs
unfolding round_robin_order
round_robin_order-count p next_index [] = refl
round_robin_order-count p next_index (r ∷ rs) = count-rotation p _ (r ∷ rs)

any-count : (p : RunListItem → Bool) (xs : List RunListItem) → any p xs ≡ true → 1 ≤ count p xs
any-count p [] h = absurd (cc)
any-count p (x ∷ xs) h = ground (arith, any-count p xs)

count-find-some :
    (p : RunListItem → Bool) (xs : List RunListItem)
    → 1 ≤ count p xs
    → (x : RunListItem) × (find p xs ≡ some x) × (p x ≡ true)
count-find-some p [] h = absurd (omega arith)
count-find-some p (x ∷ xs) h = elim (Bool-cases (p x)) [
  | inl here ↦ (x, rw here refl, here)
  | inr there ↦
      let (y, found, passes) = count-find-some p xs (ground (arith, h, there)) in
      (y, rw there found, passes)
]

some-equal : {x y : RunListItem} → some x ≡ some y → x ≡ y
some-equal e = cc

start_answered-emitted :
    (runs : List RunListItem) (n : ℕ) (run : RunListItem) (a : Answer DriverRunView)
    → All (λ d. is_activated d.action ≡ false) (start_answered runs n run a).emitted
unfolding start_answered
start_answered-emitted runs n run (Answer.answered v) = tt
start_answered-emitted runs n run (Answer.failed m) = tt

-- The loop starts the first eligible run, after it has skipped those before it.
visit-first :
    (start : String → Answer DriverRunView) (runs : List RunListItem) (next_index : ℕ)
    (order : List RunListItem) (run : RunListItem)
    → find is_eligible order ≡ some run
    → ((visit start runs next_index order).decision
        ≡ (start_ready start runs next_index run).decision)
      × ((visit start runs next_index order).next_index
          ≡ (start_ready start runs next_index run).next_index)
      × All (λ d. is_activated d.action ≡ false) (visit start runs next_index order).emitted
unfolding visit
visit-first start runs next_index [] run h = absurd (cc)
visit-first start runs next_index (r ∷ rs) run h = elim (Bool-cases (is_eligible r)) [
  | inl here ↦
      let same : r ≡ run = some-equal (rw here at h) in
      rw (decision_for_run-activated r, here, same)
        (refl, refl, start_answered-emitted runs next_index run _)
  | inr there ↦
      let (d, n, s) = visit-first start runs next_index rs run (rw there at h) in
      rw (decision_for_run-activated r ∙ there) (d, n, (decision_for_run-activated r ∙ there, s))
]

-- If some listed run is ready and advances automatically, a tick starts one: the first such run of
-- the round-robin order. It returns what became of that start, and emits before it only decisions
-- that skip a run.
pub tick-starts :
    (start : String → Answer DriverRunView) (runs : List RunListItem) (next_index : ℕ)
    → any is_eligible runs ≡ true
    → (run : RunListItem) × (find is_eligible (round_robin_order next_index runs) ≡ some run)
      × (is_eligible run ≡ true)
      × ((tick (Answer.answered runs) start next_index).decision
          ≡ (start_ready start runs next_index run).decision)
      × ((tick (Answer.answered runs) start next_index).next_index
          ≡ (start_ready start runs next_index run).next_index)
      × All
          (λ d. is_activated d.action ≡ false)
          (tick (Answer.answered runs) start next_index).emitted
unfolding tick
tick-starts start [] next_index h = absurd (cc)
tick-starts start (r ∷ rs) next_index h =
    let (run, found, passes) = count-find-some is_eligible (round_robin_order next_index (r ∷ rs)) (
      omega (
        arith,
        round_robin_order-count is_eligible next_index (r ∷ rs),
        any-count is_eligible (r ∷ rs) h,
      )) in
    let (decision, index, skips) =
      visit-first start (r ∷ rs) next_index (round_robin_order next_index (r ∷ rs)) run found in
    (run, found, passes, decision, index, skips)

visit-none :
    (start : String → Answer DriverRunView) (runs : List RunListItem) (n : ℕ)
    (order : List RunListItem)
    → count is_eligible order ≡ 0
    → ((visit start runs n order).decision.action ≡ DriverDecisionAction.no_eligible_runs)
      × ((visit start runs n order).next_index ≡ n)
unfolding visit no_runs
visit-none start runs n [] h = (refl, refl)
visit-none start runs n (r ∷ rs) h = elim (Bool-cases (is_eligible r)) [
  | inl here ↦ absurd (ground (arith, h, here))
  | inr there ↦
      rw (decision_for_run-activated r, there)
        (visit-none start runs n rs (ground (arith, h, there)))
]

-- If no listed run is ready and advances automatically, a tick starts none and says so, and the next
-- index stays.
pub tick-no_eligible :
    (start : String → Answer DriverRunView) (runs : List RunListItem) (next_index : ℕ)
    → any is_eligible runs ≡ false
    → ((tick (Answer.answered runs) start next_index).decision.action
        ≡ DriverDecisionAction.no_eligible_runs)
      × ((tick (Answer.answered runs) start next_index).next_index ≡ next_index)
unfolding tick no_runs
tick-no_eligible start [] next_index h = (refl, refl)
tick-no_eligible start (r ∷ rs) next_index h =
    visit-none start (r ∷ rs) next_index (round_robin_order next_index (r ∷ rs)) (
      omega (
        arith,
        round_robin_order-count is_eligible next_index (r ∷ rs),
        count-any is_eligible (r ∷ rs) h,
      ))
