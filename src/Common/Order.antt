-- ===== src/Common/Order.antt =====
-- Insertion sort by a test, and what holds between every two elements of a list.
use Prim.Native.Nat.{ℕ, zero, suc}
use mathlib.Core.Path.{◌≡◌}
use mathlib.Core.Bool.{Bool, true}
use mathlib.Core.List.{List, [], ◌∷◌}
use native.Mathlib.Omega.{arith}
use protocol_runner.Common.Tests.{if◌then◌else◌}
use protocol_runner.Common.Lists.{All, keep, take}

module _ {ℓ} {A : Type ℓ} where
  unfoldable pub insert_by : (A → A → Bool) → A → List A → List A
  insert_by le a [] = a ∷ []
  insert_by le a (x ∷ xs) = if le a x then a ∷ x ∷ xs else x ∷ insert_by le a xs

  -- `ORDER BY`, and `sort` with a comparison.
  unfoldable pub sort_by : (A → A → Bool) → List A → List A
  unfolding insert_by
  sort_by le [] = []
  sort_by le (x ∷ xs) = insert_by le x (sort_by le xs)

module _ {ℓ κ} {A : Type ℓ} (P : A → Type κ) where
  pub All-insert_by :
      (le : A → A → Bool) (a : A) (xs : List A) → P a → All P xs → All P (insert_by le a xs)
  unfolding insert_by
  All-insert_by le a [] p h = (p, tt)
  All-insert_by le a (x ∷ xs) p (q, h) = ground (arith, All-insert_by le a xs p h)

  pub All-sort_by : (le : A → A → Bool) (xs : List A) → All P xs → All P (sort_by le xs)
  unfolding sort_by
  All-sort_by le [] h = tt
  All-sort_by le (x ∷ xs) (p, h) = All-insert_by le x (sort_by le xs) p (All-sort_by le xs h)

  pub All-keep : (t : A → Bool) (xs : List A) → All P xs → All P (keep t xs)
  All-keep t [] h = tt
  All-keep t (x ∷ xs) (p, h) = ground (arith, All-keep t xs h)

  -- What is kept passes the test.
  pub All-keep_passes :
      (t : A → Bool) (xs : List A) → ((x : A) → t x ≡ true → P x) → All P (keep t xs)
  All-keep_passes t [] f = tt
  All-keep_passes t (x ∷ xs) f = ground (arith, f x, All-keep_passes t xs f)

  pub All-take : (n : ℕ) (xs : List A) → All P xs → All P (take n xs)
  All-take zero xs h = tt
  All-take (suc n) [] h = tt
  All-take (suc n) (x ∷ xs) (p, h) = (p, All-take n xs h)

-- The relation holds from each element to every later one.
module _ {ℓ κ} {A : Type ℓ} (R : A → A → Type κ) where
  abbrev pub Pairwise : List A → Type κ
  Pairwise [] = Unit
  Pairwise (x ∷ xs) = All (R x) xs × Pairwise xs

  pub Pairwise-keep : (t : A → Bool) (xs : List A) → Pairwise xs → Pairwise (keep t xs)
  Pairwise-keep t [] h = tt
  Pairwise-keep t (x ∷ xs) (p, h) = ground (arith, All-keep (R x) t xs p, Pairwise-keep t xs h)

  pub Pairwise-take : (n : ℕ) (xs : List A) → Pairwise xs → Pairwise (take n xs)
  Pairwise-take zero xs h = tt
  Pairwise-take (suc n) [] h = tt
  Pairwise-take (suc n) (x ∷ xs) (p, h) = (All-take (R x) n xs p, Pairwise-take n xs h)

module _ {ℓ κ} {A : Type ℓ} (R : A → A → Type κ) (sym_R : (x y : A) → R x y → R y x) where
  All-sym : (a : A) (xs : List A) → All (R a) xs → All (λ x. R x a) xs
  All-sym a [] h = tt
  All-sym a (x ∷ xs) (p, h) = (sym_R a x p, All-sym a xs h)

  pub Pairwise-insert_by :
      (le : A → A → Bool) (a : A) (xs : List A)
      → All (R a) xs
      → Pairwise R xs
      → Pairwise R (insert_by le a xs)
  unfolding insert_by
  Pairwise-insert_by le a [] h k = (tt, tt)
  Pairwise-insert_by le a (x ∷ xs) (p, h) (q, k) =
      ground (arith, All-insert_by (R x) le a xs (sym_R a x p) q, Pairwise-insert_by le a xs h k)

  pub Pairwise-sort_by :
      (le : A → A → Bool) (xs : List A) → Pairwise R xs → Pairwise R (sort_by le xs)
  unfolding sort_by
  Pairwise-sort_by le [] h = tt
  Pairwise-sort_by le (x ∷ xs) (p, h) =
      Pairwise-insert_by le x (sort_by le xs) (All-sort_by (R x) le xs p) (Pairwise-sort_by le xs h)
