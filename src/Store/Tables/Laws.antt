-- ===== src/Store/Tables/Laws.antt =====
-- Lemmas on the updates of services/protocol-runner-api/src/store.ts: counts and look-ups.
use protocol_runner.Common.{
  ◌+◌, ◌≤◌, ◌≡◌, refl, Bool, true, false, ◌&&◌, some, List, [], ◌∷◌, ◌++◌, All, find, count, any,
  arith, if◌then◌else◌, Bool-cases, inl, inr,
}
use protocol_runner.Store.Tables.{update_where}

module _ {ℓ} {A : Type ℓ} (p : A → Bool) (f : A → A) (q : A → Bool) where
  pub count-update_where :
      (xs : List A) → ((x : A) → q (f x) ≡ q x) → count q (update_where p f xs) ≡ count q xs
  unfolding update_where
  count-update_where [] h = refl
  count-update_where (x ∷ xs) h = ground (arith, h x, count-update_where xs h)

  -- An update under which no changed row passes the test takes away those that passed both tests.
  pub count-update_where_away :
      (xs : List A)
      → ((x : A) → q (f x) ≡ false)
      → count q (update_where p f xs) + count (λ x. p x && q x) xs ≡ count q xs
  unfolding update_where
  count-update_where_away [] h = refl
  count-update_where_away (x ∷ xs) h = ground (arith, h x, count-update_where_away xs h)

  pub find-update_where :
      (xs : List A) {x : A}
      → ((y : A) → q (f y) ≡ q y)
      → find q xs ≡ some x
      → find q (update_where p f xs) ≡ some (if p x then f x else x)
  unfolding update_where
  find-update_where [] h e = absurd (cc)
  find-update_where (y ∷ ys) {x} h e = elim (Bool-cases (q y)) [
    | inl here ↦ let same : y ≡ x = ground arith in ground (arith, h y)
    | inr there ↦
        let found : find q ys ≡ some x = ground arith in
        ground (arith, h y, find-update_where ys {x = x} h found)
  ]

  pub find-update_where_inv :
      (xs : List A) {y : A}
      → ((z : A) → q (f z) ≡ q z)
      → find q (update_where p f xs) ≡ some y
      → (x : A) × (find q xs ≡ some x) × (y ≡ (if p x then f x else x))
  unfolding update_where
  find-update_where_inv [] h e = absurd (cc)
  find-update_where_inv (z ∷ zs) {y} h e = elim (Bool-cases (q z)) [
    | inl here ↦ (z, rw here, ground (arith, h z))
    | inr there ↦
        let later : find q (update_where p f zs) ≡ some y = ground (arith, h z) in
        let (x, found, same) = find-update_where_inv zs h later in (x, rw there found, same)
  ]

pub All-update_where {ℓ κ} :
    {A : Type ℓ} (P Q : A → Type κ) (p : A → Bool) (f : A → A) (xs : List A)
    → ((x : A) → P x → Q (if p x then f x else x))
    → All P xs
    → All Q (update_where p f xs)
unfolding update_where
All-update_where P Q p f [] h a = tt
All-update_where P Q p f (x ∷ xs) h (a, as') = (h x a, All-update_where P Q p f xs h as')

module _ {ℓ} {A : Type ℓ} where
  pub count-find :
      (p q : A → Bool) (xs : List A) {x : A}
      → find p xs ≡ some x
      → q x ≡ true
      → 1 ≤ count (λ y. p y && q y) xs
  count-find p q [] h e = absurd (cc)
  count-find p q (y ∷ ys) {x} h e = elim (Bool-cases (p y)) [
    | inl here ↦ let same : y ≡ x = ground arith in ground (arith, same)
    | inr there ↦
        let found : find p ys ≡ some x = ground arith in
        ground (arith, count-find p q ys {x = x} found e)
  ]

  pub find-append_left :
      (p : A → Bool) (xs ys : List A) {x : A} → find p xs ≡ some x → find p (xs ++ ys) ≡ some x
  find-append_left p [] ys h = absurd (cc)
  find-append_left p (z ∷ zs) ys {x} h = ground (arith, find-append_left p zs ys {x = x})

  pub find-any : (p : A → Bool) (xs : List A) → any p xs ≡ true → (x : A) × (find p xs ≡ some x)
  find-any p [] h = absurd (cc)
  find-any p (x ∷ xs) h = elim (Bool-cases (p x)) [
    | inl here ↦ (x, rw here)
    | inr there ↦ let (y, found) = find-any p xs (ground arith) in (y, rw there found)
  ]

  pub count-le-count :
      (p q : A → Bool) (xs : List A) → ((x : A) → p x ≡ true → q x ≡ true) → count p xs ≤ count q xs
  count-le-count p q [] h = omega arith
  count-le-count p q (x ∷ xs) h = ground (arith, h x, count-le-count p q xs h)

  pub count-eq-count :
      (p q : A → Bool) (xs : List A) → ((x : A) → p x ≡ q x) → count p xs ≡ count q xs
  count-eq-count p q [] h = refl
  count-eq-count p q (x ∷ xs) h = ground (arith, h x, count-eq-count p q xs h)

-- An update of rows that fail a test leaves the first row that passes it.
pub find-update_where_other {ℓ} :
    {A : Type ℓ} (p : A → Bool) (f : A → A) (q : A → Bool) (xs : List A)
    → ((x : A) → p x ≡ true → (q x ≡ false) × (q (f x) ≡ false))
    → find q (update_where p f xs) ≡ find q xs
unfolding update_where
find-update_where_other p f q [] h = refl
find-update_where_other p f q (x ∷ xs) h = ground (arith, h x, find-update_where_other p f q xs h)
