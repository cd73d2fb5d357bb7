-- ===== src/Core/Validation/Names.antt =====
-- packages/protocol-runner-core/src/validation.ts: names that occur once, for steps, groups and items.
use mathlib.Core.List.{List}
use protocol_runner.Common.{
  ◌≡◌, ◌⊎◌, inl, inr, refl, subst, String, ◌==◌, includes, Bool, true, false, ◌||◌, arith, eq_iff,
  All, All-imp,
}
use protocol_runner.Core.Types.{Value, Fields, undefined, null, obj, arr, str, bool, num, other_num}
use protocol_runner.Core.Validation.{is_exactly}
use protocol_runner.Core.Validation.Clean.{Named}

-- Two values without a common name.
abbrev pub IsOther : (String → Value → Bool) → Value → Value → Type 0
IsOther has v u = (s : String) → has s v ≡ true → has s u ≡ false

pub Named-new :
    (v : Value) (seen : List String) (n : Named v seen) (s : String)
    → is_exactly s v ≡ true
    → includes s seen ≡ false
Named-new v seen n s h =
    let hit : (n.id == s) ≡ true = subst (λ x. is_exactly s x ≡ true) n.reads h in
    let same : n.id ≡ s = ground (arith, hit, eq_iff n.id s) in
    subst (λ x. includes x seen ≡ false) same n.fresh

unfoldable pub is_object : Value → Bool
is_object (obj fs) = true
is_object v = false

pub object_cases : (v : Value) → ((fs : Fields) × (v ≡ obj fs)) ⊎ (is_object v ≡ false)
unfolding is_object
object_cases (obj fs) = inl (fs, refl)
object_cases (arr vs) = inr refl
object_cases (str s) = inr refl
object_cases undefined = inr refl
object_cases null = inr refl
object_cases (bool b) = inr refl
object_cases (num n) = inr refl
object_cases (other_num s) = inr refl

module _ (has : String → Value → Bool) where
  abbrev pub IsNewIn : List String → Value → Type 0
  IsNewIn seen v = (s : String) → has s v ≡ true → includes s seen ≡ false

  abbrev pub Adds : Value → List String → List String → Type 0
  Adds v seen seen' = (s : String) → includes s seen' ≡ (has s v || includes s seen)

  pub keeps_new :
      (v : Value) (seen seen' : List String) (vs : List Value)
      → Adds v seen seen'
      → All (IsNewIn seen') vs
      → All (IsNewIn seen) vs
  keeps_new v seen seen' vs adds h =
      All-imp (IsNewIn seen') (IsNewIn seen) vs (λ u n s e. ground (arith, n s e, adds s)) h

  pub others :
      (v : Value) (seen seen' : List String) (vs : List Value)
      → Adds v seen seen'
      → All (IsNewIn seen') vs
      → All (IsOther has v) vs
  others v seen seen' vs adds h =
      All-imp (IsNewIn seen') (IsOther has v) vs (λ u n s e. ground (arith, n s, adds s, e)) h
