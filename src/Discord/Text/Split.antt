-- ===== src/Discord/Text/Split.antt =====
-- packages/discord-transport/src/text.ts: the loop that splits a message ends, and what it returns.
use Prim.Native.Nat.{◌/◌}
use protocol_runner.Common.{
  ℕ, zero, suc, ◌*◌, ◌≤◌, ◌<◌, Bool, true, false, ◌≡◌, refl, ◌∙◌, ap, List, [], ◌∷◌, ◌++◌, Option,
  none, some, length, take, drop, leb, ltb, is_space_unit, is_empty_list, if◌then◌else◌, if_intro,
  All, arith, Bool-cases, inl, inr, length-take-le, ltb→lt, leb→le,
}
use protocol_runner.Discord.Text.{
  Text, is_unit, trim, last_index, later, cut, last_chunk, split_loop, split_discord_message_text,
}
use protocol_runner.Discord.Text.Laws.{
  visible, visible-append, visible-take-drop, IsStarted, joined, trim-visible, trim-IsStarted,
  trim-length, trim-not_empty,
}

-- An index, where there is one, is not the first and stays below the bound.
abbrev IsInside : ℕ → Option ℕ → Type 0
IsInside n none = Unit
IsInside n (some i) = (1 ≤ i) × (i < n)

later-IsInside : (n : ℕ) (a b : Option ℕ) → IsInside n a → IsInside n b → IsInside n (later a b)
later-IsInside n none b h k = k
later-IsInside n (some i) none h k = h
later-IsInside n (some i) (some j) h k = (omega (arith, h.0), omega (arith, h.1, k.1))

abbrev IsBelow : ℕ → Option ℕ → Type 0
IsBelow n none = Unit
IsBelow n (some i) = i < n

IsBelow-step :
    (m : ℕ) (o : Option ℕ) (hit : Bool)
    → IsBelow m o
    → IsBelow (suc m) (elim o [ some i ↦ some (suc i) | none ↦ if hit then some 0 else none ])
IsBelow-step m none true h = omega arith
IsBelow-step m none false h = tt
IsBelow-step m (some i) hit h = omega (arith, h)

last_index-IsBelow : (n : ℕ) (s : Text) → IsBelow (length s) (last_index n s)
unfolding last_index
last_index-IsBelow n [] = tt
last_index-IsBelow n (u ∷ s) =
    IsBelow-step (length s) (last_index n s) (is_unit n u) (last_index-IsBelow n s)

IsInside-step :
    (m : ℕ) (o : Option ℕ) (hit : Bool)
    → hit ≡ false
    → IsBelow m o
    → IsInside (suc m) (elim o [ some i ↦ some (suc i) | none ↦ if hit then some 0 else none ])
IsInside-step m none true e h = absurd (cc)
IsInside-step m none false e h = tt
IsInside-step m (some i) hit e h = (omega arith, omega (arith, h))

is_unit-same : (n u : ℕ) → is_unit n u ≡ true → n ≡ u
is_unit-same n u h = ground arith

is_unit-other : (n u : ℕ) → is_space_unit n ≡ true → is_space_unit u ≡ false → is_unit n u ≡ false
is_unit-other n u blank seen = elim (Bool-cases (is_unit n u)) [
  | inl hit ↦ let same = ap is_space_unit (is_unit-same n u hit) in absurd (ground (arith, same))
  | inr miss ↦ miss
]

-- The last occurrence of a white space unit in a text that starts with a visible one.
last_index-IsInside :
    (n : ℕ) (s : Text) → is_space_unit n ≡ true → IsStarted s → IsInside (length s) (last_index n s)
unfolding last_index
last_index-IsInside n [] blank h = tt
last_index-IsInside n (u ∷ s) blank h =
    IsInside-step (length s) (last_index n s) (is_unit n u) (is_unit-other n u blank h)
      (last_index-IsBelow n s)

take-IsStarted : (n : ℕ) (s : Text) → IsStarted s → IsStarted (take n s)
take-IsStarted zero s h = tt
take-IsStarted (suc n) [] h = tt
take-IsStarted (suc n) (u ∷ s) h = h

cut-bounds :
    (limit : ℕ) (s : Text) → 1 ≤ limit → IsStarted s → (1 ≤ cut limit s) × (cut limit s ≤ limit)
unfolding cut is_space_unit
cut-bounds limit s positive h =
    let candidate = take limit s in
    let started = take-IsStarted limit s h in
    go (later (last_index 10 candidate) (last_index 32 candidate)) (
      later-IsInside (length candidate) (last_index 10 candidate) (last_index 32 candidate)
        (last_index-IsInside 10 candidate refl started)
        (last_index-IsInside 32 candidate refl started))
  where
    go :
        (o : Option ℕ)
        → IsInside (length (take limit s)) o
        → (1 ≤ (elim o [ none ↦ limit | some i ↦ if leb (2 * limit / 5) i then i else limit ]))
          × ((elim o [ none ↦ limit | some i ↦ if leb (2 * limit / 5) i then i else limit ])
              ≤ limit)
    go none k = (positive, omega arith)
    go (some i) (low, high) =
        if_intro (λ e. (1 ≤ e) × (e ≤ limit)) (leb (2 * limit / 5) i)
          (λ near. (low, omega (arith, high, length-take-le limit s)))
          (λ far. (positive, omega arith))

abbrev IsChunk : ℕ → Text → Type 0
IsChunk limit c = (1 ≤ length c) × (length c ≤ limit)

-- What the loop returns: chunks within the limit, none of them empty, that keep every unit of the
-- text that is not white space, in order.
abbrev pub IsSplit : ℕ → Text → Option (List Text) → Type 0
IsSplit limit s o =
    (chunks : List Text) × (o ≡ some chunks)
    × All (λ c. (1 ≤ length c) × (length c ≤ limit)) chunks
    × (visible (joined chunks) ≡ visible s)

length-take_started :
    (n : ℕ) (s : Text) → 1 ≤ n → IsStarted s → 1 ≤ length s → 1 ≤ length (trim (take n s))
length-take_started zero s p h k = absurd (omega (arith, p))
length-take_started (suc n) [] p h k = absurd (omega (arith, k))
length-take_started (suc n) (u ∷ s) p h k = trim-not_empty u (take n s) h

length-drop-le : (n : ℕ) (s : Text) → length (drop n s) ≤ length s
length-drop-le zero s = omega arith
length-drop-le (suc n) [] = omega arith
length-drop-le (suc n) (u ∷ s) = omega (arith, length-drop-le n s)

length-drop_less : (n : ℕ) (s : Text) → 1 ≤ n → 1 ≤ length s → length (drop n s) < length s
length-drop_less zero s p k = absurd (omega (arith, p))
length-drop_less (suc n) [] p k = absurd (omega (arith, k))
length-drop_less (suc n) (u ∷ s) p k = omega (arith, length-drop-le n s)

append_nil : (s : Text) → s ++ [] ≡ s
append_nil [] = refl
append_nil (u ∷ s) = ap (λ r. u ∷ r) (append_nil s)

last_chunk-IsSplit :
    (limit : ℕ) (s : Text) → length s ≤ limit → IsSplit limit s (some (last_chunk s))
last_chunk-IsSplit limit [] h = ([], refl, tt, refl)
last_chunk-IsSplit limit (u ∷ s) h =
    ((u ∷ s) ∷ [], refl, ((omega arith, h), tt), ap visible (append_nil (u ∷ s)))

split_loop-IsSplit :
    (fuel limit : ℕ) (s : Text)
    → 1 ≤ limit
    → IsStarted s
    → length s ≤ fuel
    → IsSplit limit s (split_loop fuel limit s)
unfolding split_loop
split_loop-IsSplit zero limit s p h k =
    if_intro (IsSplit limit s) (ltb limit (length s))
      (λ long. absurd (omega (arith, ltb→lt limit (length s) long, k)))
      (λ short. last_chunk-IsSplit limit s (ground (arith, short)))
split_loop-IsSplit (suc fuel) limit s p h k =
    let n = cut limit s in
    let (low, high) = cut-bounds limit s p h in
    if_intro (IsSplit limit s) (ltb limit (length s))
      (λ long.
        let over = ltb→lt limit (length s) long in
        let shorter = length-drop_less n s low (omega (arith, over)) in
        let (chunks, e, fits, same) =
          split_loop-IsSplit fuel limit (trim (drop n s)) p (trim-IsStarted (drop n s))
            (omega (arith, shorter, k, trim-length (drop n s))) in
        (
          trim (take n s) ∷ chunks,
          rw e refl,
          (
            (
              length-take_started n s low h (omega (arith, over)),
              omega (arith, trim-length (take n s), length-take-le n s, high),
            ),
            fits,
          ),
          visible-append (trim (take n s)) (joined chunks)
              ∙ rw (trim-visible (take n s))
                  (rw same (rw (trim-visible (drop n s)) (visible-take-drop n s))),
        ))
      (λ short. last_chunk-IsSplit limit s (ground (arith, short)))

-- A message that is not blank is split, for any limit from 1 on, into chunks of at least one unit and
-- at most as many units as the limit; the chunks one after the other have the units of the message
-- that are not white space, in their order.
pub split_discord_message_text-IsSplit :
    (value : Text) (limit : ℕ)
    → 1 ≤ limit
    → 1 ≤ length (trim value)
    → IsSplit limit value (split_discord_message_text value limit)
unfolding split_discord_message_text
split_discord_message_text-IsSplit value limit p h =
    if_intro (IsSplit limit value) (is_empty_list (trim value))
      (λ blank. absurd (blank_contra (trim value) blank h))
      (λ some_text.
        if_intro (IsSplit limit value) (leb (length (trim value)) limit)
          (λ fits. (
            trim value ∷ [],
            refl,
            ((h, leb→le (length (trim value)) limit fits), tt),
            ap visible (append_nil (trim value)) ∙ trim-visible value,
          ))
          (λ long.
            let (chunks, e, fits, same) =
              split_loop-IsSplit (length (trim value)) limit (trim value) p (trim-IsStarted value)
                (omega arith) in
            (chunks, e, fits, same ∙ trim-visible value)))
  where
    blank_contra : (s : Text) → is_empty_list s ≡ true → 1 ≤ length s → ⊥
    blank_contra [] e k = omega (arith, k)
    blank_contra (u ∷ s) e k = absurd (cc)
