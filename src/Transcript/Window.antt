-- ===== src/Transcript/Window.antt =====
-- packages/codex-remote-core/src/reducers.ts: where the pages of a transcript begin and end.
pub mod Paging
use protocol_runner.Common.{
  ℕ, zero, suc, ◌+◌, ◌-◌, ◌≤◌, ◌<◌, ◌≡◌, refl, sym, ◌∙◌, ap, subst, min, Bool, true, false, not,
  ◌==◌, String, Option, none, some, List, [], ◌∷◌, ◌++◌, length, take, drop, get_elem?, is_empty,
  ltb, leb, ltb→lt, leb→le, arith, eq_iff, if◌then◌else◌, if_intro, Bool-cases, inl, inr,
}
use protocol_runner.Transcript.{
  TranscriptItem, in_turn, named, named_turn, back, turn_at, align_to_turn_start, end_of, start_of,
  find_index, clamp_transcript_window_limit,
}

-- No turn goes on over the index: the item before it, if any, belongs to another turn than the one
-- that the item at the index names.
abbrev pub IsTurnStart : List TranscriptItem → ℕ → Type 0
IsTurnStart items index =
    (turn : String) (p : ℕ)
    → turn_at items index ≡ some turn
    → index ≡ suc p
    → in_turn turn (get_elem? items p) ≡ false

back-le : (items : List TranscriptItem) (turn : String) (n : ℕ) → back items turn n ≤ n
unfolding back
back-le items turn zero = omega arith
back-le items turn (suc n) =
    if_intro (λ r. r ≤ suc n) (in_turn turn (get_elem? items n))
      (λ hit. omega (arith, back-le items turn n)) (λ miss. omega arith)

-- The loop stops at an item that follows one of another turn.
back-stops :
    (items : List TranscriptItem) (turn : String) (n p : ℕ)
    → back items turn n ≡ suc p
    → in_turn turn (get_elem? items p) ≡ false
unfolding back
back-stops items turn zero p = λ e. absurd (omega (arith, e))
back-stops items turn (suc n) p =
    if_intro (λ r. r ≡ suc p → in_turn turn (get_elem? items p) ≡ false)
      (in_turn turn (get_elem? items n)) (λ hit e. back-stops items turn n p e)
      (λ miss e. subst (λ k. in_turn turn (get_elem? items k) ≡ false) (omega (arith, e)) miss)

pub same_some {ℓ} : {A : Type ℓ} {x y : A} → some x ≡ some y → x ≡ y
same_some e = cc

same_turn-named :
    (u : Option String) (turn : String)
    → is_empty turn ≡ false
    → (elim u [ none ↦ false | some t ↦ t == turn ]) ≡ true
    → named u ≡ some turn
same_turn-named none turn full h = absurd (cc)
same_turn-named (some t) turn full h =
    let same : t ≡ turn = ground (arith, h, eq_iff t turn) in
    subst (λ x. named (some x) ≡ some turn) (sym same) (rw full refl)

in_turn-named_turn :
    (o : Option TranscriptItem) (turn : String)
    → is_empty turn ≡ false
    → in_turn turn o ≡ true
    → named_turn o ≡ some turn
in_turn-named_turn none turn full h = absurd (cc)
in_turn-named_turn (some it) turn full h = same_turn-named it.turn_id turn full h

named-not_empty : (u : Option String) (turn : String) → named u ≡ some turn → is_empty turn ≡ false
named-not_empty none turn = λ h. absurd (cc)
named-not_empty (some t) turn =
    if_intro (λ r. r ≡ some turn → is_empty turn ≡ false) (is_empty t) (λ blank e. absurd (cc))
      (λ full e. subst (λ x. is_empty x ≡ false) (same_some e) full)

named_turn-not_empty :
    (o : Option TranscriptItem) (turn : String) → named_turn o ≡ some turn → is_empty turn ≡ false
named_turn-not_empty none turn h = absurd (cc)
named_turn-not_empty (some it) turn h = named-not_empty it.turn_id turn h

-- The item at which the loop stops belongs to the turn.
back-turn_at :
    (items : List TranscriptItem) (turn : String) (n : ℕ)
    → turn_at items n ≡ some turn
    → turn_at items (back items turn n) ≡ some turn
unfolding back
back-turn_at items turn zero h = h
back-turn_at items turn (suc n) h =
    if_intro (λ r. turn_at items r ≡ some turn) (in_turn turn (get_elem? items n))
      (λ hit. back-turn_at items turn n (
        in_turn-named_turn (get_elem? items n) turn
          (named_turn-not_empty (get_elem? items (suc n)) turn h) hit))
      (λ miss. h)

turn_at-below :
    (items : List TranscriptItem) (n : ℕ) {turn : String}
    → turn_at items n ≡ some turn
    → n < length items
turn_at-below [] n h = absurd (cc)
turn_at-below (it ∷ items) zero h = omega arith
turn_at-below (it ∷ items) (suc n) h = omega (arith, turn_at-below items n h)

-- What holds of both ways to go on from the index.
aligned_intro :
    (P : ℕ → Type 0) (o : Option String) (index : ℕ) (f : String → ℕ)
    → (o ≡ none → P index)
    → ((turn : String) → o ≡ some turn → P (f turn))
    → P (elim o [ none ↦ index | some turn ↦ f turn ])
aligned_intro P none index f g h = g refl
aligned_intro P (some turn) index f g h = h turn refl

pub align_to_turn_start-IsTurnStart :
    (items : List TranscriptItem) (index : ℕ) → IsTurnStart items (align_to_turn_start items index)
unfolding align_to_turn_start
align_to_turn_start-IsTurnStart items index =
    if_intro (IsTurnStart items) (leb (length items) index)
      (λ over turn p h e. absurd (omega (arith, turn_at-below items (length items) h)))
      (λ inside.
        aligned_intro (IsTurnStart items) (turn_at items index) index
          (λ turn. back items turn index) (λ unnamed turn p h e. absurd (cc))
          (λ turn e other p h at_p.
            let same : turn ≡ other = same_some (sym (back-turn_at items turn index e) ∙ h) in
            subst (λ x. in_turn x (get_elem? items p) ≡ false) same
              (back-stops items turn index p at_p)))

pub align_to_turn_start-le :
    (items : List TranscriptItem) (index : ℕ)
    → (align_to_turn_start items index ≤ length items)
      × (index < length items → align_to_turn_start items index ≤ index)
unfolding align_to_turn_start
align_to_turn_start-le items index =
    if_intro (λ r. (r ≤ length items) × (index < length items → r ≤ index))
      (leb (length items) index)
      (λ over. (omega arith, λ h. omega (arith, leb→le (length items) index over, h)))
      (λ inside.
        let below : index < length items = ground (arith, inside) in
        aligned_intro (λ r. (r ≤ length items) × (index < length items → r ≤ index))
          (turn_at items index) index (λ turn. back items turn index)
          (λ unnamed. (omega (arith, below), λ h. omega arith))
          (λ turn e.
            (omega (arith, below, back-le items turn index), λ h. back-le items turn index)))

stays :
    (items : List TranscriptItem) (turn : String) (n : ℕ)
    → ((p : ℕ) → turn_at items n ≡ some turn → n ≡ suc p → in_turn turn (get_elem? items p) ≡ false)
    → turn_at items n ≡ some turn
    → back items turn n ≡ n
unfolding back
stays items turn zero s e = refl
stays items turn (suc n) s e = rw (s n e refl) refl

-- The start of a turn stays where it is.
pub align_to_turn_start-same :
    (items : List TranscriptItem) (index : ℕ)
    → index < length items
    → IsTurnStart items index
    → align_to_turn_start items index ≡ index
unfolding align_to_turn_start back
align_to_turn_start-same items index h s =
    if_intro (λ r. r ≡ index) (leb (length items) index)
      (λ over. omega (arith, leb→le (length items) index over, h))
      (λ inside.
        aligned_intro (λ r. r ≡ index) (turn_at items index) index (λ turn. back items turn index)
          (λ unnamed. refl) (λ turn e. stays items turn index (s turn) e))
