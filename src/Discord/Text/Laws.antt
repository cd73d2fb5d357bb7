-- ===== src/Discord/Text/Laws.antt =====
-- packages/discord-transport/src/text.ts: the loop that splits a message.

use protocol_runner.Common.{
  ℕ, zero, suc, ◌≤◌, false, not, ◌≡◌, refl, ◌∙◌, List, [], ◌∷◌, ◌++◌, length, take, drop, keep,
  is_space_unit, if_intro, arith,
}
use protocol_runner.Discord.Text.{Text, trim_start, trim_end, trim, keep_unless_blank}

-- The units that are not white space.
abbrev pub visible : Text → Text
visible s = keep (λ u. not (is_space_unit u)) s

abbrev pub IsStarted : Text → Type 0
IsStarted [] = Unit
IsStarted (u ∷ s) = is_space_unit u ≡ false

abbrev pub joined : List Text → Text
joined [] = []
joined (c ∷ cs) = c ++ joined cs

pub visible-append : (s t : Text) → visible (s ++ t) ≡ visible s ++ visible t
visible-append [] t = refl
visible-append (u ∷ s) t = ground (arith, visible-append s t)

pub visible-take-drop : (n : ℕ) (s : Text) → visible (take n s) ++ visible (drop n s) ≡ visible s
visible-take-drop zero s = refl
visible-take-drop (suc n) [] = refl
visible-take-drop (suc n) (u ∷ s) = ground (arith, visible-take-drop n s)

trim_start-visible : (s : Text) → visible (trim_start s) ≡ visible s
unfolding trim_start
trim_start-visible [] = refl
trim_start-visible (u ∷ s) = ground (arith, trim_start-visible s)

trim_start-IsStarted : (s : Text) → IsStarted (trim_start s)
unfolding trim_start
trim_start-IsStarted [] = tt
trim_start-IsStarted (u ∷ s) =
    if_intro IsStarted (is_space_unit u) (λ e. trim_start-IsStarted s) (λ e. e)

trim_start-length : (s : Text) → length (trim_start s) ≤ length s
unfolding trim_start
trim_start-length [] = omega arith
trim_start-length (u ∷ s) = ground (arith, trim_start-length s)

keep_unless_blank-visible : (u : ℕ) (s : Text) → visible (keep_unless_blank u s) ≡ visible (u ∷ s)
keep_unless_blank-visible u [] = ground arith
keep_unless_blank-visible u (v ∷ s) = refl

trim_end-visible : (s : Text) → visible (trim_end s) ≡ visible s
unfolding trim_end
trim_end-visible [] = refl
trim_end-visible (u ∷ s) =
    keep_unless_blank-visible u (trim_end s) ∙ ground (arith, trim_end-visible s)

keep_unless_blank-length : (u : ℕ) (s : Text) → length (keep_unless_blank u s) ≤ suc (length s)
keep_unless_blank-length u [] = ground arith
keep_unless_blank-length u (v ∷ s) = omega arith

pub trim_end-length : (s : Text) → length (trim_end s) ≤ length s
unfolding trim_end
trim_end-length [] = omega arith
trim_end-length (u ∷ s) = omega (arith, keep_unless_blank-length u (trim_end s), trim_end-length s)

-- What starts with a visible unit still does, without the white space at its end.
keep_unless_blank-IsStarted :
    (u : ℕ) (s : Text)
    → is_space_unit u ≡ false
    → IsStarted (keep_unless_blank u s) × (1 ≤ length (keep_unless_blank u s))
keep_unless_blank-IsStarted u [] e = rw e (e, omega arith)
keep_unless_blank-IsStarted u (v ∷ s) e = (e, omega arith)

trim_end-IsStarted : (s : Text) → IsStarted s → IsStarted (trim_end s)
unfolding trim_end
trim_end-IsStarted [] h = tt
trim_end-IsStarted (u ∷ s) h = (keep_unless_blank-IsStarted u (trim_end s) h).0

pub trim-visible : (s : Text) → visible (trim s) ≡ visible s
unfolding trim
trim-visible s = trim_end-visible (trim_start s) ∙ trim_start-visible s

pub trim-IsStarted : (s : Text) → IsStarted (trim s)
unfolding trim
trim-IsStarted s = trim_end-IsStarted (trim_start s) (trim_start-IsStarted s)

pub trim-length : (s : Text) → length (trim s) ≤ length s
unfolding trim
trim-length s = omega (arith, trim_end-length (trim_start s), trim_start-length s)

-- A text that starts with a visible unit does not become empty.
pub trim-not_empty : (u : ℕ) (s : Text) → is_space_unit u ≡ false → 1 ≤ length (trim (u ∷ s))
unfolding trim trim_start trim_end
trim-not_empty u s e = rw e (keep_unless_blank-IsStarted u (trim_end s) e).1
