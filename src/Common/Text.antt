-- ===== src/Common/Text.antt =====
-- JavaScript strings: concatenation, `trim`, emptiness, membership in a set of strings.
use Prim.Native.Char.{Char, code}
use Prim.Native.Nat.{ℕ}
use Prim.Native.String
use Prim.Native.String.{String, [], ◌∷◌}
use mathlib.Core.Path.{◌≡◌, refl}
use mathlib.Core.Bool.{Bool, true, false, ◌&&◌, ◌||◌}
use mathlib.Core.List.{List}
use text.Mathlib.Text.{◌==◌ as str_eq}
use protocol_runner.Common.Tests.{if◌then◌else◌, leb}

infix 50 ◌==◌
abbrev pub ◌==◌ : String → String → Bool
a == b = str_eq a b

-- A template literal: its parts, concatenated.
unfoldable pub template : List String → String
template List.[] = []
template (List.◌∷◌ s ss) = String.◌++◌ s (template ss)

-- White space and line terminators, as `String.prototype.trim` reads them.
unfoldable pub is_space_unit : ℕ → Bool
is_space_unit u =
    (leb 9 u && leb u 13)
    || leb 32 u && leb u 32
    || leb 160 u && leb u 160
    || leb 0x1680 u && leb u 0x1680
    || leb 0x2000 u && leb u 0x200a
    || leb 0x2028 u && leb u 0x2029
    || leb 0x202f u && leb u 0x202f
    || leb 0x205f u && leb u 0x205f
    || leb 0x3000 u && leb u 0x3000
    || leb 0xfeff u && leb u 0xfeff

pub is_space : Char → Bool
unfolding is_space_unit
is_space c = is_space_unit (code c)

abbrev pub is_empty : String → Bool
is_empty [] = true
is_empty (c ∷ s) = false

pub trim_start : String → String
trim_start [] = []
trim_start (c ∷ s) = if is_space c then trim_start s else c ∷ s

abbrev cons_unless_blank : Char → String → String
cons_unless_blank c [] = if is_space c then [] else c ∷ []
cons_unless_blank c (d ∷ s) = c ∷ d ∷ s

pub trim_end : String → String
trim_end [] = []
trim_end (c ∷ s) = cons_unless_blank c (trim_end s)

unfoldable pub trim : String → String
unfolding trim_start trim_end is_space
trim s = trim_end (trim_start s)

-- `set.has(s)` and `array.includes(s)` for strings.
abbrev pub includes : String → List String → Bool
includes s List.[] = false
includes s (List.◌∷◌ t ts) = t == s || includes s ts

trim_test : trim "  a b\n" ≡ "a b"
unfolding trim
trim_test = refl
