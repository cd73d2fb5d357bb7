-- ===== src/Common/Chars.antt =====
-- Characters and their classes, the pattern of ids that the core and the store share, and the decimal
-- digits of a number.
use Prim.Native.Char.{Char, code}
use Prim.Native.Nat.{ℕ, zero, suc, ◌+◌, ◌/◌, ◌%◌}
use Prim.Native.String
use Prim.Native.String.{String, [], ◌∷◌}
use mathlib.Core.Bool.{Bool, true, false, ◌&&◌, ◌||◌}
use protocol_runner.Common.Tests.{ltb, leb, if◌then◌else◌}

abbrev pub is_char : ℕ → Char → Bool
is_char n c = leb n (code c) && leb (code c) n

unfoldable pub is_lower : Char → Bool
is_lower c = leb b'a' (code c) && leb (code c) b'z'

unfoldable pub is_upper : Char → Bool
is_upper c = leb b'A' (code c) && leb (code c) b'Z'

unfoldable pub is_digit : Char → Bool
is_digit c = leb b'0' (code c) && leb (code c) b'9'

-- `[A-Za-z0-9]`, and with `_` and `-`.
unfoldable pub is_alnum : Char → Bool
unfolding is_lower is_upper is_digit
is_alnum c = is_lower c || is_upper c || is_digit c

unfoldable pub is_word : Char → Bool
unfolding is_alnum
is_word c = is_alnum c || is_char b'_' c || is_char b'-' c

unfoldable pub all_chars : (Char → Bool) → String → Bool
all_chars p [] = true
all_chars p (c ∷ s) = p c && all_chars p s

-- `STEP_ID_PATTERN` and `PARALLEL_ID_PATTERN`: `/^[A-Za-z0-9][A-Za-z0-9_-]*$/`.
unfoldable pub id_pattern : String → Bool
unfolding is_alnum is_word all_chars
id_pattern [] = false
id_pattern (c ∷ s) = is_alnum c && all_chars is_word s

unfoldable pub digit : ℕ → String
digit zero = "0"
digit (suc zero) = "1"
digit (suc (suc zero)) = "2"
digit (suc (suc (suc zero))) = "3"
digit (suc (suc (suc (suc zero)))) = "4"
digit (suc (suc (suc (suc (suc zero))))) = "5"
digit (suc (suc (suc (suc (suc (suc zero)))))) = "6"
digit (suc (suc (suc (suc (suc (suc (suc zero))))))) = "7"
digit (suc (suc (suc (suc (suc (suc (suc (suc zero)))))))) = "8"
digit n = "9"

-- The decimal digits of a number, before those of `acc`. A number has at most as many digits as
-- its value and one more, which is the fuel.
unfoldable pub decimal_from : ℕ → ℕ → String → String
unfolding digit
decimal_from zero n acc = acc
decimal_from (suc fuel) n acc =
    let rest = decimal_from fuel (n / 10) (String.◌++◌ (digit (n % 10)) acc) in
    if ltb n 10 then String.◌++◌ (digit n) acc else rest

unfoldable pub decimal : ℕ → String
unfolding decimal_from
decimal n = decimal_from (n + 1) n ""
