-- ===== src/Store/Ids.antt =====
-- services/protocol-runner-api/src/store.ts: the checks on ids, and the ids and directories that are
-- built from them.
use Prim.Native.Char.{Char}
use Prim.Native.Nat.{ℕ}
use Prim.Native.String
use Prim.Native.String.{String, [], ◌∷◌}
use mathlib.Core.Bool.{Bool, false, not, ◌&&◌, ◌||◌}
use mathlib.Core.Path.{◌≡◌}
use native.Mathlib.Omega.{arith}
use protocol_runner.Common.{
  is_char, is_lower, is_upper, is_digit, is_alnum, is_word, all_chars, id_pattern, digit,
  decimal_from, decimal, leb, is_empty, if◌then◌else◌,
}
use protocol_runner.Store.Error.{Result, ok, ◌>>=◌, ◌>>◌, guard, StoreError}

abbrev append : String → String → String
append a b = String.◌++◌ a b

starts_with_dot : String → Bool
starts_with_dot [] = false
starts_with_dot (c ∷ s) = is_char b'.' c

-- `value.includes('..')`.
has_dots : String → Bool
has_dots [] = false
has_dots (c ∷ s) = is_char b'.' c && starts_with_dot s || has_dots s

has_slash : String → Bool
has_slash [] = false
has_slash (c ∷ s) = is_char b'/' c || is_char b'\\' c || has_slash s

-- `RUN_INSTANCE_ID_PATTERN`.
run_id_pattern : String → Bool
run_id_pattern [] = false
run_id_pattern (c ∷ s) =
    all_chars (λ d. is_lower d || is_digit d || is_char b'_' d || is_char b'-' d) (c ∷ s)

unfoldable pub assert_safe_run_instance_id : String → Result String
unfolding run_id_pattern has_dots has_slash all_chars is_word is_alnum is_lower is_upper is_digit
    starts_with_dot
assert_safe_run_instance_id id = do
  guard (run_id_pattern id) StoreError.invalid_run_instance_id
  guard (not (has_dots id || has_slash id)) StoreError.invalid_run_instance_id
  ok id

unfoldable pub assert_safe_parallel_id : String → Result String
unfolding id_pattern has_dots has_slash all_chars is_word is_alnum is_lower is_upper is_digit
    starts_with_dot
assert_safe_parallel_id value = do
  guard (id_pattern value) StoreError.invalid_parallel_id
  guard (not (has_dots value || has_slash value)) StoreError.invalid_parallel_id
  ok value

pub assert_safe_parallel_id-same :
    (value : String) {id : String} → assert_safe_parallel_id value ≡ ok id → id ≡ value
unfolding assert_safe_parallel_id
assert_safe_parallel_id-same value h = ground arith

under : Char
under = "_"

-- `step_id.replace(/[^A-Za-z0-9_-]/g, '_')`, character by character.
clean : String → String
unfolding under
clean [] = []
clean (c ∷ s) = (if is_word c then c else under) ∷ clean s

-- `safeStepFileSegment`, and `safeGroupFileSegment`, which is the same.
unfoldable pub safe_segment : String → Result String
unfolding clean has_dots is_word is_alnum is_lower is_upper is_digit starts_with_dot
safe_segment id = do
  guard (not (is_empty (clean id) || has_dots (clean id))) StoreError.invalid_step_id
  ok (clean id)

-- `padStart(3, '0')` of a text that is not empty.
pad3 : String → String
pad3 (c ∷ []) = append "00" (c ∷ [])
pad3 (c ∷ d ∷ []) = append "0" (c ∷ d ∷ [])
pad3 s = s

unfoldable pub format_attempt : ℕ → Result String
unfolding decimal decimal_from pad3 digit
format_attempt attempt = do
  guard (leb 1 attempt) StoreError.invalid_attempt
  ok (pad3 (decimal attempt))

-- The three-part id of an attempt: group, item, attempt number.
unfoldable pub parallel_attempt_id : String → String → ℕ → Result String
unfolding safe_segment format_attempt
parallel_attempt_id group_id item_id attempt_number = do
  group ← safe_segment group_id
  item ← safe_segment item_id
  number ← format_attempt attempt_number
  ok (append group (append "_" (append item (append "_attempt_" number))))

unfoldable pub parallel_attempt_relative_dir : String → String → String → Result String
unfolding safe_segment
parallel_attempt_relative_dir group_id item_id attempt_id = do
  group ← safe_segment group_id
  item ← safe_segment item_id
  attempt ← safe_segment attempt_id
  ok (
      append "parallel_groups/"
        (append group (append "/items/" (append item (append "/attempts/" attempt)))))

-- `uuid` is the fresh value of `randomUUID()`.
unfoldable pub parallel_lease_id : String → String → Result String
unfolding safe_segment
parallel_lease_id attempt_id uuid = do
  attempt ← safe_segment attempt_id
  ok (append attempt (append "_lease_" uuid))
