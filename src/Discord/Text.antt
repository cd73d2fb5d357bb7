-- ===== src/Discord/Text.antt =====
-- packages/discord-transport/src/text.ts: thread names and messages that fit Discord's limits. A text
-- is the list of its UTF-16 code units, which `length` and `slice` count.
pub mod Laws
pub mod Split
pub mod Names
use protocol_runner.Common.{
  ℕ, zero, suc, ◌+◌, ◌-◌, ◌*◌, max, Bool, true, false, ◌&&◌, ◌||◌, List, [], ◌∷◌, ◌++◌, Option,
  none, some, length, take, drop, leb, ltb, is_space_unit, is_empty_list, if◌then◌else◌,
}
use Prim.Native.Nat.{◌/◌}

abbrev pub Text : Type 0
Text = List ℕ

abbrev pub is_unit : ℕ → ℕ → Bool
is_unit n u = leb n u && leb u n

unfoldable pub trim_start : Text → Text
trim_start [] = []
trim_start (u ∷ s) = if is_space_unit u then trim_start s else u ∷ s

abbrev pub keep_unless_blank : ℕ → Text → Text
keep_unless_blank u [] = if is_space_unit u then [] else u ∷ []
keep_unless_blank u (v ∷ s) = u ∷ v ∷ s

unfoldable pub trim_end : Text → Text
trim_end [] = []
trim_end (u ∷ s) = keep_unless_blank u (trim_end s)

unfoldable pub trim : Text → Text
unfolding trim_start trim_end
trim s = trim_end (trim_start s)

-- `lastIndexOf` of one unit; `none` is -1.
unfoldable pub last_index : ℕ → Text → Option ℕ
last_index n [] = none
last_index n (u ∷ s) = elim (last_index n s) [
  | some i ↦ some (suc i)
  | none ↦ if is_unit n u then some 0 else none
]

abbrev pub later : Option ℕ → Option ℕ → Option ℕ
later none j = j
later (some i) none = some i
later (some i) (some j) = some (max i j)

-- Where a text that is too long is cut: at its last line feed or space, unless that comes before two
-- fifths of the limit, which is `Math.floor(maxLength * 0.4)`.
unfoldable pub cut : ℕ → Text → ℕ
unfolding last_index
cut limit remaining =
    let candidate = take limit remaining in
    elim (later (last_index 10 candidate) (last_index 32 candidate)) [
      | none ↦ limit
      | some i ↦ if leb (2 * limit / 5) i then i else limit
    ]

abbrev pub last_chunk : Text → List Text
last_chunk [] = []
last_chunk (u ∷ s) = (u ∷ s) ∷ []

abbrev pub put : Text → Option (List Text) → Option (List Text)
put chunk none = none
put chunk (some chunks) = some (chunk ∷ chunks)

-- The loop, `none` where the fuel runs out.
unfoldable pub split_loop : ℕ → ℕ → Text → Option (List Text)
unfolding cut trim
split_loop zero limit remaining =
    if ltb limit (length remaining) then none else some (last_chunk remaining)
split_loop (suc fuel) limit remaining =
    let end = cut limit remaining in
    let rest = split_loop fuel limit (trim (drop end remaining)) in
    if ltb limit (length remaining)
    then put (trim (take end remaining)) rest
    else some (last_chunk remaining)

-- `'(empty)'`.
abbrev pub empty_message : Text
empty_message = 40 ∷ 101 ∷ 109 ∷ 112 ∷ 116 ∷ 121 ∷ 41 ∷ []

-- The loop runs at most once for each unit of the text, which is the fuel.
unfoldable pub split_discord_message_text : Text → ℕ → Option (List Text)
unfolding split_loop trim
split_discord_message_text value limit =
    let trimmed = trim value in
    if is_empty_list trimmed
    then some (empty_message ∷ [])
    else (if leb (length trimmed) limit
        then some (trimmed ∷ [])
        else split_loop (length trimmed) limit trimmed)

-- `value.replace(/\s+/g, ' ').trim()`: a run of white space becomes one space.
abbrev pub join_spaces : ℕ → Text → Text
join_spaces u [] = (if is_space_unit u then 32 else u) ∷ []
join_spaces u (v ∷ s) =
    if is_space_unit u then (if is_unit 32 v then v ∷ s else 32 ∷ v ∷ s) else u ∷ v ∷ s

unfoldable pub single_spaces : Text → Text
single_spaces [] = []
single_spaces (u ∷ s) = join_spaces u (single_spaces s)

unfoldable pub compact : Text → Text
unfolding single_spaces trim
compact s = trim (single_spaces s)

-- `'relay-thread'`, and `'...'`.
abbrev pub default_name : Text
default_name = 114 ∷ 101 ∷ 108 ∷ 97 ∷ 121 ∷ 45 ∷ 116 ∷ 104 ∷ 114 ∷ 101 ∷ 97 ∷ 100 ∷ []

abbrev pub dots : Text
dots = 46 ∷ 46 ∷ 46 ∷ []

unfoldable pub truncate_discord_thread_name : Text → ℕ → Text
unfolding compact trim_end
truncate_discord_thread_name value limit =
    let name = compact value in
    if is_empty_list name
    then default_name
    else (if leb (length name) limit
        then name
        else trim_end (take (max 1 (limit - 3)) name) ++ dots)

-- ` [${compactSuffix}]`, or nothing.
abbrev pub bracketed : Text → Text
bracketed [] = []
bracketed (u ∷ s) = 32 ∷ 91 ∷ (u ∷ s) ++ 93 ∷ []

abbrev pub suffix_of : Option Text → Text
suffix_of none = []
suffix_of (some s) = bracketed (compact s)

abbrev pub or_default : Text → Text
or_default [] = default_name
or_default (u ∷ s) = u ∷ s

-- A difference that would be negative counts as 0 under the maximum with 1.
unfoldable pub create_stable_discord_thread_name : Text → Option Text → ℕ → Text
unfolding compact trim_end truncate_discord_thread_name
create_stable_discord_thread_name value stable_suffix limit =
    let suffix = suffix_of stable_suffix in
    let name = or_default (compact value) in
    if is_empty_list suffix
    then truncate_discord_thread_name name limit
    else (if leb (length name + length suffix) limit
        then name ++ suffix
        else trim_end (take (max 1 (limit - length suffix - 3)) name) ++ (dots ++ suffix))
