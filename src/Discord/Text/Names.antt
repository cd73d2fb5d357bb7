-- ===== src/Discord/Text/Names.antt =====
-- packages/discord-transport/src/text.ts: thread names within the limit.
use protocol_runner.Common.{
  ℕ, ◌+◌, ◌-◌, ◌≤◌, max, false, ◌≡◌, [], ◌∷◌, ◌++◌, Option, length, take, leb, leb→le,
  is_empty_list, if_intro, arith, length-append, length-take-le,
}
use protocol_runner.Discord.Text.{
  Text, trim_end, compact, dots, or_default, suffix_of, truncate_discord_thread_name,
  create_stable_discord_thread_name,
}
use protocol_runner.Discord.Text.Laws.{trim_end-length}

abbrev IsName : ℕ → Text → Type 0
IsName limit name = (1 ≤ length name) × (length name ≤ limit)

not_empty : (s : Text) → is_empty_list s ≡ false → 1 ≤ length s
not_empty [] e = absurd (cc)
not_empty (u ∷ s) e = omega arith

-- A cut name with an ending of known length.
cut-IsName :
    (name tail : Text) (n limit : ℕ)
    → 1 ≤ length tail
    → n + length tail ≤ limit
    → IsName limit (trim_end (take n name) ++ tail)
cut-IsName name tail n limit some_tail fits =
    let sum = length-append (trim_end (take n name)) tail in
    let short = trim_end-length (take n name) in
    let cut = length-take-le n name in
    (omega (arith, sum, some_tail), omega (arith, sum, short, cut, fits))

truncate-IsName :
    (value : Text) (limit : ℕ)
    → 12 ≤ limit
    → IsName limit (truncate_discord_thread_name value limit)
unfolding truncate_discord_thread_name
truncate-IsName value limit h =
    if_intro (IsName limit) (is_empty_list (compact value))
      (λ blank. (omega arith, omega (arith, h)))
      (λ seen.
        if_intro (IsName limit) (leb (length (compact value)) limit)
          (λ fits. (not_empty (compact value) seen, leb→le (length (compact value)) limit fits))
          (λ long.
            cut-IsName (compact value) dots (max 1 (limit - 3)) limit (omega arith)
              (omega (arith, h))))

or_default-length : (s : Text) → 1 ≤ length (or_default s)
or_default-length [] = omega arith
or_default-length (u ∷ s) = omega arith

-- A thread name is not empty and has at most as many units as the limit, where the limit is at least
-- 12, the length of the default name, and leaves 4 units for the name beside its suffix.
pub create_stable_discord_thread_name-IsName :
    (value : Text) (stable_suffix : Option Text) (limit : ℕ)
    → 12 ≤ limit
    → length (suffix_of stable_suffix) + 4 ≤ limit
    → (1 ≤ length (create_stable_discord_thread_name value stable_suffix limit))
      × (length (create_stable_discord_thread_name value stable_suffix limit) ≤ limit)
unfolding create_stable_discord_thread_name
create_stable_discord_thread_name-IsName value stable_suffix limit h k =
    let suffix = suffix_of stable_suffix in
    let name = or_default (compact value) in
    let whole = length-append name suffix in
    let tail = length-append dots suffix in
    if_intro (IsName limit) (is_empty_list suffix) (λ bare. truncate-IsName name limit h)
      (λ tagged.
        if_intro (IsName limit) (leb (length name + length suffix) limit)
          (λ fits. (
            omega (arith, whole, or_default-length (compact value)),
            omega (arith, whole, leb→le (length name + length suffix) limit fits),
          ))
          (λ long.
            cut-IsName name (dots ++ suffix) (max 1 (limit - length suffix - 3)) limit
              (omega (arith, tail)) (omega (arith, tail, h, k))))
