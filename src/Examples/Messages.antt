-- ===== src/Examples/Messages.antt =====
-- packages/discord-transport/src/text.ts: a message of three words, and a thread name.
use protocol_runner.Common.{◌≡◌, refl, ◌≤◌, [], ◌∷◌, some, none, length, arith, is_space_unit}
use protocol_runner.Discord.Text.{
  Text, trim, split_discord_message_text, create_stable_discord_thread_name,
}
use protocol_runner.Discord.Text.Split.{IsSplit, split_discord_message_text-IsSplit}
use protocol_runner.Discord.Text.Names.{create_stable_discord_thread_name-IsName}

-- `ab cd ef`.
abbrev words : Text
words = 97 ∷ 98 ∷ 32 ∷ 99 ∷ 100 ∷ 32 ∷ 101 ∷ 102 ∷ []

split_test :
    split_discord_message_text words 5
    ≡ some ((97 ∷ 98 ∷ []) ∷ (99 ∷ 100 ∷ 32 ∷ 101 ∷ 102 ∷ []) ∷ [])
unfolding split_discord_message_text is_space_unit
split_test = refl

words_are_seen : 1 ≤ length (trim words)
unfolding trim is_space_unit
words_are_seen = omega arith

split_discord_message_text-IsSplit_example : IsSplit 5 words (split_discord_message_text words 5)
split_discord_message_text-IsSplit_example =
    split_discord_message_text-IsSplit words 5 (omega arith) words_are_seen

create_stable_discord_thread_name-IsName_example :
    (1 ≤ length (create_stable_discord_thread_name words none 12))
    × (length (create_stable_discord_thread_name words none 12) ≤ 12)
create_stable_discord_thread_name-IsName_example =
    create_stable_discord_thread_name-IsName words none 12 (omega arith) (omega arith)
