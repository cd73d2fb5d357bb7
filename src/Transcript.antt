-- ===== src/Transcript.antt =====
-- packages/codex-remote-core/src/reducers.ts: pages of a transcript, and the merging of transcripts.
pub mod Window
pub mod View
pub mod Merge
use protocol_runner.Common.{
  ℕ, zero, suc, ◌+◌, ◌-◌, ◌≡◌, refl, min, Bool, true, false, not, ◌==◌, String, Option, none, some,
  List, [], ◌∷◌, ◌++◌, map, length, take, drop, keep, get_elem?, includes, is_empty, trim, ltb, leb,
  if◌then◌else◌,
}

pub data Role : Type 0 where
  user assistant system : Role

pub record TranscriptItem : Type 0 where
  pub id : String
  pub turn_id : Option String
  pub role : Role
  pub text : String
  pub created_at : Option String

pub record TranscriptHistoryWindow : Type 0 where
  pub has_older : Bool
  pub next_before_item_id : Option String

-- `limit` is rounded down, and `none` for one that is absent, not finite or negative.
pub record TranscriptWindowRequest : Type 0 where
  pub limit : Option ℕ
  pub before_item_id : Option String

pub record Page : Type 0 where
  pub items : List TranscriptItem
  pub history : TranscriptHistoryWindow

-- `DEFAULT_TRANSCRIPT_WINDOW_LIMIT` and `MAX_TRANSCRIPT_WINDOW_LIMIT`.
unfoldable pub clamp_transcript_window_limit : Option ℕ → ℕ
clamp_transcript_window_limit none = 40
clamp_transcript_window_limit (some limit) = if ltb limit 1 then 40 else min limit 200

-- The item is there and belongs to the turn.
abbrev pub in_turn : String → Option TranscriptItem → Bool
in_turn turn none = false
in_turn turn (some it) = elim it.turn_id [ none ↦ false | some t ↦ t == turn ]

-- The loop: back over the items of the turn.
unfoldable pub back : List TranscriptItem → String → ℕ → ℕ
back items turn zero = 0
back items turn (suc n) =
    let earlier = back items turn n in if in_turn turn (get_elem? items n) then earlier else suc n

-- `items[index]?.turnId`, `none` also for an empty text.
abbrev pub named : Option String → Option String
named none = none
named (some t) = if is_empty t then none else some t

abbrev pub named_turn : Option TranscriptItem → Option String
named_turn none = none
named_turn (some it) = named it.turn_id

abbrev pub turn_at : List TranscriptItem → ℕ → Option String
turn_at items index = named_turn (get_elem? items index)

unfoldable pub align_to_turn_start : List TranscriptItem → ℕ → ℕ
unfolding back
align_to_turn_start items index =
    if leb (length items) index
    then length items
    else (elim (turn_at items index) [ none ↦ index | some turn ↦ back items turn index ])

abbrev pub find_index : String → List TranscriptItem → Option ℕ
find_index key [] = none
find_index key (it ∷ items) =
    if it.id == key
    then some 0
    else (elim (find_index key items) [ none ↦ none | some i ↦ some (suc i) ])

-- `stringFromUnknown` of the cursor.
unfoldable pub cursor_of : Option String → Option String
cursor_of none = none
cursor_of (some s) = if is_empty (trim s) then none else some (trim s)

unfoldable pub end_of : List TranscriptItem → Option String → ℕ
unfolding align_to_turn_start
end_of items none = length items
end_of items (some key) = elim (find_index key items) [
  | none ↦ length items
  | some i ↦ align_to_turn_start items i
]

unfoldable pub start_of : List TranscriptItem → ℕ → ℕ → ℕ
unfolding align_to_turn_start
start_of items limit end =
    if ltb (end - limit) end then align_to_turn_start items (end - limit) else end - limit

abbrev pub first_id : List TranscriptItem → Option String
first_id [] = none
first_id (it ∷ items) = some it.id

abbrev pub page_between : List TranscriptItem → ℕ → ℕ → Page
page_between items start end = record {
  items = take (end - start) (drop start items);
  history = record {
    has_older = ltb 0 start;
    next_before_item_id =
        if ltb 0 start then first_id (take (end - start) (drop start items)) else none;
  };
}

unfoldable pub window_transcript_items : List TranscriptItem → TranscriptWindowRequest → Page
unfolding clamp_transcript_window_limit cursor_of end_of start_of
window_transcript_items items options =
    let end = end_of items (cursor_of options.before_item_id) in
    page_between items (start_of items (clamp_transcript_window_limit options.limit) end) end

abbrev pub ids : List TranscriptItem → List String
ids [] = []
ids (it ∷ items) = it.id ∷ ids items

unfoldable pub merge_older_transcript_items :
    List TranscriptItem → List TranscriptItem → List TranscriptItem
merge_older_transcript_items current older =
    keep (λ it. not (includes it.id (ids current))) older ++ current

abbrev pub kept_prefix : Option ℕ → List String → List TranscriptItem → List TranscriptItem
kept_prefix none snapshot_ids current = keep (λ it. not (includes it.id snapshot_ids)) current
kept_prefix (some i) snapshot_ids current =
    keep (λ it. not (includes it.id snapshot_ids)) (take i current)

unfoldable pub merge_snapshot_transcript_items :
    List TranscriptItem → List TranscriptItem → List TranscriptItem
merge_snapshot_transcript_items current [] = current
merge_snapshot_transcript_items current (first ∷ snapshot) =
    kept_prefix (find_index first.id current) (ids (first ∷ snapshot)) current ++ (first ∷ snapshot)
