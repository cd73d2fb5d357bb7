-- ===== src/Examples/Transcripts.antt =====
-- packages/codex-remote-core/src/reducers.ts: a transcript of three turns, its pages, and merges.
use protocol_runner.Common.{
  ◌≡◌, ◌≢◌, ◌==◌, false, refl, String, none, some, List, [], ◌∷◌, ◌++◌, not, ◌||◌, includes, length,
  trim, is_empty_list, arith, eq_iff, is_space_unit, Pairwise,
}
use protocol_runner.Transcript.{
  Role, TranscriptItem, TranscriptWindowRequest, window_transcript_items, cursor_of, ids,
  find_index, merge_older_transcript_items, merge_snapshot_transcript_items,
}
use protocol_runner.Transcript.Merge.{
  IsOther, merge_older_transcript_items_lem, merge_snapshot_transcript_items_lem,
}
use protocol_runner.Transcript.Window.{IsTurnStart}
use protocol_runner.Transcript.Window.Paging.{
  window_transcript_items-contiguous, window_transcript_items-continues,
}

abbrev item : String → String → TranscriptItem
item id turn = record {
  id = id;
  turn_id = some turn;
  role = Role.user;
  text = id;
  created_at = none;
}

abbrev older_items : List TranscriptItem
older_items = item "a" "t1" ∷ item "b" "t1" ∷ []

abbrev newer_items : List TranscriptItem
newer_items = item "c" "t2" ∷ item "d" "t2" ∷ item "e" "t3" ∷ []

abbrev all_items : List TranscriptItem
all_items = item "a" "t1" ∷ item "b" "t1" ∷ newer_items

abbrev last_two : TranscriptWindowRequest
last_two = record { limit = some 2; before_item_id = none }

-- The last two items, with the whole of the turn of the first of them.
window_test : (window_transcript_items all_items last_two).items ≡ newer_items
unfolding window_transcript_items
window_test = refl

gives_cursor : (window_transcript_items all_items last_two).history.next_before_item_id ≡ some "c"
unfolding window_transcript_items
gives_cursor = refl

cursor_stays : cursor_of (some "c") ≡ some "c"
unfolding cursor_of trim is_space_unit
cursor_stays = refl

other : (a b : String) → (a == b) ≡ false → a ≢ b
other a b h same = ground (arith, h, same, eq_iff a b)

all_distinct : Pairwise IsOther all_items
all_distinct = (
  (other "a" "b" refl, (other "a" "c" refl, (other "a" "d" refl, (other "a" "e" refl, tt)))),
  (
    (other "b" "c" refl, (other "b" "d" refl, (other "b" "e" refl, tt))),
    ((other "c" "d" refl, (other "c" "e" refl, tt)), ((other "d" "e" refl, tt), (tt, tt))),
  ),
)

older_distinct : Pairwise IsOther older_items
older_distinct = ((other "a" "b" refl, tt), (tt, tt))

newer_distinct : Pairwise IsOther newer_items
newer_distinct =
    ((other "c" "d" refl, (other "c" "e" refl, tt)), ((other "d" "e" refl, tt), (tt, tt)))

window_transcript_items-contiguous_example :
    (older : List TranscriptItem) × (newer : List TranscriptItem) × (older
        ++ (window_transcript_items all_items last_two).items
        ++ newer
      ≡ all_items)
    × ((window_transcript_items all_items last_two).history.has_older ≡ not (is_empty_list older))
    × IsTurnStart all_items (length older)
    × (cursor_of none ≡ none → newer ≡ [])
window_transcript_items-contiguous_example = window_transcript_items-contiguous all_items last_two

window_transcript_items-continues_example :
    (older : List TranscriptItem) × (newer : List TranscriptItem) × (older
        ++ (window_transcript_items all_items
            (record { limit = some 1; before_item_id = some "c" })).items
        ++ (window_transcript_items all_items last_two).items
        ++ newer
      ≡ all_items)
window_transcript_items-continues_example =
    window_transcript_items-continues all_items last_two (some 1) all_distinct gives_cursor
      cursor_stays

merge_older_transcript_items_lem_example :
    Pairwise IsOther (merge_older_transcript_items newer_items older_items)
    × ((prefix : List TranscriptItem) × (merge_older_transcript_items newer_items older_items
          ≡ prefix ++ newer_items))
    × ((k : String)
        → includes k (ids (merge_older_transcript_items newer_items older_items))
          ≡ (includes k (ids older_items) || includes k (ids newer_items)))
merge_older_transcript_items_lem_example =
    merge_older_transcript_items_lem newer_items older_items newer_distinct older_distinct

merge_snapshot_transcript_items_lem_example :
    Pairwise IsOther (merge_snapshot_transcript_items older_items newer_items)
    × ((prefix : List TranscriptItem) × (merge_snapshot_transcript_items older_items newer_items
          ≡ prefix ++ newer_items))
    × (find_index "c" older_items ≡ none
        → (k : String)
        → includes k (ids (merge_snapshot_transcript_items older_items newer_items))
          ≡ (includes k (ids older_items) || includes k (ids newer_items)))
merge_snapshot_transcript_items_lem_example =
    merge_snapshot_transcript_items_lem older_items (item "c" "t2")
      (item "d" "t2" ∷ item "e" "t3" ∷ []) older_distinct newer_distinct
