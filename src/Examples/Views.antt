-- ===== src/Examples/Views.antt =====
-- packages/codex-remote-core/src/reducers.ts: the view of a transcript with one persisted item, one
-- pending item and an answer that is not complete.
use protocol_runner.Common.{◌≡◌, ◌≢◌, refl, true, false, none, some, List, [], ◌∷◌, ◌++◌, map, All}
use protocol_runner.Transcript.{Role, TranscriptItem}
use protocol_runner.Transcript.View.{
  PublicThreadStatus, PendingTranscriptItem, LiveAssistantItem, TranscriptViewItem,
  TranscriptViewState, as_persisted, matches_persisted_pending, build_transcript_view_state,
}
use protocol_runner.Transcript.View.Laws.{IsShown, build_transcript_view_state_lem}

abbrev saved : List TranscriptItem
saved =
    (record { id = "a"; turn_id = some "t1"; role = Role.user; text = "hello"; created_at = none })
    ∷ []

abbrev waiting : List PendingTranscriptItem
waiting = (record { id = "p"; turn_id = none; text = "and?"; created_at = "now" }) ∷ []

abbrev answer : LiveAssistantItem
answer = record {
  turn_id = some "t1";
  item_id = none;
  text = "well";
  created_at = "now";
  done = false;
}

abbrev thinking_view : TranscriptViewState
thinking_view =
    build_transcript_view_state (some (PublicThreadStatus.done, saved)) waiting (some answer) none

status_test : thinking_view.status ≡ PublicThreadStatus.thinking
unfolding build_transcript_view_state
status_test = refl

build_transcript_view_state_lem_example :
    ((rest : List TranscriptViewItem) × (thinking_view.items ≡ map as_persisted saved ++ rest))
    × All (IsShown saved thinking_view.items) waiting
    × (thinking_view.awaiting_persistence ≡ true → thinking_view.status ≢ PublicThreadStatus.done)
    × (thinking_view.awaiting_persistence ≡ false
        → All (λ p. matches_persisted_pending p saved ≡ true) waiting)
build_transcript_view_state_lem_example =
    build_transcript_view_state_lem (some (PublicThreadStatus.done, saved)) waiting (some answer)
      none
