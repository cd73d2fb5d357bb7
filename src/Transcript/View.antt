-- ===== src/Transcript/View.antt =====
-- packages/codex-remote-core/src/reducers.ts: the view of a transcript with the items that are not
-- persisted yet.
pub mod Laws
use protocol_runner.Common.{
  ◌≡◌, ◌≢◌, refl, Bool, true, false, not, ◌&&◌, ◌||◌, ◌==◌, ◌⊎◌, inl, inr, String, Option, none,
  some, List, [], ◌∷◌, ◌++◌, map, any, keep, or_else, is_empty, is_empty_list, trim, template,
  if◌then◌else◌, All, arith,
}
use protocol_runner.Transcript.{Role, TranscriptItem}

pub data PublicThreadStatus : Type 0 where
  thinking done waiting_on_approval error : PublicThreadStatus

pub data Presentation : Type 0 where
  persisted pending live : Presentation

-- `status` of a pending item is not read here.
pub record PendingTranscriptItem : Type 0 where
  pub id : String
  pub turn_id : Option String
  pub text : String
  pub created_at : String

pub record LiveAssistantItem : Type 0 where
  pub turn_id : Option String
  pub item_id : Option String
  pub text : String
  pub created_at : String
  pub done : Bool

pub record TranscriptViewItem : Type 0 where
  pub item : TranscriptItem
  pub presentation : Presentation

pub record TranscriptViewState : Type 0 where
  pub items : List TranscriptViewItem
  pub status : PublicThreadStatus
  pub awaiting_persistence : Bool

abbrev is_user : Role → Bool
is_user Role.user = true
is_user r = false

abbrev is_assistant : Role → Bool
is_assistant Role.assistant = true
is_assistant r = false

-- `a && b === a` for texts that may be null: an empty text is false.
abbrev names : Option String → Option String → Bool
names none t = false
names (some s) none = false
names (some s) (some t) = not (is_empty s) && t == s

unfoldable pub matches_persisted_pending : PendingTranscriptItem → List TranscriptItem → Bool
matches_persisted_pending p saved =
    any (λ it. is_user it.role && names p.turn_id it.turn_id) saved
    || any (λ it. is_user it.role && it.text == p.text) saved

unfoldable pub matches_persisted_assistant : LiveAssistantItem → List TranscriptItem → Bool
matches_persisted_assistant l saved =
    any (λ it. is_assistant it.role && names l.turn_id it.turn_id) saved
    || any (λ it. is_assistant it.role && names l.item_id (some it.id)) saved
    || any (λ it. is_assistant it.role && it.text == l.text) saved

abbrev pub as_persisted : TranscriptItem → TranscriptViewItem
as_persisted it = record { item = it; presentation = Presentation.persisted }

abbrev pub as_pending : PendingTranscriptItem → TranscriptViewItem
as_pending p = record {
  item = record {
    id = p.id;
    turn_id = p.turn_id;
    role = Role.user;
    text = p.text;
    created_at = some p.created_at;
  };
  presentation = Presentation.pending;
}

abbrev pub as_live : LiveAssistantItem → TranscriptViewItem
as_live l = record {
  item = record {
    id = or_else l.item_id (template ("live:" ∷ or_else l.turn_id l.created_at ∷ []));
    turn_id = l.turn_id;
    role = Role.assistant;
    text = l.text;
    created_at = some l.created_at;
  };
  presentation = Presentation.live;
}

-- A live text that is blank, or that is persisted, is not shown. A text is blank when nothing is left
-- of it after `compactWhitespace`, which is when nothing is left of it after `trim`.
unfoldable pub shown_live :
    Option LiveAssistantItem → List TranscriptItem → Option LiveAssistantItem
unfolding matches_persisted_assistant
shown_live none saved = none
shown_live (some l) saved =
    if not (is_empty (trim l.text)) && not (matches_persisted_assistant l saved)
    then some l
    else none

abbrev pub live_items : Option LiveAssistantItem → List TranscriptViewItem
live_items none = []
live_items (some l) = as_live l ∷ []

abbrev is_unfinished : Option LiveAssistantItem → Bool
is_unfinished none = false
is_unfinished (some l) = not l.done

abbrev pub settle : Bool → PublicThreadStatus → PublicThreadStatus
settle true PublicThreadStatus.done = PublicThreadStatus.thinking
settle awaiting status = status

unfoldable pub unapplied_pending :
    List PendingTranscriptItem → List TranscriptItem → List PendingTranscriptItem
unfolding matches_persisted_pending
unapplied_pending waiting saved = keep (λ p. not (matches_persisted_pending p saved)) waiting

abbrev pub persisted_of : Option (PublicThreadStatus × List TranscriptItem) → List TranscriptItem
persisted_of none = []
persisted_of (some d) = d.1

abbrev pub status_of : Option (PublicThreadStatus × List TranscriptItem) → PublicThreadStatus
status_of none = PublicThreadStatus.done
status_of (some d) = d.0

-- `detail` is the status of its thread and its items.
unfoldable pub build_transcript_view_state :
    Option (PublicThreadStatus × List TranscriptItem)
    → List PendingTranscriptItem
    → Option LiveAssistantItem
    → Option PublicThreadStatus
    → TranscriptViewState
unfolding shown_live unapplied_pending
build_transcript_view_state detail waiting speaking override =
    let saved = persisted_of detail in
    let unapplied = unapplied_pending waiting saved in
    let shown = shown_live speaking saved in
    let awaiting = not (is_empty_list unapplied) || is_unfinished shown in
    record {
      items = map as_persisted saved ++ map as_pending unapplied ++ live_items shown;
      status = settle awaiting (or_else override (status_of detail));
      awaiting_persistence = awaiting;
    }
