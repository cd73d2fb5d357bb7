-- ===== src/Transcript/View/Laws.antt =====
-- packages/codex-remote-core/src/reducers.ts: what the view of a transcript shows.
use protocol_runner.Common.{
  ◌≡◌, ◌≢◌, refl, Bool, true, false, not, ◌&&◌, ◌||◌, ◌==◌, ◌⊎◌, inl, inr, Option, List, [], ◌∷◌,
  ◌++◌, map, any, is_empty_list, All, All-imp, arith, eq_iff, if_intro, if_cases, ap,
}
use protocol_runner.Transcript.{TranscriptItem}
use protocol_runner.Transcript.View.{
  PublicThreadStatus, Presentation, PendingTranscriptItem, LiveAssistantItem, TranscriptViewItem,
  matches_persisted_pending, as_persisted, as_pending, settle, unapplied_pending, persisted_of,
  build_transcript_view_state, shown_live, live_items,
}

settle-not_done : (s : PublicThreadStatus) → settle true s ≢ PublicThreadStatus.done
settle-not_done PublicThreadStatus.thinking h = absurd (cc)
settle-not_done PublicThreadStatus.done h = absurd (cc)
settle-not_done PublicThreadStatus.waiting_on_approval h = absurd (cc)
settle-not_done PublicThreadStatus.error h = absurd (cc)

abbrev is_pending : Presentation → Bool
is_pending Presentation.pending = true
is_pending p = false

-- The view's item stands for the pending one.
abbrev pub shows : PendingTranscriptItem → TranscriptViewItem → Bool
shows p x = is_pending x.presentation && x.item.id == p.id

abbrev pub IsShown : List TranscriptItem → List TranscriptViewItem → PendingTranscriptItem → Type 0
IsShown saved items p = (matches_persisted_pending p saved ≡ true) ⊎ (any (shows p) items ≡ true)

any-append {ℓ} :
    {A : Type ℓ} (p : A → Bool) (xs ys : List A) → any p (xs ++ ys) ≡ (any p xs || any p ys)
any-append p [] ys = refl
any-append p (x ∷ xs) ys = ground (arith, any-append p xs ys)

shows-own : (p : PendingTranscriptItem) → shows p (as_pending p) ≡ true
shows-own p = ground (arith, eq_iff p.id p.id)

IsShown-more :
    (saved : List TranscriptItem) (items more : List TranscriptViewItem) (p : PendingTranscriptItem)
    → (any (shows p) items ≡ true → any (shows p) more ≡ true)
    → IsShown saved items p
    → IsShown saved more p
IsShown-more saved items more p f (inl hit) = inl hit
IsShown-more saved items more p f (inr seen) = inr (f seen)

not-false : {b : Bool} → not b ≡ false → b ≡ true
not-false {b} h = ground (arith, h)

append_assoc {ℓ} : {A : Type ℓ} (xs ys zs : List A) → xs ++ ys ++ zs ≡ xs ++ (ys ++ zs)
append_assoc [] ys zs = refl
append_assoc (x ∷ xs) ys zs = ap (λ r. x ∷ r) (append_assoc xs ys zs)

unapplied-IsShown :
    (waiting : List PendingTranscriptItem) (saved : List TranscriptItem)
    → All (IsShown saved (map as_pending (unapplied_pending waiting saved))) waiting
unfolding unapplied_pending
unapplied-IsShown [] saved = tt
unapplied-IsShown (p ∷ waiting) saved =
    let rest = unapplied_pending waiting saved in
    if_intro
      (λ (r : List PendingTranscriptItem). All (IsShown saved (map as_pending r)) (p ∷ waiting))
      (not (matches_persisted_pending p saved))
      (λ miss. (
        inr (rw (shows-own p) refl),
        All-imp (IsShown saved (map as_pending rest))
            (IsShown saved (as_pending p ∷ map as_pending rest)) waiting
            (λ q h.
              IsShown-more saved (map as_pending rest) (as_pending p ∷ map as_pending rest) q
                (λ e. ground (arith, e)) h)
            (unapplied-IsShown waiting saved),
      ))
      (λ hit. (inl (not-false hit), unapplied-IsShown waiting saved))

-- Where nothing is left to apply, every pending item is persisted.
none_left :
    (waiting : List PendingTranscriptItem) (saved : List TranscriptItem)
    → is_empty_list (unapplied_pending waiting saved) ≡ true
    → All (λ p. matches_persisted_pending p saved ≡ true) waiting
unfolding unapplied_pending
none_left [] saved h = tt
none_left (p ∷ waiting) saved h =
    if_cases (λ (r : List PendingTranscriptItem). is_empty_list r ≡ true)
      (not (matches_persisted_pending p saved)) h (λ miss e. absurd (cc))
      (λ hit e. (not-false hit, none_left waiting saved e))

-- The view begins with the persisted items. Every pending item is one of them, by its turn or its
-- text, or is shown as pending. While the view waits for items to be persisted, its status is not
-- done; when it does not wait, every pending item is persisted.
pub build_transcript_view_state_lem :
    (detail : Option (PublicThreadStatus × List TranscriptItem))
    (waiting : List PendingTranscriptItem) (speaking : Option LiveAssistantItem)
    (override : Option PublicThreadStatus)
    → ((rest : List TranscriptViewItem) × ((build_transcript_view_state detail waiting speaking
            override).items
          ≡ map as_persisted (persisted_of detail) ++ rest))
      × All
          (IsShown
            (persisted_of detail)
            (build_transcript_view_state detail waiting speaking override).items)
          waiting
      × ((build_transcript_view_state detail waiting speaking override).awaiting_persistence ≡ true
          → (build_transcript_view_state detail waiting speaking override).status
            ≢ PublicThreadStatus.done)
      × ((build_transcript_view_state detail waiting speaking override).awaiting_persistence ≡ false
          → All (λ p. matches_persisted_pending p (persisted_of detail) ≡ true) waiting)
unfolding build_transcript_view_state
build_transcript_view_state_lem detail waiting speaking override =
    let saved = persisted_of detail in
    let new = map as_pending (unapplied_pending waiting saved) in
    let shown = shown_live speaking saved in
    let before = map as_persisted saved in
    (
      (new ++ live_items shown, append_assoc before new (live_items shown)),
      All-imp (IsShown saved new) (IsShown saved (before ++ new ++ live_items shown)) waiting
          (λ p h.
            IsShown-more saved new (before ++ new ++ live_items shown) p
              (λ e.
                let first = any-append (shows p) before new in
                let all = any-append (shows p) (before ++ new) (live_items shown) in
                ground (arith, e, first, all))
              h)
          (unapplied-IsShown waiting saved),
      λ e. rw e (settle-not_done _),
      λ e. none_left waiting saved (ground (arith, e)),
    )
