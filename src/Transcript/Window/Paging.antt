-- ===== src/Transcript/Window/Paging.antt =====
-- packages/codex-remote-core/src/reducers.ts: a page of a transcript, and the page before it.
use protocol_runner.Common.{
  ℕ, zero, suc, ◌-◌, ◌≤◌, ◌<◌, ◌≡◌, ◌≢◌, refl, sym, ◌∙◌, ap, subst, true, false, not, ◌==◌, String,
  Option, none, some, List, [], ◌∷◌, ◌++◌, length, take, drop, ltb, ltb→lt, arith, eq_iff, if_intro,
  if_cases, is_empty_list, inl, inr, All, Pairwise, Option-cases,
}
use protocol_runner.Transcript.{
  TranscriptItem, TranscriptWindowRequest, first_id, end_of, start_of, find_index, cursor_of,
  clamp_transcript_window_limit, window_transcript_items,
}
use protocol_runner.Transcript.Merge.{IsOther}
use protocol_runner.Transcript.Window.{
  IsTurnStart, align_to_turn_start-IsTurnStart, align_to_turn_start-le, align_to_turn_start-same,
  same_some,
}

clamp-bounds : (limit : Option ℕ) → 1 ≤ clamp_transcript_window_limit limit
unfolding clamp_transcript_window_limit
clamp-bounds none = omega arith
clamp-bounds (some n) =
    if_intro (λ r. 1 ≤ r) (ltb n 1) (λ small. omega arith) (λ large. ground (arith, large))

end_of-le :
    (items : List TranscriptItem) (cursor : Option String) → end_of items cursor ≤ length items
unfolding end_of
end_of-le items none = omega arith
end_of-le items (some key) = elim (Option-cases (find_index key items)) [
  | inl e ↦ rw (e, end_of) (omega arith)
  | inr (i, e) ↦ rw (e, end_of) ((align_to_turn_start-le items i).0)
]

-- The start of a page comes no later than its end, and is the start of a turn.
start_of-bounds :
    (items : List TranscriptItem) (limit end : ℕ)
    → 1 ≤ limit
    → end ≤ length items
    → (start_of items limit end ≤ end) × IsTurnStart items (start_of items limit end)
unfolding start_of
start_of-bounds items limit end p h =
    if_intro (λ r. (r ≤ end) × IsTurnStart items r) (ltb (end - limit) end)
      (λ less.
        let below = ltb→lt (end - limit) end less in
        (
          omega (arith, (align_to_turn_start-le items (end - limit)).1 (omega (arith, below, h))),
          align_to_turn_start-IsTurnStart items (end - limit),
        ))
      (λ none_left. (omega arith, λ turn q e at_q. absurd (ground (arith, none_left, at_q, p))))

take-drop : (n : ℕ) (xs : List TranscriptItem) → take n xs ++ drop n xs ≡ xs
take-drop zero xs = refl
take-drop (suc n) [] = refl
take-drop (suc n) (x ∷ xs) = ap (λ r. x ∷ r) (take-drop n xs)

take-nil : (n : ℕ) → take {A = TranscriptItem} n [] ≡ []
take-nil zero = refl
take-nil (suc n) = refl

suc_minus : (m n : ℕ) → suc m - suc n ≡ m - n
suc_minus m n = omega arith

-- The items up to `n`, and those from there on up to `m`.
take-slice :
    (n m : ℕ) (xs : List TranscriptItem) → n ≤ m → take n xs ++ take (m - n) (drop n xs) ≡ take m xs
take-slice zero m xs h = rw (minus_zero m) refl
  where
    minus_zero : (k : ℕ) → k - 0 ≡ k
    minus_zero k = omega arith
take-slice (suc n) zero xs h = absurd (omega (arith, h))
take-slice (suc n) (suc m) [] h = take-nil (suc m - suc n)
take-slice (suc n) (suc m) (x ∷ xs) h =
    rw (suc_minus m n) (ap (λ r. x ∷ r) (take-slice n m xs (omega (arith, h))))

length-take : (n : ℕ) (xs : List TranscriptItem) → n ≤ length xs → length (take n xs) ≡ n
length-take zero xs h = refl
length-take (suc n) [] h = absurd (omega (arith, h))
length-take (suc n) (x ∷ xs) h = omega (arith, length-take n xs (omega (arith, h)))

drop_all : (xs : List TranscriptItem) → drop (length xs) xs ≡ []
drop_all [] = refl
drop_all (x ∷ xs) = drop_all xs

take-not_empty :
    (n : ℕ) (xs : List TranscriptItem) → n ≤ length xs → ltb 0 n ≡ not (is_empty_list (take n xs))
take-not_empty zero xs h = refl
take-not_empty (suc n) [] h = absurd (omega (arith, h))
take-not_empty (suc n) (x ∷ xs) h = ground arith

module _ (items : List TranscriptItem) (options : TranscriptWindowRequest) where
  abbrev page_end : ℕ
  page_end = end_of items (cursor_of options.before_item_id)

  abbrev page_start : ℕ
  page_start = start_of items (clamp_transcript_window_limit options.limit) page_end

  page-bounds : (page_start ≤ page_end) × IsTurnStart items page_start × (page_end ≤ length items)
  page-bounds =
      let last = end_of-le items (cursor_of options.before_item_id) in
      let first =
        start_of-bounds items (clamp_transcript_window_limit options.limit) page_end
          (clamp-bounds options.limit) last in
      (first.0, first.1, last)

no_cursor : (xs : List TranscriptItem) → drop (end_of xs none) xs ≡ []
unfolding end_of
no_cursor xs = drop_all xs

-- A page is a part of the transcript without a gap: the items are older ones, those of the page and
-- newer ones. It says that there are older items exactly when there are, it starts where a turn
-- starts, and without a cursor there is nothing newer.
pub window_transcript_items-contiguous :
    (items : List TranscriptItem) (options : TranscriptWindowRequest)
    → (older : List TranscriptItem) × (newer : List TranscriptItem) × (older
          ++ (window_transcript_items items options).items
          ++ newer
        ≡ items)
      × ((window_transcript_items items options).history.has_older ≡ not (is_empty_list older))
      × IsTurnStart items (length older)
      × (cursor_of options.before_item_id ≡ none → newer ≡ [])
unfolding window_transcript_items
window_transcript_items-contiguous items options =
    let s = page_start items options in
    let e = page_end items options in
    let (ordered, starts, last) = page-bounds items options in
    let inside : s ≤ length items = omega (arith, ordered, last) in
    (
      take s items,
      drop e items,
      ap (λ r. r ++ drop e items) (take-slice s e items ordered) ∙ take-drop e items,
      take-not_empty s items inside,
      subst (IsTurnStart items) (sym (length-take s items inside)) starts,
      λ none_given. ap (λ c. drop (end_of items c) items) none_given ∙ no_cursor items,
    )

first_id-All :
    (P : String → Type 0) (s m : ℕ) (xs : List TranscriptItem) {k : String}
    → All (λ y. P y.id) xs
    → first_id (take m (drop s xs)) ≡ some k
    → P k
first_id-All P zero zero xs h e = absurd (cc)
first_id-All P zero (suc m) [] h e = absurd (cc)
first_id-All P zero (suc m) (x ∷ xs) h e = subst P (same_some e) h.0
first_id-All P (suc s) zero [] h e = absurd (cc)
first_id-All P (suc s) (suc m) [] h e = absurd (cc)
first_id-All P (suc s) m (x ∷ xs) h e = first_id-All P s m xs h.1 e

-- In a transcript without an id twice, the first item after `s` is found at `s`.
find_index-first_id :
    (s m : ℕ) (xs : List TranscriptItem) {k : String}
    → Pairwise IsOther xs
    → first_id (take m (drop s xs)) ≡ some k
    → (find_index k xs ≡ some s) × (s < length xs)
find_index-first_id zero zero xs h e = absurd (cc)
find_index-first_id zero (suc m) [] h e = absurd (cc)
find_index-first_id zero (suc m) (x ∷ xs) {k} h e =
    let hit : (x.id == k) ≡ true = ground (arith, same_some e, eq_iff x.id k) in
    (rw hit refl, omega arith)
find_index-first_id (suc s) zero [] h e = absurd (cc)
find_index-first_id (suc s) (suc m) [] h e = absurd (cc)
find_index-first_id (suc s) m (x ∷ xs) {k} (other, h) e =
    let (found, below) = find_index-first_id s m xs h e in
    let differs = first_id-All (λ y. x.id ≢ y) s m xs other e in
    let miss : (x.id == k) ≡ false = ground (arith, differs, eq_iff x.id k) in
    (rw (miss, found) refl, omega (arith, below))

-- The cursor at a page's first item ends the page before it where this page starts.
end_of-page_start :
    (items : List TranscriptItem) (s m : ℕ) {k : String}
    → Pairwise IsOther items
    → IsTurnStart items s
    → first_id (take m (drop s items)) ≡ some k
    → end_of items (some k) ≡ s
unfolding end_of
end_of-page_start items s m h starts e =
    let (found, below) = find_index-first_id s m items h e in
    rw (found, end_of) (align_to_turn_start-same items s below starts)

-- Where no id occurs twice, the cursor that a page gives leads to the page right before it, for any
-- limit: older items, the earlier page, this page and newer items are the transcript, without a gap
-- or an overlap. The cursor has to survive the trimming of white space.
pub window_transcript_items-continues :
    (items : List TranscriptItem) (options : TranscriptWindowRequest) (limit : Option ℕ)
    {k : String}
    → Pairwise IsOther items
    → (window_transcript_items items options).history.next_before_item_id ≡ some k
    → cursor_of (some k) ≡ some k
    → (older : List TranscriptItem) × (newer : List TranscriptItem) × (older
          ++ (window_transcript_items items
              (record { limit = limit; before_item_id = some k })).items
          ++ (window_transcript_items items options).items
          ++ newer
        ≡ items)
unfolding window_transcript_items
window_transcript_items-continues items options limit {k} distinct next kept =
    let s = page_start items options in
    let e = page_end items options in
    let (ordered, starts, last) = page-bounds items options in
    let first : first_id (take (e - s) (drop s items)) ≡ some k =
      if_cases (λ (o : Option String). o ≡ some k) (ltb 0 s) next (λ more h. h)
        (λ none_older h. absurd (cc)) in
    let before : TranscriptWindowRequest = record { limit = limit; before_item_id = some k } in
    let ends : page_end items before ≡ s =
      ap (end_of items) kept ∙ end_of-page_start items s (e - s) distinct starts first in
    let s' = page_start items before in
    let (ordered', starts', last') = page-bounds items before in
    (
      take s' items,
      drop e items,
      ap (λ r. r ++ take (e - s) (drop s items) ++ drop e items)
            (take-slice s' (page_end items before) items ordered')
          ∙ ap (λ n. take n items ++ take (e - s) (drop s items) ++ drop e items) ends
          ∙ ap (λ r. r ++ drop e items) (take-slice s e items ordered)
          ∙ take-drop e items,
    )
