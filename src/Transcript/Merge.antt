-- ===== src/Transcript/Merge.antt =====
-- packages/codex-remote-core/src/reducers.ts: merged transcripts have no item twice.
use protocol_runner.Common.{
  ℕ, ◌≡◌, ◌≢◌, refl, true, not, ◌||◌, String, Option, none, some, List, [], ◌∷◌, ◌++◌, take, keep,
  includes, arith, eq_iff, All, All-append, All-keep_passes, Pairwise, Pairwise-keep, Pairwise-take,
}
use protocol_runner.Transcript.{
  TranscriptItem, ids, find_index, kept_prefix, merge_older_transcript_items,
  merge_snapshot_transcript_items,
}

abbrev pub IsOther : TranscriptItem → TranscriptItem → Type 0
IsOther a b = a.id ≢ b.id

Pairwise-append {ℓ κ} :
    {A : Type ℓ} (R : A → A → Type κ) (xs ys : List A)
    → Pairwise R xs
    → Pairwise R ys
    → All (λ x. All (R x) ys) xs
    → Pairwise R (xs ++ ys)
Pairwise-append R [] ys h k m = k
Pairwise-append R (x ∷ xs) ys (p, h) k (q, m) =
    (All-append (R x) xs ys p q, Pairwise-append R xs ys h k m)

absent_others :
    (x : TranscriptItem) (ys : List TranscriptItem)
    → not (includes x.id (ids ys)) ≡ true
    → All (IsOther x) ys
absent_others x [] h = tt
absent_others x (y ∷ ys) h =
    let other : IsOther x y = λ same. ground (arith, h, eq_iff y.id x.id) in
    (other, absent_others x ys (ground (arith, h)))

-- What is kept in front of `ys`, from items that are all different.
kept_distinct :
    (xs ys : List TranscriptItem)
    → Pairwise IsOther xs
    → Pairwise IsOther ys
    → Pairwise IsOther (keep (λ it. not (includes it.id (ids ys))) xs ++ ys)
kept_distinct xs ys h k =
    Pairwise-append IsOther (keep (λ it. not (includes it.id (ids ys))) xs) ys
      (Pairwise-keep IsOther (λ it. not (includes it.id (ids ys))) xs h) k
      (All-keep_passes (λ x. All (IsOther x) ys) (λ it. not (includes it.id (ids ys))) xs
        (λ x e. absent_others x ys e))

includes_kept :
    (k : String) (xs ys : List TranscriptItem)
    → includes k (ids (keep (λ it. not (includes it.id (ids ys))) xs ++ ys))
      ≡ (includes k (ids xs) || includes k (ids ys))
includes_kept k [] ys = refl
includes_kept k (x ∷ xs) ys = ground (arith, includes_kept k xs ys, eq_iff x.id k)

-- Older items that are put before a transcript: it stays the end of the result, no id occurs twice
-- where none did in either, and the result has exactly the ids of both.
pub merge_older_transcript_items_lem :
    (current older : List TranscriptItem)
    → Pairwise IsOther current
    → Pairwise IsOther older
    → Pairwise IsOther (merge_older_transcript_items current older)
      × ((prefix : List TranscriptItem) × (merge_older_transcript_items current older
            ≡ prefix ++ current))
      × ((k : String)
          → includes k (ids (merge_older_transcript_items current older))
            ≡ (includes k (ids older) || includes k (ids current)))
unfolding merge_older_transcript_items
merge_older_transcript_items_lem current older h k = (
  kept_distinct older current k h,
  (keep (λ it. not (includes it.id (ids current))) older, refl),
  λ key. includes_kept key older current,
)

-- A snapshot that is merged into a transcript and is not empty is the end of the result, in which no
-- id occurs twice where none did in either; where the transcript does not have the snapshot's first
-- item, the result has exactly the ids of both.
pub merge_snapshot_transcript_items_lem :
    (current : List TranscriptItem) (first : TranscriptItem) (snapshot : List TranscriptItem)
    → Pairwise IsOther current
    → Pairwise IsOther (first ∷ snapshot)
    → Pairwise IsOther (merge_snapshot_transcript_items current (first ∷ snapshot))
      × ((prefix : List TranscriptItem) × (merge_snapshot_transcript_items current
              (first ∷ snapshot)
            ≡ prefix ++ (first ∷ snapshot)))
      × (find_index first.id current ≡ none
          → (k : String)
          → includes k (ids (merge_snapshot_transcript_items current (first ∷ snapshot)))
            ≡ (includes k (ids current) || includes k (ids (first ∷ snapshot))))
unfolding merge_snapshot_transcript_items
merge_snapshot_transcript_items_lem current first snapshot h k = go (find_index first.id current)
  where
    go :
        (o : Option ℕ)
        → Pairwise IsOther (kept_prefix o (ids (first ∷ snapshot)) current ++ (first ∷ snapshot))
          × ((prefix : List TranscriptItem) × (kept_prefix o (ids (first ∷ snapshot)) current
                  ++ (first ∷ snapshot)
                ≡ prefix ++ (first ∷ snapshot)))
          × (o ≡ none
              → (key : String)
              → includes key
                  (ids (kept_prefix o (ids (first ∷ snapshot)) current ++ (first ∷ snapshot)))
                ≡ (includes key (ids current) || includes key (ids (first ∷ snapshot))))
    go none = (
      kept_distinct current (first ∷ snapshot) h k,
      (_, refl),
      λ e key. includes_kept key current (first ∷ snapshot),
    )
    go (some i) = (
      kept_distinct (take i current) (first ∷ snapshot) (Pairwise-take IsOther i current h) k,
      (_, refl),
      λ e key. absurd (cc),
    )
