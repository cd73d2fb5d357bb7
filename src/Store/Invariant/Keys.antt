-- ===== src/Store/Invariant/Keys.antt =====
-- services/protocol-runner-api/src/store.ts: inserts and updates leave the keys of the
-- attempts distinct.
use protocol_runner.Common.{
  eq_iff, false, not, any, ◌≡◌, Bool, List, [], ◌∷◌, ◌++◌, All, Pairwise, arith,
}
use protocol_runner.Store.Rows.{AttemptRow}
use protocol_runner.Store.Error.{ok, >>-eq-ok}
use protocol_runner.Store.Tables.{Db, update_where, at_attempt, same_number, insert_attempt}
use protocol_runner.Store.Tables.Inserts.{Pairwise-append_new}
use protocol_runner.Store.Invariant.{IsOtherAttempt}
use protocol_runner.Store.Invariant.Updates.{Pairwise-update_where, KeepsAttempts}

module _ (p : AttemptRow → Bool) (f : AttemptRow → AttemptRow) (keeps : KeepsAttempts f) where
  pub attempt_keys-update_attempts :
      (attempts : List AttemptRow)
      → Pairwise IsOtherAttempt attempts
      → Pairwise IsOtherAttempt (update_where p f attempts)
  attempt_keys-update_attempts attempts h =
      Pairwise-update_where IsOtherAttempt p f attempts
        (λ x y other. (
          (λ e. ground (arith, keeps x, keeps y, other.0)),
          (λ e. ground (arith, keeps x, keeps y, other.1)),
        ))
        h

other_attempts :
    (row : AttemptRow) (attempts : List AttemptRow)
    → any (at_attempt row.attempt_id) attempts ≡ false
    → any (same_number row) attempts ≡ false
    → All (λ a. IsOtherAttempt a row) attempts
other_attempts row [] h k = tt
other_attempts row (a ∷ as') h k = (
  (
    (λ e. ground (arith, h, eq_iff a.attempt_id row.attempt_id)),
    (λ e. ground (arith, k, e, eq_iff a.group_id row.group_id, eq_iff a.item_id row.item_id)),
  ),
  other_attempts row as' (ground (arith, h)) (ground (arith, k)),
)

-- An attempt that is inserted has keys of its own.
pub attempt_keys-insert_attempt :
    (row : AttemptRow) (db : Db) {db' : Db}
    → insert_attempt row db ≡ ok db'
    → Pairwise IsOtherAttempt db.attempts
    → Pairwise IsOtherAttempt (db.attempts ++ row ∷ [])
unfolding insert_attempt
attempt_keys-insert_attempt row db h keys =
    let (c1, h1) = >>-eq-ok (not (any (at_attempt row.attempt_id) db.attempts)) _ _ h in
    let (c2, h2) = >>-eq-ok (not (any (same_number row) db.attempts)) _ _ h1 in
    Pairwise-append_new IsOtherAttempt db.attempts row keys
      (other_attempts row db.attempts (ground (arith, c1)) (ground (arith, c2)))
