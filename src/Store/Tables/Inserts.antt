-- ===== src/Store/Tables/Inserts.antt =====
-- Lemmas on the inserts of services/protocol-runner-api/src/store.ts: what a key check has found, and
-- lists with a new last element.
use protocol_runner.Common.{
  ◌≡◌, ◌≢◌, sym, Bool, true, false, not, String, some, List, [], ◌∷◌, ◌++◌, All, All-append,
  Pairwise, find, any, arith, eq_iff,
}
use protocol_runner.Store.Error.{ok, >>-eq-ok, ok_inj}
use protocol_runner.Store.Rows.{AttemptRow, LeaseRow}
use protocol_runner.Store.Tables.{
  Db, at_attempt, at_item, at_lease, same_number, insert_attempt, insert_lease,
}

module _ {ℓ} {A : Type ℓ} where
  pub find-append_new :
      (p : A → Bool) (xs : List A) (y : A)
      → any p xs ≡ false
      → p y ≡ true
      → find p (xs ++ y ∷ []) ≡ some y
  find-append_new p [] y h e = ground arith
  find-append_new p (x ∷ xs) y h e = ground (arith, find-append_new p xs y)

  pub Pairwise-append_new {κ} :
      (R : A → A → Type κ) (xs : List A) (y : A)
      → Pairwise R xs
      → All (λ x. R x y) xs
      → Pairwise R (xs ++ y ∷ [])
  Pairwise-append_new R [] y h k = (tt, tt)
  Pairwise-append_new R (x ∷ xs) y (p, h) (q, k) =
      (All-append (R x) xs (y ∷ []) p (q, tt), Pairwise-append_new R xs y h k)

-- An attempt that is inserted has a new id and goes to the end of its table.
pub insert_attempt-tables :
    (row : AttemptRow) (db : Db) {db' : Db}
    → insert_attempt row db ≡ ok db'
    → (any (at_attempt row.attempt_id) db.attempts ≡ false)
      × (db' ≡ record db { attempts = db.attempts ++ row ∷ [] })
unfolding insert_attempt
insert_attempt-tables row db h =
    let (c1, h1) = >>-eq-ok (not (any (at_attempt row.attempt_id) db.attempts)) _ _ h in
    let (c2, h2) = >>-eq-ok (not (any (same_number row) db.attempts)) _ _ h1 in
    let (c3, h3) = >>-eq-ok (any (at_item row.group_id row.item_id) db.items) _ _ h2 in
    (ground (arith, c1), sym (ok_inj h3))

-- So does a lease.
pub insert_lease-tables :
    (row : LeaseRow) (db : Db) {db' : Db}
    → insert_lease row db ≡ ok db'
    → (any (at_lease row.lease_id) db.leases ≡ false)
      × (db' ≡ record db { leases = db.leases ++ row ∷ [] })
unfolding insert_lease
insert_lease-tables row db h =
    let (c1, h1) = >>-eq-ok (not (any (at_lease row.lease_id) db.leases)) _ _ h in
    let (c2, h2) = >>-eq-ok (any (at_attempt row.attempt_id) db.attempts) _ _ h1 in
    (ground (arith, c1), sym (ok_inj h2))

pub other_leases :
    (id : String) (ls : List LeaseRow)
    → any (at_lease id) ls ≡ false
    → All (λ l. l.lease_id ≢ id) ls
other_leases id [] h = tt
other_leases id (l ∷ ls) h = (
  (λ same. absurd (ground (arith, h, eq_iff l.lease_id id))),
  other_leases id ls (ground (arith, h)),
)
