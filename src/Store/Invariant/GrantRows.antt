-- ===== src/Store/Invariant/GrantRows.antt =====
-- services/protocol-runner-api/src/store.ts: the rows that one round of `grantParallelLeases` leaves,
-- and the invariant of the tables.
use protocol_runner.Common.{
  Pairwise, ℕ, ◌+◌, ◌≡◌, refl, sym, ◌∙◌, subst, ap, ◌&&◌, ◌==◌, String, Option, some, none, List,
  [], ◌∷◌, ◌++◌, find, find-passes, count, count-append, arith, if◌then◌else◌, Bool-cases,
  Option-cases, inl, inr, eq_iff,
}
use protocol_runner.Store.Error.{ok, >>=-eq-ok, require-eq-ok, ok_inj}
use protocol_runner.Store.Ids.{parallel_attempt_id, parallel_attempt_relative_dir}
use protocol_runner.Store.Rows.{ItemRow, AttemptRow, LeaseRow, AttemptStatus, is_created}
use protocol_runner.Store.Tables.{
  Db, at_attempt, active_in, active_on, load_attempt, insert_attempt, next_attempt_number,
}
use protocol_runner.Store.Tables.Inserts.{insert_attempt-tables, find-append_new}
use protocol_runner.Store.Grant.{
  GrantContext, latest_attempt, reusable, attempt_for, new_lease, mark_leased,
}
use protocol_runner.Store.Invariant.{IsLatest, IsOtherAttempt}
use protocol_runner.Store.Invariant.Updates.{Carries, Carries-append}
use protocol_runner.Store.Invariant.Keys.{attempt_keys-insert_attempt}

-- The attempt that a round chooses, in the tables that it leaves.
pub record Chosen (c : GrantContext) (item : ItemRow) (db : Db) (id : String) (db' : Db)
    : Type 0 where
  pub attempts : List AttemptRow
  pub attempt : AttemptRow
  pub tables : db' ≡ record db { attempts = attempts }
  pub carries : Carries db.attempts attempts
  pub keys : Pairwise IsOtherAttempt db.attempts → Pairwise IsOtherAttempt attempts
  pub found : find (at_attempt id) attempts ≡ some attempt
  pub of_group : attempt.group_id ≡ c.group.group_id
  pub of_item : attempt.item_id ≡ item.item_id

latest_attempt-some :
    (db : Db) (item : ItemRow) {row : AttemptRow}
    → latest_attempt db item ≡ ok (some row)
    → (id : String) × (item.latest_attempt_id ≡ some id)
      × (find (at_attempt id) db.attempts ≡ some row)
unfolding latest_attempt
latest_attempt-some db item {row} h = elim (Option-cases item.latest_attempt_id) [
  | inl e ↦ absurd (some-none (ok_inj (rw e at h)))
  | inr (id, e) ↦
      let (a, found, same) = >>=-eq-ok (load_attempt db id) _ (rw e at h) in
      (id, e, require-eq-ok _ _ found ∙ ok_inj same)
]
  where
    some-none : {x : AttemptRow} → none ≡ some x → ⊥
    some-none e = cc

reusable-some : (o : Option AttemptRow) {row : AttemptRow} → reusable o ≡ some row → o ≡ some row
unfolding reusable
reusable-some none h = h
reusable-some (some a) {row} h = elim (Bool-cases (is_created a.status)) [
  | inl yes_created ↦ rw yes_created at h
  | inr not_created ↦ absurd (ground (arith, h, not_created))
]

-- The attempt that `attempt_for` inserts.
abbrev pub new_attempt : GrantContext → ItemRow → ℕ → String → String → AttemptRow
new_attempt c item number id dir = record {
  step_id = c.group.step_id;
  group_id = c.group.group_id;
  item_id = item.item_id;
  attempt_id = id;
  attempt_number = number;
  status = AttemptStatus.created;
  evidence_dir = some dir;
  warnings = [];
  created_at = c.leased_at;
  updated_at = c.leased_at;
}

module _ (c : GrantContext) (item : ItemRow) (db : Db) where
  inserted-Chosen :
      {n : ℕ} {id dir : String} {db' : Db}
      → attempt_for c item none db ≡ ok (n, id, dir, db')
      → Chosen c item db id db'
  unfolding attempt_for
  inserted-Chosen {n} {id} {dir} {db'} h =
      let number : ℕ = next_attempt_number db c.group.group_id item.item_id in
      let (i, e1, h1) = >>=-eq-ok (parallel_attempt_id c.group.group_id item.item_id number) _ h in
      let (d, e2, h2) =
        >>=-eq-ok (parallel_attempt_relative_dir c.group.group_id item.item_id i) _ h1 in
      let row : AttemptRow = new_attempt c item number i d in
      let (db1, e3, h3) = >>=-eq-ok (insert_attempt row db) _ h2 in
      let values = ok_inj h3 in
      let (fresh, tables) = insert_attempt-tables row db e3 in
      let same_id : i ≡ id = ap (λ (t : ℕ × String × String × Db). t.1) values in
      record {
        attempts = db.attempts ++ row ∷ [];
        attempt = row;
        tables = sym (ap (λ (t : ℕ × String × String × Db). t.3) values) ∙ tables;
        carries = Carries-append db.attempts (row ∷ []);
        keys = attempt_keys-insert_attempt row db e3;
        found =
            subst (λ x. find (at_attempt x) (db.attempts ++ row ∷ []) ≡ some row) same_id
              (find-append_new (at_attempt i) db.attempts row fresh (ground (arith, eq_iff i i)));
        of_group = refl;
        of_item = refl;
      }

  reused-Chosen :
      (existing : Option AttemptRow) (row : AttemptRow) {n : ℕ} {id dir : String} {db' : Db}
      → item.group_id ≡ c.group.group_id
      → IsLatest db.attempts item
      → latest_attempt db item ≡ ok existing
      → reusable existing ≡ some row
      → attempt_for c item (some row) db ≡ ok (n, id, dir, db')
      → Chosen c item db id db'
  unfolding attempt_for
  reused-Chosen existing row {n} {id} {dir} {db'} of latest e r h =
      let (d, e1, h1) =
        >>=-eq-ok (parallel_attempt_relative_dir c.group.group_id item.item_id row.attempt_id) _
          h in
      let values = ok_inj h1 in
      let same_id : row.attempt_id ≡ id = ap (λ (t : ℕ × String × String × Db). t.1) values in
      let (k, named, found) = latest_attempt-some db item (e ∙ ap ok (reusable-some existing r)) in
      let (a, found_a, group, it) = latest k named in
      let one : a ≡ row = some-equal (sym found_a ∙ found) in
      let key : row.attempt_id ≡ k =
        ground (arith, find-passes (at_attempt k) db.attempts found, eq_iff row.attempt_id k) in
      record {
        attempts = db.attempts;
        attempt = row;
        tables = sym (ap (λ (t : ℕ × String × String × Db). t.3) values);
        carries = λ i b f. (b, f, refl, refl);
        keys = λ k. k;
        found = subst (λ x. find (at_attempt x) db.attempts ≡ some row) (sym key ∙ same_id) found;
        of_group = ap (λ (x : AttemptRow). x.group_id) (sym one) ∙ group ∙ of;
        of_item = ap (λ (x : AttemptRow). x.item_id) (sym one) ∙ it;
      }
    where
      some-equal : {x y : AttemptRow} → some x ≡ some y → x ≡ y
      some-equal q = cc

  pub attempt_for-Chosen :
      (existing : Option AttemptRow) {n : ℕ} {id dir : String} {db' : Db}
      → item.group_id ≡ c.group.group_id
      → IsLatest db.attempts item
      → latest_attempt db item ≡ ok existing
      → attempt_for c item (reusable existing) db ≡ ok (n, id, dir, db')
      → Chosen c item db id db'
  attempt_for-Chosen existing {n} {id} {dir} {db'} of latest e h =
      elim (Option-cases (reusable existing)) [
        | inl missing ↦
            inserted-Chosen (subst (λ o. attempt_for c item o db ≡ ok (n, id, dir, db')) missing h)
        | inr (row, r) ↦
            reused-Chosen existing row of latest e r
              (subst (λ o. attempt_for c item o db ≡ ok (n, id, dir, db')) r h)
      ]

  -- The tables after one round.
  abbrev pub round : List AttemptRow → String → String → String → Db
  round attempts id dir lease_id =
      mark_leased c item id dir
        (record db { attempts = attempts; leases = db.leases ++ new_lease c item id lease_id ∷ [] })

  abbrev pub with_lease : String → String → List LeaseRow
  with_lease id lease_id = db.leases ++ new_lease c item id lease_id ∷ []

  pub count-with_lease_in :
      (id lease_id g : String)
      → count (active_in g) (with_lease id lease_id)
        ≡ count (active_in g) db.leases + (if c.group.group_id == g then 1 else 0)
  unfolding new_lease
  count-with_lease_in id lease_id g =
      ground (arith, count-append (active_in g) db.leases (new_lease c item id lease_id ∷ []))

  pub count-with_lease_on :
      (id lease_id g i : String)
      → count (active_on g i) (with_lease id lease_id)
        ≡ count (active_on g i) db.leases
          + (if c.group.group_id == g && item.item_id == i then 1 else 0)
  unfolding new_lease
  count-with_lease_on id lease_id g i =
      ground (arith, count-append (active_on g i) db.leases (new_lease c item id lease_id ∷ []))
