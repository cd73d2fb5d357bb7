-- ===== src/Store/Invariant/Retry.antt =====
-- services/protocol-runner-api/src/store.ts: `retryParallelItem` and the invariant of
-- the tables.
use mathlib.Core.Path.{subst₂}
use protocol_runner.Common.{
  Pairwise, ℕ, ◌≤◌, ◌<◌, ◌≡◌, ◌≢◌, refl, sym, ◌∙◌, subst, ap, true, false, String, Option, some,
  List, [], ◌∷◌, ◌++◌, All-imp, All-find, find, find-passes, count, arith, if◌then◌else◌,
  Bool-cases, inl, inr, eq_iff, any,
}
use protocol_runner.Store.Error.{ok, >>=-eq-ok, >>-eq-ok, require-eq-ok, ok_pair}
use protocol_runner.Store.Ids.{
  assert_safe_run_instance_id, assert_safe_parallel_id, assert_safe_parallel_id-same,
  parallel_attempt_id, parallel_attempt_relative_dir,
}
use protocol_runner.Store.Rows.{ItemRow, AttemptRow, LeaseRow, ItemStatus, is_live, is_attention}
use protocol_runner.Store.Tables.{
  Db, at_item, at_attempt, active_on, load_run_row, load_item, next_attempt_number,
  max_attempt_number, insert_attempt,
}
use protocol_runner.Store.Tables.Laws.{find-update_where_other, All-update_where}
use protocol_runner.Store.Tables.Inserts.{insert_attempt-tables, find-append_new}
use protocol_runner.Store.Retry.{retry_parallel_item, check_previous, retry_effect, requeue_item}
use protocol_runner.Store.Invariant.{IsSound, IsIdleUnlessLive, IsLinked, IsOtherAttempt}
use protocol_runner.Store.Invariant.Updates.{
  group_keys-update_groups, IsLinked-Carries, Carries-append, All-IsLatest-assign,
  HasRoom-update_groups, item_keys-update_items,
}
use protocol_runner.Store.Invariant.Keys.{attempt_keys-insert_attempt}

attention-idle : (status : ItemStatus) → is_attention status ≡ true → is_live status ≡ false
attention-idle ItemStatus.blocked h = refl
attention-idle ItemStatus.needs_recovery h = refl
attention-idle ItemStatus.cancelled h = refl
attention-idle ItemStatus.stopped h = refl
attention-idle ItemStatus.pending h = refl
attention-idle ItemStatus.completed h = refl
attention-idle ItemStatus.leased h = absurd (cc)
attention-idle ItemStatus.running h = absurd (cc)

pub max_attempt_number-bound :
    (g i a : String) (attempts : List AttemptRow) {row : AttemptRow}
    → find (at_attempt a) attempts ≡ some row
    → row.group_id ≡ g
    → row.item_id ≡ i
    → row.attempt_number ≤ max_attempt_number g i attempts
unfolding max_attempt_number
max_attempt_number-bound g i a [] h e f = absurd (cc)
max_attempt_number-bound g i a (x ∷ xs) {row} h e f = grind (
  arith,
  max_attempt_number-bound g i a xs {row = row},
  eq_iff row.group_id g,
  eq_iff row.item_id i,
)

module _ (group item_id attempt_id : String) (now : ℕ) where
  requeued :
      (leases : List LeaseRow)
      → count (active_on group item_id) leases ≡ 0
      → (it : ItemRow) → IsIdleUnlessLive leases it
      → IsIdleUnlessLive leases
          (if at_item group item_id it then requeue_item attempt_id now it else it)
  unfolding requeue_item
  requeued leases none_active it h = elim (Bool-cases (at_item group item_id it)) [
    | inl hit ↦
        let g : it.group_id ≡ group = ground (arith, eq_iff it.group_id group) in
        let i : it.item_id ≡ item_id = ground (arith, eq_iff it.item_id item_id) in
        rw hit (λ _. rw (g, i) none_active)
    | inr miss ↦ rw miss h
  ]

  retry_effect-IsSound :
      (db : Db) (row : AttemptRow)
      → IsSound db
      → count (active_on group item_id) db.leases ≡ 0
      → any (at_attempt row.attempt_id) db.attempts ≡ false
      → row.attempt_id ≡ attempt_id
      → row.group_id ≡ group
      → row.item_id ≡ item_id
      → Pairwise IsOtherAttempt (db.attempts ++ row ∷ [])
      → IsSound (
          retry_effect group item_id attempt_id now
            (record db { attempts = db.attempts ++ row ∷ [] }))
  unfolding retry_effect
  retry_effect-IsSound db row s none_active fresh id_eq g_eq i_eq keys = record {
    capacity = HasRoom-update_groups _ _ (λ g. (refl, refl, refl)) db.leases db.groups s.capacity;
    single = s.single;
    idle =
        All-update_where (IsIdleUnlessLive db.leases) (IsIdleUnlessLive db.leases) _ _ db.items
          (requeued db.leases none_active) s.idle;
    linked =
        All-imp (IsLinked db.attempts) (IsLinked _) db.leases
          (IsLinked-Carries db.attempts _ (Carries-append db.attempts (row ∷ []))) s.linked;
    latest =
        All-IsLatest-assign db.attempts _ group item_id attempt_id (requeue_item attempt_id now)
          db.items row (unfold requeue_item in λ it. (refl, refl, refl))
          (Carries-append db.attempts (row ∷ []))
          (subst (λ x. find (at_attempt x) (db.attempts ++ row ∷ []) ≡ some row) id_eq
            (find-append_new (at_attempt row.attempt_id) db.attempts row fresh
              (ground (arith, eq_iff row.attempt_id row.attempt_id))))
          g_eq i_eq s.latest;
    item_keys =
        item_keys-update_items _ (requeue_item attempt_id now)
          (unfold requeue_item in λ it. (refl, refl)) db.items s.item_keys;
    lease_ids = s.lease_ids;
    group_keys = group_keys-update_groups _ _ (λ g. (refl, refl, refl)) db.groups s.group_keys;
    attempt_keys = keys;
  }

  retry_effect-sibling :
      (db : Db) (j : String)
      → j ≢ item_id
      → find (at_item group j) (retry_effect group item_id attempt_id now db).items
        ≡ find (at_item group j) db.items
  unfolding retry_effect requeue_item
  retry_effect-sibling db j other =
      find-update_where_other (at_item group item_id) (requeue_item attempt_id now)
        (at_item group j) db.items
        (λ x h. ground (arith, eq_iff x.item_id item_id, eq_iff x.item_id j))

-- What a retry that succeeds has found, and the tables that it leaves.
record Retried (db : Db) (group item_id : String) (now : ℕ) (attempt : AttemptRow)
    (previous : Option String) (db' : Db) : Type 0 where
  item : ItemRow
  found : find (at_item group item_id) db.items ≡ some item
  attention : is_attention item.status ≡ true
  checked : check_previous item.latest_attempt_id db ≡ ok tt
  latest : previous ≡ item.latest_attempt_id
  fresh : any (at_attempt attempt.attempt_id) db.attempts ≡ false
  keys : Pairwise IsOtherAttempt db.attempts → Pairwise IsOtherAttempt (db.attempts ++ attempt ∷ [])
  of_group : attempt.group_id ≡ group
  of_item : attempt.item_id ≡ item_id
  number : attempt.attempt_number ≡ next_attempt_number db group item_id
  tables :
      db'
      ≡ retry_effect group item_id attempt.attempt_id now
          (record db { attempts = db.attempts ++ attempt ∷ [] })

module _ (run group item_id : String) (now : ℕ) (db : Db) where
  retry_parallel_item-Retried :
      {attempt : AttemptRow} {previous : Option String} {db' : Db}
      → retry_parallel_item run group item_id now db ≡ ok ((attempt, previous), db')
      → Retried db group item_id now attempt previous db'
  unfolding retry_parallel_item
  retry_parallel_item-Retried {attempt} {previous} {db'} h =
      let (r, e1, h1) = >>=-eq-ok (assert_safe_run_instance_id run) _ h in
      let (g, e2, h2) = >>=-eq-ok (assert_safe_parallel_id group) _ h1 in
      let (i, e3, h3) = >>=-eq-ok (assert_safe_parallel_id item_id) _ h2 in
      let (u, e4, h4) = >>=-eq-ok (load_run_row db r) _ h3 in
      let (item, e5, h5) = >>=-eq-ok (load_item db g i) _ h4 in
      let (c6, h6) = >>-eq-ok (is_attention item.status) _ _ h5 in
      let (v, e7, h7) = >>=-eq-ok (check_previous item.latest_attempt_id db) _ h6 in
      let (id, e8, h8) = >>=-eq-ok (parallel_attempt_id g i _) _ h7 in
      let (dir, e9, h9) = >>=-eq-ok (parallel_attempt_relative_dir g i id) _ h8 in
      let (db1, e10, h10) = >>=-eq-ok (insert_attempt _ db) _ h9 in
      let (values, tables) = ok_pair h10 in
      let same = (pair values).0 in
      subst₂ (λ x y. Retried db x y now attempt previous db')
        (assert_safe_parallel_id-same group e2) (assert_safe_parallel_id-same item_id e3)
        (record {
          item = item;
          found = require-eq-ok _ _ e5;
          attention = c6;
          checked = e7;
          latest = sym (pair values).1;
          fresh =
              subst (λ (x : AttemptRow). any (at_attempt x.attempt_id) db.attempts ≡ false) same
                (insert_attempt-tables _ db e10).0;
          keys = λ k.
              subst (λ (x : AttemptRow). Pairwise IsOtherAttempt (db.attempts ++ x ∷ [])) same
                (attempt_keys-insert_attempt _ db e10 k);
          of_group = ap (λ (x : AttemptRow). x.group_id) (sym same);
          of_item = ap (λ (x : AttemptRow). x.item_id) (sym same);
          number = ap (λ (x : AttemptRow). x.attempt_number) (sym same);
          tables =
              sym tables
              ∙ ap (retry_effect g i id now) (insert_attempt-tables _ db e10).1
              ∙ ap
                  (λ (x : AttemptRow).
                    retry_effect g i x.attempt_id now
                      (record db { attempts = db.attempts ++ x ∷ [] }))
                  same;
        })
    where
      pair :
          {x y : AttemptRow} {p q : Option String}
          → ◌≡◌ {A = AttemptRow × Option String} (x, p) (y, q)
          → (x ≡ y) × (p ≡ q)
      pair e = (cc, cc)

-- A retry that succeeds keeps sound tables sound.
pub retry_parallel_item-IsSound :
    (run group item_id : String) (now : ℕ) (db : Db) {attempt : AttemptRow}
    {previous : Option String} {db' : Db}
    → retry_parallel_item run group item_id now db ≡ ok ((attempt, previous), db')
    → IsSound db
    → IsSound db'
retry_parallel_item-IsSound run group item_id now db {attempt} h s =
    let r = retry_parallel_item-Retried run group item_id now db h in
    let none_active = item_idle s r in
    subst IsSound (sym r.tables) (
      retry_effect-IsSound group item_id attempt.attempt_id now db attempt s none_active r.fresh
        refl r.of_group r.of_item (r.keys s.attempt_keys))
  where
    item_idle :
        {db db' : Db} {g i : String} {now : ℕ} {attempt : AttemptRow} {p : Option String}
        → IsSound db
        → Retried db g i now attempt p db'
        → count (active_on g i) db.leases ≡ 0
    item_idle {db} {db'} {g} {i} s r =
        let idle =
          All-find (IsIdleUnlessLive db.leases) (at_item g i) db.items s.idle r.found
            (attention-idle _ r.attention) in
        let here : at_item g i r.item ≡ true = find-passes (at_item g i) db.items r.found in
        let same_g : r.item.group_id ≡ g = ground (arith, eq_iff r.item.group_id g) in
        let same_i : r.item.item_id ≡ i = ground (arith, eq_iff r.item.item_id i) in
        subst₂ (λ x y. count (active_on x y) db.leases ≡ 0) same_g same_i idle

-- A retry succeeds only for an item that needs attention; the attempt that it adds has a number
-- above those of every earlier attempt of the item, and no other item of the group changes.
pub retry_parallel_item_lem :
    (run group item_id : String) (now : ℕ) (db : Db) {attempt : AttemptRow}
    {previous : Option String} {db' : Db}
    → retry_parallel_item run group item_id now db ≡ ok ((attempt, previous), db')
    → (item : ItemRow) × (find (at_item group item_id) db.items ≡ some item)
      × (is_attention item.status ≡ true)
      × (previous ≡ item.latest_attempt_id)
      × ((a : String) (row : AttemptRow)
          → find (at_attempt a) db.attempts ≡ some row
          → row.group_id ≡ group
          → row.item_id ≡ item_id
          → row.attempt_number < attempt.attempt_number)
      × ((j : String)
          → j ≢ item_id
          → find (at_item group j) db'.items ≡ find (at_item group j) db.items)
unfolding next_attempt_number
retry_parallel_item_lem run group item_id now db {attempt} {previous} {db'} h =
    let r = retry_parallel_item-Retried run group item_id now db h in
    (
      r.item,
      r.found,
      r.attention,
      r.latest,
      λ a row found g i.
          omega (arith, r.number, max_attempt_number-bound group item_id a db.attempts found g i),
      λ j other.
          subst (λ d. find (at_item group j) d.items ≡ find (at_item group j) db.items)
            (sym r.tables) (retry_effect-sibling group item_id attempt.attempt_id now _ j other),
    )
