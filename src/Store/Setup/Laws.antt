-- ===== src/Store/Setup/Laws.antt =====
-- services/protocol-runner-api/src/store.ts: the parallel tables of a new run are sound.
use protocol_runner.Common.{
  ℕ, ◌≡◌, refl, subst, false, not, String, none, List, [], ◌∷◌, All, All-append, All-imp, ◌==◌,
  Pairwise, any, arith, eq_iff,
}
use protocol_runner.Core.Types.{RunStep, ParallelGroupStep, ParallelGroupItem}
use protocol_runner.Store.Error.{ok, >>=-eq-ok, >>-eq-ok, ok_inj}
use protocol_runner.Store.Rows.{GroupRow, ItemRow}
use protocol_runner.Store.Tables.{Db, at_group, at_item}
use protocol_runner.Store.Tables.Inserts.{Pairwise-append_new}
use protocol_runner.Store.Invariant.{IsSound, IsOtherItem, IsOtherGroup, IsIdleUnlessLive, IsLatest}
use protocol_runner.Store.Setup.{
  insert_group, insert_item, insert_items, insert_parallel_group_rows, insert_steps, initial_group,
  new_item, empty_tables, same_target,
}

-- No attempt was made yet, and the groups and the items have distinct keys.
record IsNew (db : Db) : Type 0 where
  no_attempts : db.attempts ≡ []
  no_leases : db.leases ≡ []
  untried : All (λ it. it.latest_attempt_id ≡ none) db.items
  item_keys : Pairwise IsOtherItem db.items
  group_keys : Pairwise IsOtherGroup db.groups

other_items :
    (g i : String) (items : List ItemRow) (row : ItemRow)
    → row.group_id ≡ g
    → row.item_id ≡ i
    → any (at_item g i) items ≡ false
    → All (λ it. IsOtherItem it row) items
other_items g i [] row eg ei h = tt
other_items g i (it ∷ items) row eg ei h =
    let other : IsOtherItem it row =
      λ same. ground (arith, h, eq_iff it.group_id g, eq_iff it.item_id i) in
    (other, other_items g i items row eg ei (ground (arith, h)))

other_groups :
    (row : GroupRow) (groups : List GroupRow)
    → any (at_group row.group_id) groups ≡ false
    → any (λ g. g.step_id == row.step_id) groups ≡ false
    → All (λ g. IsOtherGroup g row) groups
other_groups row [] h k = tt
other_groups row (g ∷ groups) h k = (
  (
    (λ e. ground (arith, h, eq_iff g.group_id row.group_id)),
    (λ e. ground (arith, k, eq_iff g.step_id row.step_id)),
  ),
  other_groups row groups (ground (arith, h)) (ground (arith, k)),
)

insert_group-IsNew :
    (row : GroupRow) (db : Db) {db' : Db} → IsNew db → insert_group row db ≡ ok db' → IsNew db'
unfolding insert_group
insert_group-IsNew row db n h =
    let (c1, h1) = >>-eq-ok (not (any (at_group row.group_id) db.groups)) _ _ h in
    let (c2, h2) = >>-eq-ok (not (any (λ g. g.step_id == row.step_id) db.groups)) _ _ h1 in
    subst IsNew (ok_inj h2) (record {
      no_attempts = n.no_attempts;
      no_leases = n.no_leases;
      untried = n.untried;
      item_keys = n.item_keys;
      group_keys =
          Pairwise-append_new IsOtherGroup db.groups row n.group_keys
            (other_groups row db.groups (ground (arith, c1)) (ground (arith, c2)));
    })

insert_item-IsNew :
    (row : ItemRow) (db : Db) {db' : Db}
    → row.latest_attempt_id ≡ none
    → IsNew db
    → insert_item row db ≡ ok db'
    → IsNew db'
unfolding insert_item
insert_item-IsNew row db untried n h =
    let (c1, h1) = >>-eq-ok (not (any (at_item row.group_id row.item_id) db.items)) _ _ h in
    let (c2, h2) = >>-eq-ok (not (any (same_target row) db.items)) _ _ h1 in
    let (c3, h3) = >>-eq-ok (any (at_group row.group_id) db.groups) _ _ h2 in
    subst IsNew (ok_inj h3) (record {
      no_attempts = n.no_attempts;
      no_leases = n.no_leases;
      untried =
          All-append (λ it. it.latest_attempt_id ≡ none) db.items (row ∷ []) n.untried
            (untried, tt);
      item_keys =
          Pairwise-append_new IsOtherItem db.items row n.item_keys
            (other_items row.group_id row.item_id db.items row refl refl (ground (arith, c1)));
      group_keys = n.group_keys;
    })

insert_items-IsNew :
    (step : ParallelGroupStep) (created_at : ℕ) (items : List ParallelGroupItem) (db : Db)
    {db' : Db}
    → IsNew db
    → insert_items step created_at items db ≡ ok db'
    → IsNew db'
unfolding insert_items
insert_items-IsNew step created_at [] db n h = subst IsNew (ok_inj h) n
insert_items-IsNew step created_at (item ∷ items) db n h =
    let (next, e, h1) = >>=-eq-ok (insert_item (new_item step created_at item) db) _ h in
    insert_items-IsNew step created_at items next (insert_item-IsNew _ db refl n e) h1

insert_steps-IsNew :
    (steps : List RunStep) (created_at : ℕ) (db : Db) {db' : Db}
    → IsNew db
    → insert_steps steps created_at db ≡ ok db'
    → IsNew db'
unfolding insert_steps insert_parallel_group_rows
insert_steps-IsNew [] created_at db n h = subst IsNew (ok_inj h) n
insert_steps-IsNew (RunStep.serial s ∷ steps) created_at db n h =
    insert_steps-IsNew steps created_at db n h
insert_steps-IsNew (RunStep.parallel_group g ∷ steps) created_at db n h =
    let (next, e, h1) = >>=-eq-ok (insert_parallel_group_rows g created_at db) _ h in
    let (with_group, e1, e2) = >>=-eq-ok (insert_group (initial_group g created_at) db) _ e in
    let n1 = insert_group-IsNew (initial_group g created_at) db n e1 in
    insert_steps-IsNew steps created_at next
      (insert_items-IsNew g created_at g.items with_group n1 e2) h1

IsNew-IsSound : (db : Db) → IsNew db → IsSound db
IsNew-IsSound db n = record {
  capacity = λ g row e. rw n.no_leases (omega arith);
  single = λ g i. rw n.no_leases (omega arith);
  idle =
      All-imp (λ it. it.latest_attempt_id ≡ none) (IsIdleUnlessLive db.leases) db.items
        (λ it u live. rw n.no_leases refl) n.untried;
  linked = rw n.no_leases tt;
  latest =
      All-imp (λ it. it.latest_attempt_id ≡ none) (IsLatest db.attempts) db.items
        (λ it u id e. absurd (cc)) n.untried;
  item_keys = n.item_keys;
  lease_ids = rw n.no_leases tt;
  group_keys = n.group_keys;
  attempt_keys = rw n.no_attempts tt;
}

-- The tables that a new run inserts for its plan are sound.
pub insert_steps-IsSound :
    (steps : List RunStep) (run : String) (created_at : ℕ) {db' : Db}
    → insert_steps steps created_at (empty_tables run) ≡ ok db'
    → IsSound db'
insert_steps-IsSound steps run created_at {db'} h = IsNew-IsSound db' (
    insert_steps-IsNew steps created_at (empty_tables run)
      (record {
        no_attempts = refl;
        no_leases = refl;
        untried = tt;
        item_keys = tt;
        group_keys = tt;
      })
      h)
