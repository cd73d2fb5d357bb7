-- ===== src/Store/Invariant/GrantLoop.antt =====
-- services/protocol-runner-api/src/store.ts: the loop of `grantParallelLeases` and the invariant of
-- the tables.
use protocol_runner.Common.{
  ℕ, ◌+◌, ◌≤◌, ◌≡◌, sym, ◌∙◌, subst, ap, false, String, some, length, List, [], ◌∷◌, ◌++◌, All,
  All-imp, Pairwise, find, count, arith, eq_iff, any,
}
use protocol_runner.Store.Error.{ok, >>=-eq-ok, ok_pair}
use protocol_runner.Store.Ids.{parallel_lease_id}
use protocol_runner.Store.Rows.{ItemRow, LeaseRow}
use protocol_runner.Store.Tables.{Db, at_group, at_lease, active_in, active_on, insert_lease}
use protocol_runner.Store.Tables.Inserts.{insert_lease-tables}
use protocol_runner.Store.Grant.{
  GrantContext, latest_attempt, reusable, attempt_for, new_lease, mark_leased, grant_item,
  grant_items,
}
use protocol_runner.Store.Invariant.{IsSound, IsLatest, IsOtherItem}
use protocol_runner.Store.Invariant.Updates.{Carries-trans, IsLatest-Carries}
use protocol_runner.Store.Invariant.GrantRows.{
  Chosen, attempt_for-Chosen, round, with_lease, count-with_lease_in, count-with_lease_on,
}
use protocol_runner.Store.Invariant.GrantRound.{Carries-round, round-IsSound, lease_attempt}

-- What one round has found, and the tables that it leaves.
record Round (c : GrantContext) (item : ItemRow) (db db' : Db) : Type 0 where
  id : String
  dir : String
  lease_id : String
  between : Db
  chosen : Chosen c item db id between
  fresh : any (at_lease lease_id) db.leases ≡ false
  tables : db' ≡ round c item db chosen.attempts id dir lease_id

grant_item-Round :
    (c : GrantContext) (n : ℕ) (item : ItemRow) (db : Db) {l : LeaseRow} {db' : Db}
    → item.group_id ≡ c.group.group_id
    → IsLatest db.attempts item
    → grant_item c n item db ≡ ok (l, db')
    → Round c item db db'
unfolding grant_item new_lease
grant_item-Round c n item db {l} {db'} of latest h =
    let (existing, e1, h1) = >>=-eq-ok (latest_attempt db item) _ h in
    let (chosen, e2, h2) = >>=-eq-ok (attempt_for c item (reusable existing) db) _ h1 in
    let (lid, e3, h3) = >>=-eq-ok (parallel_lease_id chosen.1 (c.uuid n)) _ h2 in
    let (db2, e4, h4) = >>=-eq-ok (insert_lease (new_lease c item chosen.1 lid) chosen.3) _ h3 in
    let ch = attempt_for-Chosen c item db existing of latest e1 e2 in
    let (fresh, tables) = insert_lease-tables (new_lease c item chosen.1 lid) chosen.3 e4 in
    record {
      id = chosen.1;
      dir = chosen.2;
      lease_id = lid;
      between = chosen.3;
      chosen = ch;
      fresh = subst (λ (x : Db). any (at_lease lid) x.leases ≡ false) ch.tables fresh;
      tables =
          sym (ok_pair h4).1
          ∙ ap (mark_leased c item chosen.1 chosen.2) tables
          ∙ ap
              (λ (x : Db).
                mark_leased c item chosen.1 chosen.2
                  (record x { leases = x.leases ++ new_lease c item chosen.1 lid ∷ [] }))
              ch.tables;
    }

-- What the loop needs of the candidates that are left.
pub record IsOpen (c : GrantContext) (items : List ItemRow) (db : Db) : Type 0 where
  pub sound : IsSound db
  pub group_row : find (at_group c.group.group_id) db.groups ≡ some c.group
  pub of_group : All (λ (it : ItemRow). it.group_id ≡ c.group.group_id) items
  pub free :
      All (λ (it : ItemRow). count (active_on c.group.group_id it.item_id) db.leases ≡ 0) items
  pub latest : All (IsLatest db.attempts) items
  pub other : Pairwise IsOtherItem items
  pub room : count (active_in c.group.group_id) db.leases + length items ≤ c.group.max_concurrency

others_free :
    (c : GrantContext) (item : ItemRow) (db : Db) (id lease_id : String) (items : List ItemRow)
    → item.group_id ≡ c.group.group_id
    → All (λ (it : ItemRow). it.group_id ≡ c.group.group_id) items
    → All (IsOtherItem item) items
    → All (λ (it : ItemRow). count (active_on c.group.group_id it.item_id) db.leases ≡ 0) items
    → All
        (λ (it : ItemRow).
          count (active_on c.group.group_id it.item_id) (with_lease c item db id lease_id) ≡ 0)
        items
others_free c item db id lease_id [] of gs os fs = tt
others_free c item db id lease_id (x ∷ xs) of (g, gs) (o, os) (f, fs) = (
  ground (
    arith,
    f,
    count-with_lease_on c item db id lease_id c.group.group_id x.item_id,
    eq_iff item.item_id x.item_id,
    o,
    of,
    g,
  ),
  others_free c item db id lease_id xs of gs os fs,
)

round-IsOpen :
    (c : GrantContext) (item : ItemRow) (items : List ItemRow) (db : Db) {id : String} {db1 : Db}
    (ch : Chosen c item db id db1) (dir lease_id : String)
    → IsOpen c (item ∷ items) db
    → any (at_lease lease_id) db.leases ≡ false
    → IsOpen c items (round c item db ch.attempts id dir lease_id)
unfolding lease_attempt
round-IsOpen c item items db {id} ch dir lease_id o fresh =
    let counted = count-with_lease_in c item db id lease_id c.group.group_id in
    let moved =
      Carries-trans db.attempts ch.attempts _ ch.carries
        (Carries-round c item db ch.attempts id dir) in
    record {
      sound =
          round-IsSound c item db ch dir lease_id o.sound o.group_row o.free.0
            (omega (arith, o.room)) fresh;
      group_row = unfold mark_leased in o.group_row;
      of_group = o.of_group.1;
      free =
          unfold mark_leased in
          others_free c item db id lease_id items o.of_group.0 o.of_group.1 o.other.0 o.free.1;
      latest =
          unfold mark_leased in
          All-imp (IsLatest db.attempts) (IsLatest _) items (IsLatest-Carries db.attempts _ moved)
            o.latest.1;
      other = o.other.1;
      room =
          unfold mark_leased in
          ground (arith, counted, o.room, eq_iff c.group.group_id c.group.group_id);
    }

-- The loop leaves sound tables sound.
pub grant_items-IsSound :
    (c : GrantContext) (n : ℕ) (items : List ItemRow) (db : Db) {ls : List LeaseRow} {db' : Db}
    → IsOpen c items db
    → grant_items c n items db ≡ ok (ls, db')
    → IsSound db'
unfolding grant_items
grant_items-IsSound c n [] db o h = subst IsSound (ok_pair h).1 o.sound
grant_items-IsSound c n (item ∷ items) db {ls} {db'} o h =
    let (first, e1, h1) = >>=-eq-ok (grant_item c n item db) _ h in
    let (rest, e2, h2) = >>=-eq-ok (grant_items c (n + 1) items first.1) _ h1 in
    let r = grant_item-Round c n item db {l = first.0} {db' = first.1} o.of_group.0 o.latest.0 e1 in
    let o' =
      subst (IsOpen c items) (sym r.tables)
        (round-IsOpen c item items db r.chosen r.dir r.lease_id o r.fresh) in
    let sound = grant_items-IsSound c (n + 1) items first.1 {ls = rest.0} {db' = rest.1} o' e2 in
    subst IsSound (ok_pair h2).1 sound
