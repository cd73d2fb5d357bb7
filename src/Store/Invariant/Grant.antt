-- ===== src/Store/Invariant/Grant.antt =====
-- services/protocol-runner-api/src/store.ts: the conditions and the bounds of
-- `grantParallelLeases`.
use protocol_runner.Common.{
  refl, length-take-le, All, All-imp, All-take, All-keep, All-keep_passes, All-sort_by,
  Pairwise-take, Pairwise-keep, Pairwise-sort_by, sort_by, keep, count-any, ℕ, suc, ◌+◌, ◌-◌, ◌≤◌,
  ◌≡◌, sym, ◌∙◌, subst, ap, true, String, some, List, [], ◌∷◌, take, length, min, find, find-passes,
  eq_iff, count, arith, leb, or_else,
}
use protocol_runner.Store.Error.{ok, >>=-eq-ok, >>-eq-ok, require-eq-ok, ok_pair}
use protocol_runner.Store.Ids.{
  assert_safe_run_instance_id, assert_safe_parallel_id, assert_safe_parallel_id-same,
}
use protocol_runner.Store.Rows.{GroupRow, ItemRow, LeaseRow, is_passed, is_leaseable}
use protocol_runner.Store.Tables.{
  Db, at_group, active_in, load_run_row, load_group, lease_candidates, is_candidate, item_le,
  active_on, default_lease_ttl_ms,
}
use protocol_runner.Store.Grant.{
  GrantInput, GrantContext, available, grant_item, grant_items, grant_transaction, mark_running,
  grant_parallel_leases,
}
use protocol_runner.Store.Invariant.{IsSound, IsLatest, IsOtherItem}
use protocol_runner.Store.Invariant.Updates.{group_keys-update_groups, HasRoom-update_groups}
use protocol_runner.Store.Invariant.GrantLoop.{IsOpen, grant_items-IsSound}

grant_items-length :
    (c : GrantContext) (n : ℕ) (items : List ItemRow) (db : Db) {leases : List LeaseRow} {db' : Db}
    → grant_items c n items db ≡ ok (leases, db')
    → length leases ≡ length items
unfolding grant_items
grant_items-length c n [] db {leases} h = ap length (sym (ok_pair h).0)
grant_items-length c n (item ∷ items) db {leases} h =
    let (first, e1, h1) = >>=-eq-ok (grant_item c n item db) _ h in
    let (rest, e2, h2) = >>=-eq-ok (grant_items c (n + 1) items first.1) _ h1 in
    let same = grant_items-length c (n + 1) items first.1 {leases = rest.0} {db' = rest.1} e2 in
    sym (ap length (ok_pair h2).0) ∙ ap suc same

-- What a grant that succeeds has found, and how many leases it gives.
record Granted (db : Db) (group_id : String) (capacity : ℕ) (leases : List LeaseRow) : Type 0 where
  group : GroupRow
  found : find (at_group group_id) db.groups ≡ some group
  passed : is_passed group.preflight_status ≡ true
  leaseable : is_leaseable group.status ≡ true
  bound : length leases ≤ available db group capacity

grant_transaction-Granted :
    (g e : String) (capacity ttl now : ℕ) (uuid : ℕ → String) (db : Db) {leases : List LeaseRow}
    {db' : Db}
    → grant_transaction g e capacity ttl now uuid db ≡ ok (leases, db')
    → Granted db g capacity leases
unfolding grant_transaction
grant_transaction-Granted g e capacity ttl now uuid db {leases} h =
    let (group, e1, h1) = >>=-eq-ok (load_group db g) _ h in
    let (passed, h2) = >>-eq-ok (is_passed group.preflight_status) _ _ h1 in
    let (leaseable, h3) = >>-eq-ok (is_leaseable group.status) _ _ h2 in
    let c : GrantContext = record {
      group = group;
      executor_id = e;
      leased_at = now;
      expires_at = now + ttl;
      uuid = uuid;
    } in
    let items = take (available db group capacity) (lease_candidates db g) in
    let (granted, e4, h4) = >>=-eq-ok (grant_items c 0 items db) _ h3 in
    let same = grant_items-length c 0 items db {leases = granted.0} {db' = granted.1} e4 in
    let less = length-take-le (available db group capacity) (lease_candidates db g) in
    record {
      group = group;
      found = require-eq-ok _ _ e1;
      passed = passed;
      leaseable = leaseable;
      bound =
          subst (λ ls. length ls ≤ available db group capacity) (ok_pair h4).0
            (omega (arith, same, less));
    }

-- From sound tables, a grant succeeds only for a group whose preflight has passed and whose status
-- allows leases. It gives no more leases than the capacity asked for, and together with the leases
-- that are active already no more than the group's bound on concurrency.
pub grant_parallel_leases-bound :
    (run group_id : String) (input : GrantInput) (now : ℕ) (uuid : ℕ → String) (db : Db)
    {leases : List LeaseRow} {db' : Db}
    → IsSound db
    → grant_parallel_leases run group_id input now uuid db ≡ ok (leases, db')
    → (group : GroupRow) × (find (at_group group_id) db.groups ≡ some group)
      × (is_passed group.preflight_status ≡ true)
      × (is_leaseable group.status ≡ true)
      × (length leases ≤ input.capacity)
      × (count (active_in group_id) db.leases + length leases ≤ group.max_concurrency)
unfolding grant_parallel_leases available
grant_parallel_leases-bound run group_id input now uuid db {leases} s h =
    let (r, e1, h1) = >>=-eq-ok (assert_safe_run_instance_id run) _ h in
    let (g, e2, h2) = >>=-eq-ok (assert_safe_parallel_id group_id) _ h1 in
    let (e, e3, h3) = >>=-eq-ok (assert_safe_parallel_id input.executor_id) _ h2 in
    let (c4, h4) = >>-eq-ok (leb 1 input.capacity) _ _ h3 in
    let ttl = or_else input.lease_ttl_ms default_lease_ttl_ms in
    let (c5, h5) = >>-eq-ok (leb 1 ttl) _ _ h4 in
    let (u, e6, h6) = >>=-eq-ok (load_run_row db r) _ h5 in
    let granted =
      subst (λ x. Granted db x input.capacity leases) (assert_safe_parallel_id-same group_id e2)
        (grant_transaction-Granted g e input.capacity ttl now uuid db h6) in
    let here : at_group group_id granted.group ≡ true =
      find-passes (at_group group_id) db.groups granted.found in
    let named : granted.group.group_id ≡ group_id =
      ground (arith, eq_iff granted.group.group_id group_id) in
    let room = s.capacity group_id granted.group granted.found in
    let bound =
      subst
        (λ x.
          length leases
          ≤ min input.capacity (granted.group.max_concurrency - count (active_in x) db.leases))
        named granted.bound in
    (
      granted.group,
      granted.found,
      granted.passed,
      granted.leaseable,
      omega (arith, bound),
      omega (arith, bound, room),
    )

IsOtherItem-sym : (x y : ItemRow) → IsOtherItem x y → IsOtherItem y x
IsOtherItem-sym x y other (g, i) = other (sym g, sym i)

is_candidate-free :
    (db : Db) (g : String) (it : ItemRow)
    → is_candidate db g it ≡ true
    → (it.group_id ≡ g) × (count (active_on g it.item_id) db.leases ≡ 0)
unfolding is_candidate
is_candidate-free db g it h = (
  ground (arith, h, eq_iff it.group_id g),
  count-any (active_on g it.item_id) db.leases (ground (arith, h)),
)

-- The candidates that a grant takes, in sound tables.
candidates-IsOpen :
    (c : GrantContext) (capacity : ℕ) (db : Db)
    → IsSound db
    → find (at_group c.group.group_id) db.groups ≡ some c.group
    → IsOpen c (take (available db c.group capacity) (lease_candidates db c.group.group_id)) db
unfolding lease_candidates available
candidates-IsOpen c capacity db s group_row =
    let g = c.group.group_id in
    let n = available db c.group capacity in
    let candidates = sort_by item_le (keep (is_candidate db g) db.items) in
    let chosen : All
        (λ (it : ItemRow). (it.group_id ≡ g) × (count (active_on g it.item_id) db.leases ≡ 0))
        (take n candidates) =
      All-take _ n candidates (
        All-sort_by _ item_le _
          (All-keep_passes _ (is_candidate db g) db.items (is_candidate-free db g))) in
    record {
      sound = s;
      group_row = group_row;
      of_group = All-imp _ _ (take n candidates) (λ it h. h.0) chosen;
      free = All-imp _ _ (take n candidates) (λ it h. h.1) chosen;
      latest = All-take (IsLatest db.attempts) n candidates (
          All-sort_by (IsLatest db.attempts) item_le _
            (All-keep (IsLatest db.attempts) (is_candidate db g) db.items s.latest));
      other = Pairwise-take IsOtherItem n candidates (
          Pairwise-sort_by IsOtherItem IsOtherItem-sym item_le _
            (Pairwise-keep IsOtherItem (is_candidate db g) db.items s.item_keys));
      room = omega (arith, length-take-le n candidates, s.capacity g c.group group_row);
    }

mark_running-IsSound :
    (c : GrantContext) (ls : List LeaseRow) (db : Db) → IsSound db → IsSound (mark_running c ls db)
unfolding mark_running
mark_running-IsSound c [] db s = s
mark_running-IsSound c (l ∷ ls) db s = record {
  capacity = HasRoom-update_groups _ _ (λ g. (refl, refl, refl)) db.leases db.groups s.capacity;
  single = s.single;
  idle = s.idle;
  linked = s.linked;
  latest = s.latest;
  item_keys = s.item_keys;
  lease_ids = s.lease_ids;
  group_keys = group_keys-update_groups _ _ (λ g. (refl, refl, refl)) db.groups s.group_keys;
  attempt_keys = s.attempt_keys;
}

grant_transaction-IsSound :
    (g e : String) (capacity ttl now : ℕ) (uuid : ℕ → String) (db : Db) {leases : List LeaseRow}
    {db' : Db}
    → IsSound db
    → grant_transaction g e capacity ttl now uuid db ≡ ok (leases, db')
    → IsSound db'
unfolding grant_transaction
grant_transaction-IsSound g e capacity ttl now uuid db s h =
    let (group, e1, h1) = >>=-eq-ok (load_group db g) _ h in
    let (passed, h2) = >>-eq-ok (is_passed group.preflight_status) _ _ h1 in
    let (leaseable, h3) = >>-eq-ok (is_leaseable group.status) _ _ h2 in
    let c : GrantContext = record {
      group = group;
      executor_id = e;
      leased_at = now;
      expires_at = now + ttl;
      uuid = uuid;
    } in
    let items = take (available db group capacity) (lease_candidates db g) in
    let (granted, e4, h4) = >>=-eq-ok (grant_items c 0 items db) _ h3 in
    let found : find (at_group g) db.groups ≡ some group = require-eq-ok _ _ e1 in
    let named : group.group_id ≡ g =
      ground (arith, find-passes (at_group g) db.groups found, eq_iff group.group_id g) in
    let here : find (at_group group.group_id) db.groups ≡ some group =
      subst (λ x. find (at_group x) db.groups ≡ some group) (sym named) found in
    let open_items =
      subst (λ x. IsOpen c (take (available db group capacity) (lease_candidates db x)) db) named
        (candidates-IsOpen c capacity db s here) in
    let sound = grant_items-IsSound c 0 items db {ls = granted.0} {db' = granted.1} open_items e4 in
    subst IsSound (ok_pair h4).1 (mark_running-IsSound c granted.0 granted.1 sound)

-- A grant that succeeds keeps sound tables sound.
pub grant_parallel_leases-IsSound :
    (run group_id : String) (input : GrantInput) (now : ℕ) (uuid : ℕ → String) (db : Db)
    {leases : List LeaseRow} {db' : Db}
    → IsSound db
    → grant_parallel_leases run group_id input now uuid db ≡ ok (leases, db')
    → IsSound db'
unfolding grant_parallel_leases
grant_parallel_leases-IsSound run group_id input now uuid db s h =
    let (r, e1, h1) = >>=-eq-ok (assert_safe_run_instance_id run) _ h in
    let (g, e2, h2) = >>=-eq-ok (assert_safe_parallel_id group_id) _ h1 in
    let (e, e3, h3) = >>=-eq-ok (assert_safe_parallel_id input.executor_id) _ h2 in
    let (c4, h4) = >>-eq-ok (leb 1 input.capacity) _ _ h3 in
    let ttl = or_else input.lease_ttl_ms default_lease_ttl_ms in
    let (c5, h5) = >>-eq-ok (leb 1 ttl) _ _ h4 in
    let (u, e6, h6) = >>=-eq-ok (load_run_row db r) _ h5 in
    grant_transaction-IsSound g e input.capacity ttl now uuid db s h6
