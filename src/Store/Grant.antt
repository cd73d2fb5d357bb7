-- ===== src/Store/Grant.antt =====
-- services/protocol-runner-api/src/store.ts: `recordParallelPreflight` (its table update) and
-- `grantParallelLeases`. The result of a grant is the list of new lease rows; the paths of the
-- packets are not modelled.
use protocol_runner.Common.{
  ℕ, ◌+◌, ◌-◌, String, Bool, Option, none, some, List, [], ◌∷◌, take, min, leb, or_else,
  if◌then◌else◌,
}
use protocol_runner.Store.Error.{Result, ok, ◌>>=◌, ◌>>◌, guard, StoreError}
use protocol_runner.Store.Rows.{
  GroupStatus, ItemStatus, AttemptStatus, LeaseStatus, PreflightStatus, GroupRow, ItemRow,
  AttemptRow, LeaseRow, is_created, is_passed, is_leaseable,
}
use protocol_runner.Store.Ids.{
  assert_safe_run_instance_id, assert_safe_parallel_id, parallel_attempt_id,
  parallel_attempt_relative_dir, parallel_lease_id,
}
use protocol_runner.Store.Tables.{
  Db, update_where, at_group, at_item, at_attempt, load_run_row, load_group, load_attempt,
  count_active_leases, next_attempt_number, lease_candidates, insert_attempt, insert_lease,
  default_lease_ttl_ms,
}

-- What the update reads of a preflight result; the checks themselves are kept as JSON.
pub record PreflightResult : Type 0 where
  pub passed : Bool
  pub checked_at : ℕ
  pub checked_by : String

unfoldable pub preflight_group : PreflightResult → GroupRow → GroupRow
preflight_group result g = record g {
  status = if result.passed then GroupStatus.ready_to_lease else GroupStatus.needs_attention;
  preflight_status = if result.passed then PreflightStatus.passed else PreflightStatus.failed;
  checked_at = some result.checked_at;
  checked_by = some result.checked_by;
  updated_at = result.checked_at;
}

unfoldable pub record_parallel_preflight :
    String → String → PreflightResult → Db → Result (PreflightResult × Db)
unfolding preflight_group
record_parallel_preflight run_instance_id group_id result db = do
  run ← assert_safe_run_instance_id run_instance_id
  group ← assert_safe_parallel_id group_id
  load_run_row db run
  row ← load_group db group
  ok (
    result,
    record db { groups = update_where (at_group group) (preflight_group result) db.groups },
  )

pub record GrantInput : Type 0 where
  pub executor_id : String
  pub capacity : ℕ
  pub lease_ttl_ms : Option ℕ

-- What stays the same during one grant: the group's row, the executor, the times, and the values
-- that `randomUUID` gives, by their order.
pub record GrantContext : Type 0 where
  pub group : GroupRow
  pub executor_id : String
  pub leased_at : ℕ
  pub expires_at : ℕ
  pub uuid : ℕ → String

-- The latest attempt of an item.
unfoldable pub latest_attempt : Db → ItemRow → Result (Option AttemptRow)
latest_attempt db item = elim item.latest_attempt_id [
  | none ↦ ok none
  | some id ↦ do row ← load_attempt db id; ok (some row)
]

-- The latest attempt, if its status is `created` and so can be used again.
unfoldable pub reusable : Option AttemptRow → Option AttemptRow
reusable none = none
reusable (some row) = if is_created row.status then some row else none

-- The number and the id of the attempt that the lease is for, and the tables with its row.
unfoldable pub attempt_for :
    GrantContext → ItemRow → Option AttemptRow → Db → Result (ℕ × String × String × Db)
attempt_for c item (some row) db = do
  dir ← parallel_attempt_relative_dir c.group.group_id item.item_id row.attempt_id
  ok (row.attempt_number, row.attempt_id, dir, db)
attempt_for c item none db = do
  let number = next_attempt_number db c.group.group_id item.item_id
  id ← parallel_attempt_id c.group.group_id item.item_id number
  dir ← parallel_attempt_relative_dir c.group.group_id item.item_id id
  db' ←
      insert_attempt
        (record {
          step_id = c.group.step_id;
          group_id = c.group.group_id;
          item_id = item.item_id;
          attempt_id = id;
          attempt_number = number;
          status = AttemptStatus.created;
          evidence_dir = some dir;
          warnings = [];
          created_at = c.leased_at;
          updated_at = c.leased_at;
        })
        db
  ok (number, id, dir, db')

unfoldable pub new_lease : GrantContext → ItemRow → String → String → LeaseRow
new_lease c item attempt_id lease_id = record {
  step_id = c.group.step_id;
  group_id = c.group.group_id;
  item_id = item.item_id;
  attempt_id = attempt_id;
  lease_id = lease_id;
  executor_id = c.executor_id;
  status = LeaseStatus.active;
  leased_at = c.leased_at;
  expires_at = some c.expires_at;
  heartbeat_at = none;
  created_at = c.leased_at;
  updated_at = c.leased_at;
}

-- The two updates after the lease is inserted.
unfoldable pub mark_leased : GrantContext → ItemRow → String → String → Db → Db
mark_leased c item attempt_id dir db = record db {
  attempts =
      update_where (at_attempt attempt_id)
        (λ a. record a {
          status = AttemptStatus.leased;
          evidence_dir = some dir;
          updated_at = c.leased_at;
        })
        db.attempts;
  items =
      update_where (at_item c.group.group_id item.item_id)
        (λ it. record it {
          status = ItemStatus.leased;
          latest_attempt_id = some attempt_id;
          updated_at = c.leased_at;
        })
        db.items;
}

-- One round of the loop over the candidates; `n` counts the rounds before it.
unfoldable pub grant_item : GrantContext → ℕ → ItemRow → Db → Result (LeaseRow × Db)
unfolding latest_attempt reusable attempt_for new_lease mark_leased
grant_item c n item db = do
  existing ← latest_attempt db item
  chosen ← attempt_for c item (reusable existing) db
  lease_id ← parallel_lease_id chosen.1 (c.uuid n)
  let lease = new_lease c item chosen.1 lease_id
  db' ← insert_lease lease chosen.3
  ok (lease, mark_leased c item chosen.1 chosen.2 db')

unfoldable pub grant_items : GrantContext → ℕ → List ItemRow → Db → Result (List LeaseRow × Db)
grant_items c n [] db = ok ([], db)
grant_items c n (item ∷ items) db = do
  first ← grant_item c n item db
  rest ← grant_items c (n + 1) items first.1
  ok (first.0 ∷ rest.0, rest.1)

-- The group is `running` after a grant that is not empty.
unfoldable pub mark_running : GrantContext → List LeaseRow → Db → Db
mark_running c [] db = db
mark_running c (l ∷ ls) db = record db {
  groups =
      update_where (at_group c.group.group_id)
        (λ g. record g { status = GroupStatus.running; updated_at = c.leased_at }) db.groups;
}

-- How many leases the group and the executor have room for.
unfoldable pub available : Db → GroupRow → ℕ → ℕ
available db group capacity =
    min capacity (group.max_concurrency - count_active_leases db group.group_id)

-- The body of the transaction.
unfoldable pub grant_transaction :
    String → String → ℕ → ℕ → ℕ → (ℕ → String) → Db → Result (List LeaseRow × Db)
unfolding available grant_items mark_running
grant_transaction group_id executor_id capacity ttl now uuid db = do
  group ← load_group db group_id
  guard (is_passed group.preflight_status) StoreError.preflight_required
  guard (is_leaseable group.status) StoreError.group_not_leaseable
  let c : GrantContext = record {
    group = group;
    executor_id = executor_id;
    leased_at = now;
    expires_at = now + ttl;
    uuid = uuid;
  }
  granted ← grant_items c 0 (take (available db group capacity) (lease_candidates db group_id)) db
  ok (granted.0, mark_running c granted.0 granted.1)

unfoldable pub grant_parallel_leases :
    String → String → GrantInput → ℕ → (ℕ → String) → Db → Result (List LeaseRow × Db)
unfolding grant_transaction
grant_parallel_leases run_instance_id group_id input now uuid db = do
  run ← assert_safe_run_instance_id run_instance_id
  group ← assert_safe_parallel_id group_id
  executor ← assert_safe_parallel_id input.executor_id
  guard (leb 1 input.capacity) StoreError.invalid_capacity
  let ttl = or_else input.lease_ttl_ms default_lease_ttl_ms
  guard (leb 1 ttl) StoreError.invalid_lease_ttl
  load_run_row db run
  grant_transaction group executor input.capacity ttl now uuid db
