-- ===== src/Store/Retry.antt =====
-- services/protocol-runner-api/src/store.ts: `retryParallelItem`.
use protocol_runner.Common.{ℕ, String, not, Option, none, some, []}
use protocol_runner.Store.Error.{Result, ok, ◌>>=◌, ◌>>◌, guard, StoreError}
use protocol_runner.Store.Rows.{
  GroupStatus, ItemStatus, AttemptStatus, ItemRow, AttemptRow, is_attention, is_active_attempt,
}
use protocol_runner.Store.Ids.{
  assert_safe_run_instance_id, assert_safe_parallel_id, parallel_attempt_id,
  parallel_attempt_relative_dir,
}
use protocol_runner.Store.Tables.{
  Db, update_where, at_group, at_item, load_run_row, load_item, load_attempt, next_attempt_number,
  insert_attempt,
}

-- An item whose latest attempt is still active is not retried.
unfoldable pub check_previous : Option String → Db → Result (Unit {0})
check_previous none db = ok tt
check_previous (some id) db = do
  previous ← load_attempt db id
  guard (not (is_active_attempt previous.status)) StoreError.attempt_still_active

unfoldable pub requeue_item : String → ℕ → ItemRow → ItemRow
requeue_item attempt_id now it = record it {
  status = ItemStatus.pending;
  latest_attempt_id = some attempt_id;
  updated_at = now;
}

unfoldable pub retry_attempt : String → ItemRow → String → String → ℕ → String → ℕ → AttemptRow
retry_attempt group item item_id attempt_id number dir now = record {
  step_id = item.step_id;
  group_id = group;
  item_id = item_id;
  attempt_id = attempt_id;
  attempt_number = number;
  status = AttemptStatus.created;
  evidence_dir = some dir;
  warnings = [];
  created_at = now;
  updated_at = now;
}

-- The two updates after the attempt is inserted.
unfoldable pub retry_effect : String → String → String → ℕ → Db → Db
unfolding requeue_item
retry_effect group item_id attempt_id now db = record db {
  items = update_where (at_item group item_id) (requeue_item attempt_id now) db.items;
  groups =
      update_where (at_group group)
        (λ g. record g { status = GroupStatus.ready_to_lease; updated_at = now }) db.groups;
}

-- The result is the new attempt and the id of the one before it.
unfoldable pub retry_parallel_item :
    String → String → String → ℕ → Db → Result ((AttemptRow × Option String) × Db)
unfolding check_previous retry_attempt retry_effect
retry_parallel_item run_instance_id group_id item_id now db = do
  run ← assert_safe_run_instance_id run_instance_id
  group ← assert_safe_parallel_id group_id
  safe_item ← assert_safe_parallel_id item_id
  load_run_row db run
  item ← load_item db group safe_item
  guard (is_attention item.status) StoreError.item_not_retryable
  check_previous item.latest_attempt_id db
  let number = next_attempt_number db group safe_item
  attempt_id ← parallel_attempt_id group safe_item number
  dir ← parallel_attempt_relative_dir group safe_item attempt_id
  let attempt = retry_attempt group item safe_item attempt_id number dir now
  db' ← insert_attempt attempt db
  ok ((attempt, item.latest_attempt_id), retry_effect group safe_item attempt_id now db')
