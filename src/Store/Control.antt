-- ===== src/Store/Control.antt =====
-- services/protocol-runner-api/src/store.ts: `controlParallelGroup`.
use protocol_runner.Common.{ℕ, ◌==◌, String, ◌&&◌, ◌||◌, not}
use protocol_runner.Store.Error.{Result, ok, ◌>>=◌, ◌>>◌}
use protocol_runner.Store.Rows.{
  GroupStatus, ItemStatus, AttemptStatus, LeaseStatus, GroupRow, ItemRow, AttemptRow, LeaseRow,
  is_active_attempt, is_completed, is_created,
}
use protocol_runner.Store.Ids.{assert_safe_run_instance_id, assert_safe_parallel_id}
use protocol_runner.Store.Tables.{Db, update_where, at_group, active_in, load_run_row, load_group}

pub data ControlAction : Type 0 where
  pause stop : ControlAction

unfoldable pub set_group : GroupStatus → ℕ → GroupRow → GroupRow
set_group status now g = record g { status = status; updated_at = now }

unfoldable pub cancel_lease : ℕ → LeaseRow → LeaseRow
cancel_lease now l = record l { status = LeaseStatus.cancelled; updated_at = now }

unfoldable pub cancel_attempt : ℕ → AttemptRow → AttemptRow
cancel_attempt now a = record a { status = AttemptStatus.cancelled; updated_at = now }

unfoldable pub stop_item : ℕ → ItemRow → ItemRow
stop_item now it = record it { status = ItemStatus.stopped; updated_at = now }

unfoldable pub control_effect : ControlAction → String → ℕ → Db → Db
unfolding set_group cancel_lease cancel_attempt stop_item
control_effect ControlAction.pause group now db = record db {
  groups = update_where (at_group group) (set_group GroupStatus.paused now) db.groups;
}
control_effect ControlAction.stop group now db = record db {
  leases = update_where (active_in group) (cancel_lease now) db.leases;
  attempts =
      update_where (λ a. a.group_id == group && (is_created a.status || is_active_attempt a.status))
        (cancel_attempt now) db.attempts;
  items =
      update_where (λ it. it.group_id == group && not (is_completed it.status)) (stop_item now)
        db.items;
  groups = update_where (at_group group) (set_group GroupStatus.stopped now) db.groups;
}

unfoldable pub control_parallel_group :
    ControlAction → String → String → ℕ → Db → Result (Unit {0} × Db)
unfolding control_effect
control_parallel_group action run_instance_id group_id now db = do
  run ← assert_safe_run_instance_id run_instance_id
  group ← assert_safe_parallel_id group_id
  load_run_row db run
  row ← load_group db group
  ok (tt, control_effect action group now db)
