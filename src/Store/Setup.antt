-- ===== src/Store/Setup.antt =====
-- services/protocol-runner-api/src/store.ts: the rows of the parallel tables that a new run inserts
-- for its plan.
pub mod Laws
use protocol_runner.Common.{
  ℕ, ◌++◌, String, Bool, true, false, not, ◌&&◌, ◌||◌, ◌==◌, none, List, [], ◌∷◌, any, or_else,
  template, Option, some,
}
use protocol_runner.Core.Types.{ParallelGroupStep, ParallelGroupItem, ItemSealedOutput, RunStep}
use protocol_runner.Core.Paths.{normalize_pathish}
use protocol_runner.Store.Error.{Result, ok, ◌>>=◌, ◌>>◌, guard, StoreError}
use protocol_runner.Store.Rows.{GroupStatus, ItemStatus, PreflightStatus, GroupRow, ItemRow}
use protocol_runner.Store.Tables.{Db, at_group, at_item}

-- `item.sealed_output?.unit_id ?? item.item_id`, and the primary artifact likewise.
abbrev unit_of : Option ItemSealedOutput → String → String
unit_of none id = id
unit_of (some s) id = or_else s.unit_id id

abbrev artifact_of : Option ItemSealedOutput → String → String
artifact_of none d = d
artifact_of (some s) d = or_else s.primary_artifact d

unfoldable pub parallel_item_sealed_output_target : ParallelGroupStep → ParallelGroupItem → String
parallel_item_sealed_output_target step item = normalize_pathish (
    template (
      step.sealed_output_defaults.base_dir
      ∷ "/"
      ∷ unit_of item.sealed_output item.item_id
      ∷ "/"
      ∷ artifact_of item.sealed_output step.sealed_output_defaults.primary_artifact
      ∷ []))

unfoldable pub initial_group : ParallelGroupStep → ℕ → GroupRow
initial_group step created_at = record {
  step_id = step.step_id;
  group_id = step.group_id;
  status = GroupStatus.pending;
  max_concurrency = step.max_concurrency;
  preflight_status = PreflightStatus.not_run;
  checked_at = none;
  checked_by = none;
  updated_at = created_at;
}

unfoldable pub new_item : ParallelGroupStep → ℕ → ParallelGroupItem → ItemRow
unfolding parallel_item_sealed_output_target
new_item step created_at item = record {
  step_id = step.step_id;
  group_id = step.group_id;
  item_id = item.item_id;
  status = ItemStatus.pending;
  input_ref = item.input_ref;
  contract_ref = or_else item.contract_ref step.contract_ref;
  sealed_output_target = parallel_item_sealed_output_target step item;
  latest_attempt_id = none;
  updated_at = created_at;
}

-- `INSERT INTO parallel_groups`, with its primary and unique keys.
unfoldable pub insert_group : GroupRow → Db → Result Db
insert_group row db = do
  guard (not (any (at_group row.group_id) db.groups)) StoreError.constraint
  guard (not (any (λ g. g.step_id == row.step_id) db.groups)) StoreError.constraint
  ok (record db { groups = db.groups ++ row ∷ [] })

abbrev pub same_target : ItemRow → ItemRow → Bool
same_target row it =
    it.group_id == row.group_id && it.sealed_output_target == row.sealed_output_target

-- `INSERT INTO parallel_items`, with its primary, unique and foreign keys.
unfoldable pub insert_item : ItemRow → Db → Result Db
insert_item row db = do
  guard (not (any (at_item row.group_id row.item_id) db.items)) StoreError.constraint
  guard (not (any (same_target row) db.items)) StoreError.constraint
  guard (any (at_group row.group_id) db.groups) StoreError.constraint
  ok (record db { items = db.items ++ row ∷ [] })

unfoldable pub insert_items : ParallelGroupStep → ℕ → List ParallelGroupItem → Db → Result Db
unfolding new_item insert_item
insert_items step created_at [] db = ok db
insert_items step created_at (item ∷ items) db = do
  next ← insert_item (new_item step created_at item) db
  insert_items step created_at items next

unfoldable pub insert_parallel_group_rows : ParallelGroupStep → ℕ → Db → Result Db
unfolding initial_group insert_group insert_items
insert_parallel_group_rows step created_at db = do
  next ← insert_group (initial_group step created_at) db
  insert_items step created_at step.items next

-- The parallel rows that the loop over the plan's steps inserts.
unfoldable pub insert_steps : List RunStep → ℕ → Db → Result Db
unfolding insert_parallel_group_rows
insert_steps [] created_at db = ok db
insert_steps (RunStep.serial s ∷ steps) created_at db = insert_steps steps created_at db
insert_steps (RunStep.parallel_group g ∷ steps) created_at db = do
  next ← insert_parallel_group_rows g created_at db
  insert_steps steps created_at next

abbrev pub empty_tables : String → Db
empty_tables run_instance_id = record {
  run_instance_id = run_instance_id;
  groups = [];
  items = [];
  attempts = [];
  leases = [];
}
