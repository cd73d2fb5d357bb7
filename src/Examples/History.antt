-- ===== src/Examples/History.antt =====
-- services/protocol-runner-api/src/store.ts: the tables of a new run with one parallel group, and a
-- preflight, a grant and a stop of it.
use protocol_runner.Common.{◌≡◌, refl, true, none, [], ◌∷◌, trim, template}
use protocol_runner.Core.Paths.{normalize_pathish}
use protocol_runner.Core.Types.{RunStep, ParallelGroupStep, ParallelGroupItem, TransitionRule}
use protocol_runner.Store.Error.{ok}
use protocol_runner.Store.Rows.{GroupStatus, ItemStatus, PreflightStatus}
use protocol_runner.Store.Tables.{Db}
use protocol_runner.Store.Control.{ControlAction}
use protocol_runner.Store.Setup.{insert_steps, empty_tables}
use protocol_runner.Store.Invariant.{IsSound}
use protocol_runner.Store.History.{Call, apply_all}
use protocol_runner.Store.History.Laws.{history-IsSound}

abbrev first_item : ParallelGroupItem
first_item = record {
  item_id = "i";
  label = none;
  input_ref = "input.json";
  variables = none;
  contract_ref = none;
  sealed_output = none;
  owned_source_paths = none;
}

abbrev step : ParallelGroupStep
step = record {
  step_id = "s1";
  group_id = "g";
  label = none;
  contract_ref = "contract.md";
  max_concurrency = 1;
  required_worker_capabilities = none;
  participation = none;
  source_base_commit = none;
  sealed_output_defaults = record { base_dir = "out"; primary_artifact = "result.md" };
  timeout_policy = none;
  items = first_item ∷ [];
  on_completed = TransitionRule.next;
  on_blocked = TransitionRule.pause;
}

abbrev new_tables : Db
new_tables = record (empty_tables "run1") {
  groups =
      (record {
        step_id = "s1";
        group_id = "g";
        status = GroupStatus.pending;
        max_concurrency = 1;
        preflight_status = PreflightStatus.not_run;
        checked_at = none;
        checked_by = none;
        updated_at = 100;
      })
      ∷ [];
  items =
      (record {
        step_id = "s1";
        group_id = "g";
        item_id = "i";
        status = ItemStatus.pending;
        input_ref = "input.json";
        contract_ref = "contract.md";
        sealed_output_target = "out/i/result.md";
        latest_attempt_id = none;
        updated_at = 100;
      })
      ∷ [];
}

inserts : insert_steps (RunStep.parallel_group step ∷ []) 100 (empty_tables "run1") ≡ ok new_tables
unfolding insert_steps normalize_pathish trim template
inserts = refl

history-IsSound_example : IsSound (
    apply_all
      (Call.preflight "run1" "g" (record { passed = true; checked_at = 200; checked_by = "c" })
        ∷ Call.grant "run1" "g"
            (record { executor_id = "e"; capacity = 2; lease_ttl_ms = none })
            300
            (λ n. "u")
        ∷ Call.control ControlAction.stop "run1" "g" 400
        ∷ [])
      new_tables)
history-IsSound_example =
    history-IsSound (RunStep.parallel_group step ∷ []) "run1" 100
      (Call.preflight "run1" "g" (record { passed = true; checked_at = 200; checked_by = "c" })
        ∷ Call.grant "run1" "g" (record { executor_id = "e"; capacity = 2; lease_ttl_ms = none })
            300 (λ n. "u")
        ∷ Call.control ControlAction.stop "run1" "g" 400
        ∷ [])
      inserts
