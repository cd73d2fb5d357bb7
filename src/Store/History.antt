-- ===== src/Store/History.antt =====
-- services/protocol-runner-api/src/store.ts: the parallel tables over the life of a run, from the
-- rows that a new run inserts through any sequence of the operations on them.
pub mod Laws
use protocol_runner.Common.{ℕ, String, Bool, List, [], ◌∷◌}
use protocol_runner.Core.Types.{RunStep}
use protocol_runner.Store.Error.{Result, ok, err}
use protocol_runner.Store.Rows.{LeaseRow, AttemptWarning, ResultStatus}
use protocol_runner.Store.Tables.{Db}
use protocol_runner.Store.Setup.{insert_steps, empty_tables}
use protocol_runner.Store.Grant.{
  PreflightResult, GrantInput, record_parallel_preflight, grant_parallel_leases,
}
use protocol_runner.Store.Heartbeat.{TimeInput, record_parallel_heartbeat}
use protocol_runner.Store.AttemptResult.{record_parallel_attempt_result}
use protocol_runner.Store.Retry.{retry_parallel_item}
use protocol_runner.Store.Recover.{recover_stale_parallel_leases}
use protocol_runner.Store.Control.{ControlAction, control_parallel_group}

-- A call of an operation, with its arguments, the clock's readings, and what it asks of other parts:
-- fresh identifiers, and which workers are known to be gone.
pub data Call : Type 0 where
  preflight : (run group : String) (result : PreflightResult) → Call
  grant : (run group : String) (input : GrantInput) (now : ℕ) (uuid : ℕ → String) → Call
  heartbeat :
      (run group lease : String) (input : TimeInput) (warnings : List AttemptWarning)
      (called now : ℕ)
      → Call
  result : (run group attempt lease : String) (status : ResultStatus) (now : ℕ) → Call
  retry : (run group item : String) (now : ℕ) → Call
  recover : (absent : LeaseRow → Bool) (run group : String) (input : TimeInput) (now : ℕ) → Call
  control : (action : ControlAction) (run group : String) (now : ℕ) → Call

-- The tables after a transaction: one that throws is rolled back.
unfoldable pub committed {ℓ} : {A : Type ℓ} → Result (A × Db) → Db → Db
committed (err thrown) db = db
committed (ok outcome) db = outcome.1

unfoldable pub apply : Call → Db → Db
unfolding committed
apply (Call.preflight run group r) db = committed (record_parallel_preflight run group r db) db
apply (Call.grant run group input now uuid) db =
    committed (grant_parallel_leases run group input now uuid db) db
apply (Call.heartbeat run group lease input warnings called now) db =
    committed (record_parallel_heartbeat run group lease input warnings called now db) db
apply (Call.result run group attempt lease status now) db =
    committed (record_parallel_attempt_result run group attempt lease status now db) db
apply (Call.retry run group item now) db = committed (retry_parallel_item run group item now db) db
apply (Call.recover absent run group input now) db =
    committed (recover_stale_parallel_leases absent run group input now db) db
apply (Call.control action run group now) db =
    committed (control_parallel_group action run group now db) db

unfoldable pub apply_all : List Call → Db → Db
unfolding apply
apply_all [] db = db
apply_all (c ∷ cs) db = apply_all cs (apply c db)
