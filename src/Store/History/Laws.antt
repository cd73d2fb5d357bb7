-- ===== src/Store/History/Laws.antt =====
-- services/protocol-runner-api/src/store.ts: every state of the parallel tables that a run can reach
-- is sound.
use protocol_runner.Common.{ℕ, ◌≡◌, refl, String, List, [], ◌∷◌}
use protocol_runner.Core.Types.{RunStep}
use protocol_runner.Store.Error.{Result, ok, err}
use protocol_runner.Store.Tables.{Db}
use protocol_runner.Store.Setup.{insert_steps, empty_tables}
use protocol_runner.Store.Setup.Laws.{insert_steps-IsSound}
use protocol_runner.Store.Grant.{record_parallel_preflight, grant_parallel_leases}
use protocol_runner.Store.Heartbeat.{record_parallel_heartbeat}
use protocol_runner.Store.AttemptResult.{record_parallel_attempt_result}
use protocol_runner.Store.Retry.{retry_parallel_item}
use protocol_runner.Store.Recover.{recover_stale_parallel_leases}
use protocol_runner.Store.Control.{control_parallel_group}
use protocol_runner.Store.Invariant.{IsSound}
use protocol_runner.Store.Invariant.Heartbeat.{record_parallel_heartbeat-IsSound}
use protocol_runner.Store.Invariant.AttemptResult.{record_parallel_attempt_result-IsSound}
use protocol_runner.Store.Invariant.Retry.{retry_parallel_item-IsSound}
use protocol_runner.Store.Invariant.Grant.{grant_parallel_leases-IsSound}
use protocol_runner.Store.Invariant.RecoverLoop.{recover_stale_parallel_leases-IsSound}
use protocol_runner.Store.Invariant.Control.{
  control_parallel_group-IsSound, record_parallel_preflight-IsSound,
}
use protocol_runner.Store.History.{Call, committed, apply, apply_all}

committed-IsSound {ℓ} :
    {A : Type ℓ} (r : Result (A × Db)) (db : Db)
    → IsSound db
    → ((a : A) (db' : Db) → r ≡ ok (a, db') → IsSound db')
    → IsSound (committed r db)
unfolding committed
committed-IsSound (err thrown) db s f = s
committed-IsSound (ok (a, db')) db s f = f a db' refl

pub apply-IsSound : (c : Call) (db : Db) → IsSound db → IsSound (apply c db)
unfolding apply
apply-IsSound (Call.preflight run group r) db s =
    committed-IsSound (record_parallel_preflight run group r db) db s
      (λ a db' h. record_parallel_preflight-IsSound run group r db s h)
apply-IsSound (Call.grant run group input now uuid) db s =
    committed-IsSound (grant_parallel_leases run group input now uuid db) db s
      (λ a db' h. grant_parallel_leases-IsSound run group input now uuid db s h)
apply-IsSound (Call.heartbeat run group lease input warnings called now) db s =
    committed-IsSound (record_parallel_heartbeat run group lease input warnings called now db) db s
      (λ a db' h.
        record_parallel_heartbeat-IsSound run group lease input warnings called now db h s)
apply-IsSound (Call.result run group attempt lease status now) db s =
    committed-IsSound (record_parallel_attempt_result run group attempt lease status now db) db s
      (λ (a, l) db' h.
        record_parallel_attempt_result-IsSound run group attempt lease status now db h s)
apply-IsSound (Call.retry run group item now) db s =
    committed-IsSound (retry_parallel_item run group item now db) db s
      (λ (a, p) db' h. retry_parallel_item-IsSound run group item now db h s)
apply-IsSound (Call.recover absent run group input now) db s =
    committed-IsSound (recover_stale_parallel_leases absent run group input now db) db s
      (λ a db' h. recover_stale_parallel_leases-IsSound absent run group input now db s h)
apply-IsSound (Call.control action run group now) db s =
    committed-IsSound (control_parallel_group action run group now db) db s
      (λ a db' h. control_parallel_group-IsSound action run group now db s h)

apply_all-IsSound : (cs : List Call) (db : Db) → IsSound db → IsSound (apply_all cs db)
unfolding apply_all
apply_all-IsSound [] db s = s
apply_all-IsSound (c ∷ cs) db s = apply_all-IsSound cs (apply c db) (apply-IsSound c db s)

-- From the rows that a new run inserts for its plan, every sequence of operations on the parallel
-- tables, whether they succeed or throw, leads to sound tables: no group has more active leases
-- than its bound on concurrency, no item more than one, and only a leased or running item has one;
-- leases, and items for their latest attempt, refer to attempts of their own item; no two groups
-- have the same id or step, no two items the same group and id, no two attempts the same id or,
-- within an item, the same number, and no two leases the same id.
pub history-IsSound :
    (steps : List RunStep) (run : String) (created_at : ℕ) (calls : List Call) {db : Db}
    → insert_steps steps created_at (empty_tables run) ≡ ok db
    → IsSound (apply_all calls db)
history-IsSound steps run created_at calls {db} h =
    apply_all-IsSound calls db (insert_steps-IsSound steps run created_at h)
