-- ===== src/Controller/Invariant/Groups.antt =====
-- services/protocol-runner-api/src/controller.ts: preflights, recoveries, retries, pauses and stops of
-- the current parallel group keep a run consistent.
use protocol_runner.Common.{ℕ, String, Bool, true, false, Option, none, some, [], ◌∷◌, ◌≡◌, refl}
use protocol_runner.Core.Types.{RunStatus, ready, paused}
use protocol_runner.Store.Rows.{LeaseRow}
use protocol_runner.Store.Grant.{PreflightResult, record_parallel_preflight}
use protocol_runner.Store.Heartbeat.{TimeInput}
use protocol_runner.Store.Retry.{retry_parallel_item}
use protocol_runner.Store.Recover.{recover_stale_parallel_leases}
use protocol_runner.Store.Control.{ControlAction, control_parallel_group}
use protocol_runner.Store.Invariant.Retry.{retry_parallel_item-IsSound}
use protocol_runner.Store.Invariant.RecoverLoop.{recover_stale_parallel_leases-IsSound}
use protocol_runner.Store.Invariant.Control.{
  control_parallel_group-IsSound, record_parallel_preflight-IsSound,
}
use protocol_runner.Controller.{World, StoredRun, Details}
use protocol_runner.Controller.Parallel.{
  put_status, preflight_parallel_group, recover_leases, retry_item, control_group,
}
use protocol_runner.Controller.Parallel.{after_preflight, after_control}
use protocol_runner.Controller.Invariant.Parallel.{Keeps-parallel, put_status-IsPlaced}
use protocol_runner.Controller.Invariant.{IsConsistent, IsGoodRun, IsPlacedState, Keeps}
use protocol_runner.Controller.Invariant.Steps.{
  Keeps-load, Keeps-reload, Keeps-on_tables, Keeps-bind, Keeps-event, Keeps-when,
}
use protocol_runner.Controller.Invariant.Change.{
  Keeps-update, Keeps-update_event, Keeps-log, IsGoodRun-event,
}
use protocol_runner.Controller.Invariant.Reads.{Keeps-read, get_parallel_group-IsRead}

after_preflight-IsPlaced :
    (r : StoredRun) (passed : Bool) (summary : String) (w : World)
    → IsGoodRun r w.sending w.events
    → w.sending ≡ []
    → IsPlacedState r (after_preflight passed summary r.state) w.sending
after_preflight-IsPlaced r true summary w g empty =
    put_status-IsPlaced r w ready none g empty refl tt
after_preflight-IsPlaced r false summary w g empty =
    put_status-IsPlaced r w RunStatus.blocked (some _) g empty (_, refl) tt

-- The calls of a preflight on a run that was loaded.
pub preflight_parallel_group-Keeps :
    (result : PreflightResult) (summary group : String) (w : World)
    → IsConsistent w
    → Keeps (preflight_parallel_group result summary group w)
unfolding preflight_parallel_group
preflight_parallel_group-Keeps result summary group w c = Keeps-load _ w c (λ r g s.
    let here : World = record w { stored = some r } in
    Keeps-parallel r group _ w g s (λ step empty.
      Keeps-read _ _ here (get_parallel_group-IsRead group) (g, s)
        (λ row found.
          Keeps-on_tables (record_parallel_preflight r.run_instance_id group result) _ here (g, s)
            (λ recorded db written.
              let s' =
                record_parallel_preflight-IsSound r.run_instance_id group result w.tables s
                  written in
              Keeps-reload r _ (record w { tables = db }) g.placed.current_step
                (Keeps-update_event r _ (after_preflight recorded.passed summary)
                  (some step.step_id) (Details.diagnostic "parallel_preflight")
                  (record w { tables = db }) refl g.distinct
                  (after_preflight-IsPlaced r recorded.passed summary w g empty) g.logged s')))))

pub recover_leases-Keeps :
    (absent : LeaseRow → Bool) (group : String) (input : TimeInput) (now : ℕ) (w : World)
    → IsConsistent w
    → Keeps (recover_leases absent group input now w)
unfolding recover_leases
recover_leases-Keeps absent group input now w c = Keeps-load _ w c (λ r g s.
    let here : World = record w { stored = some r } in
    Keeps-parallel r group _ w g s (λ step empty.
      Keeps-on_tables (recover_stale_parallel_leases absent r.run_instance_id group input now) _
        here (g, s)
        (λ recovery db recovered.
          let s' =
            recover_stale_parallel_leases-IsSound absent r.run_instance_id group input now w.tables
              s recovered in
          let v : World = record w { tables = db } in
          Keeps-read _ _ (record v { stored = some r }) (get_parallel_group-IsRead group) (g, s')
            (λ row found.
              let event = Details.diagnostic "parallel_recover_stale_leases" in
              let g' = IsGoodRun-event r w.sending w.events (some step.step_id) event refl g in
              let v' : World = record v {
                events = record { step_id = some step.step_id; details = event } ∷ w.events;
              } in
              Keeps-log r (some step.step_id) event _ v (
                Keeps-bind _ _ (record v' { stored = some r })
                  (Keeps-when _ _ (record v' { stored = some r }) (g', s')
                    (Keeps-reload r _ v' g.placed.current_step (
                      Keeps-update r "parallel stale leases recovered"
                        (put_status RunStatus.blocked _) v' g.distinct
                        (put_status-IsPlaced r v' RunStatus.blocked (some _) g' empty (_, refl) tt)
                        g'.logged s')))
                  (λ done u e cu. cu))))))

pub retry_item-Keeps :
    (group item : String) (now : ℕ) (w : World)
    → IsConsistent w
    → Keeps (retry_item group item now w)
unfolding retry_item
retry_item-Keeps group item now w c = Keeps-load _ w c (λ r g s.
    let here : World = record w { stored = some r } in
    Keeps-parallel r group _ w g s (λ step empty.
      Keeps-on_tables (retry_parallel_item r.run_instance_id group item now) _ here (g, s)
        (λ retried db done.
          let s' = retry_parallel_item-IsSound r.run_instance_id group item now w.tables done s in
          let v : World = record w { tables = db } in
          Keeps-reload r _ v g.placed.current_step (
            Keeps-bind _ _ (record v { stored = some r })
              (Keeps-when _ _ (record v { stored = some r }) (g, s')
                (Keeps-update r "parallel item retry requested" (put_status ready none) v g.distinct
                  (put_status-IsPlaced r v ready none g empty refl tt) g.logged s'))
              (λ done' u e cu.
                Keeps-event (some step.step_id) (Details.manual_action "parallel_retry_item") u refl
                  cu)))))

after_control-IsPlaced :
    (r : StoredRun) (action : ControlAction) (group : String) (reason : Option String) (w : World)
    → IsGoodRun r w.sending w.events
    → w.sending ≡ []
    → IsPlacedState r (after_control action group reason r.state) w.sending
after_control-IsPlaced r ControlAction.pause group reason w g empty =
    put_status-IsPlaced r w paused r.state.blocked_reason g empty tt tt
after_control-IsPlaced r ControlAction.stop group reason w g empty =
    put_status-IsPlaced r w RunStatus.blocked (some _) g empty (_, refl) tt

pub control_group-Keeps :
    (action : ControlAction) (group : String) (reason : Option String) (now : ℕ) (w : World)
    → IsConsistent w
    → Keeps (control_group action group reason now w)
unfolding control_group
control_group-Keeps action group reason now w c = Keeps-load _ w c (λ r g s.
    let here : World = record w { stored = some r } in
    Keeps-parallel r group _ w g s (λ step empty.
      Keeps-on_tables (control_parallel_group action r.run_instance_id group now) _ here (g, s)
        (λ done db controlled.
          let s' =
            control_parallel_group-IsSound action r.run_instance_id group now w.tables s
              controlled in
          Keeps-reload r _ (record w { tables = db }) g.placed.current_step
            (Keeps-update_event r _ (after_control action group reason) (some step.step_id)
              (Details.manual_action _) (record w { tables = db }) refl g.distinct
              (after_control-IsPlaced r action group reason w g empty) g.logged s'))))
