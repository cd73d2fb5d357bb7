-- ===== src/Controller/Invariant/Parallel.antt =====
-- services/protocol-runner-api/src/controller.ts: the calls about the current parallel group keep a
-- run consistent.
use protocol_runner.Common.{
  ℕ, String, not, Option, none, some, List, [], ◌≡◌, refl, ◌∙◌, ap, inl, inr, is_empty_list,
}
use protocol_runner.Core.Types.{
  RunStatus, RunStep, ResolvedStep, SerialRunStep, ParallelGroupStep, running,
}
use protocol_runner.Core.Steps.{resolve_current_step}
use protocol_runner.Store.Rows.{AttemptWarning}
use protocol_runner.Store.Grant.{GrantInput, grant_parallel_leases}
use protocol_runner.Store.Heartbeat.{TimeInput, record_parallel_heartbeat}
use protocol_runner.Store.Invariant.{IsSound}
use protocol_runner.Store.Invariant.Heartbeat.{record_parallel_heartbeat-IsSound}
use protocol_runner.Store.Invariant.Grant.{grant_parallel_leases-IsSound}
use protocol_runner.Controller.{World, StoredRun, Details, Failure, value}
use protocol_runner.Controller.Action.{Action, ◌>>=◌, present, when, current_step}
use protocol_runner.Controller.Parallel.{
  the_group, current_parallel_step, put_status, set_running, grant_leases, heartbeat_lease,
}
use protocol_runner.Controller.Invariant.{
  IsConsistent, IsGoodRun, IsPlacedState, IsExplained, IsAwaited, IsSent, Keeps,
}
use protocol_runner.Controller.Invariant.Steps.{
  Keeps-load, Keeps-reload, Keeps-require, Keeps-on_tables, Keeps-bind, Keeps-event, Keeps-when,
}
use protocol_runner.Controller.Invariant.Change.{Keeps-update, Keeps-log, IsGoodRun-event}
use protocol_runner.Controller.Invariant.Reads.{
  Keeps-read, current_parallel_step-IsRead, require_string-IsRead,
}

the_group_serial :
    (group_id : String) (step : RunStep) (t : SerialRunStep) (g : ParallelGroupStep) (w : World)
    → step ≡ RunStep.serial t
    → the_group group_id step w ≡ (value g, w)
    → ⊥
unfolding the_group
the_group_serial group_id (RunStep.serial s) t g w h e = cc
the_group_serial group_id (RunStep.parallel_group p) t g w h e = cc

serial_throws :
    (group_id : String) (o : Option ResolvedStep) (st : ResolvedStep) (t : SerialRunStep)
    (g : ParallelGroupStep) (w : World)
    → o ≡ some st
    → st.step ≡ RunStep.serial t
    → (present o Failure.current_step_missing >>= (λ x. the_group group_id x.step)) w ≡ (value g, w)
    → ⊥
unfolding ◌>>=◌ present
serial_throws group_id none st t g w h e p = cc
serial_throws group_id (some x) st t g w h e p =
    let same : x ≡ st = cc in the_group_serial group_id x.step t g w (ap (λ y. y.step) same ∙ e) p

-- No prompt is on its way while the current step is a parallel group.
pub current_parallel_step-empty :
    (r : StoredRun) (group_id : String) (step : ParallelGroupStep) (w : World)
    → IsSent r.work_plan r.state.status r.state.current_step_id w.sending
    → current_parallel_step r group_id w ≡ (value step, w)
    → w.sending ≡ []
unfolding current_parallel_step current_step resolve_current_step
current_parallel_step-empty r group_id step w (inl e) h = e
current_parallel_step-empty r group_id step w (inr (d, only, current, (st, t, found, is_t), held))
      h =
    absurd (
      serial_throws group_id _ st t step w
        (ap (λ c. resolve_current_step r.work_plan c r.state.current_step_ordinal) current ∙ found)
        is_t h)

-- What follows the lookup of the current group.
pub Keeps-parallel :
    {A : Type 0} (r : StoredRun) (group_id : String) (k : ParallelGroupStep → Action A) (w : World)
    → IsGoodRun r w.sending w.events
    → IsSound w.tables
    → ((step : ParallelGroupStep) → w.sending ≡ [] → Keeps (k step (record w { stored = some r })))
    → Keeps ((current_parallel_step r group_id >>= k) (record w { stored = some r }))
Keeps-parallel r group_id k w g s h =
    let here : World = record w { stored = some r } in
    Keeps-read (current_parallel_step r group_id) k here (current_parallel_step-IsRead r group_id)
      (g, s)
      (λ step found. h step (current_parallel_step-empty r group_id step here g.placed.sent found))

-- A run of which no prompt is on its way may be put into another status.
pub put_status-IsPlaced :
    (r : StoredRun) (w : World) (st : RunStatus) (reason : Option String)
    → IsGoodRun r w.sending w.events
    → w.sending ≡ []
    → IsExplained st reason
    → IsAwaited st r.run_instance_id r.state.current_step_id r.state.pending_start_report
    → IsPlacedState r (put_status st reason r.state) w.sending
put_status-IsPlaced r w st reason g empty explained awaited = record {
  current_step = g.placed.current_step;
  explained = explained;
  awaited = awaited;
  sent = inl empty;
}

pub set_running-Keeps :
    (r : StoredRun) (reason : String) (w : World)
    → IsGoodRun r w.sending w.events
    → IsSound w.tables
    → w.sending ≡ []
    → Keeps (set_running r reason (record w { stored = some r }))
unfolding set_running
set_running-Keeps r reason w g s empty =
    Keeps-when _ _ (record w { stored = some r }) (g, s)
      (Keeps-update r reason (put_status running none) w g.distinct
        (put_status-IsPlaced r w running none g empty refl tt) g.logged s)

pub heartbeat_lease-Keeps :
    (group lease : String) (input : TimeInput) (warnings : List AttemptWarning) (called now : ℕ)
    (w : World)
    → IsConsistent w
    → Keeps (heartbeat_lease group lease input warnings called now w)
unfolding heartbeat_lease
heartbeat_lease-Keeps group lease input warnings called now w c = Keeps-load _ w c (λ r g s.
    Keeps-parallel r group _ w g s (λ step empty.
      Keeps-on_tables
        (record_parallel_heartbeat r.run_instance_id group lease input warnings called now) _
        (record w { stored = some r }) (g, s)
        (λ row db recorded.
          Keeps-log r r.state.current_step_id (Details.diagnostic "parallel_heartbeat") _
            (record w { tables = db })
            (
              IsGoodRun-event r w.sending w.events r.state.current_step_id
                  (Details.diagnostic "parallel_heartbeat") refl g,
              record_parallel_heartbeat-IsSound r.run_instance_id group lease input warnings called
                  now w.tables recorded s,
            ))))

pub grant_leases-Keeps :
    (group : String) (input : GrantInput) (now : ℕ) (uuid : ℕ → String) (w : World)
    → IsConsistent w
    → Keeps (grant_leases group input now uuid w)
unfolding grant_leases
grant_leases-Keeps group input now uuid w c = Keeps-load _ w c (λ r g s.
    let here : World = record w { stored = some r } in
    Keeps-parallel r group _ w g s (λ step empty.
      Keeps-read _ _ here (require_string-IsRead input.executor_id) (g, s)
        (λ executor trimmed.
          Keeps-require _ _ _ here (g, s)
            (λ capacity.
              Keeps-require _ _ _ here (g, s)
                (λ ttl.
                  Keeps-on_tables
                    (grant_parallel_leases r.run_instance_id group
                      (record input { executor_id = executor }) now uuid)
                    _ here (g, s)
                    (λ leases db granted.
                      let s' =
                        grant_parallel_leases-IsSound r.run_instance_id group
                          (record input { executor_id = executor }) now uuid w.tables s granted in
                      let there : World = record here { tables = db } in
                      Keeps-require _ _ _ there (g, s')
                        (λ complete.
                          Keeps-reload r _ (record w { tables = db }) g.placed.current_step
                            (Keeps-bind
                              (when (not (is_empty_list leases))
                                (set_running r "parallel leases granted"))
                              _ there
                              (Keeps-when _ _ there (g, s')
                                (set_running-Keeps r "parallel leases granted"
                                  (record w { tables = db }) g s' empty))
                              (λ done v e cv.
                                Keeps-bind _ _ v
                                  (Keeps-event _ (Details.diagnostic "parallel_leases_granted") v
                                    refl cv)
                                  (λ done' v' e' cv'. cv'))))))))))
