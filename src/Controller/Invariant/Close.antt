-- ===== src/Controller/Invariant/Close.antt =====
-- services/protocol-runner-api/src/controller.ts: closing keeps a run consistent.
use protocol_runner.Common.{String, Bool, true, false, Option, none, some, [], refl, ◌∷◌}
use protocol_runner.Core.Types.{close, closed}
use protocol_runner.Core.Actions.{is_manual_action_allowed}
use protocol_runner.Store.Setup.{empty_tables}
use protocol_runner.Store.Setup.Laws.{insert_steps-IsSound}
use protocol_runner.Controller.{World, StoredRun, Details, Failure}
use protocol_runner.Controller.Action.{
  return, ◌>>=◌, ◌>>◌, require, load_run, require_manual_action, append_event, update_stored_state,
  append_state_changed, when, next_step, current_time, write_state,
}
use protocol_runner.Controller.Manual.{
  CloseContext, begin_close, delete_run, finish_close, record_cleanup, has_channel,
}
use protocol_runner.Store.Setup.{insert_steps}
use protocol_runner.Store.Invariant.{IsSound}
use protocol_runner.Controller.Invariant.{IsConsistent, IsGoodRun, Keeps}
use protocol_runner.Controller.Invariant.Steps.{Keeps-load, Keeps-require}
use protocol_runner.Controller.Invariant.Change.{Keeps-update_then, Keeps-when_log, replay_plain}
use protocol_runner.Controller.Invariant.Manual.{IsSent-holds}

-- A run that was deleted leaves empty tables.
pub empty_tables-IsSound : (run : String) → IsSound (empty_tables run)
unfolding insert_steps
empty_tables-IsSound run = insert_steps-IsSound [] run 0 refl

-- Closing a run from the moment that nothing speaks against it.
close_rest-Keeps :
    (barred : Bool) (r : StoredRun) (w : World)
    → IsGoodRun r w.sending w.events
    → IsSound w.tables
    → Keeps (
        (require barred Failure.sealed_output_run_dir_overlap
            >> (update_stored_state r (λ s. record s { status = closed }) >>= (λ updated.
                append_event r.state.current_step_id (Details.manual_action "close")
                >> (append_state_changed r updated "close"
                    >> (load_run >>= (λ closed_run. return closed_run))))))
          (record w { stored = some r }))
close_rest-Keeps barred r w g s =
    Keeps-require barred _ _ (record w { stored = some r }) (g, s)
      (λ apart.
        Keeps-update_then r "close" (λ s. record s { status = closed }) r.state.current_step_id
          (Details.manual_action "close") _ w refl g.distinct
          (record {
            current_step = g.placed.current_step;
            explained = tt;
            awaited = tt;
            sent =
                IsSent-holds r.work_plan r.state.status closed r.state.current_step_id w.sending
                  g.placed.sent refl;
          })
          g.logged s (λ v c. Keeps-load _ v c (λ run gr sr. (gr, sr))))

pub begin_close-Keeps :
    (context : CloseContext) (delete : Bool) (w : World)
    → IsConsistent w
    → Keeps (begin_close context delete w)
unfolding begin_close require_manual_action
begin_close-Keeps context delete w c = Keeps-load _ w c (λ r g s.
    Keeps-require (is_manual_action_allowed r.state.status close) _ _ (record w { stored = some r })
      (g, s)
      (λ allowed.
        Keeps-require _ _ _ (record w { stored = some r }) (g, s)
          (λ released.
            Keeps-require _ _ _ (record w { stored = some r }) (g, s)
              (λ apart.
                Keeps-when_log r _ (Details.diagnostic "sealed_output_cleanup") _ delete w
                  (close_rest-Keeps _ r w g s)
                  (close_rest-Keeps _ r
                    (record w {
                      events =
                          record {
                            step_id = r.state.current_step_id;
                            details = Details.diagnostic "sealed_output_cleanup";
                          }
                          ∷ w.events;
                    })
                    (record {
                      distinct = g.distinct;
                      placed = g.placed;
                      logged =
                          replay_plain _ (Details.diagnostic "sealed_output_cleanup") w.events refl
                            g.logged;
                    })
                    s)))))

-- A run that is closed ends up deleted, whatever happened while the relay was asked.
pub finish_close-Keeps :
    (closed_run : StoredRun) (w : World) → IsConsistent w → Keeps (finish_close closed_run w)
unfolding finish_close record_cleanup when ◌>>=◌ next_step update_stored_state current_time
    write_state append_event
finish_close-Keeps closed_run w (good, sound) =
    cases (has_channel closed_run.state.thread_binding) w.stored
  where
    cases :
        (b : Bool) (o : Option StoredRun)
        → Keeps (
            (when b (record_cleanup closed_run) >> delete_run closed_run.run_instance_id)
              (record w { stored = o }))
    cases false o = (tt, empty_tables-IsSound closed_run.run_instance_id)
    cases true none = (tt, sound)
    cases true (some r) = (tt, empty_tables-IsSound closed_run.run_instance_id)
