-- ===== src/Controller/History/Laws.antt =====
-- services/protocol-runner-api/src/controller.ts: the states that a run can reach are consistent.
use protocol_runner.Common.{ℕ, String, Bool, Option, none, some, List, [], ◌∷◌, ◌≡◌, refl, inl, ap}
use protocol_runner.Core.Types.{
  WorkPlan, RunAutomationSettings, ResolvedStep, BindingMetadata, step_id,
}
use protocol_runner.Core.Steps.{resolve_step_by_ordinal}
use protocol_runner.Core.Steps.Laws.{HasDistinctIds, resolve_step_by_ordinal-by_id}
use protocol_runner.Store.Error.{ok}
use protocol_runner.Store.Tables.{Db}
use protocol_runner.Store.Setup.{insert_steps, empty_tables}
use protocol_runner.Store.Setup.Laws.{insert_steps-IsSound}
use protocol_runner.Controller.{World, StoredRun, Notification, Outcome, value, thrown}
use protocol_runner.Controller.Prompt.{pick}
use protocol_runner.Controller.Manual.{PendingBind, begin_bind, begin_close}
use protocol_runner.Controller.Replay.{replay}
use protocol_runner.Controller.History.{
  RunCall, Session, perform, perform_all, awaiting, awaiting_close, answered_bind, answered_close,
  new_state, new_world, new_session, id_of, IsStillLoaded, IsUndisturbed, AreUndisturbed,
}
use protocol_runner.Controller.Invariant.{IsConsistent, Keeps}
use protocol_runner.Controller.Invariant.Manual.{
  set_automation-Keeps, pause_run-Keeps, fail_run-Keeps,
}
use protocol_runner.Controller.Invariant.Bind.{
  begin_bind-Keeps, finish_bind-Keeps, finish_bind_thrown-Keeps,
}
use protocol_runner.Controller.Invariant.Close.{begin_close-Keeps, finish_close-Keeps}
use protocol_runner.Controller.Invariant.Answer.{finish_send-Keeps}
use protocol_runner.Controller.Invariant.Returns.{
  accept_start_report-Keeps, accept_return_report-Keeps,
}
use protocol_runner.Controller.Invariant.Parallel.{grant_leases-Keeps, heartbeat_lease-Keeps}
use protocol_runner.Controller.Invariant.Groups.{
  preflight_parallel_group-Keeps, recover_leases-Keeps, retry_item-Keeps, control_group-Keeps,
}
use protocol_runner.Controller.Invariant.Results.{
  accept_parallel_attempt_result-Keeps, cancel_parallel_attempt-Keeps,
}
use protocol_runner.Controller.Invariant.Start.{
  start_run-Keeps, resume_run-Keeps, retry_current_step-Keeps,
}

begin_bind-IsConsistent :
    (s : Session) (o : Outcome PendingBind × World) → Keeps o → IsConsistent (awaiting s o).world
begin_bind-IsConsistent s (value pending, w) k = k
begin_bind-IsConsistent s (thrown f, w) k = k

answer_bind-IsConsistent :
    (s : Session) (binding : BindingMetadata) (o : Option (PendingBind × List PendingBind))
    → IsStillLoaded o s.world
    → IsConsistent s.world
    → IsConsistent (answered_bind s (some binding) o).world
answer_bind-IsConsistent s binding none u c = c
answer_bind-IsConsistent s binding (some (p, rest)) u c = finish_bind-Keeps p binding s.world u c

refuse_bind-IsConsistent :
    (s : Session) (o : Option (PendingBind × List PendingBind))
    → IsConsistent s.world
    → IsConsistent (answered_bind s none o).world
refuse_bind-IsConsistent s none c = c
refuse_bind-IsConsistent s (some (p, rest)) c = finish_bind_thrown-Keeps p s.world c

begin_close-IsConsistent :
    (s : Session) (o : Outcome StoredRun × World)
    → Keeps o
    → IsConsistent (awaiting_close s o).world
begin_close-IsConsistent s (value r, w) k = k
begin_close-IsConsistent s (thrown f, w) k = k

answer_close-IsConsistent :
    (s : Session) (o : Option (StoredRun × List StoredRun))
    → IsConsistent s.world
    → IsConsistent (answered_close s o).world
answer_close-IsConsistent s none c = c
answer_close-IsConsistent s (some (r, rest)) c = finish_close-Keeps r s.world c

pub perform-IsConsistent :
    (call : RunCall) (s : Session)
    → IsUndisturbed call s
    → IsConsistent s.world
    → IsConsistent (perform call s).world
unfolding perform
perform-IsConsistent (RunCall.bind input) s u c =
    begin_bind-IsConsistent s (begin_bind input s.world) (begin_bind-Keeps input s.world c)
perform-IsConsistent (RunCall.answer_bind i (some binding)) s u c =
    answer_bind-IsConsistent s binding (pick i s.binding) u c
perform-IsConsistent (RunCall.answer_bind i none) s u c =
    refuse_bind-IsConsistent s (pick i s.binding) c
perform-IsConsistent (RunCall.automate input) s u c = set_automation-Keeps input s.world c
perform-IsConsistent (RunCall.begin context) s u c = start_run-Keeps context s.world c
perform-IsConsistent (RunCall.resume context) s u c = resume_run-Keeps context s.world c
perform-IsConsistent (RunCall.retry context) s u c = retry_current_step-Keeps context s.world c
perform-IsConsistent (RunCall.answer i result) s u c = finish_send-Keeps i result s.world c
perform-IsConsistent RunCall.pause s u c = pause_run-Keeps s.world c
perform-IsConsistent (RunCall.fail reason) s u c = fail_run-Keeps reason s.world c
perform-IsConsistent (RunCall.close context delete) s u c =
    begin_close-IsConsistent s (begin_close context delete s.world)
      (begin_close-Keeps context delete s.world c)
perform-IsConsistent (RunCall.answer_close i) s u c =
    answer_close-IsConsistent s (pick i s.closing) c
perform-IsConsistent (RunCall.report_start input) s u c = accept_start_report-Keeps input s.world c
perform-IsConsistent (RunCall.report_status input) s u c =
    accept_return_report-Keeps input s.world c
perform-IsConsistent (RunCall.preflight result summary group) s u c =
    preflight_parallel_group-Keeps result summary group s.world c
perform-IsConsistent (RunCall.grant group input now uuid) s u c =
    grant_leases-Keeps group input now uuid s.world c
perform-IsConsistent (RunCall.heartbeat group lease input warnings called now) s u c =
    heartbeat_lease-Keeps group lease input warnings called now s.world c
perform-IsConsistent (RunCall.recover absent group input now) s u c =
    recover_leases-Keeps absent group input now s.world c
perform-IsConsistent (RunCall.report_attempt group attempt input now) s u c =
    accept_parallel_attempt_result-Keeps group attempt input now s.world c
perform-IsConsistent (RunCall.cancel group attempt lease now) s u c =
    cancel_parallel_attempt-Keeps group attempt lease now s.world c
perform-IsConsistent (RunCall.retry_in_group group item now) s u c =
    retry_item-Keeps group item now s.world c
perform-IsConsistent (RunCall.control action group reason now) s u c =
    control_group-Keeps action group reason now s.world c

perform_all-IsConsistent :
    (calls : List RunCall) (s : Session)
    → AreUndisturbed calls s
    → IsConsistent s.world
    → IsConsistent (perform_all calls s).world
unfolding perform_all AreUndisturbed
perform_all-IsConsistent [] s u c = c
perform_all-IsConsistent (call ∷ calls) s u c =
    perform_all-IsConsistent calls (perform call s) u.1 (perform-IsConsistent call s u.0 c)

-- Conditions of a plan that was accepted: distinct ids, and a first step.
module _ (run : String) (plan : WorkPlan) (automation : RunAutomationSettings) (created_at : ℕ)
    (clock : ℕ → String) (delivers : Notification → Bool) {db : Db} {first : ResolvedStep}
    (distinct : HasDistinctIds plan.steps) (starts : resolve_step_by_ordinal plan 1 ≡ some first)
    (filled : insert_steps plan.steps created_at (empty_tables run) ≡ ok db) where
  new_world-IsConsistent : IsConsistent (new_world run plan automation db clock delivers)
  unfolding new_world new_state replay
  new_world-IsConsistent = (
    record {
      distinct = distinct;
      placed = record {
        current_step = (
          step_id first.step,
          first,
          ap id_of starts,
          resolve_step_by_ordinal-by_id plan 1 distinct starts,
        );
        explained = refl;
        awaited = tt;
        sent = inl refl;
      };
      logged = refl;
    },
    insert_steps-IsSound plan.steps run created_at filled,
  )

  -- A run whose plan has distinct step ids and a first step, and whose rows went into the tables,
  -- under calls, cut where they await an adapter, in any order in which no call of bindRun gets its
  -- binding from the relay after another call changed the run that it had loaded: after the calls,
  -- whether they return or throw, the run is deleted or consistent. Its current step is one of the
  -- plan; the events tell its status, each change starting where the one before ended; a reason is
  -- stored when it is blocked or failed, and none when it is neither of these nor paused or closed;
  -- when it waits for a start report it knows which one, for the run and the current step; at most
  -- one prompt is on its way, for the current serial step, and only in dispatching_prompt, failed
  -- or closed. The parallel tables are sound.
  pub run-IsConsistent :
      (calls : List RunCall)
      → AreUndisturbed calls (new_session run plan automation db clock delivers)
      → IsConsistent (perform_all calls (new_session run plan automation db clock delivers)).world
  unfolding new_session
  run-IsConsistent calls undisturbed =
      perform_all-IsConsistent calls _ undisturbed new_world-IsConsistent
