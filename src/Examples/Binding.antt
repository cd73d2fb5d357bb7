-- ===== src/Examples/Binding.antt =====
-- services/protocol-runner-api/src/controller.ts: a run that is bound and started, and a call of
-- `bindRun` that is overtaken.
use protocol_runner.Common.{List, [], ◌∷◌, ◌≡◌, refl, some, none, trim, Option}
use protocol_runner.Core.Types.{RunStatus, BindingKind, RunStatus-discrete}
use protocol_runner.Core.Actions.{is_manual_action_allowed}
use protocol_runner.Core.Steps.{resolve_step_by_ordinal, to_resolved_step}
use protocol_runner.Store.Setup.{empty_tables}
use protocol_runner.Controller.{World}
use protocol_runner.Controller.Action.{
  names_step, load_run, present, require, require_manual_action, ◌>>=◌, next_step, when,
  append_event, write_state, update_stored_state, current_time, append_state_changed,
  notify_attention_state,
}
use protocol_runner.Controller.Prompt.{pick}
use protocol_runner.Controller.Manual.{
  PendingBind, begin_bind, finish_bind, normalize_bind_run_request, require_string, optional_string,
}
use protocol_runner.Controller.History.{
  RunCall, AreUndisturbed, perform, perform_all, new_session, new_world, new_state,
}
use protocol_runner.Controller.History.Laws.{run-IsConsistent}
use protocol_runner.Controller.Invariant.{IsConsistent}
use protocol_runner.Examples.Plans.{plan, distinct}
use protocol_runner.Examples.Runs.{
  automation, clock, delivers, bind_request, context, answered, given, starts, filled, run_in,
  sent_prompt, world,
}

abbrev calls : List RunCall
calls =
    RunCall.bind bind_request
    ∷ RunCall.answer_bind 0 (some given)
    ∷ RunCall.begin context
    ∷ RunCall.answer 0 answered
    ∷ []

undisturbed :
    AreUndisturbed calls (new_session "run1" plan automation (empty_tables "run1") clock delivers)
unfolding AreUndisturbed new_session new_world new_state perform begin_bind load_run present require
    names_step require_manual_action is_manual_action_allowed normalize_bind_run_request
    require_string optional_string trim pick ◌>>=◌ next_step resolve_step_by_ordinal
    to_resolved_step
undisturbed = (tt, (refl, (tt, (tt, tt))))

run-IsConsistent_example :
    IsConsistent
      (perform_all calls
        (new_session "run1" plan automation (empty_tables "run1") clock delivers)).world
run-IsConsistent_example =
    run-IsConsistent "run1" plan automation 0 clock delivers distinct starts filled calls
      undisturbed

-- A paused run that was bound before, as a call of `bindRun` has loaded it.
abbrev loaded : PendingBind
loaded = record {
  stored = record (run_in RunStatus.paused) {
    state = record (run_in RunStatus.paused).state { thread_binding = some given };
  };
  binding_kind = BindingKind.serial_desktop;
  visible_thread_label = some "Thread";
}

-- The run was resumed since, and its prompt is on its way.
abbrev resumed : World
resumed = record world { stored = some (run_in RunStatus.dispatching_prompt) }

abbrev status_in : World → Option RunStatus
status_in w = elim w.stored [ none ↦ none | some r ↦ some r.state.status ]

-- The answer of the relay takes the run back to paused, with the prompt on its way.
lost_update :
    (status_in (finish_bind loaded (some given) resumed).1 ≡ some RunStatus.paused)
    × ((finish_bind loaded (some given) resumed).1.sending ≡ sent_prompt ∷ [])
unfolding finish_bind present ◌>>=◌ next_step update_stored_state current_time write_state
    append_event append_state_changed notify_attention_state when RunStatus-discrete
lost_update = (refl, refl)
