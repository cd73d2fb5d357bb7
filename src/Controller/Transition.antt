-- ===== src/Controller/Transition.antt =====
-- services/protocol-runner-api/src/controller.ts: what a report's transition, or a block, does to the
-- run.
use protocol_runner.Common.{String, Option, none, some}
use protocol_runner.Core.Types.{
  RunStatus, RunState, CompletionReturn, TransitionAction, TransitionResolution,
}
use protocol_runner.Controller.{StoredRun, Details}
use protocol_runner.Controller.Action.{
  Action, ◌>>=◌, ◌>>◌, update_stored_state, append_event, append_state_changed, current_time,
}

-- The properties that all branches replace.
abbrev settled : RunStatus → Option String → CompletionReturn → RunState → RunState
settled status blocked_reason completion s = record s {
  status = status;
  last_completion = some completion;
  blocked_reason = blocked_reason;
  pending_start_report = none;
}

unfoldable pub apply_transition :
    StoredRun → CompletionReturn → TransitionResolution → Action RunState
apply_transition stored completion transition = elim transition.action [
  | TransitionAction.pause ↦ update_stored_state stored (settled RunStatus.paused none completion)
  | TransitionAction.stop ↦ (do
    now ← current_time
    update_stored_state stored (λ s. record (settled RunStatus.completed none completion s) {
      timestamps = record s.timestamps { completed_at = some now };
    }))
  | TransitionAction.block ↦
      update_stored_state stored (settled RunStatus.blocked (some transition.reason) completion)
  | _ ↦ update_stored_state stored (λ s. record (settled RunStatus.ready none completion s) {
    current_step_id = transition.next_step_id;
    current_step_ordinal = transition.next_step_ordinal;
  })
]

unfoldable pub block_run : StoredRun → String → Action (Unit {0})
block_run stored reason = do
  append_event stored.state.current_step_id (Details.diagnostic reason)
  updated ← update_stored_state stored (λ s. record s {
    status = RunStatus.blocked;
    blocked_reason = some reason;
    pending_start_report = none;
  })
  append_state_changed stored updated "blocked"
