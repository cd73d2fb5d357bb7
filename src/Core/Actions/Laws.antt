-- ===== src/Core/Actions/Laws.antt =====
-- The table of manual actions against the table of status transitions.
use protocol_runner.Common.{◌≡◌, arith}
use protocol_runner.Core.Types.{RunStatus, ManualAction}
use protocol_runner.Core.StateMachine.{can_transition_run_status}
use protocol_runner.Core.Actions.{is_manual_action_allowed}

-- `fail`, `close` and `pause` are offered exactly in the statuses from which the run may become
-- `failed`, `closed` and `paused`.
pub is_manual_action_allowed-can_transition :
    (s : RunStatus)
    → (is_manual_action_allowed s ManualAction.fail ≡ can_transition_run_status s RunStatus.failed)
      × (is_manual_action_allowed s ManualAction.close
          ≡ can_transition_run_status s RunStatus.closed)
      × (is_manual_action_allowed s ManualAction.pause
          ≡ can_transition_run_status s RunStatus.paused)
unfolding is_manual_action_allowed can_transition_run_status
is_manual_action_allowed-can_transition s = ground arith
