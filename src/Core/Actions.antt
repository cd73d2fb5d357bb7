-- ===== src/Core/Actions.antt =====
-- packages/protocol-runner-core/src/diagnostics.ts: the manual actions that a status allows.
pub mod Laws
use mathlib.Core.Logic.{ite}
use protocol_runner.Common.{String, Bool, true, false, List, [], ◌∷◌, template, map, if◌then◌else◌}
use protocol_runner.Core.Types.{RunStatus, ManualAction, ManualAction-discrete, AllowedAction}
use protocol_runner.Core.Types.{
  draft, bound, ready, dispatching_prompt, waiting_for_start_report, waiting_for_completion_report,
  running, paused, closed, failed, validate, bind_thread, start, resume, retry_current, fail, close,
  accept_return, refresh,
}
use protocol_runner.Core.StateMachine.{status_name}

unfoldable pub action_name : ManualAction → String
action_name validate = "validate"
action_name bind_thread = "bind-thread"
action_name start = "start"
action_name ManualAction.pause = "pause"
action_name resume = "resume"
action_name retry_current = "retry-current"
action_name fail = "fail"
action_name close = "close"
action_name accept_return = "accept-return"
action_name refresh = "refresh"

unfoldable pub all_actions : List ManualAction
all_actions =
    validate ∷ bind_thread ∷ start ∷ ManualAction.pause ∷ resume ∷ retry_current ∷ fail ∷ close
    ∷ accept_return ∷ refresh ∷ []

-- The table `ENABLED_BY_STATUS`.
unfoldable pub enabled_by_status : RunStatus → List ManualAction
enabled_by_status draft = validate ∷ bind_thread ∷ fail ∷ refresh ∷ []
enabled_by_status bound = validate ∷ bind_thread ∷ start ∷ fail ∷ refresh ∷ []
enabled_by_status ready = validate ∷ start ∷ ManualAction.pause ∷ fail ∷ refresh ∷ []
enabled_by_status dispatching_prompt = validate ∷ fail ∷ refresh ∷ []
enabled_by_status waiting_for_start_report = validate ∷ ManualAction.pause ∷ fail ∷ refresh ∷ []
enabled_by_status waiting_for_completion_report =
    validate ∷ ManualAction.pause ∷ fail ∷ accept_return ∷ refresh ∷ []
enabled_by_status running = validate ∷ ManualAction.pause ∷ fail ∷ refresh ∷ []
enabled_by_status paused =
    validate ∷ bind_thread ∷ resume ∷ retry_current ∷ fail ∷ close ∷ refresh ∷ []
enabled_by_status RunStatus.blocked =
    validate ∷ bind_thread ∷ resume ∷ retry_current ∷ fail ∷ close ∷ refresh ∷ []
enabled_by_status RunStatus.completed = validate ∷ close ∷ refresh ∷ []
enabled_by_status failed = validate ∷ close ∷ refresh ∷ []
enabled_by_status closed = refresh ∷ []

includes_action : ManualAction → List ManualAction → Bool
unfolding ManualAction-discrete
includes_action a [] = false
includes_action a (b ∷ bs) = ite (ManualAction-discrete b a) true (includes_action a bs)

unfoldable pub is_manual_action_allowed : RunStatus → ManualAction → Bool
unfolding enabled_by_status includes_action
is_manual_action_allowed status action = includes_action action (enabled_by_status status)

enabled_reason : ManualAction → RunStatus → String
enabled_reason accept_return status =
    "Runner is waiting for a structured status report from the current step."
enabled_reason action status =
    template
      (action_name action ∷ " is allowed while run status is " ∷ status_name status ∷ "." ∷ [])

disabled_reason : ManualAction → RunStatus → String
disabled_reason accept_return status =
    "No structured status report is expected in the current status."
disabled_reason action status =
    template
      (action_name action ∷ " is not allowed while run status is " ∷ status_name status ∷ "." ∷ [])

allowed_action : RunStatus → ManualAction → AllowedAction
allowed_action status action =
    let enabled = is_manual_action_allowed status action in
    record {
      action = action;
      enabled = enabled;
      reason = if enabled then enabled_reason action status else disabled_reason action status;
    }

unfoldable pub get_allowed_actions : RunStatus → List AllowedAction
unfolding all_actions allowed_action enabled_reason disabled_reason
get_allowed_actions status = map (allowed_action status) all_actions
