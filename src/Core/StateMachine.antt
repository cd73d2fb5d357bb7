-- ===== src/Core/StateMachine.antt =====
-- packages/protocol-runner-core/src/state-machine.ts: which run status may follow which.
pub mod Laws
use mathlib.Core.Logic.{ite}
use protocol_runner.Common.{String, Bool, true, false, List, [], ◌∷◌, template, map, if◌then◌else◌}
use protocol_runner.Core.Types.{
  RunStatus, RunStatus-discrete, ValidationIssue, ValidationResult, draft, bound, ready,
  dispatching_prompt, waiting_for_start_report, waiting_for_completion_report, running, paused,
  closed, failed,
}

-- The name of a status, as messages show it.
unfoldable pub status_name : RunStatus → String
status_name draft = "draft"
status_name bound = "bound"
status_name ready = "ready"
status_name dispatching_prompt = "dispatching_prompt"
status_name waiting_for_start_report = "waiting_for_start_report"
status_name waiting_for_completion_report = "waiting_for_completion_report"
status_name running = "running"
status_name paused = "paused"
status_name RunStatus.blocked = "blocked"
status_name RunStatus.completed = "completed"
status_name failed = "failed"
status_name closed = "closed"

-- The table `ALLOWED_RUN_STATUS_TRANSITIONS`.
unfoldable pub allowed_transitions : RunStatus → List RunStatus
allowed_transitions draft = bound ∷ failed ∷ []
allowed_transitions bound = ready ∷ failed ∷ []
allowed_transitions ready = dispatching_prompt ∷ running ∷ paused ∷ failed ∷ []
allowed_transitions dispatching_prompt = waiting_for_start_report ∷ RunStatus.blocked ∷ failed ∷ []
allowed_transitions waiting_for_start_report =
    waiting_for_completion_report ∷ paused ∷ RunStatus.blocked ∷ failed ∷ []
allowed_transitions waiting_for_completion_report =
    ready ∷ paused ∷ RunStatus.blocked ∷ RunStatus.completed ∷ failed ∷ []
allowed_transitions running = ready ∷ paused ∷ RunStatus.blocked ∷ RunStatus.completed ∷ failed ∷ []
allowed_transitions paused = ready ∷ failed ∷ closed ∷ []
allowed_transitions RunStatus.blocked = ready ∷ failed ∷ closed ∷ []
allowed_transitions RunStatus.completed = closed ∷ []
allowed_transitions failed = closed ∷ []
allowed_transitions closed = []

pub next_statuses_for_run_status : RunStatus → List RunStatus
next_statuses_for_run_status status = allowed_transitions status

includes_status : RunStatus → List RunStatus → Bool
unfolding RunStatus-discrete
includes_status to [] = false
includes_status to (s ∷ ss) = ite (RunStatus-discrete s to) true (includes_status to ss)

unfoldable pub can_transition_run_status : RunStatus → RunStatus → Bool
unfolding allowed_transitions includes_status
can_transition_run_status from to = includes_status to (allowed_transitions from)

-- `names.join(', ')`.
unfoldable pub join_comma : List String → String
join_comma [] = ""
join_comma (s ∷ []) = s
join_comma (s ∷ t ∷ ss) = template (s ∷ ", " ∷ join_comma (t ∷ ss) ∷ [])

unfoldable pub or_none : List String → String
or_none [] = "none"
or_none (s ∷ ss) = join_comma (s ∷ ss)

unfoldable pub validate_run_status_transition : RunStatus → RunStatus → ValidationResult
unfolding can_transition_run_status
validate_run_status_transition from to =
    if can_transition_run_status from to then record { ok = true; issues = [] } else record {
      ok = false;
      issues =
          record {
            code = "run_status.invalid_transition";
            message = template (
                "Run status cannot transition from "
                ∷ status_name from
                ∷ " to "
                ∷ status_name to
                ∷ ". Allowed next statuses: "
                ∷ or_none (map status_name (allowed_transitions from))
                ∷ "."
                ∷ []);
            path = "$.status";
          }
          ∷ [];
    }
