-- ===== src/Controller/Start.antt =====
-- services/protocol-runner-api/src/controller.ts: starting, resuming and retrying the current step.
use protocol_runner.Common.{String}
use protocol_runner.Core.Types.{
  RunStatus, RunStep, ParallelGroupStep, start, resume, retry_current, paused,
}
use protocol_runner.Store.Grant.{PreflightResult}
use protocol_runner.Controller.{StoredRun}
use protocol_runner.Controller.Action.{
  Action, ◌>>=◌, ◌>>◌, load_run, require_manual_action, current_step,
}
use protocol_runner.Controller.Prompt.{SendContext, begin_send}
use protocol_runner.Controller.Parallel.{start_parallel_group, resume_parallel_group}

-- What the surroundings give to a start: what a send uses, and the outcome of a preflight's checks
-- with a summary of its errors.
pub record StartContext : Type 0 where
  pub send : SendContext
  pub preflight : PreflightResult
  pub summary : String

-- A parallel group is started, the prompt of a serial step sent.
abbrev pub start_step : StartContext → StoredRun → RunStep → Action (Unit {0})
start_step context stored (RunStep.parallel_group g) =
    start_parallel_group context.preflight context.summary stored g
start_step context stored (RunStep.serial s) = begin_send context.send stored "start"

unfoldable pub start_run : StartContext → Action (Unit {0})
start_run context = do
  stored ← load_run
  require_manual_action stored start
  step ← current_step stored
  start_step context stored step.step

-- A paused group is resumed, another one started.
abbrev pub resume_group :
    StartContext → StoredRun → RunStatus → ParallelGroupStep → Action (Unit {0})
resume_group context stored paused g = resume_parallel_group stored g
resume_group context stored status g =
    start_parallel_group context.preflight context.summary stored g

abbrev pub resume_step : StartContext → StoredRun → RunStep → Action (Unit {0})
resume_step context stored (RunStep.parallel_group g) =
    resume_group context stored stored.state.status g
resume_step context stored (RunStep.serial s) = begin_send context.send stored "resume"

unfoldable pub resume_run : StartContext → Action (Unit {0})
resume_run context = do
  stored ← load_run
  require_manual_action stored resume
  step ← current_step stored
  resume_step context stored step.step

unfoldable pub retry_current_step : SendContext → Action (Unit {0})
retry_current_step context = do
  stored ← load_run
  require_manual_action stored retry_current
  begin_send context stored "retry-current"
