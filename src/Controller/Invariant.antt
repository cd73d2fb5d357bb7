-- ===== src/Controller/Invariant.antt =====
-- services/protocol-runner-api/src/controller.ts: what holds of a run between any two calls.
pub mod Steps
pub mod Change
pub mod Reads
pub mod Manual
pub mod Bind
pub mod Close
pub mod Prompt
pub mod Answer
pub mod Reports
pub mod Returns
pub mod Parallel
pub mod Groups
pub mod Still
pub mod Start
pub mod Results
use protocol_runner.Common.{String, Bool, true, false, Option, none, some, List, [], ◌∷◌, ◌≡◌, ◌⊎◌}
use protocol_runner.Core.Types.{
  RunStatus, RunState, WorkPlan, ResolvedStep, RunStep, SerialRunStep, PromptStartExpectation,
  dispatching_prompt, waiting_for_start_report, paused, closed, failed,
}
use protocol_runner.Core.Steps.{resolve_step}
use protocol_runner.Core.Steps.Laws.{HasDistinctIds}
use protocol_runner.Store.Invariant.{IsSound}
use protocol_runner.Controller.{World, StoredRun, Dispatch, RunnerEvent, Outcome}
use protocol_runner.Controller.Replay.{replay}

-- There is a value.
abbrev pub IsGiven : {A : Type 0} → Option A → Type 0
IsGiven {A} o = (a : A) × (o ≡ some a)

-- A reason for stopping is recorded when the run is blocked or has failed, may be left over when it
-- is paused or closed, and is absent otherwise.
abbrev pub IsExplained : RunStatus → Option String → Type 0
IsExplained RunStatus.blocked reason = IsGiven reason
IsExplained failed reason = IsGiven reason
IsExplained paused reason = Unit
IsExplained closed reason = Unit
IsExplained _ reason = reason ≡ none

-- A run that waits for a start report knows which one: it is for the run and its current step.
abbrev pub IsAwaited : RunStatus → String → Option String → Option PromptStartExpectation → Type 0
IsAwaited waiting_for_start_report run current pending =
    (e : PromptStartExpectation) × (pending ≡ some e)
    × (e.run_instance_id ≡ run)
    × (current ≡ some e.step_id)
IsAwaited _ run current pending = Unit

-- The statuses in which a prompt may be on its way.
abbrev pub holds_send : RunStatus → Bool
holds_send dispatching_prompt = true
holds_send failed = true
holds_send closed = true
holds_send _ = false

abbrev pub IsSerialId : WorkPlan → String → Type 0
IsSerialId plan id =
    (step : ResolvedStep) × (s : SerialRunStep) × (resolve_step plan id ≡ some step)
    × (step.step ≡ RunStep.serial s)

-- At most one prompt is on its way. It is for the current step, a serial one.
abbrev pub IsSent : WorkPlan → RunStatus → Option String → List Dispatch → Type 0
IsSent plan status current sending =
    (sending ≡ [])
    ⊎ ((d : Dispatch) × (sending ≡ d ∷ [])
        × (current ≡ some d.step_id)
        × IsSerialId plan d.step_id
        × (holds_send status ≡ true))

-- The current step is one of the plan.
abbrev pub IsCurrent : WorkPlan → Option String → Type 0
IsCurrent plan current =
    (id : String) × (step : ResolvedStep) × (current ≡ some id) × (resolve_step plan id ≡ some step)

pub record IsPlaced (plan : WorkPlan) (run : String) (status : RunStatus)
    (current reason : Option String) (pending : Option PromptStartExpectation)
    (sending : List Dispatch) : Type 0 where
  pub current_step : IsCurrent plan current
  pub explained : IsExplained status reason
  pub awaited : IsAwaited status run current pending
  pub sent : IsSent plan status current sending

abbrev pub IsPlacedState : StoredRun → RunState → List Dispatch → Type 0
IsPlacedState r s sending =
    IsPlaced r.work_plan r.run_instance_id s.status s.current_step_id s.blocked_reason
      s.pending_start_report sending

-- Besides, the events tell the status of the run, and its parallel tables are sound.
pub record IsGoodRun (r : StoredRun) (sending : List Dispatch) (events : List RunnerEvent)
    : Type 0 where
  pub distinct : HasDistinctIds r.work_plan.steps
  pub placed : IsPlacedState r r.state sending
  pub logged : replay events ≡ some r.state.status

abbrev pub IsGoodWhen : Option StoredRun → World → Type 0
IsGoodWhen none w = Unit
IsGoodWhen (some r) w = IsGoodRun r w.sending w.events

abbrev pub IsConsistent : World → Type 0
IsConsistent w = IsGoodWhen w.stored w × IsSound w.tables

-- A call leaves a consistent state, whether it returns or throws.
abbrev pub Keeps : {A : Type 0} → Outcome A × World → Type 0
Keeps r = IsConsistent r.1
