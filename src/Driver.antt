-- ===== src/Driver.antt =====
-- services/protocol-runner-driver/src/driver.ts: `ProtocolRunnerDriver`. One `tick` reads the list of
-- runs and starts at most one of them. The answers of the API to one tick are the parameters `listed`
-- and `start`; the state of the class is `next_index`.
pub mod RoundRobin
use protocol_runner.Common.{
  ℕ, zero, suc, ◌+◌, String, Bool, true, false, ◌==◌, not, Option, none, some, List, [], ◌∷◌, ◌++◌,
  length, take, drop, is_empty_list, template, ◌%◌, if◌then◌else◌,
}
use protocol_runner.Core.Types.{RunStatus, RunAutomationSettings}

-- Fields that the driver does not read are left out.
pub record RunListItem : Type 0 where
  pub run_instance_id : String
  pub status : RunStatus
  pub current_step_id : Option String
  pub automation : Option RunAutomationSettings

-- What the driver reads of a `DriverRunView`.
pub record DriverRunView : Type 0 where
  pub status : RunStatus
  pub current_step_id : Option String

-- The answer of the API, or the message of the error thrown.
pub data Answer (A : Type 0) : Type 0 where
  answered : A → Answer A
  failed : String → Answer A

pub data DriverDecisionAction : Type 0 where
  activated skipped_auto_advance_disabled skipped_not_ready : DriverDecisionAction
  skipped_terminal no_eligible_runs api_error : DriverDecisionAction

pub record DriverDecision : Type 0 where
  pub action : DriverDecisionAction
  pub run_instance_id : Option String
  pub status : Option RunStatus
  pub current_step_id : Option String
  pub reason : String
  pub error : Option String

abbrev pub is_activated : DriverDecisionAction → Bool
is_activated DriverDecisionAction.activated = true
is_activated _ = false

-- `TERMINAL_STATUSES.has`.
abbrev pub is_terminal : RunStatus → Bool
is_terminal RunStatus.completed = true
is_terminal RunStatus.failed = true
is_terminal RunStatus.closed = true
is_terminal _ = false

abbrev pub is_ready : RunStatus → Bool
is_ready RunStatus.ready = true
is_ready _ = false

abbrev pub auto_advances : RunListItem → Bool
auto_advances run = elim run.automation [ none ↦ false | some settings ↦ settings.auto_advance ]

unfoldable pub status_text : RunStatus → String
status_text RunStatus.draft = "draft"
status_text RunStatus.bound = "bound"
status_text RunStatus.ready = "ready"
status_text RunStatus.dispatching_prompt = "dispatching_prompt"
status_text RunStatus.waiting_for_start_report = "waiting_for_start_report"
status_text RunStatus.waiting_for_completion_report = "waiting_for_completion_report"
status_text RunStatus.running = "running"
status_text RunStatus.paused = "paused"
status_text RunStatus.blocked = "blocked"
status_text RunStatus.completed = "completed"
status_text RunStatus.failed = "failed"
status_text RunStatus.closed = "closed"

unfoldable pub about_run : RunListItem → DriverDecisionAction → String → DriverDecision
about_run run action reason = record {
  action = action;
  run_instance_id = some run.run_instance_id;
  status = some run.status;
  current_step_id = run.current_step_id;
  reason = reason;
  error = none;
}

-- `decisionForRun`.
unfoldable pub decision_for_run : RunListItem → DriverDecision
unfolding about_run
decision_for_run run =
    if is_terminal run.status
    then about_run run DriverDecisionAction.skipped_terminal (
        template
          ("Run status=" ∷ status_text run.status ∷ " is terminal for driver scheduling." ∷ []))
    else if not (is_ready run.status)
    then about_run run DriverDecisionAction.skipped_not_ready
        (template ("Run status=" ∷ status_text run.status ∷ "; driver only sends ready runs." ∷ []))
    else if not (auto_advances run)
    then about_run run DriverDecisionAction.skipped_auto_advance_disabled
        "Run is ready but auto_advance=false."
    else about_run run DriverDecisionAction.activated "Run is ready and auto_advance=true."

-- `roundRobinOrder`.
unfoldable pub round_robin_order : ℕ → List RunListItem → List RunListItem
round_robin_order next_index [] = []
round_robin_order next_index (r ∷ rs) =
    let start = next_index % length (r ∷ rs) in drop start (r ∷ rs) ++ take start (r ∷ rs)

-- `findIndex`, -1 shifted to 0: the index of the first run with the id, plus one.
unfoldable pub index_after : String → List RunListItem → ℕ
index_after id [] = 0
index_after id (r ∷ rs) =
    let rest = index_after id rs in
    if r.run_instance_id == id then 1 else elim rest [ zero ↦ 0 | suc n ↦ suc (suc n) ]

-- The decisions that are about no run.
unfoldable pub list_error : String → String → DriverDecision
list_error reason message = record {
  action = DriverDecisionAction.api_error;
  run_instance_id = none;
  status = none;
  current_step_id = none;
  reason = reason;
  error = some message;
}

unfoldable pub no_runs : String → DriverDecision
no_runs reason = record {
  action = DriverDecisionAction.no_eligible_runs;
  run_instance_id = none;
  status = none;
  current_step_id = none;
  reason = reason;
  error = none;
}

-- What a tick leaves: the decisions emitted before the last, the last one, which it returns, and
-- the next index.
pub record Tick : Type 0 where
  pub emitted : List DriverDecision
  pub decision : DriverDecision
  pub next_index : ℕ

-- What the driver makes of the answer to the start of a run.
unfoldable pub start_answered : List RunListItem → ℕ → RunListItem → Answer DriverRunView → Tick
unfolding decision_for_run about_run index_after
start_answered runs next_index run (Answer.answered updated) = record {
  emitted = [];
  decision = record (decision_for_run run) {
    status = some updated.status;
    current_step_id = updated.current_step_id;
    reason = template ("Activated current ready step for " ∷ run.run_instance_id ∷ "." ∷ []);
  };
  next_index = index_after run.run_instance_id runs % length runs;
}
start_answered runs next_index run (Answer.failed message) = record {
  emitted = [];
  decision =
      record (about_run run DriverDecisionAction.api_error
        "Failed to start ready run through protocol-runner-api.") { error = some message };
  next_index = next_index;
}

-- A run that the driver starts.
abbrev pub start_ready : (String → Answer DriverRunView) → List RunListItem → ℕ → RunListItem → Tick
start_ready start runs next_index run =
    start_answered runs next_index run (start run.run_instance_id)

-- The loop of `tick` over the runs in their order.
unfoldable pub visit :
    (String → Answer DriverRunView) → List RunListItem → ℕ → List RunListItem → Tick
unfolding start_answered no_runs
visit start runs next_index [] = record {
  emitted = [];
  decision = no_runs "No ready run with auto_advance=true was found.";
  next_index = next_index;
}
visit start runs next_index (run ∷ rest) =
    let later = visit start runs next_index rest in
    if is_activated (decision_for_run run).action
    then start_ready start runs next_index run
    else record later { emitted = decision_for_run run ∷ later.emitted }

unfoldable pub tick : Answer (List RunListItem) → (String → Answer DriverRunView) → ℕ → Tick
unfolding visit round_robin_order list_error no_runs
tick (Answer.failed message) start next_index = record {
  emitted = [];
  decision = list_error "Failed to list protocol-runner runs." message;
  next_index = next_index;
}
tick (Answer.answered runs) start next_index =
    if is_empty_list runs
    then record {
      emitted = [];
      decision = no_runs "No protocol-runner runs exist.";
      next_index = next_index;
    }
    else visit start runs next_index (round_robin_order next_index runs)
