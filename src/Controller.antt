-- ===== src/Controller.antt =====
-- services/protocol-runner-api/src/controller.ts: the controller of a run. This file has the state
-- that its calls work on, and calls as actions on that state.
pub mod Action
pub mod Files
pub mod Transition
pub mod Prompt
pub mod Manual
pub mod Reports
pub mod Parallel
pub mod Results
pub mod Attention
pub mod Start
pub mod Replay
pub mod Runs
pub mod History
pub mod Invariant
use protocol_runner.Common.{ℕ, String, Bool, Option, List}
use protocol_runner.Core.Types.{
  RunStatus, WorkPlan, RunState, BindingMetadata, TransitionResolution, RunAutomationSettings,
}
use protocol_runner.Store.Error.{StoreError}
use protocol_runner.Store.Tables.{Db}

-- `StoredRun`, less the directory of its files.
pub record StoredRun : Type 0 where
  pub run_instance_id : String
  pub work_plan : WorkPlan
  pub state : RunState

-- The files of a step: its snapshot, and for each attempt the prompt and the two reports.
pub data FileKind : Type 0 where
  step prompt start_report status_report : FileKind

pub record RunFile : Type 0 where
  pub kind : FileKind
  pub step_id : String
  pub ordinal : ℕ
  pub attempt : ℕ

pub data SendStatus : Type 0 where
  sent not_sent unknown : SendStatus

-- `PromptSendResult`. A field that only messages show is left out.
pub record PromptSendResult : Type 0 where
  pub send_status : SendStatus
  pub desktop_result : String
  pub turn_id : Option String
  pub item_id : Option String

-- What an event says of its type. Details that no one reads are left out.
pub data Details : Type 0 where
  plan_validated : Details
  run_bound : BindingMetadata → Details
  automation_updated : RunAutomationSettings → Details
  manual_action : String → Details
  state_changed :
      (from_status to_status : RunStatus) (reason : String) (blocked_reason : Option String)
      → Details
  prompt_rendered : (operation : String) (attempt : ℕ) → Details
  prompt_sent : (operation : String) (attempt : ℕ) (result : PromptSendResult) → Details
  start_report_received : (attempt : ℕ) (parse_ok : Bool) → Details
  status_report_received : (attempt : ℕ) (parse_ok : Bool) → Details
  transition_resolved : TransitionResolution → Details
  diagnostic : String → Details

pub record RunnerEvent : Type 0 where
  pub step_id : Option String
  pub details : Details

pub data AttentionOutcome : Type 0 where
  finished needs_attention : AttentionOutcome

-- `RunnerAttentionNotification`.
pub record Notification : Type 0 where
  pub outcome : AttentionOutcome
  pub status : RunStatus
  pub current_step_id : Option String
  pub reason : String
  pub blocked_reason : Option String
  pub occurred_at : String

-- A prompt that the controller has handed to the desktop adapter and whose answer it awaits: what
-- `sendCurrentPrompt` keeps in its variables meanwhile.
pub record Dispatch : Type 0 where
  pub operation : String
  pub step_id : String
  pub ordinal : ℕ
  pub attempt : ℕ
  pub prompt_attempt_id : String
  pub start_token : String
  pub prompt_file : String

-- The state of one run: its row, its events with the newest first, its files and its parallel
-- tables; the notifications that were asked for, the prompts that are on their way, and the readings
-- of the clock. `delivers` says whether the notifier takes a notification or throws.
pub record World : Type 0 where
  pub stored : Option StoredRun
  pub events : List RunnerEvent
  pub files : List RunFile
  pub tables : Db
  pub notifications : List Notification
  pub sending : List Dispatch
  pub clock : ℕ → String
  pub readings : ℕ
  pub delivers : Notification → Bool

-- The codes of `ProtocolRunnerError`, and an error of the store.
pub data Failure : Type 0 where
  store : StoreError → Failure
  invalid_request run_missing step_missing file_exists : Failure
  current_step_missing current_step_not_parallel_group parallel_group_not_current : Failure
  invalid_status attempt_mismatch relay_bind_failed serial_binding_required : Failure
  visible_thread_label_required serial_desktop_binding_required not_bound : Failure
  parallel_group_not_supported parallel_group_not_resumable : Failure
  auto_pickup_disabled prompt_attempt_missing handoff_required : Failure
  sealed_output_run_dir_overlap invalid_source_writer_plan : Failure

-- How a call ends. What was written before it throws stays written.
pub data Outcome (A : Type 0) : Type 0 where
  thrown : Failure → Outcome A
  value : A → Outcome A
