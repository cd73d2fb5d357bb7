-- ===== src/Core/Types.antt =====
-- packages/protocol-runner-core/src/types.ts: the data of plans, runs and reports. An optional
-- property, or one that may be null, is an `Option`; a time stamp is a text.
use protocol_runner.Common.{ℕ, String, Bool, true, false, Option, List}

pub data RunStatus : Type 0 where
  draft bound ready dispatching_prompt waiting_for_start_report : RunStatus
  waiting_for_completion_report running paused blocked completed failed closed : RunStatus

unfoldable pub RunStatus-discrete : Discrete RunStatus
RunStatus-discrete = hlevel

pub data SerialStepKind : Type 0 where
  work review : SerialStepKind

pub data ExecutionMode : Type 0 where
  serial mixed : ExecutionMode

pub data WorkerCapability : Type 0 where
  base json_transform source_writer : WorkerCapability

pub data CompletionStatus : Type 0 where
  completed blocked : CompletionStatus

-- A JavaScript value, such as a parsed request body. A number that is not a natural one keeps its
-- text. An object is the list of its own properties, in order.
mutual
  pub data Fields : Type 0 where
    end : Fields
    field : (key : String) (value : Value) (others : Fields) → Fields

  pub data Items : Type 0 where
    nil : Items
    cons : (item : Value) (others : Items) → Items

  pub data Value : Type 0 where
    undefined null : Value
    obj : Fields → Value
    arr : Items → Value
    str : String → Value
    bool : Bool → Value
    num : ℕ → Value
    other_num : String → Value

pub record ContractReference : Type 0 where
  pub title : String
  pub path : String

pub data TransitionRule : Type 0 where
  next pause stop : TransitionRule
  go_to : String → TransitionRule

-- `prompt_template` has the one value `generic_step`.
pub record SerialRunStep : Type 0 where
  pub step_id : String
  pub step_kind : SerialStepKind
  pub contract : Option ContractReference
  pub planned_step : String
  pub visible_work_item : Fields
  pub on_completed : TransitionRule
  pub on_blocked : TransitionRule

pub record SealedOutputDefaults : Type 0 where
  pub base_dir : String
  pub primary_artifact : String

pub record ItemSealedOutput : Type 0 where
  pub unit_id : Option String
  pub primary_artifact : Option String

pub record ParallelGroupItem : Type 0 where
  pub item_id : String
  pub label : Option String
  pub input_ref : String
  pub variables : Option Fields
  pub contract_ref : Option String
  pub sealed_output : Option ItemSealedOutput
  pub owned_source_paths : Option (List String)

pub data Participation : Type 0 where
  artifact_only source_writer : Participation

-- `executor` has the one value `codex_exec`.
pub record ParallelGroupStep : Type 0 where
  pub step_id : String
  pub group_id : String
  pub label : Option String
  pub contract_ref : String
  pub max_concurrency : ℕ
  pub required_worker_capabilities : Option (List WorkerCapability)
  pub participation : Option Participation
  pub source_base_commit : Option String
  pub sealed_output_defaults : SealedOutputDefaults
  pub timeout_policy : Option Fields
  pub items : List ParallelGroupItem
  pub on_completed : TransitionRule
  pub on_blocked : TransitionRule

pub data RunStep : Type 0 where
  serial : SerialRunStep → RunStep
  parallel_group : ParallelGroupStep → RunStep

-- The properties that both kinds of step have.
abbrev pub step_id : RunStep → String
step_id (RunStep.serial s) = s.step_id
step_id (RunStep.parallel_group g) = g.step_id

abbrev pub on_completed : RunStep → TransitionRule
on_completed (RunStep.serial s) = s.on_completed
on_completed (RunStep.parallel_group g) = g.on_completed

abbrev pub on_blocked : RunStep → TransitionRule
on_blocked (RunStep.serial s) = s.on_blocked
on_blocked (RunStep.parallel_group g) = g.on_blocked

abbrev pub is_serial_step : RunStep → Bool
is_serial_step (RunStep.serial s) = true
is_serial_step (RunStep.parallel_group g) = false

pub record WorkPlan : Type 0 where
  pub run_title : String
  pub execution_mode : ExecutionMode
  pub default_contract : ContractReference
  pub steps : List RunStep

-- A step with its place in the plan. Only a serial step has a contract of its own.
pub record ResolvedStep : Type 0 where
  pub step : RunStep
  pub contract : Option ContractReference
  pub ordinal : ℕ
  pub total_steps : ℕ

pub data BindingKind : Type 0 where
  serial_desktop parallel_only : BindingKind

pub record BindingMetadata : Type 0 where
  pub binding_kind : BindingKind
  pub visible_thread_label : Option String
  pub relay_channel_id : Option String
  pub relay_channel_name : Option String
  pub binding_id : Option String

pub record RunTimestamps : Type 0 where
  pub created_at : String
  pub updated_at : String
  pub started_at : Option String
  pub completed_at : Option String

pub record RunAutomationSettings : Type 0 where
  pub auto_pickup : Bool
  pub auto_advance : Bool

pub record PromptStartExpectation : Type 0 where
  pub run_instance_id : String
  pub step_id : String
  pub prompt_attempt_id : String
  pub start_token : String
  pub attempt : ℕ
  pub prompt_file : String
  pub sent_at : String

pub record StepStartReport : Type 0 where
  pub run_instance_id : String
  pub step_id : String
  pub prompt_attempt_id : String
  pub start_token : String

pub record CompletionReturn : Type 0 where
  pub run_instance_id : String
  pub step_id : String
  pub status : CompletionStatus
  pub summary : Option String

pub record RunState : Type 0 where
  pub run_instance_id : String
  pub work_plan_path : String
  pub status : RunStatus
  pub current_step_id : Option String
  pub current_step_ordinal : Option ℕ
  pub automation : RunAutomationSettings
  pub thread_binding : Option BindingMetadata
  pub last_sent_prompt_message_id : Option String
  pub pending_start_report : Option PromptStartExpectation
  pub last_start_report : Option StepStartReport
  pub last_completion : Option CompletionReturn
  pub blocked_reason : Option String
  pub timestamps : RunTimestamps

-- `severity` is `error` in every issue that the core makes.
pub record ValidationIssue : Type 0 where
  pub code : String
  pub message : String
  pub path : String

pub record ValidationResult : Type 0 where
  pub ok : Bool
  pub issues : List ValidationIssue

pub data TransitionAction : Type 0 where
  advance pause stop go_to block : TransitionAction

pub record TransitionResolution : Type 0 where
  pub action : TransitionAction
  pub next_step_id : Option String
  pub next_step_ordinal : Option ℕ
  pub reason : String

pub data ManualAction : Type 0 where
  validate bind_thread start pause resume retry_current fail close accept_return refresh :
      ManualAction

unfoldable pub ManualAction-discrete : Discrete ManualAction
ManualAction-discrete = hlevel

pub record AllowedAction : Type 0 where
  pub action : ManualAction
  pub enabled : Bool
  pub reason : String
