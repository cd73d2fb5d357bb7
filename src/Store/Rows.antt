-- ===== src/Store/Rows.antt =====
-- services/protocol-runner-api/src/store.ts: the rows of the four parallel tables and their
-- statuses. A time stamp is its number of milliseconds; `toISOString` and `Date.parse` are inverse
-- on it. The tables hold the rows of one run, since every statement names the run.
use protocol_runner.Common.{ℕ, String, Bool, true, false, Option, List}

pub data GroupStatus : Type 0 where
  pending preflighting ready_to_lease leasing running paused completed : GroupStatus
  needs_attention stopped cancelled : GroupStatus

pub data ItemStatus : Type 0 where
  pending leased running completed blocked needs_recovery cancelled stopped : ItemStatus

pub data AttemptStatus : Type 0 where
  created leased running completed blocked failed cancelled stale timed_out : AttemptStatus
  evidence_missing output_missing status_invalid : AttemptStatus

pub data LeaseStatus : Type 0 where
  active released expired cancelled : LeaseStatus

pub data PreflightStatus : Type 0 where
  not_run passed failed : PreflightStatus

-- The statuses that a result may give an attempt.
pub data ResultStatus : Type 0 where
  completed blocked failed cancelled timed_out : ResultStatus
  evidence_missing output_missing status_invalid : ResultStatus

pub data WarningCode : Type 0 where
  long_running possibly_stalled : WarningCode

pub record AttemptWarning : Type 0 where
  pub code : WarningCode
  pub message : String
  pub observed_at : ℕ

-- Columns that no operation here reads are left out.
pub record GroupRow : Type 0 where
  pub step_id : String
  pub group_id : String
  pub status : GroupStatus
  pub max_concurrency : ℕ
  pub preflight_status : PreflightStatus
  pub checked_at : Option ℕ
  pub checked_by : Option String
  pub updated_at : ℕ

pub record ItemRow : Type 0 where
  pub step_id : String
  pub group_id : String
  pub item_id : String
  pub status : ItemStatus
  pub input_ref : String
  pub contract_ref : String
  pub sealed_output_target : String
  pub latest_attempt_id : Option String
  pub updated_at : ℕ

pub record AttemptRow : Type 0 where
  pub step_id : String
  pub group_id : String
  pub item_id : String
  pub attempt_id : String
  pub attempt_number : ℕ
  pub status : AttemptStatus
  pub evidence_dir : Option String
  pub warnings : List AttemptWarning
  pub created_at : ℕ
  pub updated_at : ℕ

pub record LeaseRow : Type 0 where
  pub step_id : String
  pub group_id : String
  pub item_id : String
  pub attempt_id : String
  pub lease_id : String
  pub executor_id : String
  pub status : LeaseStatus
  pub leased_at : ℕ
  pub expires_at : Option ℕ
  pub heartbeat_at : Option ℕ
  pub created_at : ℕ
  pub updated_at : ℕ

-- The tests that the statements make on statuses.
abbrev pub is_pending : ItemStatus → Bool
is_pending ItemStatus.pending = true
is_pending _ = false

abbrev pub is_completed : ItemStatus → Bool
is_completed ItemStatus.completed = true
is_completed _ = false

-- `status IN ('leased', 'running')` on an item.
abbrev pub is_live : ItemStatus → Bool
is_live ItemStatus.leased = true
is_live ItemStatus.running = true
is_live _ = false

abbrev pub is_leased_item : ItemStatus → Bool
is_leased_item ItemStatus.leased = true
is_leased_item _ = false

-- `isParallelItemAttentionStatus`.
abbrev pub is_attention : ItemStatus → Bool
is_attention ItemStatus.blocked = true
is_attention ItemStatus.needs_recovery = true
is_attention ItemStatus.cancelled = true
is_attention ItemStatus.stopped = true
is_attention _ = false

abbrev pub is_created : AttemptStatus → Bool
is_created AttemptStatus.created = true
is_created _ = false

abbrev pub is_leased_attempt : AttemptStatus → Bool
is_leased_attempt AttemptStatus.leased = true
is_leased_attempt _ = false

-- `isActiveAttemptStatus`.
abbrev pub is_active_attempt : AttemptStatus → Bool
is_active_attempt AttemptStatus.leased = true
is_active_attempt AttemptStatus.running = true
is_active_attempt _ = false

abbrev pub is_active : LeaseStatus → Bool
is_active LeaseStatus.active = true
is_active _ = false

abbrev pub is_passed : PreflightStatus → Bool
is_passed PreflightStatus.passed = true
is_passed _ = false

-- The group statuses in which leases are granted.
abbrev pub is_leaseable : GroupStatus → Bool
is_leaseable GroupStatus.ready_to_lease = true
is_leaseable GroupStatus.running = true
is_leaseable GroupStatus.leasing = true
is_leaseable _ = false

abbrev pub is_paused : GroupStatus → Bool
is_paused GroupStatus.paused = true
is_paused _ = false

-- `itemStatusForAttemptStatus`.
unfoldable pub item_status_for : ResultStatus → ItemStatus
item_status_for ResultStatus.completed = ItemStatus.completed
item_status_for ResultStatus.blocked = ItemStatus.blocked
item_status_for _ = ItemStatus.needs_recovery

-- A result status as the status of the attempt.
unfoldable pub attempt_status_of : ResultStatus → AttemptStatus
attempt_status_of ResultStatus.completed = AttemptStatus.completed
attempt_status_of ResultStatus.blocked = AttemptStatus.blocked
attempt_status_of ResultStatus.failed = AttemptStatus.failed
attempt_status_of ResultStatus.cancelled = AttemptStatus.cancelled
attempt_status_of ResultStatus.timed_out = AttemptStatus.timed_out
attempt_status_of ResultStatus.evidence_missing = AttemptStatus.evidence_missing
attempt_status_of ResultStatus.output_missing = AttemptStatus.output_missing
attempt_status_of ResultStatus.status_invalid = AttemptStatus.status_invalid

-- `input.status === 'cancelled' ? 'cancelled' : 'released'`.
unfoldable pub lease_status_for : ResultStatus → LeaseStatus
lease_status_for ResultStatus.cancelled = LeaseStatus.cancelled
lease_status_for _ = LeaseStatus.released
