-- ===== src/Store/Heartbeat.antt =====
-- services/protocol-runner-api/src/store.ts: `recordParallelHeartbeat`.
use protocol_runner.Common.{
  ℕ, ◌+◌, ◌==◌, String, Bool, true, false, ◌&&◌, not, Option, none, some, List, [], ◌∷◌, ◌++◌, leb,
  or_else, if◌then◌else◌,
}
use protocol_runner.Store.Error.{Result, ok, err, ◌>>=◌, ◌>>◌, guard, StoreError}
use protocol_runner.Store.Rows.{
  ItemStatus, AttemptStatus, WarningCode, AttemptWarning, AttemptRow, ItemRow, LeaseRow, is_active,
  is_active_attempt, is_leased_attempt, is_leased_item,
}
use protocol_runner.Store.Ids.{assert_safe_run_instance_id, assert_safe_parallel_id}
use protocol_runner.Store.Tables.{
  Db, update_where, at_item, at_attempt, at_lease, load_run_row, load_lease, load_attempt,
  lease_ttl_ms, lease_is_expired,
}

-- A time stamp in a request: left out, a text that is no time, or a time.
pub data TimeInput : Type 0 where
  omitted invalid : TimeInput
  at : ℕ → TimeInput

-- `new Date(input)` or the clock; a text that is no time is refused.
abbrev pub read_time : TimeInput → ℕ → StoreError → Result ℕ
read_time TimeInput.omitted now e = ok now
read_time TimeInput.invalid now e = err e
read_time (TimeInput.at t) now e = ok t

abbrev has_code : WarningCode → AttemptWarning → Bool
has_code WarningCode.long_running w = elim w.code [
  | WarningCode.long_running ↦ true
  | WarningCode.possibly_stalled ↦ false
]
has_code WarningCode.possibly_stalled w = elim w.code [
  | WarningCode.long_running ↦ false
  | WarningCode.possibly_stalled ↦ true
]

-- The last warning of a code: a `Map` keeps the value that was set last.
last_of : WarningCode → Option AttemptWarning → List AttemptWarning → Option AttemptWarning
last_of code found [] = found
last_of code found (w ∷ ws) = last_of code (if has_code code w then some w else found) ws

to_list : Option AttemptWarning → List AttemptWarning
to_list none = []
to_list (some w) = w ∷ []

-- `mergeAttemptWarnings`: at most one warning of each code, the newest, `long_running` first.
unfoldable pub merge_attempt_warnings :
    List AttemptWarning → List AttemptWarning → List AttemptWarning
unfolding last_of to_list
merge_attempt_warnings current next =
    to_list (last_of WarningCode.long_running none (current ++ next))
    ++ to_list (last_of WarningCode.possibly_stalled none (current ++ next))

-- The checks of the transaction, on the lease's row.
unfoldable pub check_heartbeat : String → ℕ → ℕ → LeaseRow → Result (Unit {0})
check_heartbeat group heartbeat_at now row = do
  guard (row.group_id == group) StoreError.lease_group_mismatch
  guard (is_active row.status) StoreError.lease_not_active
  guard (not (lease_is_expired row now)) StoreError.lease_expired
  guard (leb (or_else row.heartbeat_at row.leased_at) heartbeat_at) StoreError.heartbeat_regressed

-- The lease after the heartbeat: its term starts again at the time of the write.
unfoldable pub beat : ℕ → ℕ → LeaseRow → LeaseRow → LeaseRow
beat heartbeat_at now row l = record l {
  heartbeat_at = some heartbeat_at;
  expires_at = some (now + lease_ttl_ms row);
  updated_at = now;
}

unfoldable pub run_attempt : ℕ → AttemptRow → AttemptRow
run_attempt now a = record a { status = AttemptStatus.running; updated_at = now }

unfoldable pub run_item : ℕ → ItemRow → ItemRow
run_item now it = record it { status = ItemStatus.running; updated_at = now }

unfoldable pub warn_attempt : ℕ → List AttemptWarning → AttemptRow → AttemptRow
warn_attempt now merged a = record a { warnings = merged; updated_at = now }

-- The last update is made only if the request has warnings.
unfoldable pub warn :
    ℕ → String → List AttemptWarning → List AttemptWarning → List AttemptRow → List AttemptRow
unfolding warn_attempt
warn now attempt current [] attempts = attempts
warn now attempt current (w ∷ ws) attempts =
    update_where (λ a. at_attempt attempt a && is_active_attempt a.status)
      (warn_attempt now (merge_attempt_warnings current (w ∷ ws))) attempts

-- The updates of the transaction.
unfoldable pub heartbeat_effect :
    String → ℕ → ℕ → List AttemptWarning → LeaseRow → AttemptRow → Db → Db
unfolding beat run_attempt run_item warn
heartbeat_effect group heartbeat_at now warnings row attempt db = record db {
  leases = update_where (at_lease row.lease_id) (beat heartbeat_at now row) db.leases;
  attempts = warn now row.attempt_id attempt.warnings warnings (
      update_where (λ a. at_attempt row.attempt_id a && is_leased_attempt a.status)
        (run_attempt now) db.attempts);
  items =
      update_where (λ it. at_item group row.item_id it && is_leased_item it.status) (run_item now)
        db.items;
}

-- The clock is read at the call, and again in the transaction.
unfoldable pub record_parallel_heartbeat :
    String → String → String → TimeInput → List AttemptWarning → ℕ → ℕ → Db → Result (LeaseRow × Db)
unfolding check_heartbeat heartbeat_effect
record_parallel_heartbeat run_instance_id group_id lease_id input warnings called_at now db = do
  run ← assert_safe_run_instance_id run_instance_id
  group ← assert_safe_parallel_id group_id
  lease ← assert_safe_parallel_id lease_id
  load_run_row db run
  heartbeat_at ← read_time input called_at StoreError.invalid_heartbeat_at
  row ← load_lease db lease
  check_heartbeat group heartbeat_at now row
  attempt ← load_attempt db row.attempt_id
  ok (
    beat heartbeat_at now row row,
    heartbeat_effect group heartbeat_at now warnings row attempt db,
  )
