-- ===== src/Controller/Action.antt =====
-- services/protocol-runner-api/src/controller.ts and store.ts: the steps that the controller's calls
-- are made of: loading the run, guards, writing the state, events and files.
use mathlib.Core.Logic.{ite}
use protocol_runner.Common.{
  suc, String, Bool, true, false, ◌==◌, Option, none, some, ◌∷◌, any, if◌then◌else◌,
}
use protocol_runner.Core.Types.{
  RunStatus, RunStatus-discrete, RunState, ResolvedStep, ManualAction, step_id, failed,
}
use protocol_runner.Core.Actions.{is_manual_action_allowed}
use protocol_runner.Core.Steps.{resolve_current_step}
use protocol_runner.Store.Error.{Result, ok, err}
use protocol_runner.Store.Tables.{Db}
use protocol_runner.Controller.{
  World, StoredRun, RunnerEvent, Details, Notification, AttentionOutcome, Failure, Outcome, thrown,
  value,
}

abbrev pub Action : Type 0 → Type 0
Action A = World → Outcome A × World

module _ {A : Type 0} where
  abbrev pub return : A → Action A
  return a w = (value a, w)

  abbrev pub throw : Failure → Action A
  throw f w = (thrown f, w)

infixl 5 ◌>>=◌
infixl 5 ◌>>◌
-- What follows a step that may throw.
unfoldable pub next_step : {A B : Type 0} → (A → Action B) → Outcome A × World → Outcome B × World
next_step k (value a, w) = k a w
next_step k (thrown f, w) = (thrown f, w)

unfoldable pub ◌>>=◌ : {A B : Type 0} → Action A → (A → Action B) → Action B
unfolding next_step
◌>>=◌ m k w = next_step k (m w)

abbrev pub ◌>>◌ : {A B : Type 0} → Action A → Action B → Action B
m >> k = m >>= (λ done. k)

-- `if (!passed) throw …`, and a value that has to be there.
unfoldable pub require : Bool → Failure → Action (Unit {0})
require true f = return tt
require false f = throw f

unfoldable pub present : {A : Type 0} → Option A → Failure → Action A
present (some a) f = return a
present none f = throw f

-- A statement that is made only under a condition.
unfoldable pub when : Bool → Action (Unit {0}) → Action (Unit {0})
when true m = m
when false m = return tt

unfoldable pub current_time : Action String
current_time w = (value (w.clock w.readings), record w { readings = suc w.readings })

-- `state.current_step_id` is absent or names a step of the plan.
unfoldable pub names_step : StoredRun → Bool
names_step r = elim r.state.current_step_id [
  | none ↦ true
  | some id ↦ any (λ s. step_id s == id) r.work_plan.steps
]

-- `loadRun`.
unfoldable pub load_run : Action StoredRun
load_run = do
  r ← λ w. present w.stored Failure.run_missing w
  require (names_step r) Failure.step_missing
  return r

unfoldable pub append_event : Option String → Details → Action (Unit {0})
append_event step details w = elim w.stored [
  | none ↦ throw Failure.run_missing w
  | some r ↦
      return tt (record w { events = record { step_id = step; details = details } ∷ w.events })
]

unfoldable pub write_state : RunState → Action (Unit {0})
write_state state w = elim w.stored [
  | none ↦ throw Failure.run_missing w
  | some r ↦ return tt (record w { stored = some (record r { state = state }) })
]

-- A patched state, with the time of the update.
abbrev pub stamped : RunState → String → RunState
stamped s now = record s { timestamps = record s.timestamps { updated_at = now } }

-- `updateStoredState`, where `patch` stands for the properties that it replaces.
unfoldable pub update_stored_state : StoredRun → (RunState → RunState) → Action RunState
update_stored_state stored patch = do
  now ← current_time
  let next = stamped (patch stored.state) now
  write_state next
  return next

-- `next.status === 'completed' || …`.
abbrev pub needs_notice : RunStatus → Bool
needs_notice RunStatus.completed = true
needs_notice RunStatus.blocked = true
needs_notice failed = true
needs_notice _ = false

abbrev pub outcome_of : RunStatus → AttentionOutcome
outcome_of RunStatus.completed = AttentionOutcome.finished
outcome_of _ = AttentionOutcome.needs_attention

-- `next.current_step_id ?? previous.state.current_step_id`.
abbrev pub step_of : RunState → StoredRun → Option String
step_of next previous = elim next.current_step_id [
  | some id ↦ some id
  | none ↦ previous.state.current_step_id
]

abbrev pub notification_of : RunState → String → Notification
notification_of next reason = record {
  outcome = outcome_of next.status;
  status = next.status;
  current_step_id = next.current_step_id;
  reason = reason;
  blocked_reason = next.blocked_reason;
  occurred_at = next.timestamps.updated_at;
}

-- The notifier is called, and an event says whether it threw.
unfoldable pub request_notification : StoredRun → RunState → String → Action (Unit {0})
request_notification previous next reason w =
    let notification = notification_of next reason in
    append_event (step_of next previous)
      (Details.diagnostic (
        if w.delivers notification
        then "runner_attention_notification_requested"
        else "runner_attention_notification_failed"))
      (record w { notifications = notification ∷ w.notifications })

abbrev pub is_change : StoredRun → RunState → Bool
unfolding RunStatus-discrete
is_change previous next = ite (RunStatus-discrete previous.state.status next.status) false true

unfoldable pub notify_attention_state : StoredRun → RunState → String → Action (Unit {0})
notify_attention_state previous next reason =
    when (is_change previous next)
      (when (needs_notice next.status) (request_notification previous next reason))

-- The event of `appendStateChanged`.
abbrev pub change_event : StoredRun → RunState → String → RunnerEvent
change_event previous next reason = record {
  step_id = step_of next previous;
  details = Details.state_changed previous.state.status next.status reason next.blocked_reason;
}

unfoldable pub append_state_changed : StoredRun → RunState → String → Action (Unit {0})
append_state_changed previous next reason = do
  append_event (change_event previous next reason).step_id
      (change_event previous next reason).details
  notify_attention_state previous next reason

-- `requireManualAction`.
unfoldable pub require_manual_action : StoredRun → ManualAction → Action (Unit {0})
require_manual_action stored action =
    require (is_manual_action_allowed stored.state.status action) Failure.invalid_status

-- `currentStep`.
unfoldable pub current_step : StoredRun → Action ResolvedStep
current_step stored =
    present
      (resolve_current_step stored.work_plan stored.state.current_step_id
        stored.state.current_step_ordinal)
      Failure.current_step_missing

-- An operation of the store on the parallel tables, which is rolled back when it throws.
abbrev from_store : {A : Type 0} → World → Result (A × Db) → Outcome A × World
from_store w (ok (a, db)) = (value a, record w { tables = db })
from_store w (err e) = (thrown (Failure.store e), w)

unfoldable pub on_tables : {A : Type 0} → (Db → Result (A × Db)) → Action A
on_tables operation w = from_store w (operation w.tables)
