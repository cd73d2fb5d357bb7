-- ===== src/Controller/Runs.antt =====
-- services/protocol-runner-api/src/controller.ts: the steps of calls that are known to return.
use protocol_runner.Common.{
  String, Bool, true, false, Option, none, some, ◌∷◌, any, not, if◌then◌else◌, ◌≡◌, refl, ap, suc,
}
use protocol_runner.Core.Types.{RunState, RunStatus}
use protocol_runner.Controller.{World, StoredRun, RunFile, Failure, Outcome, value}
use protocol_runner.Controller.Files.{write_once, same_file}
use protocol_runner.Controller.Action.{
  Action, next_step, ◌>>=◌, ◌>>◌, require, present, when, load_run, names_step, append_event,
  write_state, update_stored_state, current_time, stamped, append_state_changed, is_change,
  change_event, notify_attention_state, request_notification, needs_notice,
}

pub bind_runs :
    {A B : Type 0} (m : Action A) (k : A → Action B) (w : World) {a : A} {v : World}
    → m w ≡ (value a, v)
    → (m >>= k) w ≡ k a v
unfolding ◌>>=◌
bind_runs m k w e = ap (next_step k) e

pub present_runs :
    {A : Type 0} (o : Option A) (f : Failure) (w : World) {a : A}
    → o ≡ some a
    → present o f w ≡ (value a, w)
unfolding present
present_runs o f w e = ap (λ x. present x f w) e

pub require_runs :
    {A : Type 0} (b : Bool) (f : Failure) (k : Action A) (w : World)
    → b ≡ true
    → (require b f >> k) w ≡ k w
unfolding ◌>>=◌ require
require_runs b f k w e = ap (λ x. (require x f >> k) w) e

pub load_run_runs :
    (r : StoredRun) (w : World)
    → names_step r ≡ true
    → load_run (record w { stored = some r }) ≡ (value r, record w { stored = some r })
unfolding load_run ◌>>=◌ present
load_run_runs r w named =
    require_runs (names_step r) Failure.step_missing _ (record w { stored = some r }) named

-- The event of a change leaves the run as it was written, and returns.
changed_stored :
    (a b : Bool) (previous : StoredRun) (next : RunState) (reason : String) (w : World)
    (r : StoredRun)
    → (when a
        (when b (request_notification previous next reason))
        (record w { stored = some r })).1.stored
      ≡ some r
unfolding when request_notification append_event
changed_stored true true previous next reason w r = refl
changed_stored true false previous next reason w r = refl
changed_stored false b previous next reason w r = refl

-- What is stored after a state was written and its change logged.
pub update_stored :
    (r : StoredRun) (patch : RunState → RunState) (reason : String) (w : World)
    → ((update_stored_state r patch >>= (λ next. append_state_changed r next reason))
        (record w { stored = some r })).1.stored
      ≡ some (record r { state = stamped (patch r.state) (w.clock w.readings) })
unfolding ◌>>=◌ update_stored_state current_time write_state append_state_changed append_event
    notify_attention_state
update_stored r patch reason w =
    let next = stamped (patch r.state) (w.clock w.readings) in
    changed_stored (is_change r next) (needs_notice next.status) r next reason
      (record w { readings = suc w.readings; events = change_event r next reason ∷ w.events })
      (record r { state = next })

pub write_runs :
    (f : RunFile) (w : World)
    → any (same_file f) w.files ≡ false
    → write_once f w ≡ (value tt, record w { files = f ∷ w.files })
unfolding write_once ◌>>=◌ require
write_runs f w new =
    require_runs (not (any (same_file f) w.files)) Failure.file_exists _ w (ap not new)

-- The status that is stored after a call.
abbrev pub status_of : Option StoredRun → Option RunStatus
status_of none = none
status_of (some r) = some r.state.status

abbrev pub status_after : {A : Type 0} → Outcome A × World → Option RunStatus
status_after o = status_of o.1.stored

pub if_true {ℓ} : {A : Type ℓ} (b : Bool) (x y : A) → b ≡ true → (if b then x else y) ≡ x
if_true b x y e = ap (λ c. if c then x else y) e

pub if_false {ℓ} : {A : Type ℓ} (b : Bool) (x y : A) → b ≡ false → (if b then x else y) ≡ y
if_false b x y e = ap (λ c. if c then x else y) e
