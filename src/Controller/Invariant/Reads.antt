-- ===== src/Controller/Invariant/Reads.antt =====
-- services/protocol-runner-api/src/controller.ts: checks of a request and lookups, which change
-- nothing.
use protocol_runner.Common.{
  String, Bool, true, false, Option, none, some, ◌≡◌, refl, ◌∙◌, subst, sym, ap,
}
use protocol_runner.Core.Types.{WorkPlan, RunStep}
use protocol_runner.Store.Error.{Result, ok, err}
use protocol_runner.Store.Rows.{GroupRow}
use protocol_runner.Store.Tables.{load_group}
use protocol_runner.Controller.{World, StoredRun, Failure, Outcome, thrown, value}
use protocol_runner.Controller.Action.{
  Action, next_step, ◌>>=◌, ◌>>◌, require, present, current_step,
}
use protocol_runner.Controller.Manual.{
  BindRequest, require_string, optional_string, normalize_bind_run_request,
}
use protocol_runner.Controller.Parallel.{
  the_group, loaded, current_parallel_step, get_parallel_group,
}
use protocol_runner.Controller.Results.{AttemptResultRequest, normalize_parallel_attempt_result}
use protocol_runner.Controller.Invariant.{IsConsistent, Keeps}

-- The action leaves the state as it is, whether it returns or throws.
abbrev pub IsRead : {A : Type 0} → Action A → Type 0
IsRead m = (w : World) → (m w).1 ≡ w

module _ {A B : Type 0} where
  pub bind-IsRead :
      (m : Action A) (k : A → Action B) → IsRead m → ((a : A) → IsRead (k a)) → IsRead (m >>= k)
  unfolding ◌>>=◌
  bind-IsRead m k h f w = cases (m w) (h w)
    where
      cases : (o : Outcome A × World) → o.1 ≡ w → (next_step k o).1 ≡ w
      cases (value a, v) e = f a v ∙ e
      cases (thrown t, v) e = e

  -- What follows a read goes on in the same state.
  pub Keeps-read :
      (m : Action A) (k : A → Action B) (w : World)
      → IsRead m
      → IsConsistent w
      → ((a : A) → m w ≡ (value a, w) → Keeps (k a w))
      → Keeps ((m >>= k) w)
  unfolding ◌>>=◌
  Keeps-read m k w h c f = cases (m w) refl (h w)
    where
      cases : (o : Outcome A × World) → m w ≡ o → o.1 ≡ w → Keeps (next_step k o)
      cases (value a, v) e same =
          subst (λ u. Keeps (k a u)) (sym same) (f a (e ∙ ap (λ u. (value a, u)) same))
      cases (thrown t, v) e same = subst IsConsistent (sym same) c

pub require-IsRead : (b : Bool) (f : Failure) → IsRead (require b f)
unfolding require
require-IsRead true f w = refl
require-IsRead false f w = refl

pub present-IsRead : {A : Type 0} (o : Option A) (f : Failure) → IsRead (present o f)
unfolding present
present-IsRead (some a) f w = refl
present-IsRead none f w = refl

-- A check before a read.
pub checked :
    {A : Type 0} (b : Bool) (f : Failure) (k : Action A) → IsRead k → IsRead (require b f >> k)
checked b f k h = bind-IsRead (require b f) (λ done. k) (require-IsRead b f) (λ done. h)

pub require_string-IsRead : (s : String) → IsRead (require_string s)
unfolding require_string
require_string-IsRead s = checked _ _ _ (λ w. refl)

optional_string-IsRead : (s : Option String) → IsRead (optional_string s)
unfolding optional_string
optional_string-IsRead none = λ w. refl
optional_string-IsRead (some s) =
    bind-IsRead (require_string s) _ (require_string-IsRead s) (λ t w. refl)

pub normalize_bind_run_request-IsRead :
    (plan : WorkPlan) (input : BindRequest) → IsRead (normalize_bind_run_request plan input)
unfolding normalize_bind_run_request
normalize_bind_run_request-IsRead plan input = checked _ _ _ (
    bind-IsRead _ _ (optional_string-IsRead input.visible_thread_label)
      (λ label. checked _ _ _ (checked _ _ _ (λ w. refl))))

pub current_step-IsRead : (stored : StoredRun) → IsRead (current_step stored)
unfolding current_step
current_step-IsRead stored = present-IsRead _ _

the_group-IsRead : (group_id : String) (step : RunStep) → IsRead (the_group group_id step)
unfolding the_group
the_group-IsRead group_id (RunStep.serial s) = λ w. refl
the_group-IsRead group_id (RunStep.parallel_group g) = checked _ _ _ (λ w. refl)

loaded-IsRead : (o : Result GroupRow) → IsRead (loaded o)
loaded-IsRead (ok row) w = refl
loaded-IsRead (err e) w = refl

pub current_parallel_step-IsRead :
    (stored : StoredRun) (group_id : String) → IsRead (current_parallel_step stored group_id)
unfolding current_parallel_step
current_parallel_step-IsRead stored group_id =
    bind-IsRead (current_step stored) _ (current_step-IsRead stored)
      (λ resolved. the_group-IsRead group_id resolved.step)

pub get_parallel_group-IsRead : (group_id : String) → IsRead (get_parallel_group group_id)
unfolding get_parallel_group
get_parallel_group-IsRead group_id w = loaded-IsRead (load_group w.tables group_id) w

pub normalize_parallel_attempt_result-IsRead :
    (run group step attempt : String) (input : AttemptResultRequest)
    → IsRead (normalize_parallel_attempt_result run group step attempt input)
unfolding normalize_parallel_attempt_result
normalize_parallel_attempt_result-IsRead run group step attempt input =
    bind-IsRead _ _ (require_string-IsRead input.lease_id) (λ lease.
      bind-IsRead _ _ (require_string-IsRead _) (λ requested.
        checked _ _ _
          (bind-IsRead _ _ (require_string-IsRead input.launcher_status) (λ l w. refl))))
