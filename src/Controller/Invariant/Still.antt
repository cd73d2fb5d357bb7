-- ===== src/Controller/Invariant/Still.antt =====
-- services/protocol-runner-api/src/controller.ts: a preflight leaves the prompts on their way alone.
use protocol_runner.Common.{String, Bool, true, false, Option, none, some, ◌≡◌, refl, ◌∙◌, ap}
use protocol_runner.Core.Types.{RunState}
use protocol_runner.Store.Error.{Result, ok, err}
use protocol_runner.Store.Tables.{Db}
use protocol_runner.Store.Grant.{PreflightResult, record_parallel_preflight}
use protocol_runner.Controller.{World, StoredRun, Details, Failure, Outcome, thrown, value}
use protocol_runner.Controller.Action.{
  Action, next_step, ◌>>=◌, present, when, load_run, names_step, append_event, update_stored_state,
  write_state, current_time, append_state_changed, notify_attention_state, request_notification,
  is_change, needs_notice, on_tables,
}
use protocol_runner.Controller.Parallel.{
  preflight_parallel_group, current_parallel_step, get_parallel_group,
}
use protocol_runner.Controller.Invariant.Reads.{
  IsRead, present-IsRead, bind-IsRead, checked, current_parallel_step-IsRead,
  get_parallel_group-IsRead,
}

-- The action leaves the prompts on their way as they are.
abbrev pub IsStill : {A : Type 0} → Action A → Type 0
IsStill m = (w : World) → (m w).1.sending ≡ w.sending

bind-IsStill :
    {A B : Type 0} (m : Action A) (k : A → Action B)
    → IsStill m
    → ((a : A) → IsStill (k a))
    → IsStill (m >>= k)
unfolding ◌>>=◌
bind-IsStill {A} {B} m k h f w = cases (m w) (h w)
  where
    cases :
        (o : Outcome A × World) → o.1.sending ≡ w.sending → (next_step k o).1.sending ≡ w.sending
    cases (value a, v) e = f a v ∙ e
    cases (thrown t, v) e = e

read-IsStill : {A : Type 0} (m : Action A) → IsRead m → IsStill m
read-IsStill m h w = ap (λ v. v.sending) (h w)

load_run-IsStill : IsStill load_run
unfolding load_run
load_run-IsStill = read-IsStill {A = StoredRun} load_run (
    bind-IsRead (λ w. present w.stored Failure.run_missing w) _
      (λ w. present-IsRead w.stored Failure.run_missing w)
      (λ r. checked (names_step r) Failure.step_missing _ (λ w. refl)))

append_event-IsStill : (step : Option String) (d : Details) → IsStill (append_event step d)
unfolding append_event
append_event-IsStill step d w = cases w.stored
  where
    cases :
        (o : Option StoredRun)
        → (append_event step d (record w { stored = o })).1.sending ≡ w.sending
    cases none = refl
    cases (some r) = refl

write_state-IsStill : (s : RunState) → IsStill (write_state s)
unfolding write_state
write_state-IsStill s w = cases w.stored
  where
    cases : (o : Option StoredRun) → (write_state s (record w { stored = o })).1.sending ≡ w.sending
    cases none = refl
    cases (some r) = refl

update_stored_state-IsStill :
    (r : StoredRun) (patch : RunState → RunState) → IsStill (update_stored_state r patch)
unfolding update_stored_state current_time
update_stored_state-IsStill r patch =
    bind-IsStill _ _ (λ w. refl) (λ now. bind-IsStill _ _ (write_state-IsStill _) (λ done w. refl))

when-IsStill : (b : Bool) (m : Action (Unit {0})) → IsStill m → IsStill (when b m)
unfolding when
when-IsStill true m h = h
when-IsStill false m h = λ w. refl

append_state_changed-IsStill :
    (previous : StoredRun) (next : RunState) (reason : String)
    → IsStill (append_state_changed previous next reason)
unfolding append_state_changed notify_attention_state request_notification
append_state_changed-IsStill previous next reason =
    bind-IsStill _ _ (append_event-IsStill _ _) (λ done.
      when-IsStill (is_change previous next) _
        (when-IsStill (needs_notice next.status) _ (λ w. append_event-IsStill _ _ _)))

on_tables-IsStill : {A : Type 0} (operation : Db → Result (A × Db)) → IsStill (on_tables operation)
unfolding on_tables
on_tables-IsStill {A} operation w = cases (operation w.tables)
  where
    cases : (o : Result (A × Db)) → (on_tables (λ db. o) w).1.sending ≡ w.sending
    cases (ok (a, db)) = refl
    cases (err e) = refl

pub preflight_parallel_group-IsStill :
    (result : PreflightResult) (summary group : String)
    → IsStill (preflight_parallel_group result summary group)
unfolding preflight_parallel_group
preflight_parallel_group-IsStill result summary group = bind-IsStill _ _ load_run-IsStill (λ r.
    bind-IsStill _ _
      (read-IsStill (current_parallel_step r group) (current_parallel_step-IsRead r group))
      (λ step.
        bind-IsStill _ _ (read-IsStill (get_parallel_group group) (get_parallel_group-IsRead group))
          (λ row.
            bind-IsStill _ _
              (on_tables-IsStill (record_parallel_preflight r.run_instance_id group result))
              (λ recorded. bind-IsStill _ _ load_run-IsStill (λ prior.
                bind-IsStill _ _ (update_stored_state-IsStill prior _) (λ next.
                  bind-IsStill _ _ (append_event-IsStill _ _)
                    (λ done. append_state_changed-IsStill prior next _)))))))
