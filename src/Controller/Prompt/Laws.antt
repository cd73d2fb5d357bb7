-- ===== src/Controller/Prompt/Laws.antt =====
-- services/protocol-runner-api/src/controller.ts: an answer that comes too late.
use mathlib.Core.Logic.{ite}
use protocol_runner.Common.{ℕ, true, some, List, ◌∷◌, ◌≡◌, ◌≢◌, refl, ◌∙◌, ap}
use protocol_runner.Core.Types.{RunStatus-discrete, dispatching_prompt}
use protocol_runner.Controller.{World, StoredRun, Dispatch, PromptSendResult, Details, Failure}
use protocol_runner.Controller.Action.{◌>>=◌, present, load_run, names_step, append_event}
use protocol_runner.Controller.Runs.{bind_runs, present_runs, load_run_runs}
use protocol_runner.Controller.Prompt.{
  pick, finish_send, apply_send_result, should_await_start_report,
}

ite-not {ℓ κ} : {P : Type ℓ} {A : Type κ} (d : Dec P) (a b : A) → ¬ P → ite d a b ≡ b
ite-not (yes p) a b n = absurd (n p)
ite-not (no q) a b n = refl

-- The answer of the desktop adapter that comes when the run is no longer in `dispatching_prompt`, since
-- it failed or was closed meanwhile, changes nothing of the run: it is only logged.
pub finish_send-late :
    (i : ℕ) (result : PromptSendResult) (r : StoredRun) (d : Dispatch) (rest : List Dispatch)
    (w : World)
    → names_step r ≡ true
    → pick i w.sending ≡ some (d, rest)
    → r.state.status ≢ dispatching_prompt
    → (finish_send i result (record w { stored = some r })).1.stored ≡ some r
unfolding finish_send ◌>>=◌ append_event
finish_send-late i result r d rest w named taken late =
    let here : World = record w { stored = some r } in
    let v : World = record here {
      sending = rest;
      events =
          record {
            step_id = some d.step_id;
            details = Details.prompt_sent d.operation d.attempt result;
          }
          ∷ w.events;
    } in
    ap (λ o. o.1.stored)
      (bind_runs (λ u. present (pick i u.sending) Failure.prompt_attempt_missing u) _ here
        (present_runs (pick i w.sending) Failure.prompt_attempt_missing here taken))
    ∙ ap (λ o. o.1.stored) (bind_runs load_run _ v (load_run_runs r v named))
    ∙ ap (λ m. (m v).1.stored)
        (ite-not (RunStatus-discrete r.state.status dispatching_prompt)
          (apply_send_result d result r (should_await_start_report result))
          (append_event (some d.step_id) (Details.diagnostic "prompt_send_result_not_applied"))
          late)
