-- ===== src/Controller/Invariant/Answer.antt =====
-- services/protocol-runner-api/src/controller.ts: the answer of the desktop adapter keeps a run
-- consistent.
use mathlib.Core.Logic.{ite}
use protocol_runner.Common.{
  ℕ, zero, suc, Bool, true, false, Option, none, some, List, [], ◌∷◌, ◌≡◌, refl, sym, subst, ◌∙◌,
  ap, inl, inr, arith,
}
use protocol_runner.Core.Types.{RunStatus-discrete, dispatching_prompt}
use protocol_runner.Store.Invariant.{IsSound}
use protocol_runner.Controller.{World, StoredRun, Details, Dispatch, PromptSendResult, Failure}
use protocol_runner.Controller.Action.{Action, return, ◌>>=◌, ◌>>◌, present, append_event, load_run}
use protocol_runner.Controller.Prompt.{
  pick, apply_send_result, finish_send, should_await_start_report,
}
use protocol_runner.Controller.Invariant.{
  IsConsistent, IsGoodRun, IsGoodWhen, IsSent, IsExplained, Keeps,
}
use protocol_runner.Controller.Invariant.Steps.{Keeps-present, Keeps-event, Keeps-reload}
use protocol_runner.Controller.Invariant.Change.{Keeps-update, Keeps-log, Keeps-time, replay_plain}

pick-none : (i : ℕ) (ds : List Dispatch) → ds ≡ [] → pick i ds ≡ none
unfolding pick
pick-none i [] h = refl
pick-none i (x ∷ ds) h = absurd (cc)

-- Of the prompts on their way, of which there is at most one, the only one is taken.
pick-only :
    (i : ℕ) (ds : List Dispatch) (d e : Dispatch) (rest : List Dispatch)
    → ds ≡ d ∷ []
    → pick i ds ≡ some (e, rest)
    → (e ≡ d) × (rest ≡ [])
unfolding pick
pick-only i [] d e rest h p = absurd (cc)
pick-only zero (x ∷ ds) d e rest h p = (cc, cc)
pick-only (suc i) (x ∷ ds) d e rest h p = absurd (ground (arith, pick-none i ds (cc)))

-- The answer to the only prompt that was on its way.
apply_send_result-Keeps :
    (d : Dispatch) (result : PromptSendResult) (r : StoredRun) (b : Bool) (w : World)
    → IsGoodRun r w.sending w.events
    → IsSound w.tables
    → w.sending ≡ []
    → r.state.current_step_id ≡ some d.step_id
    → r.state.status ≡ dispatching_prompt
    → Keeps (apply_send_result d result r b (record w { stored = some r }))
unfolding apply_send_result
apply_send_result-Keeps d result r false w g s empty current at =
    Keeps-update r "prompt send blocked" _ w g.distinct
      (record {
        current_step = g.placed.current_step;
        explained = (_, refl);
        awaited = tt;
        sent = inl empty;
      })
      g.logged s
apply_send_result-Keeps d result r true w g s empty current at =
    Keeps-time _ (record w { stored = some r })
      (Keeps-update r "prompt sent; waiting for start report" _
        (record w { readings = suc w.readings }) g.distinct
        (record {
          current_step = g.placed.current_step;
          explained = subst (λ st. IsExplained st r.state.blocked_reason) at g.placed.explained;
          awaited = (_, refl, refl, current);
          sent = inl empty;
        })
        g.logged s)

-- Taking a prompt out, step by step.
picked-Keeps :
    {A : Type 0} (i : ℕ) (k : Dispatch × List Dispatch → Action A) (w : World)
    → Keeps ((present (pick i w.sending) Failure.prompt_attempt_missing >>= k) w)
    → Keeps (((λ v. present (pick i v.sending) Failure.prompt_attempt_missing v) >>= k) w)
unfolding ◌>>=◌
picked-Keeps i k w h = h

left-Keeps :
    {A : Type 0} (ds : List Dispatch) (k : Action A) (w : World)
    → Keeps (k (record w { sending = ds }))
    → Keeps (((λ v. return tt (record v { sending = ds })) >> k) w)
unfolding ◌>>=◌
left-Keeps ds k w h = h

Keeps-ite :
    {P : Type 0} (d : Dec P) (m n : Action (Unit {0})) (w : World)
    → (P → Keeps (m w))
    → Keeps (n w)
    → Keeps (ite d m n w)
Keeps-ite (yes p) m n w f g = f p
Keeps-ite (no q) m n w f g = g

-- What follows the answer, once its prompt is taken out.
abbrev after_answer : Dispatch → PromptSendResult → Action (Unit {0})
after_answer d result =
    append_event (some d.step_id) (Details.prompt_sent d.operation d.attempt result)
    >> (load_run >>= (λ latest.
        ite (RunStatus-discrete latest.state.status dispatching_prompt)
          (apply_send_result d result latest (should_await_start_report result))
          (append_event (some d.step_id) (Details.diagnostic "prompt_send_result_not_applied"))))

after_answer-Keeps :
    (d : Dispatch) (result : PromptSendResult) (r : StoredRun) (w : World)
    → IsGoodRun r w.sending w.events
    → IsSound w.tables
    → w.sending ≡ []
    → r.state.current_step_id ≡ some d.step_id
    → Keeps (after_answer d result (record w { stored = some r }))
after_answer-Keeps d result r w g s empty current =
    let sent = Details.prompt_sent d.operation d.attempt result in
    let v = record w { events = record { step_id = some d.step_id; details = sent } ∷ w.events } in
    let g' : IsGoodRun r v.sending v.events = record {
      distinct = g.distinct;
      placed = g.placed;
      logged = replay_plain (some d.step_id) sent w.events refl g.logged;
    } in
    Keeps-log r (some d.step_id) sent _ w (
      Keeps-reload r _ v g.placed.current_step (
        Keeps-ite (RunStatus-discrete r.state.status dispatching_prompt) _ _
          (record v { stored = some r })
          (λ at.
            apply_send_result-Keeps d result r (should_await_start_report result) v g' s empty
              current at)
          (Keeps-event (some d.step_id) (Details.diagnostic "prompt_send_result_not_applied")
            (record v { stored = some r }) refl (g', s))))

-- A run that is gone takes no answer.
gone-Keeps :
    (d : Dispatch) (result : PromptSendResult) (w : World)
    → IsSound w.tables
    → Keeps (after_answer d result (record w { stored = none }))
unfolding ◌>>=◌ append_event
gone-Keeps d result w s = (tt, s)

pub finish_send-Keeps :
    (i : ℕ) (result : PromptSendResult) (w : World)
    → IsConsistent w
    → Keeps (finish_send i result w)
unfolding finish_send RunStatus-discrete
finish_send-Keeps i result w (good, sound) = cases w.stored good
  where
    taken :
        (r : StoredRun) (d : Dispatch) (rest : List Dispatch)
        → IsGoodRun r w.sending w.events
        → pick i w.sending ≡ some (d, rest)
        → IsSent r.work_plan r.state.status r.state.current_step_id w.sending
        → Keeps (after_answer d result (record w { stored = some r; sending = rest }))
    taken r d rest g found (inl empty) = absurd (ground (arith, pick-none i w.sending empty))
    taken r d rest g found (inr (e, only, current, serial, held)) =
        let (same, none_left) = pick-only i w.sending e d rest only found in
        after_answer-Keeps d result r (record w { sending = rest })
          (record {
            distinct = g.distinct;
            placed = record {
              current_step = g.placed.current_step;
              explained = g.placed.explained;
              awaited = g.placed.awaited;
              sent = inl none_left;
            };
            logged = g.logged;
          })
          sound none_left (current ∙ ap (λ x. some x.step_id) (sym same))

    cases :
        (o : Option StoredRun)
        → IsGoodWhen o w
        → Keeps (finish_send i result (record w { stored = o }))
    cases none g =
        picked-Keeps i _ (record w { stored = none })
          (Keeps-present (pick i w.sending) _ _ (record w { stored = none }) (tt, sound)
            (λ (d, rest) found.
              left-Keeps rest _ (record w { stored = none })
                (gone-Keeps d result (record w { sending = rest }) sound)))
    cases (some r) g =
        picked-Keeps i _ (record w { stored = some r })
          (Keeps-present (pick i w.sending) _ _ (record w { stored = some r }) (g, sound)
            (λ (d, rest) found.
              left-Keeps rest _ (record w { stored = some r })
                (taken r d rest g found g.placed.sent)))
