-- ===== src/Controller/Invariant/Prompt.antt =====
-- services/protocol-runner-api/src/controller.ts: sending a prompt keeps a run consistent, whatever
-- runs between the call of the adapter and its answer.
use protocol_runner.Common.{
  ℕ, suc, String, Bool, true, false, Option, none, some, List, [], ◌∷◌, ◌≡◌, refl, sym, subst, ◌∙◌,
  ap, inl, inr, any, not,
}
use protocol_runner.Core.Types.{
  RunStep, ResolvedStep, SerialRunStep, BindingMetadata, WorkPlan, dispatching_prompt, step_id,
  is_serial_step,
}
use protocol_runner.Core.Steps.{resolve_step, resolve_current_step}
use protocol_runner.Core.Steps.Laws.{resolve_step-by_ordinal}
use protocol_runner.Store.Invariant.{IsSound}
use protocol_runner.Controller.{World, StoredRun, Details, Dispatch, RunFile, Failure}
use protocol_runner.Controller.Action.{
  Action, return, ◌>>=◌, ◌>>◌, require, when, current_step, append_event, stamped,
}
use protocol_runner.Controller.Files.{write_once, same_file, next_file_attempt_number}
use protocol_runner.Controller.Transition.{block_run}
use protocol_runner.Controller.Prompt.{
  SendContext, require_serial_desktop_binding, dispatch, begin_send, add_dispatch, dispatching,
  send_unless,
}
use protocol_runner.Controller.Invariant.{
  IsConsistent, IsGoodRun, IsCurrent, IsSerialId, holds_send, Keeps,
}
use protocol_runner.Controller.Invariant.Steps.{Keeps-require, Keeps-present, is_plain}
use protocol_runner.Controller.Invariant.Change.{
  Keeps-update, Keeps-update_on, Keeps-log, Keeps-time, replay_plain,
}
use protocol_runner.Controller.Invariant.Reads.{IsRead, Keeps-read, require-IsRead}

-- The current step is found by its own id.
pub IsCurrent-step_id :
    (plan : WorkPlan) (current : Option String) (ordinal : Option ℕ) (step : ResolvedStep)
    → IsCurrent plan current
    → resolve_current_step plan current ordinal ≡ some step
    → (current ≡ some (step_id step.step)) × (resolve_step plan (step_id step.step) ≡ some step)
unfolding resolve_current_step
IsCurrent-step_id plan current ordinal step (id, other, e, found) h =
    let here : resolve_step plan id ≡ some step =
      subst (λ c. resolve_current_step plan c ordinal ≡ some step) e h in
    let named : step_id step.step ≡ id = (resolve_step-by_ordinal plan id here).0 in
    (e ∙ ap some (sym named), subst (λ i. resolve_step plan i ≡ some step) (sym named) here)

pub is_serial_step-serial :
    (s : RunStep) → is_serial_step s ≡ true → (t : SerialRunStep) × (s ≡ RunStep.serial t)
is_serial_step-serial (RunStep.serial t) h = (t, refl)
is_serial_step-serial (RunStep.parallel_group g) h = absurd (cc)

-- Blocking a run that has no prompt on its way.
pub block_run-Keeps :
    (r : StoredRun) (reason : String) (w : World)
    → IsGoodRun r w.sending w.events
    → IsSound w.tables
    → w.sending ≡ []
    → Keeps (block_run r reason (record w { stored = some r }))
unfolding block_run
block_run-Keeps r reason w g s empty =
    Keeps-log r r.state.current_step_id (Details.diagnostic reason) _ w (
      Keeps-update r "blocked" _
        (record w {
          events =
              record { step_id = r.state.current_step_id; details = Details.diagnostic reason }
              ∷ w.events;
        })
        g.distinct
        (record {
          current_step = g.placed.current_step;
          explained = (reason, refl);
          awaited = tt;
          sent = inl empty;
        })
        (replay_plain r.state.current_step_id (Details.diagnostic reason) w.events refl g.logged) s)

-- Writing a file.
pub Keeps-write :
    {A : Type 0} (f : RunFile) (k : Action A) (w : World)
    → IsConsistent w
    → ((fs : List RunFile) → Keeps (k (record w { files = fs })))
    → Keeps ((write_once f >> k) w)
unfolding ◌>>=◌ write_once require
Keeps-write f k w c h = cases (any (same_file f) w.files)
  where
    cases :
        (b : Bool)
        → Keeps (
            ((λ u.
                  (require (not b) Failure.file_exists
                      >> (λ v. return tt (record v { files = f ∷ v.files })))
                    u)
                >> k)
              w)
    cases true = c
    cases false = h (f ∷ w.files)

Keeps-when_write :
    {A : Type 0} (b : Bool) (f : RunFile) (k : Action A) (w : World)
    → IsConsistent w
    → ((fs : List RunFile) → Keeps (k (record w { files = fs })))
    → Keeps ((when b (write_once f) >> k) w)
unfolding ◌>>=◌ when
Keeps-when_write true f k w c h = Keeps-write f k w c h
Keeps-when_write false f k w c h = h w.files

require_serial_desktop_binding-IsRead :
    (b : BindingMetadata) → IsRead (require_serial_desktop_binding b)
unfolding require_serial_desktop_binding
require_serial_desktop_binding-IsRead b = require-IsRead _ _

-- The files are written, and the prompt is on its way.
send_off-Keeps :
    (d : Dispatch) (r : StoredRun) (b : Bool) (f f' : RunFile) (step : Option String) (op : Details)
    (w : World)
    → is_plain op ≡ true
    → IsGoodRun r w.sending w.events
    → IsSound w.tables
    → w.sending ≡ []
    → r.state.current_step_id ≡ some d.step_id
    → IsSerialId r.work_plan d.step_id
    → r.state.status ≡ dispatching_prompt
    → Keeps (
        (when b (write_once f) >> (write_once f' >> (append_event step op >> add_dispatch d)))
          (record w { stored = some r }))
send_off-Keeps d r b f f' step op w plain g s empty current serial_id at =
    Keeps-when_write b f _ (record w { stored = some r }) (g, s)
      (λ fs.
        Keeps-write f' _ (record w { stored = some r; files = fs }) (g, s)
          (λ fs'.
            Keeps-log r step op _ (record w { files = fs' })
              (
                record {
                  distinct = g.distinct;
                  placed = record {
                    current_step = g.placed.current_step;
                    explained = g.placed.explained;
                    awaited = g.placed.awaited;
                    sent = inr (d, ap (λ ds. d ∷ ds) empty, current, serial_id, ap holds_send at);
                  };
                  logged = replay_plain step op w.events plain g.logged;
                },
                s,
              )))

pub dispatch-Keeps :
    (context : SendContext) (r : StoredRun) (operation : String) (w : World)
    → IsGoodRun r w.sending w.events
    → IsSound w.tables
    → w.sending ≡ []
    → Keeps (dispatch context r operation (record w { stored = some r }))
unfolding dispatch current_step
dispatch-Keeps context r operation w g s empty =
    let here : World = record w { stored = some r } in
    Keeps-present _ _ _ here (g, s)
      (λ step resolved.
        let (current, found) =
          IsCurrent-step_id r.work_plan r.state.current_step_id r.state.current_step_ordinal step
            g.placed.current_step resolved in
        Keeps-require (is_serial_step step.step) _ _ here (g, s)
          (λ is_serial.
            Keeps-present _ _ _ here (g, s)
              (λ binding bound_to.
                Keeps-read _ _ here (require_serial_desktop_binding-IsRead binding) (g, s)
                  (λ done fine.
                    Keeps-read (λ v. return (next_file_attempt_number step v) v) _ here (λ v. refl)
                      (g, s)
                      (λ attempt numbered. Keeps-time _ here (
                        Keeps-update_on r operation _ (dispatching (w.clock w.readings))
                          (some (step_id step.step)) (Details.manual_action operation)
                          (record w { readings = suc w.readings }) refl g.logged
                          (λ es ns e.
                            let (t, is_t) = is_serial_step-serial step.step is_serial in
                            send_off-Keeps _
                              (record r {
                                state =
                                    stamped (dispatching (w.clock w.readings) r.state)
                                      (w.clock (suc w.readings));
                              })
                              _ _ _ _ (Details.prompt_rendered operation attempt)
                              (record w {
                                events = es;
                                notifications = ns;
                                readings = suc (suc w.readings);
                              })
                              refl
                              (record {
                                distinct = g.distinct;
                                placed = record {
                                  current_step = g.placed.current_step;
                                  explained = refl;
                                  awaited = tt;
                                  sent = inl empty;
                                };
                                logged = e;
                              })
                              s empty current (step, t, found, is_t) refl)))))))

pub begin_send-Keeps :
    (context : SendContext) (r : StoredRun) (operation : String) (w : World)
    → IsGoodRun r w.sending w.events
    → IsSound w.tables
    → w.sending ≡ []
    → Keeps (begin_send context r operation (record w { stored = some r }))
unfolding begin_send
begin_send-Keeps context r operation w g s empty =
    Keeps-present r.state.thread_binding _ _ (record w { stored = some r }) (g, s)
      (λ binding bound_to. cases context.contract_issues)
  where
    cases :
        (o : Option String)
        → Keeps (send_unless context r operation o (record w { stored = some r }))
    cases none = dispatch-Keeps context r operation w g s empty
    cases (some summary) = block_run-Keeps r _ w g s empty
