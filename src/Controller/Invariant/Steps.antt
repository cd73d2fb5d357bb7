-- ===== src/Controller/Invariant/Steps.antt =====
-- services/protocol-runner-api/src/controller.ts: the steps that calls are made of keep a state
-- consistent.
use protocol_runner.Common.{
  String, Bool, true, false, Option, none, some, List, [], ◌∷◌, ◌≡◌, refl, any, Bool-cases, inl,
  inr, ◌==◌, ◌∙◌, arith,
}
use protocol_runner.Core.Types.{RunStatus, RunStep, step_id}
use protocol_runner.Core.Steps.{resolve_step, find_index}
use protocol_runner.Store.Error.{Result, ok, err}
use protocol_runner.Store.Tables.{Db}
use protocol_runner.Store.Invariant.{IsSound}
use protocol_runner.Controller.{World, StoredRun, Details, Failure, Outcome, thrown, value}
use protocol_runner.Controller.Action.{
  Action, next_step, when, ◌>>=◌, ◌>>◌, require, present, load_run, names_step, append_event,
  on_tables,
}
use protocol_runner.Controller.Replay.{replay, follow}
use protocol_runner.Controller.Invariant.{IsConsistent, IsGoodRun, IsGoodWhen, IsCurrent, Keeps}

any-find_index :
    (id : String) (ss : List RunStep)
    → any (λ s. step_id s == id) ss ≡ false
    → find_index (λ s. step_id s == id) ss ≡ none
any-find_index id [] h = refl
any-find_index id (s ∷ ss) h = ground (arith, any-find_index id ss)

-- A run whose current step resolves can be loaded.
pub IsCurrent-names_step :
    (r : StoredRun) → IsCurrent r.work_plan r.state.current_step_id → names_step r ≡ true
unfolding names_step resolve_step
IsCurrent-names_step r (id, step, e, found) =
    elim (Bool-cases (any (λ s. step_id s == id) r.work_plan.steps)) [
      | inl yes_there ↦ rw (e, yes_there)
      | inr missing ↦ absurd (ground (arith, any-find_index id r.work_plan.steps missing))
    ]

pub Keeps-require :
    {A : Type 0} (b : Bool) (f : Failure) (k : Action A) (w : World)
    → IsConsistent w
    → (b ≡ true → Keeps (k w))
    → Keeps ((require b f >> k) w)
unfolding ◌>>=◌ require
Keeps-require true f k w c h = h refl
Keeps-require false f k w c h = c

pub Keeps-when :
    (b : Bool) (m : Action (Unit {0})) (w : World)
    → IsConsistent w
    → Keeps (m w)
    → Keeps (when b m w)
unfolding when
Keeps-when true m w c h = h
Keeps-when false m w c h = c

module _ {A B : Type 0} where
  pub Keeps-present :
      (o : Option B) (f : Failure) (k : B → Action A) (w : World)
      → IsConsistent w
      → ((b : B) → o ≡ some b → Keeps (k b w))
      → Keeps ((present o f >>= k) w)
  unfolding ◌>>=◌ present
  Keeps-present (some b) f k w c h = h b refl
  Keeps-present none f k w c h = c

  pub Keeps-on_tables :
      (operation : Db → Result (B × Db)) (k : B → Action A) (w : World)
      → IsConsistent w
      → ((b : B) (db : Db)
          → operation w.tables ≡ ok (b, db)
          → Keeps (k b (record w { tables = db })))
      → Keeps ((on_tables operation >>= k) w)
  unfolding ◌>>=◌ on_tables
  Keeps-on_tables operation k w c h = cases (operation w.tables) refl
    where
      cases : (o : Result (B × Db)) → operation w.tables ≡ o → Keeps ((on_tables (λ db. o) >>= k) w)
      cases (ok (b, db)) e = h b db e
      cases (err t) e = c

module _ {A : Type 0} where
  load_known :
      (b : Bool) (r : StoredRun) (k : StoredRun → Action A) (w : World)
      → b ≡ true
      → Keeps (k r w)
      → Keeps (next_step k ((require b Failure.step_missing >> (λ v. (value r, v))) w))
  unfolding ◌>>=◌ require
  load_known true r k w e h = h
  load_known false r k w e h = absurd (cc)

  -- Loading a run that was loaded before.
  pub Keeps-reload :
      (r : StoredRun) (k : StoredRun → Action A) (w : World)
      → IsCurrent r.work_plan r.state.current_step_id
      → Keeps (k r (record w { stored = some r }))
      → Keeps ((load_run >>= k) (record w { stored = some r }))
  unfolding ◌>>=◌ load_run present require next_step
  Keeps-reload r k w current h =
      load_known (names_step r) r k (record w { stored = some r }) (IsCurrent-names_step r current)
        h

  pub Keeps-load :
      (k : StoredRun → Action A) (w : World)
      → IsConsistent w
      → ((r : StoredRun)
          → IsGoodRun r w.sending w.events
          → IsSound w.tables
          → Keeps (k r (record w { stored = some r })))
      → Keeps ((load_run >>= k) w)
  unfolding ◌>>=◌ load_run present require next_step
  Keeps-load k w (good, sound) h = cases w.stored good
    where
      cases :
          (o : Option StoredRun)
          → IsGoodWhen o w
          → Keeps ((load_run >>= k) (record w { stored = o }))
      cases none g = (tt, sound)
      cases (some r) g = Keeps-reload r k w g.placed.current_step (h r g sound)

-- An event that changes no status.
abbrev pub is_plain : Details → Bool
is_plain (Details.state_changed from_status to_status reason blocked_reason) = false
is_plain _ = true

pub follow_plain : (d : Details) (s : Option RunStatus) → is_plain d ≡ true → follow d s ≡ s
unfolding follow
follow_plain d s h = ground arith

pub Keeps-event :
    (step : Option String) (d : Details) (w : World)
    → is_plain d ≡ true
    → IsConsistent w
    → Keeps (append_event step d w)
unfolding append_event replay
Keeps-event step d w plain (good, sound) = cases w.stored good
  where
    cases :
        (o : Option StoredRun)
        → IsGoodWhen o w
        → Keeps (append_event step d (record w { stored = o }))
    cases none g = (tt, sound)
    cases (some r) g = (
      record {
        distinct = g.distinct;
        placed = g.placed;
        logged = follow_plain d (replay w.events) plain ∙ g.logged;
      },
      sound,
    )

-- What follows a step that keeps the state consistent.
pub Keeps-bind :
    {A B : Type 0} (m : Action A) (k : A → Action B) (w : World)
    → Keeps (m w)
    → ((a : A) (v : World) → m w ≡ (value a, v) → IsConsistent v → Keeps (k a v))
    → Keeps ((m >>= k) w)
unfolding ◌>>=◌
Keeps-bind {A} m k w c h = cases (m w) refl c
  where
    cases : (o : Outcome A × World) → m w ≡ o → Keeps o → Keeps (next_step k o)
    cases (value a, v) e d = h a v e d
    cases (thrown f, v) e d = d
