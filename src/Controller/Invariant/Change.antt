-- ===== src/Controller/Invariant/Change.antt =====
-- services/protocol-runner-api/src/controller.ts: a written state and the event of its change keep a run
-- consistent.
use protocol_runner.Common.{
  suc, String, Bool, true, false, Option, some, List, ◌∷◌, ◌≡◌, refl, sym, ap, ◌∙◌, arith,
}
use protocol_runner.Core.Types.{RunStatus, RunState}
use protocol_runner.Core.Steps.Laws.{HasDistinctIds}
use protocol_runner.Store.Invariant.{IsSound}
use protocol_runner.Controller.{World, StoredRun, Details, Dispatch, RunnerEvent, Notification}
use protocol_runner.Controller.Action.{
  Action, when, step_of, stamped, is_change, request_notification, change_event, ◌>>=◌, ◌>>◌,
  append_event, append_state_changed, notify_attention_state, update_stored_state, write_state,
  needs_notice, current_time,
}
use protocol_runner.Controller.Replay.{replay, follow}
use protocol_runner.Controller.Invariant.{IsConsistent, IsGoodRun, IsPlacedState, Keeps}
use protocol_runner.Controller.Invariant.Steps.{Keeps-bind, Keeps-when, follow_plain, is_plain}

pub Keeps-notify :
    (previous : StoredRun) (next : RunState) (reason : String) (w : World) (r : StoredRun)
    → IsConsistent (record w { stored = some r })
    → Keeps (notify_attention_state previous next reason (record w { stored = some r }))
unfolding append_event notify_attention_state request_notification replay follow
Keeps-notify previous next reason w r (g, sound) =
    let c : IsConsistent (record w { stored = some r }) = (g, sound) in
    Keeps-when (is_change previous next)
      (when (needs_notice next.status) (request_notification previous next reason))
      (record w { stored = some r }) c
      (Keeps-when (needs_notice next.status) (request_notification previous next reason)
        (record w { stored = some r }) c
        (record { distinct = g.distinct; placed = g.placed; logged = g.logged }, sound))

replay-changed :
    (from_status to_status : RunStatus) (reason : String) (blocked_reason : Option String)
    (es : List RunnerEvent) (step : Option String)
    → replay es ≡ some from_status
    → replay (
        record {
          step_id = step;
          details = Details.state_changed from_status to_status reason blocked_reason;
        }
        ∷ es)
      ≡ some to_status
unfolding replay follow
replay-changed from_status to_status reason blocked_reason es step h = rw h (ground arith)

-- A state is written, and the event of its change follows.
module _ (previous : StoredRun) (reason : String) where
  pub Keeps-changed :
      (next : RunState) (w : World) (r : StoredRun)
      → HasDistinctIds r.work_plan.steps
      → IsPlacedState r r.state w.sending
      → r.state.status ≡ next.status
      → replay w.events ≡ some previous.state.status
      → IsSound w.tables
      → Keeps (append_state_changed previous next reason (record w { stored = some r }))
  unfolding ◌>>=◌ append_state_changed append_event
  Keeps-changed next w r distinct placed same logged sound =
      Keeps-notify previous next reason
        (record w { events = change_event previous next reason ∷ w.events }) r
        (
          record {
            distinct = distinct;
            placed = placed;
            logged =
                replay-changed previous.state.status next.status reason next.blocked_reason w.events
                  (step_of next previous) logged
                ∙ ap some (sym same);
          },
          sound,
        )

  -- What a call ends with that changes the state: the write, an event or none, and the change's event.
  pub Keeps-update :
      (patch : RunState → RunState) (w : World)
      → HasDistinctIds previous.work_plan.steps
      → IsPlacedState previous (patch previous.state) w.sending
      → replay w.events ≡ some previous.state.status
      → IsSound w.tables
      → Keeps (
          (update_stored_state previous patch
              >>= (λ next. append_state_changed previous next reason))
            (record w { stored = some previous }))
  unfolding ◌>>=◌ update_stored_state write_state current_time
  Keeps-update patch w distinct placed logged sound =
      Keeps-changed (stamped (patch previous.state) (w.clock w.readings))
        (record w { readings = suc w.readings })
        (record previous { state = stamped (patch previous.state) (w.clock w.readings) }) distinct
        placed refl logged sound

  -- The same with an event of another kind before the change's.
  pub Keeps-update_event :
      (patch : RunState → RunState) (step : Option String) (d : Details) (w : World)
      → is_plain d ≡ true
      → HasDistinctIds previous.work_plan.steps
      → IsPlacedState previous (patch previous.state) w.sending
      → replay w.events ≡ some previous.state.status
      → IsSound w.tables
      → Keeps (
          (update_stored_state previous patch
              >>= (λ next. append_event step d >> append_state_changed previous next reason))
            (record w { stored = some previous }))
  unfolding ◌>>=◌ update_stored_state write_state current_time append_event replay
  Keeps-update_event patch step d w plain distinct placed logged sound =
      Keeps-changed (stamped (patch previous.state) (w.clock w.readings))
        (record w {
          readings = suc w.readings;
          events = record { step_id = step; details = d } ∷ w.events;
        })
        (record previous { state = stamped (patch previous.state) (w.clock w.readings) }) distinct
        placed refl (follow_plain d (replay w.events) plain ∙ logged) sound

  -- The same with more to do afterwards.
  pub Keeps-update_then :
      {A : Type 0} (patch : RunState → RunState) (step : Option String) (d : Details) (k : Action A)
      (w : World)
      → is_plain d ≡ true
      → HasDistinctIds previous.work_plan.steps
      → IsPlacedState previous (patch previous.state) w.sending
      → replay w.events ≡ some previous.state.status
      → IsSound w.tables
      → ((v : World) → IsConsistent v → Keeps (k v))
      → Keeps (
          (update_stored_state previous patch
              >>= (λ next. append_event step d >> (append_state_changed previous next reason >> k)))
            (record w { stored = some previous }))
  unfolding ◌>>=◌ update_stored_state write_state current_time append_event replay
  Keeps-update_then patch step d k w plain distinct placed logged sound h =
      let next = stamped (patch previous.state) (w.clock w.readings) in
      let written = record w {
        readings = suc w.readings;
        events = record { step_id = step; details = d } ∷ w.events;
      } in
      let after = record previous { state = next } in
      Keeps-bind (append_state_changed previous next reason) (λ done. k)
        (record written { stored = some after })
        (Keeps-changed next written after distinct placed refl
          (follow_plain d (replay w.events) plain ∙ logged) sound)
        (λ a v e c. h v c)

module _ {A : Type 0} (r : StoredRun) (step : Option String) (d : Details) (k : Action A) where
  -- What follows an event of a run that was loaded.
  pub Keeps-log :
      (w : World)
      → Keeps (
          k (record w {
            stored = some r;
            events = record { step_id = step; details = d } ∷ w.events;
          }))
      → Keeps ((append_event step d >> k) (record w { stored = some r }))
  unfolding ◌>>=◌ append_event
  Keeps-log w h = h

  pub Keeps-when_log :
      (b : Bool) (w : World)
      → Keeps (k (record w { stored = some r }))
      → Keeps (
          k (record w {
            stored = some r;
            events = record { step_id = step; details = d } ∷ w.events;
          }))
      → Keeps ((when b (append_event step d) >> k) (record w { stored = some r }))
  unfolding ◌>>=◌ append_event when
  Keeps-when_log true w h h' = h'
  Keeps-when_log false w h h' = h

pub replay_plain :
    (step : Option String) (d : Details) (es : List RunnerEvent) {st : RunStatus}
    → is_plain d ≡ true
    → replay es ≡ some st
    → replay (record { step_id = step; details = d } ∷ es) ≡ some st
unfolding replay
replay_plain step d es p h = follow_plain d (replay es) p ∙ h

-- Reading the clock.
pub Keeps-time :
    {A : Type 0} (k : String → Action A) (w : World)
    → Keeps (k (w.clock w.readings) (record w { readings = suc w.readings }))
    → Keeps ((current_time >>= k) w)
unfolding ◌>>=◌ current_time
Keeps-time k w h = h

-- What follows a change's event: only events and notifications were added.
module _ {A : Type 0} (previous : StoredRun) (reason : String) (k : Action A) where
  changed_cases :
      (a b : Bool) (next : RunState) (w : World) (r : StoredRun)
      → replay w.events ≡ some next.status
      → ((es : List RunnerEvent) (ns : List Notification)
          → replay es ≡ some next.status
          → Keeps (k (record w { stored = some r; events = es; notifications = ns })))
      → Keeps (
          (when a (when b (request_notification previous next reason)) >> k)
            (record w { stored = some r }))
  unfolding ◌>>=◌ when request_notification append_event replay follow
  changed_cases true true next w r e h = h _ _ e
  changed_cases true false next w r e h = h w.events w.notifications e
  changed_cases false b next w r e h = h w.events w.notifications e

  pub Keeps-changed_on :
      (next : RunState) (w : World) (r : StoredRun)
      → replay w.events ≡ some previous.state.status
      → ((es : List RunnerEvent) (ns : List Notification)
          → replay es ≡ some next.status
          → Keeps (k (record w { stored = some r; events = es; notifications = ns })))
      → Keeps ((append_state_changed previous next reason >> k) (record w { stored = some r }))
  unfolding ◌>>=◌ append_state_changed append_event notify_attention_state
  Keeps-changed_on next w r e h =
      changed_cases (is_change previous next) (needs_notice next.status) next
        (record w { events = change_event previous next reason ∷ w.events }) r
        (replay-changed previous.state.status next.status reason next.blocked_reason w.events
          (step_of next previous) e)
        h

  -- The same after the write and an event of another kind.
  pub Keeps-update_on :
      (patch : RunState → RunState) (step : Option String) (d : Details) (w : World)
      → is_plain d ≡ true
      → replay w.events ≡ some previous.state.status
      → ((es : List RunnerEvent) (ns : List Notification)
          → replay es ≡ some (patch previous.state).status
          → Keeps (
              k (record w {
                stored = some (record previous {
                  state = stamped (patch previous.state) (w.clock w.readings);
                });
                events = es;
                notifications = ns;
                readings = suc w.readings;
              })))
      → Keeps (
          (update_stored_state previous patch
              >>= (λ next. append_event step d >> (append_state_changed previous next reason >> k)))
            (record w { stored = some previous }))
  unfolding ◌>>=◌ update_stored_state write_state current_time append_event replay
  Keeps-update_on patch step d w plain logged h =
      let next = stamped (patch previous.state) (w.clock w.readings) in
      let written = record w {
        readings = suc w.readings;
        events = record { step_id = step; details = d } ∷ w.events;
      } in
      Keeps-changed_on next written (record previous { state = next })
        (follow_plain d (replay w.events) plain ∙ logged) (λ es ns e. h es ns e)

-- A good run stays one when an event of another kind is added.
pub IsGoodRun-event :
    (r : StoredRun) (sending : List Dispatch) (es : List RunnerEvent) (step : Option String)
    (d : Details)
    → is_plain d ≡ true
    → IsGoodRun r sending es
    → IsGoodRun r sending (record { step_id = step; details = d } ∷ es)
IsGoodRun-event r sending es step d plain g = record {
  distinct = g.distinct;
  placed = g.placed;
  logged = replay_plain step d es plain g.logged;
}
