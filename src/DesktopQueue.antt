-- ===== src/DesktopQueue.antt =====
-- services/codex-desktop-api/src/desktop-action-queue.ts: `DesktopActionQueue`. The class is a state,
-- and what the event loop calls is an event: a method, the timer of the countdown, and the end of the
-- action that `releaseSnapshot` awaits. `running` is the part of its local `snapshot` that has not
-- ended; `settled` are the promises resolved or rejected so far, in that order. A time is its number
-- of milliseconds. What an action does, and `on_countdown_started`, whose errors are dropped, are
-- outside of the queue.
pub mod Order
pub mod Gate
use protocol_runner.Common.{
  ℕ, zero, suc, String, Bool, true, false, ◌&&◌, ◌||◌, not, ◌==◌, Option, none, some, List, [], ◌∷◌,
  ◌++◌, map, keep, length, is_empty_list, if◌then◌else◌,
}

pub data GateStatus : Type 0 where
  idle countdown held executing : GateStatus

pub data ActionKind : Type 0 where
  select_thread prompt create_thread readback : ActionKind

pub record ActionSummary : Type 0 where
  pub kind : ActionKind
  pub caller : String
  pub target_thread_id : Option String
  pub target_thread_title : Option String
  pub summary : String

pub record ActionState : Type 0 where
  pub action_summary : ActionSummary
  pub action_id : String
  pub queued_at : ℕ

pub record QueueState : Type 0 where
  pub pending : List ActionState
  pub executing : List ActionState
  pub gate_status : GateStatus
  pub countdown_started_at : Option ℕ
  pub held_since : Option ℕ
  pub executing_since : Option ℕ
  pub desktop_control_released_at : Option ℕ
  pub last_snapshot_count : ℕ
  pub timer : Bool
  pub running : List ActionState
  pub settled : List ActionState

abbrev pub new_queue : QueueState
new_queue = record {
  pending = [];
  executing = [];
  gate_status = GateStatus.idle;
  countdown_started_at = none;
  held_since = none;
  executing_since = none;
  desktop_control_released_at = none;
  last_snapshot_count = 0;
  timer = false;
  running = [];
  settled = [];
}

abbrev pub is_idle : GateStatus → Bool
is_idle GateStatus.idle = true
is_idle _ = false

abbrev pub is_executing : GateStatus → Bool
is_executing GateStatus.executing = true
is_executing _ = false

abbrev pub is_none_pending : QueueState → Bool
is_none_pending q = is_empty_list q.pending

-- The end of `releaseSnapshot`, before it looks at the gate again.
unfoldable pub close_snapshot : ℕ → QueueState → QueueState
close_snapshot now q = record q {
  gate_status = GateStatus.idle;
  executing_since = none;
  desktop_control_released_at = some now;
}

-- `releaseSnapshot` up to its first `await`, for a snapshot that is not empty; with an empty one the
-- loop ends at once, and `ensureGate` finds nothing pending.
unfoldable pub release_snapshot : ℕ → QueueState → QueueState
unfolding close_snapshot
release_snapshot now q =
    if is_executing q.gate_status
    then q
    else let started : QueueState = record q {
      timer = false;
      pending = [];
      running = q.pending;
      executing = q.pending;
      last_snapshot_count = length q.pending;
      gate_status = GateStatus.executing;
      countdown_started_at = none;
      held_since = none;
      executing_since = some now;
    } in
      if is_none_pending q then close_snapshot now started else started

-- `ensureGate`.
unfoldable pub ensure_gate : (auto_allow_ms now : ℕ) → QueueState → QueueState
unfolding release_snapshot
ensure_gate auto_allow_ms now q =
    if is_none_pending q || not (is_idle q.gate_status) then q else elim auto_allow_ms [
      | zero ↦ release_snapshot now (record q { desktop_control_released_at = none })
      | suc _ ↦ record q {
        desktop_control_released_at = none;
        gate_status = GateStatus.countdown;
        countdown_started_at = some now;
        held_since = none;
        timer = true;
      }
    ]

-- `enqueue`, with the id that the factory gives.
unfoldable pub enqueue : ℕ → ActionSummary → String → ℕ → QueueState → QueueState
unfolding ensure_gate
enqueue auto_allow_ms summary action_id now q = ensure_gate auto_allow_ms now (record q {
  pending =
      q.pending
      ++ (record { action_summary = summary; action_id = action_id; queued_at = now }) ∷ [];
})

-- `wait`.
unfoldable pub wait : ℕ → QueueState → QueueState
wait now q = elim q.gate_status [
  | GateStatus.idle ↦ if is_none_pending q then q else hold now q
  | GateStatus.countdown ↦ hold now q
  | GateStatus.held ↦ q
  | GateStatus.executing ↦ q
]
  where
    hold : ℕ → QueueState → QueueState
    hold now q = record q {
      timer = false;
      gate_status = GateStatus.held;
      countdown_started_at = none;
      held_since = some now;
    }

-- `allowNow`.
unfoldable pub allow_now : ℕ → QueueState → QueueState
unfolding release_snapshot
allow_now now q = elim q.gate_status [
  | GateStatus.countdown ↦ release_snapshot now q
  | GateStatus.held ↦ release_snapshot now q
  | GateStatus.idle ↦ q
  | GateStatus.executing ↦ q
]

-- The timer that `ensureGate` has set.
unfoldable pub fire_timer : ℕ → QueueState → QueueState
unfolding release_snapshot
fire_timer now q = if q.timer then release_snapshot now (record q { timer = false }) else q

-- The end of the awaited action, resolved or rejected, and what follows it up to the next `await`.
unfoldable pub finish_action : ℕ → ℕ → QueueState → QueueState
unfolding close_snapshot ensure_gate
finish_action auto_allow_ms now q = elim q.running [
  | [] ↦ q
  | item ∷ rest ↦
      let ended : QueueState = record q {
        running = rest;
        settled = q.settled ++ item ∷ [];
        executing = keep (λ a. not (a.action_id == item.action_id)) q.executing;
      } in
      if is_empty_list rest then ensure_gate auto_allow_ms now (close_snapshot now ended) else ended
]

pub data Event : Type 0 where
  enqueued : ActionSummary → String → Event
  waited allowed timer_fired action_finished : Event

unfoldable pub step : ℕ → Event → ℕ → QueueState → QueueState
unfolding enqueue wait allow_now fire_timer finish_action
step auto (Event.enqueued summary id) now q = enqueue auto summary id now q
step auto Event.waited now q = wait now q
step auto Event.allowed now q = allow_now now q
step auto Event.timer_fired now q = fire_timer now q
step auto Event.action_finished now q = finish_action auto now q

-- A run of the event loop: the events with their times, the latest first.
unfoldable pub run : ℕ → List (Event × ℕ) → QueueState
unfolding step
run auto [] = new_queue
run auto ((e, now) ∷ events) = step auto e now (run auto events)

-- What `state()` returns.
pub record QueueView : Type 0 where
  pub gate_status : GateStatus
  pub auto_allow_ms : ℕ
  pub countdown_started_at : Option ℕ
  pub held_since : Option ℕ
  pub executing_since : Option ℕ
  pub desktop_control_released_at : Option ℕ
  pub pending_count : ℕ
  pub executing_count : ℕ
  pub last_snapshot_count : ℕ
  pub pending_actions : List ActionState
  pub executing_actions : List ActionState

unfoldable pub view : ℕ → QueueState → QueueView
view auto_allow_ms q = record {
  gate_status = q.gate_status;
  auto_allow_ms = auto_allow_ms;
  countdown_started_at = q.countdown_started_at;
  held_since = q.held_since;
  executing_since = q.executing_since;
  desktop_control_released_at = q.desktop_control_released_at;
  pending_count = length q.pending;
  executing_count = length q.executing;
  last_snapshot_count = q.last_snapshot_count;
  pending_actions = q.pending;
  executing_actions = q.executing;
}
