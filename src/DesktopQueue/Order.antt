-- ===== src/DesktopQueue/Order.antt =====
-- services/codex-desktop-api/src/desktop-action-queue.ts: the order in which actions are settled.
use mathlib.Core.List.{append-nil, append_assoc}
use protocol_runner.Common.{
  ℕ, zero, suc, ◌≡◌, refl, sym, ◌∙◌, ap, true, false, ◌||◌, not, List, keep, ◌==◌, [], ◌∷◌, ◌++◌,
  is_empty_list, arith, String, some, none, Bool-cases, inl, inr,
}
use protocol_runner.DesktopQueue.{
  GateStatus, ActionState, ActionSummary, QueueState, Event, is_executing, is_idle,
  release_snapshot, close_snapshot, ensure_gate, enqueue, wait, allow_now, fire_timer,
  finish_action, step, run,
}
use protocol_runner.DesktopQueue.Gate.{
  IsGated, run-IsGated, nothing_awaited, list-cases, GateStatus-cases,
}

-- The settled, awaited and pending actions.
abbrev pub actions : QueueState → List ActionState
actions q = q.settled ++ (q.running ++ q.pending)

-- The action that an event brings, if any.
unfoldable pub brings : Event → ℕ → List ActionState
brings (Event.enqueued summary id) now =
    (record { action_summary = summary; action_id = id; queued_at = now }) ∷ []
brings _ now = []

-- The actions that the events have brought, the first one first.
unfoldable pub arrivals : List (Event × ℕ) → List ActionState
unfolding brings
arrivals [] = []
arrivals ((e, now) ∷ events) = arrivals events ++ brings e now

turn : (s r p : List ActionState) → is_empty_list r ≡ true → s ++ (p ++ []) ≡ s ++ (r ++ p)
turn s [] p h = ap (λ x. s ++ x) (append-nil p)
turn s (x ∷ r) p h = absurd (cc)

release_snapshot-actions :
    (now : ℕ) (q : QueueState)
    → (is_executing q.gate_status ≡ false → is_empty_list q.running ≡ true)
    → actions (release_snapshot now q) ≡ actions q
unfolding release_snapshot close_snapshot
release_snapshot-actions now q h = elim (Bool-cases (is_executing q.gate_status)) [
  | inl busy ↦ rw busy refl
  | inr free ↦ elim (Bool-cases (is_empty_list q.pending)) [
    | inl none_pending ↦ rw (free, none_pending) (turn q.settled q.running q.pending (h free))
    | inr some_pending ↦ rw (free, some_pending) (turn q.settled q.running q.pending (h free))
  ]
]

ensure_gate-actions :
    (auto now : ℕ) (q : QueueState)
    → (is_idle q.gate_status ≡ true → is_empty_list q.running ≡ true)
    → actions (ensure_gate auto now q) ≡ actions q
unfolding ensure_gate
ensure_gate-actions auto now q h =
    elim (Bool-cases (is_empty_list q.pending || not (is_idle q.gate_status))) [
      | inl shut ↦ rw shut refl
      | inr ready ↦ rw ready (opened (ground (arith, ready)) auto)
    ]
  where
    released : QueueState
    released = record q { desktop_control_released_at = none }

    opened :
        is_idle q.gate_status ≡ true
        → (auto : ℕ)
        → actions (elim auto [
          | zero ↦ release_snapshot now released
          | suc _ ↦ record q {
            desktop_control_released_at = none;
            gate_status = GateStatus.countdown;
            countdown_started_at = some now;
            held_since = none;
            timer = true;
          }
        ])
          ≡ actions q
    opened idle zero = release_snapshot-actions now released (λ free. h idle)
    opened idle (suc n) = refl

enqueue-actions :
    (auto : ℕ) (summary : ActionSummary) (id : String) (now : ℕ) (q : QueueState)
    → IsGated q
    → actions (enqueue auto summary id now q)
      ≡ actions q ++ (record { action_summary = summary; action_id = id; queued_at = now }) ∷ []
unfolding enqueue
enqueue-actions auto summary id now q h =
    let item : ActionState = record { action_summary = summary; action_id = id; queued_at = now } in
    let added : QueueState = record q { pending = q.pending ++ item ∷ [] } in
    ensure_gate-actions auto now added (λ idle. nothing_awaited q h (ground (arith, idle)))
    ∙ ap (λ x. q.settled ++ x) (sym (append_assoc q.running q.pending (item ∷ [])))
    ∙ sym (append_assoc q.settled (q.running ++ q.pending) (item ∷ []))

finish_action-actions :
    (auto now : ℕ) (q : QueueState) → actions (finish_action auto now q) ≡ actions q
unfolding finish_action close_snapshot
finish_action-actions auto now q = elim (list-cases q.running) [
  | inl e ↦ rw e refl
  | inr (item, rest, e) ↦ rw e (elim (Bool-cases (is_empty_list rest)) [
    | inl last ↦ rw last (
        ensure_gate-actions auto now
          (close_snapshot now (record q {
            running = rest;
            settled = q.settled ++ item ∷ [];
            executing = keep (λ a. not (a.action_id == item.action_id)) q.executing;
          }))
          (λ idle. last)
        ∙ append_assoc q.settled (item ∷ []) (rest ++ q.pending))
    | inr more ↦ rw more (append_assoc q.settled (item ∷ []) (rest ++ q.pending))
  ])
]

wait-actions : (now : ℕ) (q : QueueState) → actions (wait now q) ≡ actions q
unfolding wait
wait-actions now q = elim (GateStatus-cases q.gate_status) [
  | inl (inl e) ↦ elim (Bool-cases (is_empty_list q.pending)) [
    | inl none_pending ↦ rw (e, none_pending) refl
    | inr some_pending ↦ rw (e, some_pending) refl
  ]
  | inl (inr e) ↦ rw e refl
  | inr (inl e) ↦ rw e refl
  | inr (inr e) ↦ rw e refl
]

allow_now-actions : (now : ℕ) (q : QueueState) → IsGated q → actions (allow_now now q) ≡ actions q
unfolding allow_now
allow_now-actions now q h = elim (GateStatus-cases q.gate_status) [
  | inl (inl e) ↦ rw e refl
  | inl (inr e) ↦ rw e (
      release_snapshot-actions now (record q { gate_status = GateStatus.countdown })
        (λ free. nothing_awaited q h (ap is_executing e)))
  | inr (inl e) ↦ rw e (
      release_snapshot-actions now (record q { gate_status = GateStatus.held })
        (λ free. nothing_awaited q h (ap is_executing e)))
  | inr (inr e) ↦ rw e refl
]

fire_timer-actions : (now : ℕ) (q : QueueState) → IsGated q → actions (fire_timer now q) ≡ actions q
unfolding fire_timer
fire_timer-actions now q h = elim (Bool-cases q.timer) [
  | inl set ↦
      rw set (release_snapshot-actions now (record q { timer = false }) (nothing_awaited q h))
  | inr unset ↦ rw unset refl
]

step-actions :
    (auto : ℕ) (event : Event) (now : ℕ) (q : QueueState)
    → IsGated q
    → actions (step auto event now q) ≡ actions q ++ brings event now
unfolding step brings
step-actions auto (Event.enqueued summary id) now q h = enqueue-actions auto summary id now q h
step-actions auto Event.waited now q h = wait-actions now q ∙ sym (append-nil (actions q))
step-actions auto Event.allowed now q h = allow_now-actions now q h ∙ sym (append-nil (actions q))
step-actions auto Event.timer_fired now q h =
    fire_timer-actions now q h ∙ sym (append-nil (actions q))
step-actions auto Event.action_finished now q h =
    finish_action-actions auto now q ∙ sym (append-nil (actions q))

-- After any events, the settled, the awaited and the pending actions together are the actions that
-- were enqueued, each once and in the order of their arrival.
pub run-arrivals :
    (auto : ℕ) (events : List (Event × ℕ)) → actions (run auto events) ≡ arrivals events
unfolding run arrivals
run-arrivals auto [] = refl
run-arrivals auto ((e, now) ∷ events) =
    step-actions auto e now (run auto events) (run-IsGated auto events)
    ∙ ap (λ x. x ++ brings e now) (run-arrivals auto events)
