-- ===== src/DesktopQueue/Gate.antt =====
-- services/codex-desktop-api/src/desktop-action-queue.ts: the gate against the actions and the timer.
use protocol_runner.Common.{
  ℕ, zero, suc, ◌≡◌, ◌⊎◌, refl, sym, subst, String, Bool, true, false, ◌&&◌, not, ◌==◌, some, none,
  List, [], ◌∷◌, ◌++◌, All, All-imp, any, keep, length, is_empty_list, arith, eq_iff, Bool-cases,
  inl, inr,
}
use protocol_runner.DesktopQueue.{
  GateStatus, ActionState, ActionSummary, QueueState, Event, is_executing, is_idle, close_snapshot,
  release_snapshot, ensure_gate, enqueue, wait, allow_now, fire_timer, finish_action, step, run,
}

-- The countdown has its timer, and together with a hold it is for pending actions; an action is
-- awaited while the gate is executing, and at no other time.
abbrev gate_shape : GateStatus → List ActionState → List ActionState → Bool → Bool
gate_shape GateStatus.idle pending running timer =
    is_empty_list pending && is_empty_list running && not timer
gate_shape GateStatus.countdown pending running timer =
    not (is_empty_list pending) && is_empty_list running && timer
gate_shape GateStatus.held pending running timer =
    not (is_empty_list pending) && is_empty_list running && not timer
gate_shape GateStatus.executing pending running timer = not (is_empty_list running) && not timer

-- An action that `state` lists as executing is among those that have not ended.
abbrev pub IsListed : List ActionState → ActionState → Type 0
IsListed running a = any (λ r. r.action_id == a.action_id) running ≡ true

pub record IsGated (q : QueueState) : Type 0 where
  pub shape : gate_shape q.gate_status q.pending q.running q.timer ≡ true
  pub listed : All (IsListed q.running) q.executing

pub nothing_awaited :
    (q : QueueState)
    → IsGated q
    → is_executing q.gate_status ≡ false
    → is_empty_list q.running ≡ true
nothing_awaited q h free = ground (arith, h.shape, free)

listed_more :
    (x : ActionState) (xs ys : List ActionState) → All (IsListed xs) ys → All (IsListed (x ∷ xs)) ys
listed_more x xs ys h = All-imp (IsListed xs) (IsListed (x ∷ xs)) ys (λ a l. ground (arith, l)) h

listed_self : (xs : List ActionState) → All (IsListed xs) xs
listed_self [] = tt
listed_self (x ∷ xs) =
    (ground (arith, eq_iff x.action_id x.action_id), listed_more x xs xs (listed_self xs))

-- An action that ends is struck off the executing ones.
listed_rest :
    (item : ActionState) (rest xs : List ActionState)
    → All (IsListed (item ∷ rest)) xs
    → All (IsListed rest) (keep (λ a. not (a.action_id == item.action_id)) xs)
listed_rest item rest [] h = tt
listed_rest item rest (x ∷ xs) (l, h) = elim (Bool-cases (x.action_id == item.action_id)) [
  | inl same ↦ rw same (listed_rest item rest xs h)
  | inr other ↦ rw other (
    ground (arith, l, eq_iff x.action_id item.action_id, eq_iff item.action_id x.action_id),
    listed_rest item rest xs h,
  )
]

release_snapshot-IsGated :
    (now : ℕ) (q : QueueState)
    → (is_executing q.gate_status ≡ true → IsGated q)
    → IsGated (release_snapshot now q)
unfolding release_snapshot close_snapshot
release_snapshot-IsGated now q h = elim (Bool-cases (is_executing q.gate_status)) [
  | inl busy ↦ subst IsGated (sym (kept busy)) (h busy)
  | inr free ↦ rw free (elim (Bool-cases (is_empty_list q.pending)) [
    | inl none_pending ↦
        rw none_pending
          (record { shape = ground (arith, none_pending); listed = listed_self q.pending })
    | inr some_pending ↦
        rw some_pending
          (record { shape = ground (arith, some_pending); listed = listed_self q.pending })
  ])
]
  where
    kept : is_executing q.gate_status ≡ true → release_snapshot now q ≡ q
    kept busy = ground (arith, busy)

-- `ensureGate` with nothing awaited.
ensure_gate-IsGated :
    (auto now : ℕ) (q : QueueState)
    → is_idle q.gate_status ≡ true
    → is_empty_list q.running ≡ true
    → q.timer ≡ false
    → All (IsListed q.running) q.executing
    → IsGated (ensure_gate auto now q)
unfolding ensure_gate
ensure_gate-IsGated auto now q i r t l = elim (Bool-cases (is_empty_list q.pending)) [
  | inl none_pending ↦ rw none_pending (record { shape = ground (arith, i, r, t); listed = l })
  | inr some_pending ↦ rw (some_pending, i) (opened auto some_pending)
]
  where
    released : QueueState
    released = record q { desktop_control_released_at = none }

    released-release :
        is_empty_list q.pending ≡ false
        → IsGated (record released {
          timer = false;
          pending = [];
          running = q.pending;
          executing = q.pending;
          last_snapshot_count = length q.pending;
          gate_status = GateStatus.executing;
          countdown_started_at = none;
          held_since = none;
          executing_since = some now;
        })
    released-release some_pending = record {
      shape = ground (arith, some_pending);
      listed = listed_self q.pending;
    }

    opened :
        (auto : ℕ)
        → is_empty_list q.pending ≡ false
        → IsGated (elim auto [
          | zero ↦ release_snapshot now released
          | suc _ ↦ record q {
            desktop_control_released_at = none;
            gate_status = GateStatus.countdown;
            countdown_started_at = some now;
            held_since = none;
            timer = true;
          }
        ])
    opened zero some_pending =
        let free : is_executing q.gate_status ≡ false = ground (arith, i) in
        unfold release_snapshot in rw (free, some_pending) (released-release some_pending)
    opened (suc n) some_pending = record { shape = ground (arith, some_pending, r); listed = l }

pub list-cases :
    (xs : List ActionState)
    → (xs ≡ []) ⊎ ((x : ActionState) × (ys : List ActionState) × (xs ≡ x ∷ ys))
list-cases [] = inl refl
list-cases (x ∷ xs) = inr (x, xs, refl)

pub GateStatus-cases :
    (g : GateStatus)
    → ((g ≡ GateStatus.idle) ⊎ (g ≡ GateStatus.countdown))
      ⊎ ((g ≡ GateStatus.held) ⊎ (g ≡ GateStatus.executing))
GateStatus-cases GateStatus.idle = inl (inl refl)
GateStatus-cases GateStatus.countdown = inl (inr refl)
GateStatus-cases GateStatus.held = inr (inl refl)
GateStatus-cases GateStatus.executing = inr (inr refl)

not_empty : (xs : List ActionState) (x : ActionState) → is_empty_list (xs ++ x ∷ []) ≡ false
not_empty [] x = refl
not_empty (y ∷ ys) x = refl

enqueue-IsGated :
    (auto : ℕ) (summary : ActionSummary) (id : String) (now : ℕ) (q : QueueState)
    → IsGated q
    → IsGated (enqueue auto summary id now q)
unfolding enqueue
enqueue-IsGated auto summary id now q h =
    let item : ActionState = record { action_summary = summary; action_id = id; queued_at = now } in
    let added : QueueState = record q { pending = q.pending ++ item ∷ [] } in
    elim (Bool-cases (is_idle q.gate_status)) [
      | inl ready ↦
          ensure_gate-IsGated auto now added ready (ground (arith, h.shape, ready))
            (ground (arith, h.shape, ready)) h.listed
      | inr shut ↦
          unfold ensure_gate in
          rw (not_empty q.pending item, shut)
            (record {
              shape = ground (arith, h.shape, shut, not_empty q.pending item);
              listed = h.listed;
            })
    ]

wait-IsGated : (now : ℕ) (q : QueueState) → IsGated q → IsGated (wait now q)
unfolding wait
wait-IsGated now q h = elim (GateStatus-cases q.gate_status) [
  | inl (inl e) ↦ elim (Bool-cases (is_empty_list q.pending)) [
    | inl none_pending ↦
        rw (e, none_pending)
          (record { shape = ground (arith, h.shape, e, none_pending); listed = h.listed })
    | inr some_pending ↦ absurd (ground (arith, h.shape, e, some_pending))
  ]
  | inl (inr e) ↦ rw e (record { shape = ground (arith, h.shape, e); listed = h.listed })
  | inr (inl e) ↦ rw e (record { shape = ground (arith, h.shape, e); listed = h.listed })
  | inr (inr e) ↦ rw e (record { shape = ground (arith, h.shape, e); listed = h.listed })
]

allow_now-IsGated : (now : ℕ) (q : QueueState) → IsGated q → IsGated (allow_now now q)
unfolding allow_now
allow_now-IsGated now q h = elim (GateStatus-cases q.gate_status) [
  | inl (inl e) ↦ rw e (record { shape = ground (arith, h.shape, e); listed = h.listed })
  | inl (inr e) ↦ rw e (
      release_snapshot-IsGated now (record q { gate_status = GateStatus.countdown })
        (λ busy. absurd (ground (arith, busy))))
  | inr (inl e) ↦ rw e (
      release_snapshot-IsGated now (record q { gate_status = GateStatus.held })
        (λ busy. absurd (ground (arith, busy))))
  | inr (inr e) ↦ rw e (record { shape = ground (arith, h.shape, e); listed = h.listed })
]

fire_timer-IsGated : (now : ℕ) (q : QueueState) → IsGated q → IsGated (fire_timer now q)
unfolding fire_timer
fire_timer-IsGated now q h = elim (Bool-cases q.timer) [
  | inl set ↦ rw set (fired set)
  | inr unset ↦ rw unset (record { shape = ground (arith, h.shape, unset); listed = h.listed })
]
  where
    fired : q.timer ≡ true → IsGated (release_snapshot now (record q { timer = false }))
    fired set =
        release_snapshot-IsGated now (record q { timer = false })
          (λ busy. absurd (ground (arith, h.shape, set, busy)))

finish_action-IsGated :
    (auto now : ℕ) (q : QueueState) → IsGated q → IsGated (finish_action auto now q)
unfolding finish_action close_snapshot
finish_action-IsGated auto now q h = elim (list-cases q.running) [
  | inl e ↦ rw e (record {
    shape = ground (arith, h.shape, e);
    listed = subst (λ r. All (IsListed r) q.executing) e h.listed;
  })
  | inr (item, rest, e) ↦
      let still =
        listed_rest item rest q.executing (subst (λ r. All (IsListed r) q.executing) e h.listed) in
      rw e (elim (Bool-cases (is_empty_list rest)) [
        | inl last ↦ rw last (
            ensure_gate-IsGated auto now
              (close_snapshot now (record q {
                running = rest;
                settled = q.settled ++ item ∷ [];
                executing = keep (λ a. not (a.action_id == item.action_id)) q.executing;
              }))
              refl last (ground (arith, h.shape, e)) still)
        | inr more ↦ rw more (record { shape = ground (arith, h.shape, e, more); listed = still })
      ])
]

step-IsGated :
    (auto : ℕ) (event : Event) (now : ℕ) (q : QueueState)
    → IsGated q
    → IsGated (step auto event now q)
unfolding step
step-IsGated auto (Event.enqueued summary id) now q h = enqueue-IsGated auto summary id now q h
step-IsGated auto Event.waited now q h = wait-IsGated now q h
step-IsGated auto Event.allowed now q h = allow_now-IsGated now q h
step-IsGated auto Event.timer_fired now q h = fire_timer-IsGated now q h
step-IsGated auto Event.action_finished now q h = finish_action-IsGated auto now q h

-- After any events: the queue is idle only with nothing pending or awaited, a countdown has its
-- timer and something pending, a hold has something pending and no timer, the gate executes exactly
-- while an action is awaited, and what it lists as executing has not ended.
pub run-IsGated : (auto : ℕ) (events : List (Event × ℕ)) → IsGated (run auto events)
unfolding run
run-IsGated auto [] = record { shape = refl; listed = tt }
run-IsGated auto ((e, now) ∷ events) =
    step-IsGated auto e now (run auto events) (run-IsGated auto events)
