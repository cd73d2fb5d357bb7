-- ===== src/Examples/Queue.antt =====
-- The desktop action queue after a few events, and a tick of the driver over two runs.
use protocol_runner.Common.{ℕ, ◌≡◌, refl, String, true, false, none, some, List, [], ◌∷◌, All, find}
use protocol_runner.Core.Types.{RunStatus}
use protocol_runner.DesktopQueue.{ActionKind, ActionSummary, Event, run}
use protocol_runner.DesktopQueue.Gate.{IsGated, run-IsGated}
use protocol_runner.DesktopQueue.Order.{actions, arrivals, run-arrivals}
use protocol_runner.Driver.{
  Answer, RunListItem, DriverRunView, DriverDecisionAction, tick, start_ready, is_activated,
  round_robin_order,
}
use protocol_runner.Driver.RoundRobin.{is_eligible, tick-starts, tick-no_eligible}

abbrev prompt : ActionSummary
prompt = record {
  kind = ActionKind.prompt;
  caller = "runner";
  target_thread_id = some "t1";
  target_thread_title = none;
  summary = "Send the prompt.";
}

-- Two actions, the second enqueued while the first is awaited.
abbrev events : List (Event × ℕ)
events =
    (Event.action_finished, 9_000)
    ∷ (Event.enqueued prompt "a2", 8_000)
    ∷ (Event.timer_fired, 6_000)
    ∷ (Event.enqueued prompt "a1", 1_000)
    ∷ []

run-IsGated_example : IsGated (run 5_000 events)
run-IsGated_example = run-IsGated 5_000 events

run-arrivals_example : actions (run 5_000 events) ≡ arrivals events
run-arrivals_example = run-arrivals 5_000 events

abbrev listed : String → RunStatus → RunListItem
listed id status = record {
  run_instance_id = id;
  status = status;
  current_step_id = some "s1";
  automation = some (record { auto_pickup = false; auto_advance = true });
}

abbrev runs : List RunListItem
runs = listed "r1" RunStatus.ready ∷ listed "r2" RunStatus.paused ∷ []

abbrev start : String → Answer DriverRunView
start id =
    Answer.answered
      (record { status = RunStatus.waiting_for_start_report; current_step_id = some "s1" })

tick-starts_example :
    (run : RunListItem) × (find is_eligible (round_robin_order 1 runs) ≡ some run)
    × (is_eligible run ≡ true)
    × ((tick (Answer.answered runs) start 1).decision ≡ (start_ready start runs 1 run).decision)
    × ((tick (Answer.answered runs) start 1).next_index ≡ (start_ready start runs 1 run).next_index)
    × All (λ d. is_activated d.action ≡ false) (tick (Answer.answered runs) start 1).emitted
tick-starts_example = tick-starts start runs 1 refl

abbrev halted : List RunListItem
halted = listed "r1" RunStatus.failed ∷ listed "r2" RunStatus.paused ∷ []

tick-no_eligible_example :
    ((tick (Answer.answered halted) start 1).decision.action
      ≡ DriverDecisionAction.no_eligible_runs)
    × ((tick (Answer.answered halted) start 1).next_index ≡ 1)
tick-no_eligible_example = tick-no_eligible start halted 1 refl
