-- ===== src/Controller/Files/Laws.antt =====
-- services/protocol-runner-api/src/store.ts: the next attempt of a step is a new one.
use protocol_runner.Common.{
  ◌+◌, ◌≤◌, ◌<◌, true, false, not, List, [], ◌∷◌, any, ◌≡◌, ◌≢◌, refl, arith,
}
use protocol_runner.Core.Types.{ResolvedStep, step_id}
use protocol_runner.Controller.{World, RunFile, FileKind}
use protocol_runner.Controller.Files.{
  of_step, same_kind, same_file, is_counted, max_attempt, next_file_attempt_number, file_of,
}

not_step : (kind : FileKind) → kind ≢ FileKind.step → not (same_kind kind FileKind.step) ≡ true
not_step kind h = ground arith

-- Every file that is counted has at most the greatest number.
any-max_attempt :
    (f : RunFile) (fs : List RunFile)
    → not (same_kind f.kind FileKind.step) ≡ true
    → f.attempt ≤ 999
    → max_attempt f.step_id f.ordinal fs < f.attempt
    → any (same_file f) fs ≡ false
unfolding max_attempt is_counted same_file of_step
any-max_attempt f [] kind small above = refl
any-max_attempt f (x ∷ xs) kind small above = ground (arith, any-max_attempt f xs kind small)

-- While the number of the next attempt of a step has three digits, no file of that attempt is there:
-- its prompt does not replace an earlier one, and writing it does not throw.
pub next_file_attempt_number-IsNew :
    (step : ResolvedStep) (kind : FileKind) (w : World)
    → kind ≢ FileKind.step
    → next_file_attempt_number step w ≤ 999
    → any (same_file (file_of step kind (next_file_attempt_number step w))) w.files ≡ false
unfolding next_file_attempt_number
next_file_attempt_number-IsNew step kind w other small =
    any-max_attempt (file_of step kind (max_attempt (step_id step.step) step.ordinal w.files + 1))
      w.files (not_step kind other) small (omega arith)
