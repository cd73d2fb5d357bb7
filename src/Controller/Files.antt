-- ===== src/Controller/Files.antt =====
-- services/protocol-runner-api/src/store.ts: the files of a run's attempts, which are written once,
-- and the number of the next attempt.
pub mod Laws
use protocol_runner.Common.{
  ℕ, ◌+◌, max, String, Bool, true, false, not, ◌&&◌, ◌==◌, List, [], ◌∷◌, any, ltb, leb, template,
  decimal, if◌then◌else◌, some,
}
use protocol_runner.Core.Types.{ResolvedStep, step_id}
use protocol_runner.Controller.{World, RunFile, FileKind, Failure}
use protocol_runner.Controller.Action.{Action, return, throw, ◌>>=◌, ◌>>◌, require}

abbrev pub same_kind : FileKind → FileKind → Bool
same_kind FileKind.step FileKind.step = true
same_kind FileKind.prompt FileKind.prompt = true
same_kind FileKind.start_report FileKind.start_report = true
same_kind FileKind.status_report FileKind.status_report = true
same_kind _ _ = false

abbrev same_number : ℕ → ℕ → Bool
same_number a b = leb a b && leb b a

-- `entry.startsWith(prefix)`: the file is one of the step.
unfoldable pub of_step : String → ℕ → RunFile → Bool
of_step id ordinal f = f.step_id == id && same_number f.ordinal ordinal

unfoldable pub same_file : RunFile → RunFile → Bool
unfolding of_step
same_file f g =
    same_kind f.kind g.kind && of_step f.step_id f.ordinal g && same_number f.attempt g.attempt

-- `stepFileReference`, as a file of the step.
abbrev pub file_of : ResolvedStep → FileKind → ℕ → RunFile
file_of step kind attempt = record {
  kind = kind;
  step_id = step_id step.step;
  ordinal = step.ordinal;
  attempt = attempt;
}

-- `fs.writeFile` with the flag `wx`, which throws when the file is there.
unfoldable pub write_once : RunFile → Action (Unit {0})
write_once f w =
    (require (not (any (same_file f) w.files)) Failure.file_exists
        >> (λ v. return tt (record v { files = f ∷ v.files })))
      w

-- A file of one of the three directories whose number has three digits, which is what the pattern
-- `/\.attempt_(\d{3})\./` reads.
unfoldable pub is_counted : String → ℕ → RunFile → Bool
unfolding of_step
is_counted id ordinal f =
    of_step id ordinal f && not (same_kind f.kind FileKind.step) && leb f.attempt 999

unfoldable pub max_attempt : String → ℕ → List RunFile → ℕ
unfolding is_counted
max_attempt id ordinal [] = 0
max_attempt id ordinal (f ∷ fs) =
    let rest = max_attempt id ordinal fs in
    if is_counted id ordinal f then max f.attempt rest else rest

unfoldable pub next_file_attempt_number : ResolvedStep → World → ℕ
unfolding max_attempt
next_file_attempt_number step w = max_attempt (step_id step.step) step.ordinal w.files + 1

-- `String(n).padStart(3, '0')`.
abbrev pad : ℕ → String
pad n =
    if ltb n 10
    then template ("00" ∷ decimal n ∷ [])
    else if ltb n 100
    then template ("0" ∷ decimal n ∷ [])
    else decimal n

unfoldable pub format_prompt_attempt_id : ℕ → String
format_prompt_attempt_id attempt = template ("attempt_" ∷ pad attempt ∷ [])
