-- ===== src/Controller/Results/Laws.antt =====
-- services/protocol-runner-api/src/controller.ts: when the result of an attempt counts as completed.
use protocol_runner.Common.{
  String, Bool, true, false, ◌&&◌, ◌||◌, ◌==◌, Option, none, some, ◌≡◌, ◌≢◌, ◌↔◌, refl, ap, sym,
  subst, ◌∙◌, arith, eq_iff, Option-cases, inl, inr,
}
use protocol_runner.Core.Types.{Fields, Value, str}
use protocol_runner.Core.Completion.{get}
use protocol_runner.Store.Rows.{ResultStatus}
use protocol_runner.Controller.Results.{
  AttemptEvidence, launcher_failure, is_text, ids_match, has_path, classify_report,
  classify_optional, classify_after, classify_parallel_attempt_status,
}

str-injective : (s t : String) → str s ≡ str t → s ≡ t
str-injective s t h = cc

is_text-eq : (v : Value) (t : String) → (is_text v t ≡ true) ↔ (v ≡ str t)
unfolding is_text
is_text-eq (str s) t =
    (λ h. ap str (ground (arith, eq_iff s t)), λ h. ground (arith, eq_iff s t, str-injective s t h))
is_text-eq Value.undefined t = (λ h. cc, λ h. cc)
is_text-eq Value.null t = (λ h. cc, λ h. cc)
is_text-eq (Value.obj fs) t = (λ h. cc, λ h. cc)
is_text-eq (Value.arr xs) t = (λ h. cc, λ h. cc)
is_text-eq (Value.bool b) t = (λ h. cc, λ h. cc)
is_text-eq (Value.num n) t = (λ h. cc, λ h. cc)
is_text-eq (Value.other_num n) t = (λ h. cc, λ h. cc)

-- A report that names the attempt and says that it is completed.
abbrev pub IsReportOf : AttemptEvidence → Fields → Type 0
IsReportOf e report =
    (get "run_instance_id" report ≡ str e.run_instance_id)
    × (get "step_id" report ≡ str e.step_id)
    × (get "group_id" report ≡ str e.group_id)
    × (get "attempt_id" report ≡ str e.attempt_id)
    × (get "status" report ≡ str "completed")

-- The tests on a report that counts.
abbrev Passes : AttemptEvidence → Fields → Type 0
Passes e report =
    (ids_match e report ≡ true)
    × (is_text (get "status" report) "completed" ≡ true)
    × (is_text (get "status" report) "blocked" ≡ false)
    × ((e.launcher_status == "blocked") ≡ false)
    × (has_path e.sealed_output_path ≡ true)

classify_report-completed :
    (e : AttemptEvidence) (report : Fields)
    → (classify_report e report ≡ ResultStatus.completed) ↔ Passes e report
unfolding classify_report
classify_report-completed e report = ground arith

launcher_failure-completed : (s : String) → launcher_failure s ≢ some ResultStatus.completed
unfolding launcher_failure
launcher_failure-completed s h = ground arith

launcher_failure-none : launcher_failure "completed" ≡ none
unfolding launcher_failure
launcher_failure-none = refl

four :
    (a b c d : Bool)
    → ((a && b && c && d) ≡ true) ↔ ((a ≡ true) × (b ≡ true) × (c ≡ true) × (d ≡ true))
four a b c d = ground arith

ids_match-eq :
    (e : AttemptEvidence) (report : Fields)
    → (ids_match e report ≡ true) ↔ (
        (get "run_instance_id" report ≡ str e.run_instance_id)
        × (get "step_id" report ≡ str e.step_id)
        × (get "group_id" report ≡ str e.group_id)
        × (get "attempt_id" report ≡ str e.attempt_id))
unfolding ids_match
ids_match-eq e report =
    let runs = is_text-eq (get "run_instance_id" report) e.run_instance_id in
    let steps = is_text-eq (get "step_id" report) e.step_id in
    let groups = is_text-eq (get "group_id" report) e.group_id in
    let attempts = is_text-eq (get "attempt_id" report) e.attempt_id in
    let both = four _ _ _ _ in
    (
      λ h. let (a, b, c, d) = both.0 h in (runs.0 a, steps.0 b, groups.0 c, attempts.0 d),
      λ (a, b, c, d). both.1 (runs.1 a, steps.1 b, groups.1 c, attempts.1 d),
    )

injective-some : (a b : Fields) → some a ≡ some b → a ≡ b
injective-some a b h = cc

classify_optional-completed :
    (e : AttemptEvidence) (o : Option Fields)
    → (classify_optional e o ≡ ResultStatus.completed)
      ↔ ((report : Fields) × (o ≡ some report) × Passes e report)
classify_optional-completed e none = (λ h. cc, λ (report, n, p). cc)
classify_optional-completed e (some r) = (
  λ h. (r, refl, (classify_report-completed e r).0 h),
  λ (report, same, p).
      (classify_report-completed e r).1 (subst (Passes e) (sym (injective-some r report same)) p),
)

-- The launcher says `completed`, and the report passes.
classify_after-completed :
    (e : AttemptEvidence)
    → (classify_after e none ≡ ResultStatus.completed) ↔ (
        ((e.launcher_status == "completed" || e.launcher_status == "blocked") ≡ true)
        × (classify_optional e e.status_report ≡ ResultStatus.completed))
classify_after-completed e = ground arith

not_blocked : (v : Value) → v ≡ str "completed" → is_text v "blocked" ≡ false
unfolding is_text
not_blocked v h = ap (λ x. is_text x "blocked") h

other_word : (s : String) → s ≡ "completed" → (s == "blocked") ≡ false
other_word s h = ap (λ x. x == "blocked") h

-- An attempt counts as completed exactly when the launcher says so, the report is there, names the
-- run, the step, the group and the attempt, and says `completed`, and the path of the sealed output is
-- not blank.
pub classify_parallel_attempt_status-completed :
    (e : AttemptEvidence)
    → (classify_parallel_attempt_status e ≡ ResultStatus.completed) ↔ (
        (e.launcher_status ≡ "completed")
        × ((report : Fields) × (e.status_report ≡ some report) × IsReportOf e report)
        × (has_path e.sealed_output_path ≡ true))
unfolding classify_parallel_attempt_status
classify_parallel_attempt_status-completed e = (
  λ h. elim (Option-cases (launcher_failure e.launcher_status)) [
    | inr (st, failed) ↦ absurd (
        launcher_failure-completed e.launcher_status
          (failed ∙ ap some (sym (ap (classify_after e) failed) ∙ h)))
    | inl no_failure ↦
        let (word, rest) =
          (classify_after-completed e).0 (sym (ap (classify_after e) no_failure) ∙ h) in
        let (report, there, passed) = (classify_optional-completed e e.status_report).0 rest in
        let (ids, said, other, launched, path) = passed in
        let (a, b, c, d) = (ids_match-eq e report).0 ids in
        (
          ground (arith, eq_iff e.launcher_status "completed"),
          (report, there, (a, b, c, d, (is_text-eq (get "status" report) "completed").0 said)),
          path,
        )
  ],
  λ (word, (report, there, named), path).
      let (a, b, c, d, said) = named in
      ap (classify_after e) (ap launcher_failure word ∙ launcher_failure-none)
      ∙ (classify_after-completed e).1 (
        ground (arith, eq_iff e.launcher_status "completed"),
        (classify_optional-completed e e.status_report).1 (
          report,
          there,
          (
            (ids_match-eq e report).1 (a, b, c, d),
            (is_text-eq (get "status" report) "completed").1 said,
            not_blocked (get "status" report) said,
            other_word e.launcher_status word,
            path,
          ),
        ),
      ),
)
