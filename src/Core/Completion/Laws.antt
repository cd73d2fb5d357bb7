-- ===== src/Core/Completion/Laws.antt =====
-- What the parsers and the comparisons of reports promise.
use protocol_runner.Common.{
  String, eq_iff, includes, is_empty, trim, true, false, Option, none, some, List, [], ◌∷◌, ◌++◌,
  ◌≡◌, ◌↔◌, inl, inr, refl, arith, Option-cases, subst, ap, sym, ◌∙◌, if◌then◌else◌,
}
use protocol_runner.Core.Types.{
  Value, Fields, undefined, str, obj, field, end, CompletionStatus, CompletionReturn,
  StepStartReport, ValidationIssue,
}
use protocol_runner.Core.Transitions.{completion_name}
use protocol_runner.Core.Completion.{
  get, parse_status_report, status_result, status_issues, completion_status, read_text,
  required_text, unexpected_keys, required_issue, status_issue, summary_issue, status_report_of,
  validate_status_report_for_step, validate_step_start_report, allowed_keys, read_summary,
}

-- A report matches its step exactly when both ids agree.
pub validate_status_report_for_step_iff :
    (r : CompletionReturn) (run step : String)
    → ((validate_status_report_for_step r run step).ok ≡ true)
      ↔ ((r.run_instance_id ≡ run) × (r.step_id ≡ step))
unfolding validate_status_report_for_step
validate_status_report_for_step_iff r run step =
    ground (arith, eq_iff r.run_instance_id run, eq_iff r.step_id step)

-- A start report is accepted exactly when it is the expected one, token included.
pub validate_step_start_report_iff :
    (r e : StepStartReport) → ((validate_step_start_report r e).ok ≡ true) ↔ (r ≡ e)
unfolding validate_step_start_report
validate_step_start_report_iff r e = ground (
  arith,
  eq_iff r.run_instance_id e.run_instance_id,
  eq_iff r.step_id e.step_id,
  eq_iff r.prompt_attempt_id e.prompt_attempt_id,
  eq_iff r.start_token e.start_token,
)

append-nil-left {ℓ} : {A : Type ℓ} (xs ys : List A) → xs ++ ys ≡ [] → (xs ≡ []) × (ys ≡ [])
append-nil-left [] ys h = (refl, h)
append-nil-left (x ∷ xs) ys h = absurd (cc)

-- Every key of the object is one of the list.
abbrev pub OnlyKeys : List String → Fields → Type 0
OnlyKeys allowed end = Unit
OnlyKeys allowed (field k v fs) = (includes k allowed ≡ true) × OnlyKeys allowed fs

unexpected_keys-nil :
    (allowed : List String) (kind noun : String) (fs : Fields)
    → (unexpected_keys allowed kind noun fs ≡ []) ↔ OnlyKeys allowed fs
unfolding unexpected_keys
unexpected_keys-nil allowed kind noun end = ground arith
unexpected_keys-nil allowed kind noun (field k v fs) =
    ground (arith, unexpected_keys-nil allowed kind noun fs)

-- A text that is not blank reads as its trimmed form.
abbrev pub TextReads : Value → String → Type 0
TextReads v t = (s : String) × (v ≡ str s) × (t ≡ trim s) × (is_empty (trim s) ≡ false)

required_text_iff : (v : Value) (t : String) → (required_text v ≡ some t) ↔ TextReads v t
unfolding required_text
required_text_iff (str s) t =
    ((λ h. (s, refl, ground arith, ground arith)), λ (s', e, f, g). ground arith)
required_text_iff v t = ((λ h. absurd (cc)), λ (s', e, f, g). absurd (cc))

-- How the optional summary is read: left out, or a text of which a blank one counts as left out.
abbrev pub SummaryReads : Value → Option String → Type 0
SummaryReads undefined r = r ≡ none
SummaryReads (str s) r = r ≡ (if is_empty (trim s) then none else some (trim s))
SummaryReads v r = ⊥

-- The report that an object stands for, described without the parser.
pub record ReadsAs (fs : Fields) (r : CompletionReturn) : Type 0 where
  pub keys : OnlyKeys allowed_keys fs
  pub run : TextReads (get "run_instance_id" fs) r.run_instance_id
  pub step : TextReads (get "step_id" fs) r.step_id
  pub status : TextReads (get "status" fs) (completion_name r.status)
  pub summary : SummaryReads (get "summary" fs) r.summary

summary_iff :
    (v : Value) (r : Option String)
    → ((summary_issue v ≡ []) × (read_summary v ≡ r)) ↔ SummaryReads v r
unfolding summary_issue read_summary
summary_iff undefined r = ground arith
summary_iff (str s) r = ground arith
summary_iff v r = ground arith

completion_status_iff :
    (s : String) (c : CompletionStatus) → (completion_status s ≡ some c) ↔ (s ≡ completion_name c)
unfolding completion_status completion_name
completion_status_iff s CompletionStatus.completed =
    ground (arith, eq_iff s "completed", eq_iff s "blocked")
completion_status_iff s CompletionStatus.blocked =
    ground (arith, eq_iff s "completed", eq_iff s "blocked", eq_iff "blocked" "completed")

required_issue-nil :
    (kind key : String) (o : Option String)
    → (required_issue kind key o ≡ []) ↔ ((t : String) × (o ≡ some t))
unfolding required_issue
required_issue-nil kind key none = ((λ h. absurd (cc)), λ (t, e). absurd (cc))
required_issue-nil kind key (some t) = ((λ h. (t, refl)), λ x. refl)

-- The checks that leave no issue, one by one.
record Clean (fs : Fields) : Type 0 where
  keys : OnlyKeys allowed_keys fs
  run : (t : String) × (required_text (get "run_instance_id" fs) ≡ some t)
  step : (t : String) × (required_text (get "step_id" fs) ≡ some t)
  status : (t : String) × (required_text (get "status" fs) ≡ some t) × (status_issue (some t) ≡ [])
  summary : summary_issue (get "summary" fs) ≡ []

status_issues-Clean : (fs : Fields) → status_issues fs ≡ [] → Clean fs
unfolding status_issues
status_issues-Clean fs h =
    let (h5, summary) = append-nil-left _ (summary_issue (get "summary" fs)) h in
    let (h4, status) = append-nil-left _ (status_issue (required_text (get "status" fs))) h5 in
    let (h3, given) = append-nil-left _ (required "status") h4 in
    let (h2, step) = append-nil-left _ (required "step_id") h3 in
    let (keys, run) =
      append-nil-left (unexpected_keys allowed_keys "status_report" "status report" fs)
        (required "run_instance_id") h2 in
    let (t, present) = (required_issue-nil "status_report" "status" _).0 given in
    record {
      keys = (unexpected_keys-nil allowed_keys "status_report" "status report" fs).0 keys;
      run = (required_issue-nil "status_report" "run_instance_id" _).0 run;
      step = (required_issue-nil "status_report" "step_id" _).0 step;
      status = (t, present, subst (λ o. status_issue o ≡ []) present status);
      summary = summary;
    }
  where
    required : String → List ValidationIssue
    required key = required_issue "status_report" key (required_text (get key fs))

Clean-status_issues : (fs : Fields) → Clean fs → status_issues fs ≡ []
unfolding status_issues
Clean-status_issues fs c =
    let keys = (unexpected_keys-nil allowed_keys "status_report" "status report" fs).1 c.keys in
    let (run, runs) = c.run in
    let (step, steps) = c.step in
    let (status, statuses, known) = c.status in
    rw (keys, runs, steps, statuses) (rw (known, c.summary) refl)

read_text-some :
    (key : String) (fs : Fields) {t : String}
    → required_text (get key fs) ≡ some t
    → read_text key fs ≡ t
unfolding read_text
read_text-some key fs h = rw h

status_known :
    (t : String)
    → status_issue (some t) ≡ []
    → (c : CompletionStatus) × (completion_status t ≡ some c)
unfolding status_issue
status_known t h = elim (Option-cases (completion_status t)) [
  | inl e ↦ absurd (ground arith)
  | inr found ↦ found
]

status_issue-name : (c : CompletionStatus) → status_issue (some (completion_name c)) ≡ []
unfolding status_issue completion_name
status_issue-name CompletionStatus.completed = refl
status_issue-name CompletionStatus.blocked = refl

status_result-some :
    (fs : Fields) (is : List ValidationIssue) (r : CompletionReturn)
    → (status_result fs is).status_report ≡ some r
    → (is ≡ [])
      × (completion_status (read_text "status" fs) ≡ some r.status)
      × (status_report_of fs r.status ≡ r)
unfolding status_result
status_result-some fs (i ∷ is) r h = absurd (cc)
status_result-some fs [] r h = elim (Option-cases (completion_status (read_text "status" fs))) [
  | inl e ↦ absurd (ground arith)
  | inr (c, e) ↦
      let same : status_report_of fs c ≡ r = ground arith in
      let status : c ≡ r.status = ap (λ (x : CompletionReturn). x.status) same in
      (refl, e ∙ ap some status, subst (λ x. status_report_of fs x ≡ r) status same)
]

status_result-accepts :
    (fs : Fields) (r : CompletionReturn)
    → required_text (get "run_instance_id" fs) ≡ some r.run_instance_id
    → required_text (get "step_id" fs) ≡ some r.step_id
    → required_text (get "status" fs) ≡ some (completion_name r.status)
    → read_summary (get "summary" fs) ≡ r.summary
    → (status_result fs []).status_report ≡ some r
unfolding status_result
status_result-accepts fs r runs steps statuses summary =
    let known = (completion_status_iff (completion_name r.status) r.status).1 refl in
    let run = read_text-some "run_instance_id" fs runs in
    let step = read_text-some "step_id" fs steps in
    let status = read_text-some "status" fs statuses in ground arith

module _ (fs : Fields) (r : CompletionReturn) where
  accepted-ReadsAs : (parse_status_report (obj fs)).status_report ≡ some r → ReadsAs fs r
  unfolding parse_status_report
  accepted-ReadsAs h =
      let (none_left, known, built) = status_result-some fs (status_issues fs) r h in
      let c = status_issues-Clean fs none_left in
      let (run, runs) = c.run in
      let (step, steps) = c.step in
      let (status, statuses, sound) = c.status in
      let run_eq : run ≡ r.run_instance_id =
        sym (read_text-some "run_instance_id" fs runs)
        ∙ ap (λ (x : CompletionReturn). x.run_instance_id) built in
      let step_eq : step ≡ r.step_id =
        sym (read_text-some "step_id" fs steps) ∙ ap (λ (x : CompletionReturn). x.step_id) built in
      let status_eq : status ≡ completion_name r.status =
        sym (read_text-some "status" fs statuses) ∙ (completion_status_iff _ r.status).0 known in
      record {
        keys = c.keys;
        run = (required_text_iff _ _).0 (runs ∙ ap some run_eq);
        step = (required_text_iff _ _).0 (steps ∙ ap some step_eq);
        status = (required_text_iff _ _).0 (statuses ∙ ap some status_eq);
        summary = (summary_iff _ _).0 (c.summary, ap (λ (x : CompletionReturn). x.summary) built);
      }

  ReadsAs-accepted : ReadsAs fs r → (parse_status_report (obj fs)).status_report ≡ some r
  unfolding parse_status_report
  ReadsAs-accepted a =
      let runs = (required_text_iff (get "run_instance_id" fs) r.run_instance_id).1 a.run in
      let steps = (required_text_iff (get "step_id" fs) r.step_id).1 a.step in
      let statuses = (required_text_iff (get "status" fs) (completion_name r.status)).1 a.status in
      let known = (completion_status_iff (completion_name r.status) r.status).1 refl in
      let (no_issue, summary) = (summary_iff (get "summary" fs) r.summary).1 a.summary in
      let clean : status_issues fs ≡ [] = Clean-status_issues fs (record {
        keys = a.keys;
        run = (r.run_instance_id, runs);
        step = (r.step_id, steps);
        status = (completion_name r.status, statuses, status_issue-name r.status);
        summary = no_issue;
      }) in
      rw clean (status_result-accepts fs r runs steps statuses summary)

-- The parser accepts an object as the report `r` exactly when the object stands for `r`: its keys
-- are among the four, the ids and the status are texts that are not blank, read with white space
-- trimmed off, the status is one of the two, and the summary is absent or a text.
pub parse_status_report_iff :
    (fs : Fields) (r : CompletionReturn)
    → ((parse_status_report (obj fs)).status_report ≡ some r) ↔ ReadsAs fs r
parse_status_report_iff fs r = (accepted-ReadsAs fs r, ReadsAs-accepted fs r)
