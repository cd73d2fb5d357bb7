-- ===== src/Core/Completion.antt =====
-- packages/protocol-runner-core/src/completion.ts: reading start and status reports from the JSON
-- values that a worker sends, and comparing them with what the run expects.
pub mod Laws
use protocol_runner.Common.{
  String, ◌==◌, includes, is_empty, trim, Bool, true, false, not, ◌||◌, Option, none, some, List,
  [], ◌∷◌, ◌++◌, template, or_else, if◌then◌else◌,
}
use protocol_runner.Core.Types.{
  Value, Fields, undefined, str, obj, field, end, CompletionStatus, CompletionReturn,
  StepStartReport, ValidationIssue, ValidationResult,
}

pub record StatusReportParseResult : Type 0 where
  pub ok : Bool
  pub issues : List ValidationIssue
  pub status_report : Option CompletionReturn

pub record StepStartReportParseResult : Type 0 where
  pub ok : Bool
  pub issues : List ValidationIssue
  pub start_report : Option StepStartReport

-- `input[key]` for an own property.
unfoldable pub get : String → Fields → Value
get key end = undefined
get key (field k v fs) = if k == key then v else get key fs

-- `key in input` for an own property.
unfoldable pub has_key : String → Fields → Bool
has_key key end = false
has_key key (field k v fs) = k == key || has_key key fs

abbrev pub issue : String → String → String → ValidationIssue
issue code path message = record { code = code; message = message; path = path }

abbrev pub allowed_keys : List String
allowed_keys = "run_instance_id" ∷ "step_id" ∷ "status" ∷ "summary" ∷ []

abbrev pub start_allowed_keys : List String
start_allowed_keys = "run_instance_id" ∷ "step_id" ∷ "prompt_attempt_id" ∷ "start_token" ∷ []

-- The loop over `Object.keys(input)`. `kind` is the code's prefix, `noun` the report's name.
unfoldable pub unexpected_keys : List String → String → String → Fields → List ValidationIssue
unexpected_keys allowed kind noun end = []
unexpected_keys allowed kind noun (field k v fs) =
    let rest = unexpected_keys allowed kind noun fs in
    if includes k allowed
    then rest
    else issue (template (kind ∷ "_key.unexpected" ∷ [])) (template ("$." ∷ k ∷ []))
        (template ("Unexpected " ∷ noun ∷ " key: " ∷ k ∷ "." ∷ []))
      ∷ rest

-- The trimmed text of a property, `none` unless it is a text that is not blank.
unfoldable pub required_text : Value → Option String
required_text (str s) = let t = trim s in if is_empty t then none else some t
required_text v = none

unfoldable pub required_issue : String → String → Option String → List ValidationIssue
required_issue kind key (some t) = []
required_issue kind key none =
    issue (template (kind ∷ "_key.required" ∷ [])) (template ("$." ∷ key ∷ []))
      (template (key ∷ " is required." ∷ []))
    ∷ []

unfoldable pub start_issues : Fields → List ValidationIssue
unfolding unexpected_keys required_issue
start_issues fs =
    let required =
      λ (key : String). required_issue "start_report" key (required_text (get key fs)) in
    unexpected_keys start_allowed_keys "start_report" "start report" fs
    ++ required "run_instance_id"
    ++ required "step_id"
    ++ required "prompt_attempt_id"
    ++ required "start_token"

unfoldable pub read_text : String → Fields → String
unfolding required_text get
read_text key fs = or_else (required_text (get key fs)) ""

unfoldable pub start_result : Fields → List ValidationIssue → StepStartReportParseResult
unfolding read_text
start_result fs (i ∷ is) = record { ok = false; issues = i ∷ is; start_report = none }
start_result fs [] = record {
  ok = true;
  issues = [];
  start_report = some (record {
    run_instance_id = read_text "run_instance_id" fs;
    step_id = read_text "step_id" fs;
    prompt_attempt_id = read_text "prompt_attempt_id" fs;
    start_token = read_text "start_token" fs;
  });
}

unfoldable pub parse_step_start_report : Value → StepStartReportParseResult
unfolding start_result start_issues
parse_step_start_report (obj fs) = start_result fs (start_issues fs)
parse_step_start_report v = record {
  ok = false;
  issues = issue "start_report.not_object" "$" "Start report must be an object." ∷ [];
  start_report = none;
}

-- `COMPLETION_STATUSES`, and the cast of a text that is one of them.
unfoldable pub completion_status : String → Option CompletionStatus
completion_status s =
    if s == "completed"
    then some CompletionStatus.completed
    else if s == "blocked"
    then some CompletionStatus.blocked
    else none

unfoldable pub status_issue : Option String → List ValidationIssue
unfolding completion_status
status_issue none = []
status_issue (some raw) = elim (completion_status raw) [
  | some st ↦ []
  | none ↦
      issue "status_report_status.invalid" "$.status" "status must be completed or blocked." ∷ []
]

-- `'summary' in input`: a value that is neither `undefined` nor a text is refused.
unfoldable pub summary_issue : Value → List ValidationIssue
summary_issue undefined = []
summary_issue (str s) = []
summary_issue v =
    issue "status_report_key.invalid" "$.summary" "summary must be a string when provided." ∷ []

-- A summary that is blank is left out.
unfoldable pub read_summary : Value → Option String
read_summary (str s) = let t = trim s in if is_empty t then none else some t
read_summary v = none

unfoldable pub status_issues : Fields → List ValidationIssue
unfolding unexpected_keys required_issue status_issue summary_issue
status_issues fs =
    let required =
      λ (key : String). required_issue "status_report" key (required_text (get key fs)) in
    unexpected_keys allowed_keys "status_report" "status report" fs
    ++ required "run_instance_id"
    ++ required "step_id"
    ++ required "status"
    ++ status_issue (required_text (get "status" fs))
    ++ summary_issue (get "summary" fs)

-- The status is one of the two when there is no issue.
unfoldable pub status_report_of : Fields → CompletionStatus → CompletionReturn
unfolding read_text read_summary
status_report_of fs status = record {
  run_instance_id = read_text "run_instance_id" fs;
  step_id = read_text "step_id" fs;
  status = status;
  summary = read_summary (get "summary" fs);
}

unfoldable pub status_result : Fields → List ValidationIssue → StatusReportParseResult
unfolding status_report_of completion_status read_text
status_result fs (i ∷ is) = record { ok = false; issues = i ∷ is; status_report = none }
status_result fs [] = record {
  ok = true;
  issues = [];
  status_report = elim (completion_status (read_text "status" fs)) [
    | none ↦ none
    | some status ↦ some (status_report_of fs status)
  ];
}

unfoldable pub parse_status_report : Value → StatusReportParseResult
unfolding status_result status_issues
parse_status_report (obj fs) = status_result fs (status_issues fs)
parse_status_report v = record {
  ok = false;
  issues = issue "status_report.not_object" "$" "Status report must be an object." ∷ [];
  status_report = none;
}

-- One comparison of a reported value with the expected one.
unfoldable pub mismatch : String → String → String → String → String → List ValidationIssue
mismatch kind noun key reported expected =
    if reported == expected
    then []
    else issue (template (kind ∷ "." ∷ key ∷ "_mismatch" ∷ [])) (template ("$." ∷ key ∷ []))
        (template (noun ∷ " " ∷ key ∷ " " ∷ reported ∷ " does not match " ∷ expected ∷ "." ∷ []))
      ∷ []

abbrev no_issues : List ValidationIssue → Bool
no_issues [] = true
no_issues (i ∷ is) = false

unfoldable pub validate_status_report_for_step :
    CompletionReturn → String → String → ValidationResult
unfolding mismatch
validate_status_report_for_step report run_instance_id step_id =
    let compare = mismatch "status_report" "Status report" in
    let issues =
      compare "run_instance_id" report.run_instance_id run_instance_id
      ++ compare "step_id" report.step_id step_id in
    record { ok = no_issues issues; issues = issues }

-- A token that does not match is not shown.
unfoldable pub token_mismatch : String → String → List ValidationIssue
token_mismatch reported expected =
    if reported == expected
    then []
    else issue "start_report.start_token_mismatch" "$.start_token"
        "Start report token does not match."
      ∷ []

unfoldable pub validate_step_start_report : StepStartReport → StepStartReport → ValidationResult
unfolding mismatch token_mismatch
validate_step_start_report report expected =
    let compare = mismatch "start_report" "Start report" in
    let issues =
      compare "run_instance_id" report.run_instance_id expected.run_instance_id
      ++ compare "step_id" report.step_id expected.step_id
      ++ compare "prompt_attempt_id" report.prompt_attempt_id expected.prompt_attempt_id
      ++ token_mismatch report.start_token expected.start_token in
    record { ok = no_issues issues; issues = issues }
