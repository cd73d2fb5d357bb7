-- ===== src/Examples/Reports.antt =====
-- packages/protocol-runner-core/src/completion.ts: a status report and a start report.
use protocol_runner.Common.{◌≡◌, ◌↔◌, true, none, some}
use protocol_runner.Core.Types.{Value, Fields, CompletionReturn, CompletionStatus, StepStartReport}
use protocol_runner.Core.Completion.{parse_status_report, validate_status_report_for_step}
use protocol_runner.Core.Completion.Laws.{
  ReadsAs, parse_status_report_iff, validate_status_report_for_step_iff,
}

abbrev body : Fields
body = Fields.field "run_instance_id" (Value.str " run1 ") (
    Fields.field "step_id" (Value.str "s1")
      (Fields.field "status" (Value.str "completed") Fields.end))

abbrev report : CompletionReturn
report = record {
  run_instance_id = "run1";
  step_id = "s1";
  status = CompletionStatus.completed;
  summary = none;
}

abbrev start_report : StepStartReport
start_report = record {
  run_instance_id = "run1";
  step_id = "s1";
  prompt_attempt_id = "a1";
  start_token = "t1";
}

parse_status_report_iff_example :
    ((parse_status_report (Value.obj body)).status_report ≡ some report) ↔ ReadsAs body report
parse_status_report_iff_example = parse_status_report_iff body report

validate_status_report_for_step_iff_example :
    ((validate_status_report_for_step report "run1" "s1").ok ≡ true)
    ↔ ((report.run_instance_id ≡ "run1") × (report.step_id ≡ "s1"))
validate_status_report_for_step_iff_example = validate_status_report_for_step_iff report "run1" "s1"
