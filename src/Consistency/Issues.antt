-- ===== src/Consistency/Issues.antt =====
-- What a check reads, and what it reports (app/workflow_runtime/run_consistency.py). The files of a
-- workspace, and what `json.loads` makes of them, are a parameter; a state file that holds no
-- dictionary, at which the check raises, has no case.
use ai_agent_workflow.Prelude.{
  ℕ, String, Bool, true, false, not, if◌then◌else◌, Option, List, any, select, length,
}
use ai_agent_workflow.Recovery.Runs.{Run}
use ai_agent_workflow.Recovery.Locks.{LockFile}

-- A line of `events.jsonl`: nothing but space, no JSON, JSON without a type, or with one.
pub data Line : Type 0 where
  blank invalid untyped : Line
  typed : String → Line

-- `state.json`, where the status may be missing.
pub data StateFile : Type 0 where
  no_state : StateFile
  state : Option String → StateFile

-- `index.json` with the paths of its records: missing, no dictionary, or read.
pub data IndexFile : Type 0 where
  no_index bad_index : IndexFile
  index : List (Option String) → IndexFile

-- The workspace of a run. `Path` of no text is the current directory, which exists.
pub record Folder : Type 0 where
  pub path : String
  pub exists : Bool
  pub state_json : StateFile
  pub events_jsonl : List Line
  pub index_json : IndexFile
  pub has_artifact : String → Bool
  pub has_final_report : Bool

pub data Severity : Type 0 where
  error warning : Severity

-- The further entries of an issue.
pub data Detail : Type 0 where
  nothing_more : Detail
  workspace : String → Detail
  statuses : String → Option String → Detail
  failed_steps : List (Option String) → Detail
  event_types : List String → Detail
  artifact : String → Detail
  lock : LockFile → Detail

pub record Issue : Type 0 where
  pub severity : Severity
  pub run_id : Option String
  pub workflow_id : Option String
  pub status : String
  pub issue : String
  pub detail : Detail

unfoldable pub status_issue : Run → String → Severity → Detail → Issue
status_issue run issue severity detail = record {
  severity = severity;
  run_id = run.id;
  workflow_id = run.workflow_id;
  status = run.status;
  issue = issue;
  detail = detail;
}

abbrev pub is_error : Severity → Bool
is_error Severity.error = true
is_error Severity.warning = false

abbrev pub is_severe : Issue → Bool
is_severe issue = is_error issue.severity

abbrev pub is_minor : Issue → Bool
is_minor issue = not (is_severe issue)

pub record RunCheck : Type 0 where
  pub run_id : Option String
  pub status : String
  pub checked_at : String
  pub issue_count : ℕ
  pub error_count : ℕ
  pub warning_count : ℕ
  pub issues : List Issue

unfoldable pub report_of : Option String → String → List Issue → RunCheck
report_of run_id now issues = record {
  run_id = run_id;
  status = if any is_severe issues then "FAIL" else "PASS";
  checked_at = now;
  issue_count = length issues;
  error_count = length (select is_severe issues);
  warning_count = length (select is_minor issues);
  issues = issues;
}
