-- ===== src/Retry/Records.antt =====
-- What the retry guard keeps and reads (app/workflow_runtime/retry_guard.py).
use ai_agent_workflow.Prelude.{
  ℕ, String, str_append, Bool, true, false, not, ◌&&◌, ◌||◌, Option, none, some, List, [], ◌∷◌,
  str_eq, if◌then◌else◌, or_else, truthy_or,
}
use ai_agent_workflow.Retry.Budget.{Budget, Candidate, Counters}

pub record Comparison : Type 0 where
  pub state : String
  pub improved : Bool
  pub reasons : List String
  pub regressions : List String

-- `classify_failure(...)["code"] or "UNKNOWN"`, `failure_fingerprint`, `is_no_file_change_error`,
-- `compare_progress` and `progress_signature`.
pub record Judgement (Snapshot : Type 0) : Type 0 where
  pub failure_class : String → String → String
  pub fingerprint : String → String
  pub is_no_file_change : String → Bool
  pub compare_progress : Option Snapshot → Snapshot → Comparison
  pub progress_signature : Snapshot → String

-- An entry of `retry_guard_history`; older entries may lack keys.
pub record Entry (Snapshot : Type 0) : Type 0 where
  pub source_step : Option String
  pub step_key : Option String
  pub task_id : Option String
  pub retry_target : String
  pub failure_class : Option String
  pub fingerprint : Option String
  pub message : Option String
  pub progress_signature : Option String
  pub progress_snapshot : Option Snapshot
  pub comparison : Comparison

-- The keys of the run document that the guard uses, and where its budget comes from: for each step
-- the dictionaries that are present, and the environment.
pub record GuardedRun (Snapshot : Type 0) : Type 0 where
  pub history : List (Entry Snapshot)
  pub counters : Counters
  pub candidates : String → List Candidate
  pub env : Candidate

-- The arguments of a call, the snapshot that `capture_progress` takes, and the time since the start
-- of the run in thousandths of a minute, to which the source rounds.
pub record Failed (Snapshot : Type 0) : Type 0 where
  pub step_key : String
  pub error : String
  pub task_id : Option String
  pub retry_target : Option String
  pub progress : Option String
  pub snapshot : Snapshot
  pub elapsed : ℕ

pub record Attempt : Type 0 where
  pub failure_class : String
  pub same_failure_count : ℕ
  pub no_file_change_count : ℕ
  pub is_no_file_change : Bool
  pub run_failure_count : ℕ
  pub step_failure_count : ℕ
  pub task_failure_count : ℕ
  pub failure_class_count : ℕ
  pub fingerprint_count : ℕ
  pub no_file_change_total : ℕ
  pub elapsed : ℕ
  pub progress_detected : Bool
  pub budget : Budget

-- `a or b` of two texts that may be missing.
abbrev pub or_text : Option String → Option String → Option String
or_text none b = b
or_text (some a) b = if str_eq a "" then b else some a

abbrev pub is_text : Option String → String → Bool
is_text none s = false
is_text (some a) s = str_eq a s

abbrev pub history_limit : ℕ
history_limit = 200

abbrev pub task_of : Option String → String
task_of task_id = or_else task_id ""

-- `f"{step_key}:{task or '-'}"`
abbrev pub task_scope : String → String → String
task_scope step_key task = str_append step_key (str_append ":" (truthy_or (some task) "-"))

unfoldable pub external_progress : Option String → String → String → Comparison → Comparison
external_progress none previous current comparison = comparison
external_progress (some progress) previous current comparison =
    if not (str_eq progress "")
      && (not (str_eq previous "")
          && (not (str_eq previous current)
              && (str_eq comparison.state "initial" || str_eq comparison.state "unchanged")))
    then record {
      state = "improved";
      improved = true;
      reasons = "external progress signature changed" ∷ [];
      regressions = [];
    }
    else comparison
