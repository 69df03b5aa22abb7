-- ===== src/Retry/Guard.antt =====
-- `record_failure_attempt` and `clear_retry_history`. The class and the fingerprint of a message, the
-- test for a missing file change, and the comparison of two snapshots of the project are parameters.
use mathlib.Core.List.{reverse}
use ai_agent_workflow.Prelude.{
  ℕ, ◌+◌, ◌-◌, String, str_append, Bool, not, ◌&&◌, Option, none, some, List, [], ◌∷◌, ◌++◌, str_eq,
  if◌then◌else◌, find, select, keep_last, length, or_else, clip, truthy_or,
}
use ai_agent_workflow.Retry.Budget.{recovery_budget, Counters, count_at, incremented}
use ai_agent_workflow.Retry.Records.{
  Judgement, Entry, GuardedRun, Failed, Attempt, Comparison, external_progress, history_limit,
  is_text, or_text, task_of, task_scope,
}

module _ {Snapshot : Type 0} where
  abbrev pub from_step : String → Entry Snapshot → Bool
  from_step step_key item = is_text (or_text item.source_step item.step_key) step_key

  abbrev pub same_scope : String → String → String → Entry Snapshot → Bool
  same_scope step_key task failure_class item =
      from_step step_key item
      && (str_eq (task_of item.task_id) task
          && str_eq (truthy_or item.failure_class failure_class) failure_class)

  -- The loop over the reversed history: the entries of the scope up to another signature, those with
  -- the same fingerprint and those without a file change counted.
  unfoldable pub count_loop :
      (String → Bool)
      → (Entry Snapshot → Bool)
      → String
      → String
      → List (Entry Snapshot)
      → ℕ
      → ℕ
      → ℕ × ℕ
  count_loop no_file scope signature fp [] same no_change = (same, no_change)
  count_loop no_file scope signature fp (item ∷ rest) same no_change =
      let counts = scope item in
      let same' = if counts && is_text item.fingerprint fp then same + 1 else same in
      let no_change' =
        if counts && no_file (or_else item.message "") then no_change + 1 else no_change in
      let later = count_loop no_file scope signature fp rest same' no_change' in
      if counts && not (str_eq (or_else item.progress_signature "") signature)
      then (same, no_change)
      else later

  abbrev pub snapshot_of : Option (Entry Snapshot) → Option Snapshot
  snapshot_of none = none
  snapshot_of (some item) = item.progress_snapshot

  abbrev pub signature_of : Option (Entry Snapshot) → String
  signature_of none = ""
  signature_of (some item) = or_else item.progress_signature ""

  module _ (judge : Judgement Snapshot) where
    abbrev pub class_of : Failed Snapshot → String
    class_of f = judge.failure_class f.error f.step_key

    -- `progress or _progress_signature(current_snapshot)`
    abbrev pub current_signature : Failed Snapshot → String
    current_signature f = truthy_or f.progress (judge.progress_signature f.snapshot)

    abbrev pub scope_of : Failed Snapshot → Entry Snapshot → Bool
    scope_of f = same_scope f.step_key (task_of f.task_id) (class_of f)

    unfoldable pub comparison_of : List (Entry Snapshot) → Failed Snapshot → Comparison
    comparison_of history f =
        let previous = find (scope_of f) (reverse history) in
        external_progress f.progress (signature_of previous) (current_signature f)
          (judge.compare_progress (snapshot_of previous) f.snapshot)

    abbrev pub new_entry : List (Entry Snapshot) → Failed Snapshot → Entry Snapshot
    new_entry history f = record {
      source_step = some f.step_key;
      step_key = some f.step_key;
      task_id = some (task_of f.task_id);
      retry_target = truthy_or f.retry_target f.step_key;
      failure_class = some (class_of f);
      fingerprint = some (judge.fingerprint f.error);
      message = some (clip 500 f.error);
      progress_signature = some (current_signature f);
      progress_snapshot = some f.snapshot;
      comparison = comparison_of history f;
    }

    abbrev pub class_scope : Failed Snapshot → String
    class_scope f =
        str_append (task_scope f.step_key (task_of f.task_id)) (str_append ":" (class_of f))

    abbrev pub fingerprint_scope : Failed Snapshot → String
    fingerprint_scope f = str_append (class_scope f) (
        str_append ":"
          (str_append (judge.fingerprint f.error) (str_append ":" (current_signature f))))

    unfoldable pub counted : Failed Snapshot → Counters → Counters
    counted f c = record {
      total = c.total + 1;
      steps = incremented c.steps f.step_key;
      tasks = incremented c.tasks (task_scope f.step_key (task_of f.task_id));
      classes = incremented c.classes (class_scope f);
      fingerprints = incremented c.fingerprints (fingerprint_scope f);
      no_file_change =
          if judge.is_no_file_change f.error
          then incremented c.no_file_change (task_scope f.step_key (task_of f.task_id))
          else c.no_file_change;
    }

    unfoldable pub recorded : GuardedRun Snapshot → Failed Snapshot → GuardedRun Snapshot
    recorded run f = record run {
      history = keep_last history_limit (run.history ++ new_entry run.history f ∷ []);
      counters = counted f run.counters;
    }

    -- What the call returns, from the run as it leaves it.
    unfoldable pub attempt_of :
        List (Entry Snapshot) → GuardedRun Snapshot → Failed Snapshot → Attempt
    attempt_of history run f =
        let (same, no_change) =
          count_loop judge.is_no_file_change (scope_of f) (current_signature f)
            (judge.fingerprint f.error) (reverse run.history) 0 0 in
        record {
          failure_class = class_of f;
          same_failure_count = same;
          no_file_change_count = no_change;
          is_no_file_change = judge.is_no_file_change f.error;
          run_failure_count = run.counters.total;
          step_failure_count = count_at run.counters.steps f.step_key;
          task_failure_count =
              count_at run.counters.tasks (task_scope f.step_key (task_of f.task_id));
          failure_class_count = count_at run.counters.classes (class_scope f);
          fingerprint_count = count_at run.counters.fingerprints (fingerprint_scope f);
          no_file_change_total =
              count_at run.counters.no_file_change (task_scope f.step_key (task_of f.task_id));
          elapsed = f.elapsed;
          progress_detected = (comparison_of history f).improved;
          budget = recovery_budget (run.candidates f.step_key) run.env;
        }

    unfoldable pub record_failure_attempt :
        GuardedRun Snapshot → Failed Snapshot → GuardedRun Snapshot × Attempt
    record_failure_attempt run f = (recorded run f, attempt_of run.history (recorded run f) f)

  -- The entries of a step, and of a task if one is given.
  abbrev pub is_cleared : String → Option String → Entry Snapshot → Bool
  is_cleared step_key none item = from_step step_key item
  is_cleared step_key (some task) item =
      from_step step_key item && str_eq (task_of item.task_id) task

  unfoldable pub clear_retry_history :
      GuardedRun Snapshot → String → Option String → GuardedRun Snapshot × ℕ
  clear_retry_history run step_key task_id =
      let kept = select (λ item. not (is_cleared step_key task_id item)) run.history in
      (record run { history = kept }, length run.history - length kept)
