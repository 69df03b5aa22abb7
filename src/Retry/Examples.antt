-- ===== src/Retry/Examples.antt =====
-- A run that fails with one message.
use ai_agent_workflow.Prelude.{
  ℕ, ◌+◌, ◌≤◌, String, ◌≡◌, refl, true, false, none, some, [], ◌∷◌, arith,
}
use ai_agent_workflow.Prelude.Dict.{get, put}
use ai_agent_workflow.Retry.Budget.{BudgetKey, with_candidates, recovery_budget, count_at}
use ai_agent_workflow.Retry.Records.{task_scope, external_progress, Judgement, GuardedRun, Failed}
use ai_agent_workflow.Retry.Guard.{
  count_loop, comparison_of, counted, recorded, attempt_of, record_failure_attempt,
  clear_retry_history,
}
use ai_agent_workflow.Retry.Decide.{
  Limits, is_stop, is_retry, hard_reason, soft_reason, decision, should_stop_retry,
}
use ai_agent_workflow.Retry.Stops.{IsWithin, run_after, stops_in_budget, continues-IsWithin}
use ai_agent_workflow.Retry.Repeats.{repeated, repeats_are_noticed}

-- A snapshot is a text, its own signature, and nothing counts as progress.
abbrev judge : Judgement String
judge = record {
  failure_class = λ text step_key. "TIMEOUT";
  fingerprint = λ text. text;
  is_no_file_change = λ text. false;
  compare_progress = λ before now. record {
    state = "unchanged";
    improved = false;
    reasons = [];
    regressions = [];
  };
  progress_signature = λ snapshot. snapshot;
}

abbrev limits : Limits
limits = record { repeated_failure = 3; no_file_change = 2 }

abbrev failed_before : ℕ → GuardedRun String
failed_before n = record {
  history = [];
  counters = record {
    total = n;
    steps = ("code", n) ∷ [];
    tasks = [];
    classes = [];
    fingerprints = [];
    no_file_change = [];
  };
  candidates = λ step_key. [];
  env = λ key. none;
}

abbrev timeout : Failed String
timeout = record {
  step_key = "code";
  error = "model timed out";
  task_id = some "T1";
  retry_target = none;
  progress = none;
  snapshot = "as it was";
  elapsed = 2500;
}

positive : 1 ≤ recovery_budget [] (λ key. none) BudgetKey.max_run_failures
unfolding recovery_budget with_candidates
positive = omega arith

enough : recovery_budget [] (λ key. none) BudgetKey.max_run_failures ≤ 38 + 1 + 1
unfolding recovery_budget with_candidates
enough = omega arith

stops_in_budget_example :
    is_stop
      (should_stop_retry judge limits
        (run_after judge limits (failed_before 38) (timeout ∷ []))
        timeout).1
    ≡ true
stops_in_budget_example =
    stops_in_budget judge limits (failed_before 38) (timeout ∷ []) timeout positive enough

goes_on : is_stop (should_stop_retry judge limits (failed_before 2) timeout).1 ≡ false
unfolding should_stop_retry decision hard_reason record_failure_attempt attempt_of recovery_budget
    recorded with_candidates counted get put comparison_of external_progress soft_reason count_loop
goes_on = refl

continues-IsWithin_example :
    IsWithin (recovery_budget [] (λ key. none)) BudgetKey.max_run_failures (2 + 1)
    × IsWithin
        (recovery_budget [] (λ key. none))
        BudgetKey.max_step_failures
        (count_at (("code", 2) ∷ []) "code" + 1)
    × IsWithin
        (recovery_budget [] (λ key. none))
        BudgetKey.max_task_failures
        (count_at [] (task_scope "code" "T1") + 1)
continues-IsWithin_example = continues-IsWithin judge limits (failed_before 2) timeout goes_on

abbrev cleared : GuardedRun String × ℕ
cleared =
    clear_retry_history (run_after judge limits (failed_before 2) (timeout ∷ [])) "code" (some "T1")

repeats_are_noticed_example :
    is_retry
      (should_stop_retry judge limits (repeated judge timeout limits (failed_before 2) 2) timeout).1
    ≡ false
repeats_are_noticed_example =
    repeats_are_noticed judge timeout limits (failed_before 2) 2 (omega arith) (omega arith)
