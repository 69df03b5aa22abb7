-- ===== src/Retry/Decide.antt =====
-- `should_stop_retry`. A message is one constructor, with the numbers and names that stand in it.
use ai_agent_workflow.Prelude.{
  ℕ, ◌*◌, ◌%◌, String, str_append, Bool, true, false, not, ◌&&◌, Option, none, some, str_eq,
  if◌then◌else◌, leb, ◌==◌,
}
use ai_agent_workflow.Retry.Budget.{BudgetKey, Budget}
use ai_agent_workflow.Retry.Records.{Attempt, Judgement, GuardedRun, Failed}
use ai_agent_workflow.Retry.Guard.{record_failure_attempt}

pub data HardReason : Type 0 where
  wall_clock : ℕ → ℕ → HardReason
  reached : BudgetKey → ℕ → ℕ → HardReason

pub data SoftReason : Type 0 where
  no_file_change same_failure : ℕ → SoftReason
  failure_class : String → ℕ → SoftReason

-- The first two of the returned values, with the recovery action: `stop`, `fresh_session`, `retry`.
pub data Decision : Type 0 where
  stop : String → HardReason → Decision
  fresh_session : String → SoftReason → Decision
  retry : Decision

-- `DEFAULT_REPEATED_FAILURE_LIMIT` and `NO_FILE_CHANGE_LIMIT`, read from the environment at start.
pub record Limits : Type 0 where
  pub repeated_failure : ℕ
  pub no_file_change : ℕ

abbrev pub is_stop : Decision → Bool
is_stop (stop scope reason) = true
is_stop _ = false

abbrev pub is_retry : Decision → Bool
is_retry retry = true
is_retry _ = false

-- `budget[key] and count >= budget[key]`
abbrev pub reaches : Budget → BudgetKey → ℕ → Bool
reaches budget key count = not (budget key == 0) && leb (budget key) count

abbrev pub first_of : Bool → HardReason → Option HardReason → Option HardReason
first_of true reason rest = some reason
first_of false reason rest = rest

abbrev pub check : Budget → BudgetKey → ℕ → Option HardReason → Option HardReason
check budget key count = first_of (reaches budget key count) (reached key count (budget key))

-- The two checks that a detected progress suspends.
abbrev pub check_unless : Bool → Budget → BudgetKey → ℕ → Option HardReason → Option HardReason
check_unless progress budget key count =
    first_of (not progress && reaches budget key count) (reached key count (budget key))

-- The loop over `hard_checks`; the time is in thousandths of a minute.
unfoldable pub hard_reason : Attempt → Option HardReason
hard_reason a =
    let b : Budget = a.budget in
    let minutes = b BudgetKey.wall_clock_minutes in
    first_of (not (minutes == 0) && leb (minutes * 1000) a.elapsed) (wall_clock a.elapsed minutes) (
      check b BudgetKey.max_run_failures a.run_failure_count (
        check b BudgetKey.max_step_failures a.step_failure_count (
          check b BudgetKey.max_task_failures a.task_failure_count (
            check_unless a.progress_detected b BudgetKey.max_failure_class a.failure_class_count (
              check_unless a.progress_detected b BudgetKey.max_fingerprint a.fingerprint_count
                none)))))

-- `count % n == 0`; the source does not come here with n = 0.
abbrev pub divides : ℕ → ℕ → Bool
divides n count = count % n == 0

unfoldable pub soft_reason : Limits → Attempt → Option SoftReason
soft_reason limits a =
    let every = a.budget BudgetKey.fresh_session_every in
    if a.is_no_file_change && leb limits.no_file_change a.no_file_change_count
    then some (no_file_change a.no_file_change_count)
    else if leb limits.repeated_failure a.same_failure_count
    then some (same_failure a.same_failure_count)
    else if not (every == 0) && divides every a.failure_class_count
    then some (failure_class a.failure_class a.failure_class_count)
    else none

abbrev pub shown_scope : String → Option String → String
shown_scope step_key none = step_key
shown_scope step_key (some task) =
    if str_eq task "" then step_key else str_append step_key (str_append "/" task)

unfoldable pub soft_decision : String → Option SoftReason → Decision
soft_decision scope none = retry
soft_decision scope (some reason) = fresh_session scope reason

unfoldable pub decision : String → Option HardReason → Option SoftReason → Decision
unfolding soft_decision
decision scope (some reason) soft = stop scope reason
decision scope none soft = soft_decision scope soft

unfoldable pub should_stop_retry :
    {Snapshot : Type 0}
    → Judgement Snapshot
    → Limits
    → GuardedRun Snapshot
    → Failed Snapshot
    → GuardedRun Snapshot × Decision
should_stop_retry judge limits run f =
    let (run', a) = record_failure_attempt judge run f in
    (run', decision (shown_scope f.step_key f.task_id) (hard_reason a) (soft_reason limits a))
