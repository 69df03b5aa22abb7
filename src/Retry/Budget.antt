-- ===== src/Retry/Budget.antt =====
-- `recovery_budget` and the counters of `retry_budget_counters`.
use ai_agent_workflow.Prelude.{ℕ, ◌+◌, String, Option, none, some, List, [], ◌∷◌, or_else}
use ai_agent_workflow.Prelude.Dict.{Dict, get, put}

pub data BudgetKey : Type 0 where
  max_run_failures max_step_failures max_task_failures : BudgetKey
  max_failure_class max_fingerprint wall_clock_minutes fresh_session_every : BudgetKey

-- What `int(value)` gives for a configured value.
pub data Configured : Type 0 where
  unparsable negative : Configured
  number : ℕ → Configured

abbrev pub Budget : Type 0
Budget = BudgetKey → ℕ

-- A dictionary that may lack keys: of the run, of the step, or of the environment.
abbrev pub Candidate : Type 0
Candidate = BudgetKey → Option Configured

-- `_DEFAULT_BUDGET`
abbrev pub default_budget : Budget
default_budget BudgetKey.max_run_failures = 40
default_budget BudgetKey.max_step_failures = 24
default_budget BudgetKey.max_task_failures = 12
default_budget BudgetKey.max_failure_class = 12
default_budget BudgetKey.max_fingerprint = 9
default_budget BudgetKey.wall_clock_minutes = 60
default_budget BudgetKey.fresh_session_every = 3

-- `_positive_int`
abbrev pub positive_int : Configured → ℕ → ℕ
positive_int Configured.unparsable default = default
positive_int Configured.negative default = 0
positive_int (Configured.number n) default = n

abbrev pub configured : Option Configured → ℕ → ℕ → ℕ
configured none default kept = kept
configured (some value) default kept = positive_int value default

-- Each dictionary in turn, those that are not dictionaries left out.
unfoldable pub with_candidates : List Candidate → Budget → Budget
with_candidates [] budget key = budget key
with_candidates (candidate ∷ rest) budget key =
    with_candidates rest (λ k. configured (candidate k) (default_budget k) (budget k)) key

-- The dictionaries of the run and the step, then the environment, whose bad values change nothing.
unfoldable pub recovery_budget : List Candidate → Candidate → Budget
recovery_budget candidates env key =
    let budget : Budget = with_candidates candidates default_budget in
    configured (env key) (budget key) (budget key)

pub record Counters : Type 0 where
  pub total : ℕ
  pub steps : Dict ℕ
  pub tasks : Dict ℕ
  pub classes : Dict ℕ
  pub fingerprints : Dict ℕ
  pub no_file_change : Dict ℕ

abbrev pub count_at : Dict ℕ → String → ℕ
count_at counts key = or_else (get counts key) 0

-- `_increment`
abbrev pub incremented : Dict ℕ → String → Dict ℕ
incremented counts key = put counts key (count_at counts key + 1)
