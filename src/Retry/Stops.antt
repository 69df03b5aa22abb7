-- ===== src/Retry/Stops.antt =====
-- Retries end: the cumulative budgets hold whatever the errors, and clearing the history keeps them.
use ai_agent_workflow.Prelude.{
  ℕ, ◌+◌, ◌*◌, ◌≤◌, ◌<◌, String, ◌≡◌, refl, sym, ap, ◌∙◌, ◌⊎◌, inl, inr, Bool, true, false, not,
  ◌&&◌, ◌||◌, Option, none, some, List, [], ◌∷◌, arith, leb, ◌==◌, is_some, or_else, any, select,
  length, Bool-cases,
}
use ai_agent_workflow.Prelude.Dict.{get-put_self}
use ai_agent_workflow.Retry.Budget.{BudgetKey, Budget, recovery_budget, count_at, incremented}
use ai_agent_workflow.Retry.Records.{Attempt, task_of, task_scope, Judgement, GuardedRun, Failed}
use ai_agent_workflow.Retry.Guard.{
  counted, recorded, attempt_of, record_failure_attempt, is_cleared, clear_retry_history,
}
use ai_agent_workflow.Retry.Decide.{
  HardReason, SoftReason, Limits, is_stop, reaches, first_of, hard_reason, decision,
  should_stop_retry,
}

-- A count that the budget does not bound or that has not reached it.
abbrev pub IsWithin : Budget → BudgetKey → ℕ → Type 0
IsWithin budget key count = (budget key ≡ 0) ⊎ (count < budget key)

not_reached :
    (budget : Budget) (key : BudgetKey) (count : ℕ)
    → reaches budget key count ≡ false
    → IsWithin budget key count
not_reached budget key count h = elim (Bool-cases (budget key == 0)) [
  | inl e ↦ inl (ground arith)
  | inr e ↦ inr (ground arith)
]

within :
    (b c : Budget) (key : BudgetKey) (n m : ℕ)
    → reaches b key n ≡ false
    → b ≡ c
    → n ≡ m
    → IsWithin c key m
within b c key n m h e e' =
    not_reached c key m
      (sym (ap (λ (x : Budget). reaches x key n) e ∙ ap (λ k. reaches c key k) e') ∙ h)

none_of :
    (a b c d e : Bool)
    → (a || (b || (c || (d || e)))) ≡ false
    → (b ≡ false) × (c ≡ false) × (d ≡ false)
none_of a b c d e h = ground arith

first_of_some :
    (b : Bool) (r : HardReason) (rest : Option HardReason)
    → is_some (first_of b r rest) ≡ (b || is_some rest)
first_of_some true r rest = refl
first_of_some false r rest = refl

is_stop-decision :
    (scope : String) (hard : Option HardReason) (soft : Option SoftReason)
    → is_stop (decision scope hard soft) ≡ is_some hard
unfolding decision
is_stop-decision scope (some r) soft = refl
is_stop-decision scope none none = refl
is_stop-decision scope none (some r) = refl

-- Which checks stop a run.
is_some-hard_reason :
    (a : Attempt)
    → is_some (hard_reason a) ≡ (
        (not (a.budget BudgetKey.wall_clock_minutes == 0)
          && leb (a.budget BudgetKey.wall_clock_minutes * 1000) a.elapsed)
        || (reaches a.budget BudgetKey.max_run_failures a.run_failure_count
            || (reaches a.budget BudgetKey.max_step_failures a.step_failure_count
                || (reaches a.budget BudgetKey.max_task_failures a.task_failure_count
                    || ((not a.progress_detected
                          && reaches a.budget BudgetKey.max_failure_class a.failure_class_count)
                        || ((not a.progress_detected
                              && reaches a.budget BudgetKey.max_fingerprint a.fingerprint_count)
                            || false))))))
unfolding hard_reason
is_some-hard_reason a = simp first_of_some

module _ {Snapshot : Type 0} (judge : Judgement Snapshot) (limits : Limits) where
  -- The run after some failures, whatever was decided.
  pub run_after : GuardedRun Snapshot → List (Failed Snapshot) → GuardedRun Snapshot
  run_after run [] = run
  run_after run (f ∷ rest) = run_after (should_stop_retry judge limits run f).0 rest

  run_after_total :
      (run : GuardedRun Snapshot) (calls : List (Failed Snapshot))
      → ((run_after run calls).counters.total ≡ run.counters.total + length calls)
        × ((run_after run calls).candidates ≡ run.candidates)
        × ((run_after run calls).env ≡ run.env)
  unfolding run_after
  run_after_total run [] = (omega arith, refl, refl)
  run_after_total run (f ∷ rest) =
      let next : GuardedRun Snapshot = (should_stop_retry judge limits run f).0 in
      let (t, c, e) = run_after_total next rest in
      let one : next.counters.total ≡ run.counters.total + 1 =
        unfold should_stop_retry in
        unfold record_failure_attempt in unfold recorded in unfold counted in refl in
      (
        omega arith,
        c ∙ (unfold should_stop_retry in unfold record_failure_attempt in unfold recorded in refl),
        e ∙ (unfold should_stop_retry in unfold record_failure_attempt in unfold recorded in refl),
      )

  abbrev budget_of : GuardedRun Snapshot → Failed Snapshot → Budget
  budget_of run f = recovery_budget (run.candidates f.step_key) run.env

  abbrev attempt : GuardedRun Snapshot → Failed Snapshot → Attempt
  attempt run f = (record_failure_attempt judge run f).1

  count_incremented :
      (counts : List (String × ℕ)) (key : String)
      → count_at (incremented counts key) key ≡ count_at counts key + 1
  count_incremented counts key =
      ap (λ o. or_else o 0) (get-put_self counts key (count_at counts key + 1))

  attempt_counts :
      (run : GuardedRun Snapshot) (f : Failed Snapshot)
      → ((attempt run f).run_failure_count ≡ run.counters.total + 1)
        × ((attempt run f).step_failure_count ≡ count_at run.counters.steps f.step_key + 1)
        × ((attempt run f).task_failure_count
            ≡ count_at run.counters.tasks (task_scope f.step_key (task_of f.task_id)) + 1)
        × ((attempt run f).budget ≡ budget_of run f)
  unfolding record_failure_attempt attempt_of recorded counted
  attempt_counts run f = (
    refl,
    count_incremented run.counters.steps f.step_key,
    count_incremented run.counters.tasks _,
    refl,
  )

  stops_by_reason :
      (run : GuardedRun Snapshot) (f : Failed Snapshot)
      → is_stop (should_stop_retry judge limits run f).1 ≡ is_some (hard_reason (attempt run f))
  unfolding should_stop_retry
  stops_by_reason run f = is_stop-decision _ (hard_reason (attempt run f)) _

  -- However the errors, the steps and the tasks of the failures differ, a run is stopped at the
  -- failure with which their number reaches the positive budget of the run, and at any later one.
  pub stops_in_budget :
      (run : GuardedRun Snapshot) (calls : List (Failed Snapshot)) (f : Failed Snapshot)
      → 1 ≤ recovery_budget (run.candidates f.step_key) run.env BudgetKey.max_run_failures
      → recovery_budget (run.candidates f.step_key) run.env BudgetKey.max_run_failures
        ≤ run.counters.total + length calls + 1
      → is_stop (should_stop_retry judge limits (run_after run calls) f).1 ≡ true
  stops_in_budget run calls f positive enough =
      let run' : GuardedRun Snapshot = run_after run calls in
      let (total, candidates, env) = run_after_total run calls in
      let (runs, steps, tasks, budget) = attempt_counts run' f in
      let same : budget_of run' f ≡ budget_of run f = rw (candidates, env) refl in
      let m : (attempt run' f).budget BudgetKey.max_run_failures
          ≡ budget_of run f BudgetKey.max_run_failures =
        ap (λ (b : Budget). b BudgetKey.max_run_failures) (budget ∙ same) in
      let hit : reaches (attempt run' f).budget BudgetKey.max_run_failures
            (attempt run' f).run_failure_count
          ≡ true =
        rw (m, runs, total) (ground arith) in
      stops_by_reason run' f ∙ is_some-hard_reason (attempt run' f) ∙ rw hit (ground arith)

  -- A failure that does not stop the run is within the budgets of the run, of its step and of its
  -- task, where these are not zero.
  pub continues-IsWithin :
      (run : GuardedRun Snapshot) (f : Failed Snapshot)
      → is_stop (should_stop_retry judge limits run f).1 ≡ false
      → let budget = recovery_budget (run.candidates f.step_key) run.env in
        IsWithin budget BudgetKey.max_run_failures (run.counters.total + 1)
        × IsWithin budget BudgetKey.max_step_failures (count_at run.counters.steps f.step_key + 1)
        × IsWithin budget BudgetKey.max_task_failures
            (count_at run.counters.tasks (task_scope f.step_key (task_of f.task_id)) + 1)
  continues-IsWithin run f h =
      let (runs, steps, tasks, budget) = attempt_counts run f in
      let none_hit = sym (is_some-hard_reason (attempt run f)) ∙ sym (stops_by_reason run f) ∙ h in
      let (no_run, no_step, no_task) = none_of _ _ _ _ _ none_hit in
      (
        within _ _ BudgetKey.max_run_failures _ _ no_run budget runs,
        within _ _ BudgetKey.max_step_failures _ _ no_step budget steps,
        within _ _ BudgetKey.max_task_failures _ _ no_task budget tasks,
      )

length-select : {A : Type 0} (p : A → Bool) (xs : List A) → length (select p xs) ≤ length xs
length-select p [] = omega arith
length-select p (x ∷ xs) = ground (arith, length-select p xs)

none_selected :
    {A : Type 0} (p : A → Bool) (xs : List A) → any p (select (λ x. not (p x)) xs) ≡ false
none_selected p [] = refl
none_selected p (x ∷ xs) = ground (arith, none_selected p xs)

-- Clearing forgets the failures of the step, and of the task if one is given, returns how many they
-- were, and leaves all the counters of the budgets as they were.
pub cleared_keeps_budgets :
    {Snapshot : Type 0} (run : GuardedRun Snapshot) (step_key : String) (task_id : Option String)
    → let (run', removed) = clear_retry_history run step_key task_id in
      (run'.counters ≡ run.counters)
      × (any (is_cleared step_key task_id) run'.history ≡ false)
      × (removed + length run'.history ≡ length run.history)
unfolding clear_retry_history
cleared_keeps_budgets run step_key task_id = (
  refl,
  none_selected (is_cleared step_key task_id) run.history,
  omega (arith, length-select (λ item. not (is_cleared step_key task_id item)) run.history),
)
