-- ===== src/Completion/Passes.antt =====
-- When the gate passes.
use ai_agent_workflow.Prelude.{
  String, ◌≡◌, refl, ap, ◌∙◌, Bool, true, false, not, ◌&&◌, Option, none, some, List, [], ◌∷◌,
  if◌then◌else◌, Result, err, ok,
}
use ai_agent_workflow.Completion.Records.{Evidence, Run, Gate, Verdict}
use ai_agent_workflow.Completion.Gate.{
  verdict, is_none, due, user_errors, tests_ok, test_errors, is_code_workflow, incomplete_tasks,
  active_failures, open_violations, gate_errors, evaluate_completion, require_completion,
}
use ai_agent_workflow.Completion.Checks.{
  is_none-append, tests_proved, user_allowed, is_fail, user_errors-is_none, user_verdict-is_fail,
  tests_allowed, test_errors-is_none, no_task_open, no_step_open, all_resolved,
  incomplete_tasks-is_none, active_failures-is_none, open_violations-is_none,
}

-- The conditions of a completed run.
abbrev pub may_complete : Evidence → Run → Bool
may_complete evidence run =
    tests_allowed evidence run
    && (user_allowed evidence run && (no_task_open run && (no_step_open run && all_resolved run)))

pub not-not : (b : Bool) → not (not b) ≡ b
not-not true = refl
not-not false = refl

pub due-is_none :
    {A : Type 0} (xs : List A) (message : String)
    → is_none (due (not (is_none xs)) message) ≡ is_none xs
due-is_none [] message = refl
due-is_none (x ∷ xs) message = refl

module _ (evidence : Evidence) (run : Run) where
  pub gate_errors-is_none : is_none (gate_errors evidence run) ≡ may_complete evidence run
  unfolding gate_errors
  gate_errors-is_none = rw (
    is_none-append (test_errors evidence run) _,
    is_none-append (user_errors evidence run) _,
    is_none-append (due (not (is_none (incomplete_tasks run))) _) _,
    is_none-append (due (not (is_none (active_failures run))) _) _,
    due-is_none (incomplete_tasks run) _,
    due-is_none (active_failures run) _,
    due-is_none (open_violations run) _,
    test_errors-is_none evidence run,
    user_errors-is_none evidence run,
    incomplete_tasks-is_none run,
    active_failures-is_none run,
    open_violations-is_none run,
  )

abbrev pub is_ok {ℓ} : {E A : Type ℓ} → Result E A → Bool
is_ok (ok a) = true
is_ok (err e) = false

abbrev pub is_pass_verdict : Verdict → Bool
is_pass_verdict Verdict.pass = true
is_pass_verdict _ = false

pub is_pass_verdict-verdict : (b : Bool) → is_pass_verdict (verdict b) ≡ b
is_pass_verdict-verdict true = refl
is_pass_verdict-verdict false = refl

pub is_ok-by_verdict :
    (v : Verdict) (gate : Gate) (message : String)
    → is_ok {E = String} {A = Gate} (elim v [ Verdict.pass ↦ ok gate | _ ↦ err message ])
      ≡ is_pass_verdict v
is_ok-by_verdict Verdict.pass gate message = refl
is_ok-by_verdict Verdict.fail gate message = refl
is_ok-by_verdict Verdict.not_configured gate message = refl

-- A run passes the gate, without an exception, if and only if its tests passed where it writes code,
-- its validation passed or is optional and did not fail, no task is failed, blocked, pending, running
-- or repairing, no step is failed, blocked or waiting for input (a pending or running step is no
-- obstacle), and all policy violations are resolved.
pub require_completion_when :
    (evidence : Evidence) (run : Run)
    → is_ok (require_completion evidence run) ≡ may_complete evidence run
unfolding require_completion evaluate_completion
require_completion_when evidence run =
    is_ok-by_verdict (evaluate_completion evidence run).status (evaluate_completion evidence run) _
    ∙ is_pass_verdict-verdict (is_none (gate_errors evidence run))
    ∙ gate_errors-is_none evidence run

abbrev pub optional_fails : Option Verdict → Bool
optional_fails none = false
optional_fails (some v) = is_fail v

-- No check of a gate says that it failed.
abbrev pub no_check_fails : Gate → Bool
no_check_fails gate =
    not (optional_fails gate.automated_tests)
    && (not (is_fail gate.user_validation)
        && (not (is_fail gate.accepted_tasks)
            && (not (is_fail gate.step_state) && not (is_fail gate.policy))))

pub optional_fails-tests :
    (writes tested : Bool)
    → not (optional_fails (if writes then some (verdict tested) else none))
      ≡ not (writes && not tested)
optional_fails-tests true true = refl
optional_fails-tests true false = refl
optional_fails-tests false tested = refl

pub not-is_fail-verdict : (b : Bool) → not (is_fail (verdict b)) ≡ b
not-is_fail-verdict true = refl
not-is_fail-verdict false = refl

-- The status and the checks of a gate agree: it passes if and only if no check fails.
pub status_by_checks :
    (evidence : Evidence) (run : Run)
    → (evaluate_completion evidence run).status
      ≡ verdict (no_check_fails (evaluate_completion evidence run))
unfolding evaluate_completion tests_ok
status_by_checks evidence run = ap verdict (
    gate_errors-is_none evidence run
    ∙ rw (
      optional_fails-tests (is_code_workflow run) (tests_proved evidence run),
      user_verdict-is_fail evidence run,
      not-is_fail-verdict (is_none (incomplete_tasks run)),
      not-is_fail-verdict (is_none (active_failures run)),
      not-is_fail-verdict (is_none (open_violations run)),
      not-not (user_allowed evidence run),
      incomplete_tasks-is_none run,
      active_failures-is_none run,
      open_violations-is_none run,
    ))
