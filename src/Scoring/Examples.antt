-- ===== src/Scoring/Examples.antt =====
-- A change with a migration, and a run with one retry.
use ai_agent_workflow.Prelude.{◌≤◌, ◌≡◌, refl, true, none, some, List, [], ◌∷◌, ok, arith}
use ai_agent_workflow.Scoring.Levels.{Level, Metadata, no_metadata, risk_order}
use ai_agent_workflow.Scoring.Risk.{Risk, assess_risk, risk_with, should_pause_for_approval}
use ai_agent_workflow.Scoring.Pauses.{pauses, pauses_by_level, larger_is_riskier}
use ai_agent_workflow.Scoring.Stability.{Step, no_checks, compute_workflow_stability_score}

abbrev migrating : Metadata
migrating = record no_metadata { operations = " Migration " ∷ "delete" ∷ "edit" ∷ [] }

-- The risk of these operations in a change of 21 files.
abbrev twenty_one_files : Risk
twenty_one_files = risk_with migrating true none 21 none

is_high_risk : assess_risk (some migrating) none [] 21 ≡ ok twenty_one_files
unfolding assess_risk
is_high_risk = refl

its_level : twenty_one_files.level ≡ Level.high
unfolding risk_with
its_level = refl

pauses_by_level_example :
    should_pause_for_approval twenty_one_files none "before_apply"
    ≡ pauses twenty_one_files.level "before_apply"
pauses_by_level_example = pauses_by_level (some migrating) none [] 21 "before_apply" is_high_risk

larger_is_riskier_example :
    risk_order (risk_with migrating true none 5 none).level
    ≤ risk_order (risk_with migrating true none 21 none).level
larger_is_riskier_example = larger_is_riskier migrating true true none none 5 21 (omega arith)

abbrev retried : List Step
retried = record { key = "build"; status = "passed"; retries = 1 } ∷ []

one_retry : (compute_workflow_stability_score "'done'" (some "done") retried no_checks).score ≡ 96
unfolding compute_workflow_stability_score
one_retry = refl
