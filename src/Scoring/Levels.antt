-- ===== src/Scoring/Levels.antt =====
-- The levels of a risk, and what each recommends (app/workflow_runtime/risk_engine.py).
use ai_agent_workflow.Prelude.{ℕ, String, Option, none, some, List, [], str_eq, if◌then◌else◌, leb}

pub data Level : Type 0 where
  low medium high critical : Level

abbrev pub level_text : Level → String
level_text Level.low = "low"
level_text Level.medium = "medium"
level_text Level.high = "high"
level_text Level.critical = "critical"

-- The level with a name, as in `RISK_ORDER`.
unfoldable pub level_named : String → Option Level
level_named name =
    if str_eq name "low"
    then some Level.low
    else if str_eq name "medium"
    then some Level.medium
    else if str_eq name "high"
    then some Level.high
    else if str_eq name "critical"
    then some Level.critical
    else none

-- `RISK_ORDER`
abbrev pub risk_order : Level → ℕ
risk_order Level.low = 0
risk_order Level.medium = 1
risk_order Level.high = 2
risk_order Level.critical = 3

-- `_level`
unfoldable pub level_of : ℕ → Level
level_of score =
    if leb 10 score
    then Level.critical
    else if leb 6 score
    then Level.high
    else if leb 3 score
    then Level.medium
    else Level.low

-- The keys of the contract's metadata; a score is not negative.
pub record Metadata : Type 0 where
  pub level : Option String
  pub reasons : List String
  pub score : ℕ
  pub operations : List String

abbrev pub no_metadata : Metadata
no_metadata = record { level = none; reasons = []; score = 0; operations = [] }

pub record Behavior : Type 0 where
  pub patch_mode : String
  pub approval_mode : String
  pub reviewers : ℕ
  pub checkpoint : String

abbrev pub behavior : Level → Behavior
behavior Level.low = record {
  patch_mode = "atomic_apply";
  approval_mode = "fully_automatic";
  reviewers = 1;
  checkpoint = "per_step";
}
behavior Level.medium = record {
  patch_mode = "atomic_apply";
  approval_mode = "milestones";
  reviewers = 1;
  checkpoint = "per_task";
}
behavior Level.high = record {
  patch_mode = "review";
  approval_mode = "review_before_apply";
  reviewers = 2;
  checkpoint = "per_task";
}
behavior Level.critical = record {
  patch_mode = "dry_run";
  approval_mode = "plan_and_patch_only";
  reviewers = 2;
  checkpoint = "per_task";
}
