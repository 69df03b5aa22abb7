-- ===== src/Scoring/Pauses.antt =====
-- When an assessed risk pauses a run, and how the level grows with the change.
use ai_agent_workflow.Prelude.{
  ℕ, ◌≤◌, String, ◌≡◌, refl, Bool, true, false, ◌&&◌, Option, none, List, [], ◌∷◌, str_eq,
  if◌then◌else◌, length, or_else, Result, err, ok, ok_inj, is_some, arith, ap, ◌∙◌, subst,
}
use ai_agent_workflow.Prelude.Letters.{is_in}
use ai_agent_workflow.Scoring.Levels.{
  Level, level_of, risk_order, Metadata, no_metadata, behavior, Behavior,
}
use ai_agent_workflow.Scoring.Risk.{
  Risk, size_score, risk_score, explicit_level, risk_with, is_high, assess_risk,
  should_pause_for_approval, or_number,
}

-- The milestones at which a run of a level waits for an approval.
abbrev pub pauses : Level → String → Bool
pauses Level.low milestone = false
pauses Level.medium milestone = false
pauses Level.high milestone = str_eq milestone "before_apply"
pauses Level.critical milestone = is_in milestone ("before_execute" ∷ "before_apply" ∷ [])

-- What `assess_risk` says of a level.
pub record IsOfLevel (risk : Risk) : Type 0 where
  pub recommends : risk.recommended ≡ behavior risk.level
  pub flags : risk.high_risk ≡ is_high risk.level

pub risk_with-IsOfLevel :
    (metadata : Metadata) (given : Bool) (project_path : Option String) (count : ℕ)
    (explicit : Option Level)
    → IsOfLevel (risk_with metadata given project_path count explicit)
unfolding risk_with
risk_with-IsOfLevel metadata given project_path count explicit = record {
  recommends = refl;
  flags = refl;
}

-- The pause without a mode of its own, from the two fields that it reads.
abbrev pub paused : Behavior → Bool → String → Bool
paused recommended high milestone =
    let mode = recommended.approval_mode in
    if str_eq mode "fully_automatic"
    then false
    else if str_eq mode "plan_and_patch_only"
    then is_in milestone ("before_execute" ∷ "before_apply" ∷ [])
    else if str_eq mode "review_before_apply"
    then str_eq milestone "before_apply"
    else if str_eq mode "milestones"
    then is_in milestone ("after_plan" ∷ "before_apply" ∷ []) && high
    else false

pub and-false : (b : Bool) → (b && false) ≡ false
and-false true = refl
and-false false = refl

pub paused-behavior :
    (level : Level) (milestone : String)
    → paused (behavior level) (is_high level) milestone ≡ pauses level milestone
paused-behavior Level.low milestone = refl
paused-behavior Level.medium milestone =
    and-false (is_in milestone ("after_plan" ∷ "before_apply" ∷ []))
paused-behavior Level.high milestone = refl
paused-behavior Level.critical milestone = refl

pub should_pause-level :
    (risk : Risk) (milestone : String)
    → IsOfLevel risk
    → should_pause_for_approval risk none milestone ≡ pauses risk.level milestone
unfolding should_pause_for_approval
should_pause-level risk milestone of_level =
    ap (λ (b : Behavior). paused b risk.high_risk milestone) of_level.recommends
    ∙ ap (λ (h : Bool). paused (behavior risk.level) h milestone) of_level.flags
    ∙ paused-behavior risk.level milestone

pub assessed-IsOfLevel :
    (given : Metadata) (b : Bool) (project_path : Option String) (count : ℕ)
    (explicit : Result String (Option Level)) {risk : Risk}
    → ◌≡◌ {A = Result String Risk}
        (elim explicit [
          | err message ↦ err message
          | ok level ↦ ok (risk_with given b project_path count level)
        ])
        (ok risk)
    → IsOfLevel risk
assessed-IsOfLevel given b project_path count (err message) h = cc
assessed-IsOfLevel given b project_path count (ok level) h =
    subst IsOfLevel (ok_inj h) (risk_with-IsOfLevel given b project_path count level)

-- An assessed run for which no approval mode is set waits at the milestones of its level: a critical
-- one before it executes and before it applies, a high one before it applies, and no other.
pub pauses_by_level :
    (given : Option Metadata) (project_path : Option String) (files : List String) (estimate : ℕ)
    (milestone : String) {risk : Risk}
    → assess_risk given project_path files estimate ≡ ok risk
    → should_pause_for_approval risk none milestone ≡ pauses risk.level milestone
unfolding assess_risk
pauses_by_level given project_path files estimate milestone {risk} h =
    should_pause-level risk milestone (
      assessed-IsOfLevel (or_else given no_metadata) (is_some given) project_path
        (or_number estimate (length files)) (explicit_level (or_else given no_metadata)) h)

level_of_mono : (m n : ℕ) → m ≤ n → risk_order (level_of m) ≤ risk_order (level_of n)
unfolding level_of
level_of_mono m n h = ground arith

size_score_mono : (m n : ℕ) → m ≤ n → size_score m ≤ size_score n
size_score_mono m n h = ground arith

-- Where the contract names no level, the level of a change with more files is no lower.
pub larger_is_riskier :
    (metadata : Metadata) (given given' : Bool) (path path' : Option String) (m n : ℕ)
    → m ≤ n
    → risk_order (risk_with metadata given path m none).level
      ≤ risk_order (risk_with metadata given' path' n none).level
unfolding risk_with risk_score
larger_is_riskier metadata given given' path path' m n h =
    level_of_mono (risk_score metadata none m) (risk_score metadata none n)
      (omega (arith, size_score_mono m n h))
