-- ===== src/Scoring/Risk.antt =====
-- `assess_risk` and `should_pause_for_approval` (app/workflow_runtime/risk_engine.py).
use ai_agent_workflow.Prelude.{
  ℕ, zero, suc, ◌+◌, ◌*◌, min, String, str_append, Bool, true, false, not, ◌&&◌, Option, none, some,
  List, [], ◌∷◌, ◌++◌, map, select, str_eq, if◌then◌else◌, ltb, ◌==◌, length, or_else, truthy_or,
  Result, err, ok, is_some,
}
use ai_agent_workflow.Prelude.Letters.{strip, lower, is_in}
use ai_agent_workflow.Retry.Progress.{decimal}
use ai_agent_workflow.Scoring.Levels.{
  Behavior, Level, Metadata, behavior, level_named, level_of, no_metadata, risk_order,
}

pub record Risk : Type 0 where
  pub level : Level
  pub score : ℕ
  pub source : String
  pub reasons : List String
  pub declared_operations : List String
  pub project_path : Option String
  pub recommended : Behavior
  pub approval_required : Bool
  pub high_risk : Bool

abbrev pub take {ℓ} : {A : Type ℓ} → ℕ → List A → List A
take zero xs = []
take (suc n) [] = []
take (suc n) (x ∷ xs) = x ∷ take n xs

-- `metadata.get("score") or …`, `estimated_file_count or …`
abbrev pub or_number : ℕ → ℕ → ℕ
or_number zero m = m
or_number (suc n) m = suc n

abbrev pub is_elevated : String → Bool
is_elevated operation =
    is_in operation ("delete" ∷ "rename" ∷ "migration" ∷ "credential_change" ∷ "deployment" ∷ [])

-- What the number of files adds to the score, and to the reasons.
abbrev pub size_score : ℕ → ℕ
size_score count =
    if ltb 50 count then 4 else if ltb 20 count then 2 else if ltb 8 count then 1 else 0

abbrev pub estimated : String → ℕ → List String
estimated kind count =
    str_append kind (str_append " change set estimated: " (str_append (decimal count) " files"))
    ∷ []

abbrev pub size_reasons : ℕ → List String
size_reasons count =
    if ltb 50 count
    then estimated "Large" count
    else if ltb 20 count
    then estimated "Broad" count
    else if ltb 8 count
    then str_append "Multi-file change estimated: " (str_append (decimal count) " files") ∷ []
    else []

abbrev pub elevated_reasons : ℕ → List String
elevated_reasons count =
    if count == 0
    then []
    else str_append "Contract declares " (str_append (decimal count) " elevated operation(s)") ∷ []

abbrev pub or_reasons : List String → List String → List String
or_reasons [] others = others
or_reasons (reason ∷ reasons) others = reason ∷ reasons

abbrev pub is_high : Level → Bool
is_high Level.high = true
is_high Level.critical = true
is_high _ = false

unfoldable pub declared : Metadata → List String
unfolding strip lower
declared metadata = map (λ operation. lower (strip operation)) metadata.operations

-- The explicit level, if one is named; a name that is no level raises.
unfoldable pub explicit_level : Metadata → Result String (Option Level)
unfolding strip lower level_named
explicit_level metadata =
    let name = lower (strip (or_else metadata.level "")) in
    if str_eq name "" then ok none else elim (level_named name) [
      | some level ↦ ok (some level)
      | none ↦ err (str_append "Unsupported risk level: " name)
    ]

abbrev pub order_of : Option Level → ℕ
order_of none = 0
order_of (some level) = risk_order level

unfoldable pub risk_score : Metadata → Option Level → ℕ → ℕ
unfolding declared
risk_score metadata explicit count =
    or_number metadata.score (order_of explicit * 3)
    + size_score count
    + min 6 (length (select is_elevated (declared metadata)) * 2)

abbrev pub level_or : Option Level → Level → Level
level_or none level = level
level_or (some level) other = level

-- The risk once the explicit level is known. Whether metadata was given says `given`.
unfoldable pub risk_with : Metadata → Bool → Option String → ℕ → Option Level → Risk
unfolding risk_score declared level_of strip
risk_with metadata given project_path count explicit =
    let score = risk_score metadata explicit count in
    let level = level_or explicit (level_of score) in
    let reasons =
      select (λ reason. not (str_eq (strip reason) "")) metadata.reasons
      ++ (size_reasons count
          ++ elevated_reasons (length (select is_elevated (declared metadata)))) in
    record {
      level = level;
      score = score;
      source = if given then "explicit_contract" else "structural_metrics";
      reasons =
          take 20
            (or_reasons reasons ("No elevated risk was declared by the workflow contract" ∷ []));
      declared_operations = take 30 (declared metadata);
      project_path = project_path;
      recommended = behavior level;
      approval_required = is_high level;
      high_risk = is_high level;
    }

-- The requirement is not read. The expected files count by their number.
unfoldable pub assess_risk : Option Metadata → Option String → List String → ℕ → Result String Risk
unfolding explicit_level risk_with
assess_risk given project_path expected_files estimated_file_count =
    let metadata = or_else given no_metadata in
    let count = or_number estimated_file_count (length expected_files) in
    elim (explicit_level metadata) [
      | err message ↦ err message
      | ok explicit ↦ ok (risk_with metadata (is_some given) project_path count explicit)
    ]

unfoldable pub should_pause_for_approval : Risk → Option String → String → Bool
should_pause_for_approval risk approval_mode milestone =
    let mode = truthy_or approval_mode risk.recommended.approval_mode in
    if str_eq mode "fully_automatic"
    then false
    else if str_eq mode "plan_and_patch_only"
    then is_in milestone ("before_execute" ∷ "before_apply" ∷ [])
    else if str_eq mode "review_before_apply"
    then str_eq milestone "before_apply"
    else if str_eq mode "milestones"
    then is_in milestone ("after_plan" ∷ "before_apply" ∷ []) && risk.high_risk
    else false
