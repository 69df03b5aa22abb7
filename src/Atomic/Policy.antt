-- ===== src/Atomic/Policy.antt =====
-- `autopilot_mode` and `evaluate_delivery_validation` (app/workflow_runtime/autopilot_policy.py).
use ai_agent_workflow.Prelude.{
  ℕ, String, str_append, Bool, true, false, not, ◌&&◌, ◌||◌, Option, none, some, List, [], ◌∷◌,
  ◌++◌, select, str_eq, if◌then◌else◌, ◌==◌, length, or_else, truthy_or,
}
use ai_agent_workflow.Prelude.Letters.{strip, lower, is_in}

-- A phase of a validation; its name is the first of its id and its title that is a text.
pub record Phase : Type 0 where
  pub name : String
  pub required : Bool
  pub status : Option String

-- `executed` counts if it is not 0.
pub record Verification : Type 0 where
  pub status : Option String
  pub executed : ℕ
  pub results : List Phase

-- A missing profile is one without a key; `has_profile` says whether there is one.
pub record PolicyRun : Type 0 where
  pub autopilot_mode : Option String
  pub patch_mode : Option String
  pub has_profile : Bool
  pub profile_status : Option String
  pub environment_status : Option String

pub record DeliveryPolicy : Type 0 where
  pub mode : String
  pub allowed : Bool
  pub profile_status : Option String
  pub executed_count : ℕ
  pub required_count : ℕ
  pub errors : List String

unfoldable pub autopilot_mode : PolicyRun → String
unfolding strip lower
autopilot_mode run =
    let configured = lower (strip (or_else run.autopilot_mode "")) in
    if is_in configured ("observe" ∷ "safe_apply" ∷ "full_autopilot" ∷ [])
    then configured
    else if not (str_eq (or_else run.patch_mode "") "atomic_apply")
    then "observe"
    else "safe_apply"

abbrev pub or_count : ℕ → ℕ → ℕ
or_count n m = if n == 0 then m else n

unfoldable pub due : Bool → String → List String
due b message = if b then message ∷ [] else []

abbrev pub is_status : Option String → List String → Bool
is_status none names = false
is_status (some status) names = is_in status names

unfoldable pub phase_errors : List Phase → List String
phase_errors [] = []
phase_errors (phase ∷ phases) =
    let rest = phase_errors phases in
    if is_status phase.status ("passed" ∷ [])
    then rest
    else str_append "Required validation phase did not pass: " (str_append phase.name ".") ∷ rest

abbrev pub required_of : Verification → List Phase
required_of verification = select (λ phase. phase.required) verification.results

unfoldable pub policy_errors : PolicyRun → Verification → List String
unfolding autopilot_mode lower phase_errors
policy_errors run verification =
    let mode = autopilot_mode run in
    let profile_status = lower (or_else run.profile_status "") in
    let none_run = length verification.results == 0 in
    let executed = or_count verification.executed (length verification.results) in
    let full = str_eq mode "full_autopilot" in
    due (str_eq mode "observe") "Autopilot mode is observe; project delivery is disabled."
    ++ (due (is_in profile_status ("draft" ∷ "stale" ∷ [])) (
          str_append "Validation profile is "
            (str_append profile_status "; automatic delivery requires a verified profile."))
        ++ (due (not run.has_profile && none_run)
              "No validation profile or executed validation evidence is available."
            ++ (due (executed == 0 || none_run) "Post-apply validation did not execute any phase."
                ++ (due (length (required_of verification) == 0)
                      "Post-apply validation has no required phase."
                    ++ (phase_errors (required_of verification)
                        ++ (due
                              (not (
                                is_status verification.status
                                  ("passed" ∷ "passed_with_baseline" ∷ [])))
                              (str_append "Post-apply validation status is "
                                (str_append (truthy_or verification.status "unknown") "."))
                            ++ (due
                                  (full
                                    && not (is_status run.environment_status ("ready" ∷ "ok" ∷ [])))
                                  "Full autopilot requires a ready environment-health result."
                                ++ due
                                    (full
                                      && not (is_in profile_status ("verified" ∷ "trusted" ∷ [])))
                                    "Full autopilot requires a verified or trusted validation profile.")))))))

-- `text or None`
abbrev pub unless_empty : String → Option String
unless_empty text = if str_eq text "" then none else some text

abbrev pub is_none {ℓ} : {A : Type ℓ} → List A → Bool
is_none [] = true
is_none (x ∷ xs) = false

unfoldable pub evaluate_delivery_validation : PolicyRun → Verification → DeliveryPolicy
unfolding policy_errors
evaluate_delivery_validation run verification =
    let errors = policy_errors run verification in
    record {
      mode = autopilot_mode run;
      allowed = is_none errors;
      profile_status = unless_empty (lower (or_else run.profile_status ""));
      executed_count = or_count verification.executed (length verification.results);
      required_count = length (required_of verification);
      errors = errors;
    }
