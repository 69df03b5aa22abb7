-- ===== src/Atomic/Allowed.antt =====
-- What an accepted validation has passed.
use ai_agent_workflow.Prelude.{
  ℕ, String, ◌≡◌, refl, ap, Bool, true, false, not, ◌&&◌, Option, none, some, List, [], ◌∷◌, ◌++◌,
  arith, Bool-cases, inl, inr, eq_iff, ◌↔◌, select, str_eq, ◌==◌, length, or_else, All,
}
use ai_agent_workflow.Prelude.Letters.{lower, is_in}
use ai_agent_workflow.Atomic.Policy.{
  Phase, Verification, PolicyRun, autopilot_mode, due, is_status, phase_errors, required_of,
  policy_errors, is_none, or_count, evaluate_delivery_validation,
}

none_append :
    (xs ys : List String) → is_none (xs ++ ys) ≡ true → (is_none xs ≡ true) × (is_none ys ≡ true)
none_append [] ys h = (refl, h)
none_append (x ∷ xs) ys h = cc

not_due : (b : Bool) (message : String) → is_none (due b message) ≡ true → b ≡ false
unfolding due
not_due true message h = cc
not_due false message h = refl

not_due_append :
    (b : Bool) (message : String) (ys : List String)
    → is_none (due b message ++ ys) ≡ true
    → (b ≡ false) × (is_none ys ≡ true)
unfolding due
not_due_append true message ys h = cc
not_due_append false message ys h = (refl, h)

not-false : (b : Bool) → not b ≡ false → b ≡ true
not-false true h = refl
not-false false h = cc

unless_full : (full b : Bool) → full && not b ≡ false → full ≡ true → b ≡ true
unless_full true b h e = not-false b h
unless_full false b h e = cc

when_full : (full b : Bool) → (full ≡ true → b ≡ true) → full && not b ≡ false
when_full true b f = rw (f refl) refl
when_full false b f = refl

and_false : (b : Bool) → b && false ≡ false
and_false true = refl
and_false false = refl

-- The phases that passed.
abbrev pub IsPassed : Phase → Type 0
IsPassed phase = phase.status ≡ some "passed"

status_passed :
    (status : Option String) → is_status status ("passed" ∷ []) ≡ true → status ≡ some "passed"
status_passed none h = cc
status_passed (some status) h = ap some ((eq_iff status "passed").0 (ground arith))

phases-IsPassed : (phases : List Phase) → is_none (phase_errors phases) ≡ true → All IsPassed phases
unfolding phase_errors
phases-IsPassed [] h = tt
phases-IsPassed (phase ∷ phases) h = elim (Bool-cases (is_status phase.status ("passed" ∷ []))) [
  | inl e ↦ (status_passed phase.status e, phases-IsPassed phases (rw e at h))
  | inr e ↦ cc (rw e at h)
]

passed_phases : (phases : List Phase) → All IsPassed phases → phase_errors phases ≡ []
unfolding phase_errors
passed_phases [] h = refl
passed_phases (phase ∷ phases) h = rw h.0 (passed_phases phases h.1)

-- What a validation of a delivery must show.
pub record IsDeliverable (run : PolicyRun) (verification : Verification) : Type 0 where
  pub applies : str_eq (autopilot_mode run) "observe" ≡ false
  pub current : is_in (lower (or_else run.profile_status "")) ("draft" ∷ "stale" ∷ []) ≡ false
  pub has_required : length (required_of verification) == 0 ≡ false
  pub all_passed : All IsPassed (required_of verification)
  pub passed : is_status verification.status ("passed" ∷ "passed_with_baseline" ∷ []) ≡ true
  pub ready :
      str_eq (autopilot_mode run) "full_autopilot" ≡ true
      → (is_status run.environment_status ("ready" ∷ "ok" ∷ []) ≡ true)
        × (is_in (lower (or_else run.profile_status "")) ("verified" ∷ "trusted" ∷ []) ≡ true)

allowed-IsDeliverable :
    (run : PolicyRun) (verification : Verification)
    → (evaluate_delivery_validation run verification).allowed ≡ true
    → IsDeliverable run verification
unfolding evaluate_delivery_validation policy_errors
allowed-IsDeliverable run verification h =
    let (observe, h1) = not_due_append _ _ _ h in
    let (draft, h2) = not_due_append _ _ _ h1 in
    let (profile, h3) = not_due_append _ _ _ h2 in
    let (executed, h4) = not_due_append _ _ _ h3 in
    let (required, h5) = not_due_append _ _ _ h4 in
    let (phases, h6) = none_append _ _ h5 in
    let (status, h7) = not_due_append _ _ _ h6 in
    let (ready, h8) = not_due_append _ _ _ h7 in
    let trusted = not_due _ _ h8 in
    record {
      applies = observe;
      current = draft;
      has_required = required;
      all_passed = phases-IsPassed _ phases;
      passed = not-false _ status;
      ready = λ full. (unless_full _ _ ready full, unless_full _ _ trusted full);
    }

results_exist :
    (results : List Phase)
    → length (select (λ phase. phase.required) results) == 0 ≡ false
    → length results == 0 ≡ false
results_exist [] h = h
results_exist (phase ∷ results) h = ground arith

count_positive : (executed count : ℕ) → count == 0 ≡ false → or_count executed count == 0 ≡ false
count_positive executed count h = ground arith

IsDeliverable-allowed :
    (run : PolicyRun) (verification : Verification)
    → IsDeliverable run verification
    → (evaluate_delivery_validation run verification).allowed ≡ true
unfolding evaluate_delivery_validation policy_errors due
IsDeliverable-allowed run verification d =
    let some_results = results_exist verification.results d.has_required in
    rw
      (
        d.applies,
        d.current,
        some_results,
        and_false (not run.has_profile),
        count_positive verification.executed _ some_results,
        d.has_required,
        passed_phases _ d.all_passed,
        d.passed,
        when_full _ _ (λ full. (d.ready full).0),
        when_full _ _ (λ full. (d.ready full).1),
      )
      refl

-- The policy allows a delivery exactly when the mode is not observe, the profile is neither draft nor
-- stale, some phase is required, every required phase has passed, the validation has passed, with its
-- baseline or without, and in the full mode the environment is ready and the profile is verified or
-- trusted.
pub allowed_when-IsDeliverable :
    (run : PolicyRun) (verification : Verification)
    → (evaluate_delivery_validation run verification).allowed ≡ true
      ↔ IsDeliverable run verification
allowed_when-IsDeliverable run verification =
    (allowed-IsDeliverable run verification, IsDeliverable-allowed run verification)
