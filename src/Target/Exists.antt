-- ===== src/Target/Exists.antt =====
-- The target of a retry is the key of a step (app/workflow_runtime/retry_policy.py).
use ai_agent_workflow.Prelude.{
  ℕ, zero, suc, String, subst, ◌≡◌, Bool, true, false, Option, none, some, List, [], ◌∷◌, eq_refl,
  if◌then◌else◌, Bool-cases, Option-cases, inl, inr, arith, err, ok, or_else,
}
use ai_agent_workflow.Failure.Classify.{Payload, Value}
use ai_agent_workflow.Target.Records.{StepRecord, has_key}
use ai_agent_workflow.Target.Choose.{
  Chosen, key_at, available, or_own_key, by_fail_action, retry_target_for_step,
  escalated_retry_target_for_step, target_after, retry_target_for_failure, configured_target,
  if_key, escalation,
}

-- A target, if there is one, is the key of a step.
abbrev pub IsTarget : List StepRecord → Option String → Type 0
IsTarget steps none = Unit
IsTarget steps (some s) = has_key steps s ≡ true

abbrev pub IsChoice : List StepRecord → Chosen → Type 0
IsChoice steps (err raised) = Unit
IsChoice steps (ok target) = IsTarget steps target

pub has_key-suc :
    (step : StepRecord) (steps : List StepRecord) (s : String)
    → has_key steps s ≡ true
    → has_key (step ∷ steps) s ≡ true
unfolding has_key
has_key-suc step steps s h = ground (arith, h)

pub IsChoice-suc :
    (step : StepRecord) (steps : List StepRecord) (chosen : Chosen)
    → IsChoice steps chosen
    → IsChoice (step ∷ steps) chosen
IsChoice-suc step steps (err raised) h = tt
IsChoice-suc step steps (ok none) h = tt
IsChoice-suc step steps (ok (some s)) h = has_key-suc step steps s h

pub key_at-IsChoice : (steps : List StepRecord) (i : ℕ) → IsChoice steps (key_at steps i)
unfolding key_at has_key
key_at-IsChoice [] i = tt
key_at-IsChoice (step ∷ steps) zero = elim (Option-cases step.key) [
  | inl e ↦ rw (e, key_at) tt
  | inr (key, e) ↦ rw (e, key_at) (ground (arith, e, eq_refl key))
]
key_at-IsChoice (step ∷ steps) (suc i) =
    IsChoice-suc step steps (key_at steps i) (key_at-IsChoice steps i)

pub available-IsTarget :
    (steps : List StepRecord) (value : Option String) → IsTarget steps (available steps value)
available-IsTarget steps none = tt
available-IsTarget steps (some s) = elim (Bool-cases (has_key steps s)) [
  | inl e ↦ rw e e
  | inr e ↦ rw e tt
]

pub or_own_key-IsTarget :
    (steps : List StepRecord) (value key : Option String)
    → IsTarget steps value
    → IsTarget steps key
    → IsTarget steps (or_own_key value key)
or_own_key-IsTarget steps none key h k = k
or_own_key-IsTarget steps (some s) key h k = h

-- The result of an `if` is a choice if both branches are.
pub if-IsChoice :
    (steps : List StepRecord) (b : Bool) (x y : Chosen)
    → IsChoice steps x
    → IsChoice steps y
    → IsChoice steps (if b then x else y)
if-IsChoice steps true x y h k = h
if-IsChoice steps false x y h k = k

pub if-IsTarget :
    (steps : List StepRecord) (b : Bool) (x y : Option String)
    → IsTarget steps x
    → IsTarget steps y
    → IsTarget steps (if b then x else y)
if-IsTarget steps true x y h k = h
if-IsTarget steps false x y h k = k

pub found-IsChoice :
    (steps : List StepRecord) (found : Option String) (other : Chosen)
    → IsTarget steps found
    → IsChoice steps other
    → IsChoice steps (elim found [ some target ↦ ok (some target) | none ↦ other ])
found-IsChoice steps none other h k = k
found-IsChoice steps (some s) other h k = h

pub if_key-IsTarget :
    (steps : List StepRecord) (s : String) (configured : Option String)
    → IsTarget steps configured
    → IsTarget steps (if_key steps s configured)
if_key-IsTarget steps s none h = available-IsTarget steps (some s)
if_key-IsTarget steps s (some t) h = elim (Bool-cases (has_key steps s)) [
  | inl e ↦ rw e e
  | inr e ↦ rw e h
]

-- What the choice falls back to is the step's own key.
module _ (step : StepRecord) (steps : List StepRecord) (own : IsTarget steps step.key) where
  pub by_fail_action-IsChoice : (i : ℕ) → IsChoice steps (by_fail_action step steps i)
  unfolding by_fail_action
  by_fail_action-IsChoice i =
      search (if-IsChoice, key_at-IsChoice, or_own_key-IsTarget, available-IsTarget, own)

  pub retry_target_for_step-IsChoice : (i : ℕ) → IsChoice steps (retry_target_for_step step steps i)
  unfolding retry_target_for_step
  retry_target_for_step-IsChoice i =
      found-IsChoice steps (available steps (configured_target step)) (by_fail_action step steps i)
        (available-IsTarget steps (configured_target step)) (by_fail_action-IsChoice i)

pub escalated-IsTarget :
    (step : StepRecord) (steps : List StepRecord) (count : ℕ)
    → IsTarget steps (escalated_retry_target_for_step step steps count)
unfolding escalated_retry_target_for_step
escalated-IsTarget step steps count = search (if-IsTarget, available-IsTarget)

pub escalation-IsTarget :
    (step : StepRecord) (steps : List StepRecord) (count : Option ℕ) (lowered : String)
    → IsTarget steps (escalation step steps count lowered)
escalation-IsTarget step steps none lowered = tt
escalation-IsTarget step steps (some count) lowered = search (if-IsTarget, escalated-IsTarget)

module _ (parse_object : String → Option Payload) (mentions_production : String → Bool)
    (step : StepRecord) (steps : List StepRecord) {key : String} (named : step.key ≡ some key)
    (own : has_key steps key ≡ true) where
  pub own_key-IsTarget : IsTarget steps step.key
  own_key-IsTarget = rw named own

  pub or_else-IsTarget : IsTarget steps (some (or_else step.key ""))
  or_else-IsTarget = rw named own

  pub target_after-IsTarget :
      (configured : Option String) (test_result : String) (count : Option ℕ) (error : Value)
      → IsTarget steps configured
      → IsTarget steps (
          target_after parse_object mentions_production step steps configured test_result count
            error)
  unfolding target_after
  target_after-IsTarget configured test_result count error h =
      search (
        if-IsTarget, or_else-IsTarget, if_key-IsTarget, or_own_key-IsTarget, escalation-IsTarget, h,
      )

  pub after-IsChoice :
      (chosen : Chosen) (test_result : String) (count : Option ℕ) (error : Value)
      → IsChoice steps chosen
      → IsChoice steps (elim chosen [
        | err raised ↦ err raised
        | ok configured ↦ ok (
            target_after parse_object mentions_production step steps configured test_result count
              error)
      ])
  after-IsChoice (err raised) test_result count error h = tt
  after-IsChoice (ok configured) test_result count error h =
      target_after-IsTarget configured test_result count error h

  -- Whatever the failure and the configuration, the target of a retry is the key of a step of the
  -- workflow, if the failed step is one of them.
  pub target_is_step :
      (current_index : ℕ) (test_result : String) (count : Option ℕ) (error : Value)
      {target : String}
      → retry_target_for_failure parse_object mentions_production step steps current_index
          test_result count error
        ≡ ok (some target)
      → has_key steps target ≡ true
  unfolding retry_target_for_failure
  target_is_step current_index test_result count error h = subst (IsChoice steps) h (
      after-IsChoice (retry_target_for_step step steps current_index) test_result count error
        (retry_target_for_step-IsChoice step steps own_key-IsTarget current_index))
