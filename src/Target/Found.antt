-- ===== src/Target/Found.antt =====
-- A retry finds a target (app/workflow_runtime/retry_policy.py).
use ai_agent_workflow.Prelude.{
  ℕ, zero, suc, ◌-◌, ◌<◌, String, ◌≡◌, refl, Bool, true, false, Option, none, some, List, ◌∷◌, [],
  str_eq, eq_iff, length, if◌then◌else◌, Bool-cases, inl, inr, arith, ok, is_some, all, &&-split,
  Option-cases,
}
use ai_agent_workflow.Failure.Classify.{Payload, Value}
use ai_agent_workflow.Target.Records.{StepRecord, has_key}
use ai_agent_workflow.Target.Choose.{
  Chosen, key_at, available, or_own_key, fail_action_of, by_fail_action, configured_target,
  retry_target_for_step, target_after, retry_target_for_failure, if_key,
}

-- There is a target, unless the step says to stop.
abbrev pub IsFound : StepRecord → Option String → Type 0
IsFound step none = fail_action_of step ≡ "stop"
IsFound step (some s) = Unit

abbrev pub ReturnsFound : StepRecord → Chosen → Type 0
ReturnsFound step chosen = (target : Option String) × (chosen ≡ ok target) × IsFound step target

abbrev pub has_keys : List StepRecord → Bool
has_keys steps = all (λ step. is_some step.key) steps

module _ (failed : StepRecord) where
  pub key_at-ReturnsFound :
      (steps : List StepRecord) (i : ℕ)
      → has_keys steps ≡ true
      → i < length steps
      → ReturnsFound failed (key_at steps i)
  unfolding key_at
  key_at-ReturnsFound [] i h k = absurd (omega arith)
  key_at-ReturnsFound (step ∷ steps) zero h k = elim (Option-cases step.key) [
    | inl e ↦ absurd (ground (arith, e, h))
    | inr (key, e) ↦ (some key, rw (e, key_at) refl, tt)
  ]
  key_at-ReturnsFound (step ∷ steps) (suc i) h k =
      key_at-ReturnsFound steps i (&&-split _ _ h).1 (omega arith)

  pub if-ReturnsFound :
      (b : Bool) (x y : Chosen)
      → ReturnsFound failed x
      → ReturnsFound failed y
      → ReturnsFound failed (if b then x else y)
  if-ReturnsFound true x y h k = h
  if-ReturnsFound false x y h k = k

  pub if-IsFound :
      (b : Bool) (x y : Option String)
      → IsFound failed x
      → IsFound failed y
      → IsFound failed (if b then x else y)
  if-IsFound true x y h k = h
  if-IsFound false x y h k = k

  pub if_key-IsFound :
      (steps : List StepRecord) (s : String) (configured : Option String)
      → IsFound failed configured
      → IsFound failed (if_key steps s configured)
  if_key-IsFound steps s configured h = if-IsFound (has_key steps s) (some s) configured tt h

  pub or_own_key-IsFound :
      (value key : Option String) → IsFound failed key → IsFound failed (or_own_key value key)
  or_own_key-IsFound none key h = h
  or_own_key-IsFound (some s) key h = tt

  pub found-ReturnsFound :
      (found : Option String) (other : Chosen)
      → ReturnsFound failed other
      → ReturnsFound failed (elim found [ some target ↦ ok (some target) | none ↦ other ])
  found-ReturnsFound none other h = h
  found-ReturnsFound (some s) other h = (some s, refl, tt)

module _ (parse_object : String → Option Payload) (mentions_production : String → Bool)
    (step : StepRecord) (steps : List StepRecord) (keyed : has_keys steps ≡ true)
    (own : is_some step.key ≡ true) where
  pub own_key-IsFound : IsFound step step.key
  own_key-IsFound = elim (Option-cases step.key) [
    | inl e ↦ absurd (ground (arith, e, own))
    | inr (key, e) ↦ rw e tt
  ]

  pub by_fail_action-ReturnsFound :
      (i : ℕ) → i < length steps → ReturnsFound step (by_fail_action step steps i)
  unfolding by_fail_action
  by_fail_action-ReturnsFound i h = elim (Bool-cases (str_eq (fail_action_of step) "stop")) [
    | inl e ↦ rw e (none, refl, (eq_iff (fail_action_of step) "stop").0 e)
    | inr e ↦ rw e (
        if-ReturnsFound step _ (key_at steps (i - 1)) _
          (key_at-ReturnsFound step steps (i - 1) keyed (omega arith))
          (if-ReturnsFound step _ (ok _) (ok step.key)
            (_, refl, or_own_key-IsFound step _ step.key own_key-IsFound)
            (step.key, refl, own_key-IsFound)))
  ]

  pub retry_target_for_step-ReturnsFound :
      (i : ℕ) → i < length steps → ReturnsFound step (retry_target_for_step step steps i)
  unfolding retry_target_for_step
  retry_target_for_step-ReturnsFound i h =
      found-ReturnsFound step (available steps (configured_target step))
        (by_fail_action step steps i) (by_fail_action-ReturnsFound i h)

  pub target_after-IsFound :
      (configured : Option String) (test_result : String) (count : Option ℕ) (error : Value)
      → IsFound step configured
      → IsFound step (
          target_after parse_object mentions_production step steps configured test_result count
            error)
  unfolding target_after
  target_after-IsFound configured test_result count error h =
      search (if-IsFound, if_key-IsFound, or_own_key-IsFound, h, tt)

  -- A failure of a step in its place among the steps of a workflow, all of which have keys, has a
  -- target, whatever the failure, or the step says to stop.
  pub target_found :
      (current_index : ℕ) (test_result : String) (count : Option ℕ) (error : Value)
      → current_index < length steps
      → ReturnsFound step (
          retry_target_for_failure parse_object mentions_production step steps current_index
            test_result count error)
  unfolding retry_target_for_failure
  target_found current_index test_result count error h =
      let (configured, e, found) = retry_target_for_step-ReturnsFound current_index h in
      rw (e, retry_target_for_failure)
        (
          target_after parse_object mentions_production step steps configured test_result count
              error,
          refl,
          target_after-IsFound configured test_result count error found,
        )
