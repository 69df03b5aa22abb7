-- ===== src/Target/Records.antt =====
-- The parts of the step records that app/workflow_runtime/retry_policy.py reads. A text that is empty
-- counts as missing, as in `or`.
use ai_agent_workflow.Prelude.{
  String, Bool, false, Option, none, some, List, [], ◌∷◌, str_eq, any, if◌then◌else◌,
}
use ai_agent_workflow.Retry.Budget.{Configured}

-- A value of `escalateEvery`: one that counts as false in `or` (0, an empty text), or one that counts
-- as true, with what `int` gives for it: the text "0" is true and gives 0.
pub data EveryValue : Type 0 where
  false_value : EveryValue
  true_value : Configured → EveryValue

pub record Policy : Type 0 where
  pub default_retry_to : Option String
  pub retry_to : Option String
  pub escalate_every : Option EveryValue
  pub escalate_to : Option String

-- What stands under `retryPolicy`: nothing or a false value, a true value that is no dictionary, or a
-- dictionary with some key.
pub data RawPolicy : Type 0 where
  missing other : RawPolicy
  keys : Policy → RawPolicy

pub record Config : Type 0 where
  pub retry_policy : RawPolicy
  pub retry_from_step_key : Option String
  pub fail_action : Option String
  pub fail_action_step_key : Option String
  pub selected_step_key : Option String
  pub retry_escalation_every : Option EveryValue
  pub retry_escalation_step_key : Option String

pub record StepRecord : Type 0 where
  pub key : Option String
  pub kind : Option String
  pub config : Config
  pub retry_policy : RawPolicy
  pub retry_from_step_key : Option String
  pub fail_action : Option String
  pub retry_escalation_every : Option EveryValue
  pub retry_escalation_step_key : Option String

abbrev pub no_policy : Policy
no_policy = record {
  default_retry_to = none;
  retry_to = none;
  escalate_every = none;
  escalate_to = none;
}

-- `a or b`
abbrev pub or_policy : RawPolicy → RawPolicy → RawPolicy
or_policy RawPolicy.missing b = b
or_policy a b = a

abbrev pub policy_of : RawPolicy → Policy
policy_of (RawPolicy.keys policy) = policy
policy_of _ = no_policy

-- `_retry_policy`
unfoldable pub retry_policy : StepRecord → Policy
retry_policy step = policy_of (or_policy step.config.retry_policy step.retry_policy)

-- `s in {step.get("key") for step in steps}`
abbrev pub is_key : String → Option String → Bool
is_key s none = false
is_key s (some t) = str_eq t s

unfoldable pub has_key : List StepRecord → String → Bool
has_key steps s = any (λ step. is_key s step.key) steps

-- The first of the values that is a text with characters.
unfoldable pub first_text : List (Option String) → Option String
first_text [] = none
first_text (none ∷ values) = first_text values
first_text (some s ∷ values) = let rest = first_text values in if str_eq s "" then rest else some s
