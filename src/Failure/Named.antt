-- ===== src/Failure/Named.antt =====
-- A deterministic error code decides the class (app/workflow_runtime/failure_classifier.py).
use ai_agent_workflow.Prelude.{
  String, arith, ◌++◌, ◌≡◌, refl, ap, ◌∙◌, true, Option, none, some, List, ◌∷◌, str_eq, eq_refl,
  if◌then◌else◌, or_else,
}
use ai_agent_workflow.Prelude.Dict.{get}
use ai_agent_workflow.Failure.Codes.{FailureCode, code_text, known_code, code_aliases}
use ai_agent_workflow.Failure.Classify.{
  Payload, Value, normalized, canonical_failure_code, explicit_code, classified_code, result,
  classify_failure, same_text, payload_candidates, raised_candidates, structured_payload,
}

-- The class that a text in canonical spelling names.
pub spelled_code : String → Option FailureCode
spelled_code code =
    if str_eq code "" then none else known_code (or_else (get code_aliases code) code)

pub spelled_code-code_text : (c : FailureCode) → spelled_code (code_text c) ≡ some c
unfolding spelled_code known_code get
spelled_code-code_text FailureCode.no_file_change = refl
spelled_code-code_text _ = refl

pub canonical-named :
    (c : FailureCode) (value : Option String)
    → normalized value ≡ code_text c
    → canonical_failure_code value ≡ some c
unfolding canonical_failure_code spelled_code
canonical-named c value named = ap spelled_code named ∙ spelled_code-code_text c

pub same_text_refl : (value : Option String) → same_text value value ≡ true
same_text_refl none = refl
same_text_refl (some s) = eq_refl s

pub explicit_code-named :
    (c : FailureCode) (value : Option String) (rest : List (Option String))
    → canonical_failure_code value ≡ some c
    → explicit_code value (value ∷ rest) ≡ some (c, "error_code")
unfolding explicit_code
explicit_code-named c value rest named = ground (arith, named, same_text_refl value)

pub classified_code-named :
    (parse_object : String → Option Payload) (message : Value) (value : Option String)
    {found : FailureCode × String}
    → ((rest : List (Option String)) → explicit_code value (value ∷ rest) ≡ some found)
    → classified_code parse_object message value ≡ found
unfolding classified_code
classified_code-named parse_object message value first = ground (
  arith,
  first (payload_candidates (structured_payload parse_object message) ++ raised_candidates message),
)

-- An error code that names a class, in capitals or not, with dashes or underscores, decides the class,
-- whatever the message.
pub named_code_decides :
    (parse_object : String → Option Payload) (c : FailureCode) (message : Value)
    (step_key error_code : Option String)
    → normalized error_code ≡ code_text c
    → classify_failure parse_object message step_key error_code ≡ result c "error_code" step_key
unfolding classify_failure
named_code_decides parse_object c message step_key error_code named =
    ap (λ (found : FailureCode × String). result found.0 found.1 step_key)
      (classified_code-named parse_object message error_code
        (λ rest. explicit_code-named c error_code rest (canonical-named c error_code named)))
