-- ===== src/Failure/Classify.antt =====
-- `classify_failure`, `classify_step_failure` and `classify_run_failures`
-- (app/workflow_runtime/failure_classifier.py). What `json.loads` makes of a text is a parameter.
use ai_agent_workflow.Prelude.{
  String, Bool, true, false, not, ◌&&◌, ◌||◌, Option, none, some, List, [], ◌∷◌, ◌++◌, find,
  or_else, str_eq, if◌then◌else◌,
}
use text.Mathlib.Text.{starts_with}
use ai_agent_workflow.Prelude.Letters.{lower, upper, strip, replace, ends_with}
use ai_agent_workflow.Prelude.Dict.{get}
use ai_agent_workflow.Failure.Codes.{FailureCode, known_code, code_aliases}
use ai_agent_workflow.Failure.Classes.{failure_class}
use ai_agent_workflow.Failure.Messages.{user_messages}
use ai_agent_workflow.Failure.Markers.{text_code}

-- The keys that are read of a mapping; a key without a text is missing.
pub record Payload : Type 0 where
  pub code : Option String
  pub error_code : Option String
  pub failure_code : Option String
  pub summary : Option String
  pub message : Option String
  pub error : Option String
  pub detail : Option String
  pub raw_message : Option String

-- What is classified. A mapping comes with the mapping under its key `failure`, if it has one, and with
-- its own text, which is empty for an empty mapping; an exception with its attributes and its text.
pub data Value : Type 0 where
  nothing : Value
  plain : String → Value
  mapping : Option Payload → Payload → String → Value
  raised : (failure_code error_code code : Option String) → String → Value

abbrev pub no_payload : Payload
no_payload = record {
  code = none;
  error_code = none;
  failure_code = none;
  summary = none;
  message = none;
  error = none;
  detail = none;
  raw_message = none;
}

-- A missing text and an empty one are false.
abbrev pub is_truthy : Option String → Bool
is_truthy none = false
is_truthy (some s) = not (str_eq s "")

-- `str(value or "").strip().upper().replace("-", "_")`
unfoldable pub normalized : Option String → String
unfolding strip upper replace
normalized value = replace b'-' "_" (upper (strip (or_else value "")))

unfoldable pub canonical_failure_code : Option String → Option FailureCode
unfolding normalized known_code get
canonical_failure_code value =
    let code = normalized value in
    if str_eq code "" then none else known_code (or_else (get code_aliases code) code)

module _ (parse_object : String → Option Payload) where
  -- The mapping that a text in braces stands for.
  abbrev pub braced : String → Option Payload
  braced s = if starts_with s "{" && ends_with b'}' s then parse_object s else none

  unfoldable pub structured_payload : Value → Option Payload
  unfolding strip ends_with
  structured_payload nothing = none
  structured_payload (plain s) = braced (strip s)
  structured_payload (mapping nested payload shown) = some (or_else nested payload)
  structured_payload (raised failure_code error_code code shown) =
      if is_truthy failure_code || (is_truthy error_code || is_truthy code)
      then some (record no_payload {
        code = code;
        error_code = error_code;
        failure_code = failure_code;
        message = some shown;
      })
      else none

-- `str(value or "")`
abbrev pub shown_text : Value → String
shown_text nothing = ""
shown_text (plain s) = s
shown_text (mapping nested payload shown) = shown
shown_text (raised failure_code error_code code shown) = shown

abbrev pub payload_text : Payload → Option (Option String)
payload_text payload =
    find is_truthy (
      payload.summary ∷ payload.message ∷ payload.error ∷ payload.detail ∷ payload.raw_message ∷ [])

unfoldable pub message_text : Value → Option Payload → String
message_text value none = shown_text value
message_text value (some payload) = elim (payload_text payload) [
  | none ↦ shown_text value
  | some found ↦ or_else found ""
]

abbrev pub payload_candidates : Option Payload → List (Option String)
payload_candidates none = []
payload_candidates (some payload) = payload.code ∷ payload.error_code ∷ payload.failure_code ∷ []

abbrev pub raised_candidates : Value → List (Option String)
raised_candidates (raised failure_code error_code code shown) =
    failure_code ∷ error_code ∷ code ∷ []
raised_candidates value = []

-- `candidate == error_code`
abbrev pub same_text : Option String → Option String → Bool
same_text none none = true
same_text none (some t) = false
same_text (some s) none = false
same_text (some s) (some t) = str_eq s t

-- The first candidate that names a class, and where it comes from.
unfoldable pub explicit_code : Option String → List (Option String) → Option (FailureCode × String)
explicit_code error_code [] = none
explicit_code error_code (candidate ∷ candidates) =
    let rest = explicit_code error_code candidates in
    elim (canonical_failure_code candidate) [
      | some code ↦
          some (code, (if same_text candidate error_code then "error_code" else "structured"))
      | none ↦ rest
    ]

abbrev pub text_result : Option FailureCode → FailureCode × String
text_result (some code) = (code, "text_fallback")
text_result none = (FailureCode.unknown, "default")

module _ (parse_object : String → Option Payload) where
  unfoldable pub classified_code : Value → Option String → FailureCode × String
  unfolding structured_payload explicit_code message_text lower text_code
  classified_code message error_code =
      let payload = structured_payload parse_object message in
      let candidates = error_code ∷ payload_candidates payload ++ raised_candidates message in
      elim (explicit_code error_code candidates) [
        | some found ↦ found
        | none ↦ text_result (text_code (lower (message_text message payload)))
      ]

-- `FailureClass.as_dict`, with what `_result` adds.
pub record Report : Type 0 where
  pub code : FailureCode
  pub title : String
  pub description : String
  pub retry_target : String
  pub repair_prompt_hint : String
  pub severity : String
  pub user_message : String
  pub auto_repairable : Bool
  pub retryable : Bool
  pub recommended_action : String
  pub classification_source : String
  pub step_key : Option String

unfoldable pub result : FailureCode → String → Option String → Report
result code source step_key =
    let class = failure_class code in
    record {
      code = code;
      title = class.title;
      description = class.description;
      retry_target = class.retry_target;
      repair_prompt_hint = class.repair_prompt_hint;
      severity = class.severity;
      user_message = (user_messages code).0;
      auto_repairable = class.auto_repairable;
      retryable = or_else class.retryable class.auto_repairable;
      recommended_action = (user_messages code).1;
      classification_source = source;
      step_key = if is_truthy step_key then step_key else none;
    }

module _ (parse_object : String → Option Payload) where
  unfoldable pub classify_failure : Value → Option String → Option String → Report
  unfolding result classified_code
  classify_failure message step_key error_code =
      let found = classified_code parse_object message error_code in result found.0 found.1 step_key
