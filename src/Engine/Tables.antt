-- ===== src/Engine/Tables.antt =====
-- The two transition tables and `validate_transition` of app/workflow_engine/state_machine.py.
use ai_agent_workflow.Prelude.{
  String, Bool, not, ◌&&◌, Option, List, [], ◌∷◌, any, or_else, Result, ok, err, str_eq, str_append,
  if◌then◌else◌,
}
use ai_agent_workflow.Prelude.Dict.{Dict, get}

-- `x in s` for a set of strings.
abbrev pub member : String → List String → Bool
member x = any (λ y. str_eq y x)

abbrev pub run_transitions : Dict (List String)
run_transitions =
    ("", "queued" ∷ "running" ∷ "failed" ∷ "cancelled" ∷ [])
    ∷ (
      "queued",
      "queued" ∷ "running" ∷ "waiting_input" ∷ "cancelling" ∷ "done" ∷ "cancelled" ∷ "failed" ∷ [],
    )
    ∷ (
      "running",
      "running" ∷ "waiting_input" ∷ "queued" ∷ "cancelling" ∷ "done" ∷ "failed" ∷ "cancelled" ∷ [],
    )
    ∷ (
      "waiting_input",
      "waiting_input" ∷ "queued" ∷ "running" ∷ "cancelling" ∷ "done" ∷ "failed" ∷ "cancelled" ∷ [],
    )
    ∷ ("cancelling", "cancelling" ∷ "cancelled" ∷ "failed" ∷ [])
    ∷ ("failed", "failed" ∷ "queued" ∷ "running" ∷ "cancelled" ∷ [])
    ∷ ("cancelled", "cancelled" ∷ "queued" ∷ "running" ∷ [])
    ∷ ("done", "done" ∷ "queued" ∷ "running" ∷ [])
    ∷ []

abbrev pub step_transitions : Dict (List String)
step_transitions =
    (
      "",
      "pending" ∷ "running" ∷ "passed" ∷ "failed" ∷ "skipped" ∷ "waiting_input" ∷ "cancelled" ∷ [],
    )
    ∷ (
      "pending",
      "pending" ∷ "running" ∷ "passed" ∷ "failed" ∷ "skipped" ∷ "waiting_input" ∷ "cancelled" ∷ [],
    )
    ∷ (
      "running",
      "running" ∷ "passed" ∷ "failed" ∷ "skipped" ∷ "waiting_input" ∷ "cancelled" ∷ "pending" ∷ [],
    )
    ∷ (
      "waiting_input",
      "waiting_input" ∷ "running" ∷ "pending" ∷ "failed" ∷ "cancelled" ∷ "skipped" ∷ [],
    )
    ∷ ("failed", "failed" ∷ "pending" ∷ "running" ∷ "passed" ∷ "skipped" ∷ "cancelled" ∷ [])
    ∷ ("passed", "passed" ∷ "pending" ∷ "running" ∷ [])
    ∷ ("skipped", "skipped" ∷ "pending" ∷ "running" ∷ "passed" ∷ [])
    ∷ ("cancelled", "cancelled" ∷ "pending" ∷ "running" ∷ [])
    ∷ []

unfoldable pub table_for : String → Dict (List String)
table_for kind = if str_eq kind "run" then run_transitions else step_transitions

-- `target in table.get(source, set())`
unfoldable pub allows : Dict (List String) → String → String → Bool
allows table source target = member target (or_else (get table source) [])

-- An exception of the class `InvalidTransition`, with its message.
pub data InvalidTransition : Type 0 where
  invalid_transition : String → InvalidTransition

pub record TransitionDecision : Type 0 where
  pub allowed : Bool
  pub source : String
  pub target : String
  pub reason : String

abbrev pub shown_source : String → String
shown_source source = if str_eq source "" then "<new>" else source

abbrev pub refusal : String → String → String → String
refusal kind source target = str_append "invalid " (
    str_append kind
      (str_append " transition: " (str_append (shown_source source) (str_append " -> " target))))

-- A source of `None` is the empty string.
unfoldable pub validate_transition :
    String → Option String → String → Bool → Result InvalidTransition TransitionDecision
unfolding table_for
validate_transition kind source target strict =
    let source' = or_else source "" in
    let allowed = allows (table_for kind) source' target in
    let reason = if allowed then "allowed" else refusal kind source' target in
    if strict && not allowed
    then err (invalid_transition reason)
    else ok (record { allowed = allowed; source = source'; target = target; reason = reason })
