-- ===== src/Store/Steps.antt =====
-- `FileStepStore` of app/stores/step_store.py: the steps inside a run.
use ai_agent_workflow.Prelude.{
  ℕ, zero, suc, ◌+◌, String, Bool, true, ◌||◌, Option, none, some, List, [], ◌∷◌, ◌++◌, map, str_eq,
  if◌then◌else◌, or_else, truthy_or, find, Result, ok, ◌>>=◌,
}
use ai_agent_workflow.Engine.Tables.{member, InvalidTransition, validate_transition}
use ai_agent_workflow.Engine.History.{append_transition}
use ai_agent_workflow.Store.Records.{Event, Failure, Step, Run}
use ai_agent_workflow.Store.Runs.{Runs, get_run, mutate_run}

unfoldable pub list_for_run : Runs → String → List Step
list_for_run runs run_id = elim (get_run runs run_id) [ none ↦ [] | some r ↦ r.steps ]

unfoldable pub get_step : Runs → String → String → Option Step
get_step runs run_id step_key = find (λ s. str_eq s.key step_key) (list_for_run runs run_id)

-- A loop that changes the first step of that key and breaks.
unfoldable pub with_step :
    {E : Type 0} → String → (Step → Result E Step) → List Step → Result E (List Step)
with_step key fn [] = ok []
with_step key fn (s ∷ rest) =
    let later = with_step key fn rest in
    if str_eq s.key key then (do s' ← fn s; ok (s' ∷ rest)) else (do rest' ← later; ok (s ∷ rest'))

-- A loop over the steps from an index on.
unfoldable pub from_index : ℕ → (Step → Step) → List Step → List Step
from_index zero fn steps = map fn steps
from_index (suc n) fn [] = []
from_index (suc n) fn (s ∷ rest) = s ∷ from_index n fn rest

abbrev pub ends_step : String → Bool
ends_step status =
    member status ("passed" ∷ "failed" ∷ "skipped" ∷ "waiting_input" ∷ "cancelled" ∷ [])

step_failure : String → Option String → Option String → Option Failure
step_failure key none error_code = none
step_failure key (some error) error_code =
    if str_eq error ""
    then none
    else some
        (record { raw_message = error; source = key; step_key = some key; error_code = error_code })

start_step : String → ℕ → Step → Step
start_step status now s =
    if str_eq status "running"
    then record s {
      started_at = some now;
      ended_at = none;
      error = none;
      error_code = none;
      failure = none;
    }
    else s

end_step : String → Option String → Option String → ℕ → Step → Step
unfolding step_failure
end_step status error error_code now s =
    if ends_step status
    then record s {
      ended_at = some now;
      error = error;
      error_code = error_code;
      failure = step_failure s.key error error_code;
    }
    else s

-- What `mark` writes to the step, once the transition is valid.
unfoldable pub marked : String → Option String → Option String → ℕ → Step → Step
unfolding start_step end_step
marked status error error_code now s =
    let reason = truthy_or error (truthy_or error_code "step status update") in
    let history =
      append_transition s.transitions "step" (some (or_else s.status "")) status (some reason)
        now in
    let moved = record s { transitions = some history; status = some status } in
    end_step status error error_code now (start_step status now moved)

-- The body of the loop of `mark`.
unfoldable pub mark_step :
    String → Option String → Option String → ℕ → Step → Result InvalidTransition Step
mark_step status error error_code now s = do
  decision ← validate_transition "step" (some (or_else s.status "")) status true
  ok (marked status error error_code now s)

unfoldable pub mark :
    Runs
    → String
    → String
    → String
    → Option String
    → Option String
    → ℕ
    → Result InvalidTransition (Runs × Option Run)
mark runs run_id step_key status error error_code now = mutate_run runs run_id λ run. do
  steps ← with_step step_key (mark_step status error error_code now) run.steps
  ok (record run { steps = steps; updated_at = some now })

abbrev is_retry : Event → Bool
is_retry event = str_eq (or_else event.kind "") "retry" || str_eq (or_else event.type "") "retry"

abbrev appended {ℓ} : {A : Type ℓ} → Option (List A) → A → Option (List A)
appended items item = some (or_else items [] ++ item ∷ [])

unfoldable pub note_event : Event → Step → Step
note_event event s =
    let noted = record s {
      events = appended s.events event;
      last_event = some (truthy_or event.message (truthy_or event.type "event"));
    } in
    if is_retry event
    then record noted { retry_history = appended s.retry_history event }
    else noted

-- The functions below raise nothing; `⊥` is their type of exceptions.
unfoldable pub append_event : Runs → String → String → Event → ℕ → Result ⊥ (Runs × Option Run)
append_event runs run_id step_key event now = mutate_run runs run_id λ run. do
  steps ← with_step step_key (λ s. ok (note_event event s)) run.steps
  ok (record run { steps = steps; timeline = appended run.timeline event; updated_at = some now })

unfoldable pub reset_step : Step → Step
reset_step s = record s {
  status = some "pending";
  started_at = none;
  ended_at = none;
  error = none;
  error_code = none;
  failure = none;
}

unfoldable pub reset_run : ℕ → ℕ → Run → Run
reset_run start_index now run = record run {
  steps = from_index start_index reset_step run.steps;
  status = some "queued";
  error = none;
  error_code = none;
  ended_at = none;
  updated_at = some now;
}

unfoldable pub reset_from : Runs → String → ℕ → ℕ → Result ⊥ (Runs × Option Run)
reset_from runs run_id start_index now =
    mutate_run runs run_id λ run. ok (reset_run start_index now run)

unfoldable pub reset_retry_count : ℕ → Step → Step
reset_retry_count now s = record s { retry_count = 0; manual_retry_started_at = some now }

unfoldable pub reset_counts_run : ℕ → ℕ → Run → Run
reset_counts_run start_index now run = record run {
  steps = from_index start_index (reset_retry_count now) run.steps;
  updated_at = some now;
}

unfoldable pub reset_retry_counts_from : Runs → String → ℕ → ℕ → Result ⊥ (Runs × Option Run)
reset_retry_counts_from runs run_id start_index now =
    mutate_run runs run_id λ run. ok (reset_counts_run start_index now run)

unfoldable pub bump_retry : Step → Step
bump_retry s = record s { retry_count = s.retry_count + 1 }

unfoldable pub retry_value : Option Step → ℕ
retry_value none = 0
retry_value (some s) = s.retry_count + 1

-- The new count comes back beside the run: that of the step before the call and one, or 0.
unfoldable pub increment_retry : Runs → String → String → ℕ → Result ⊥ (Runs × Option Run × ℕ)
unfolding retry_value
increment_retry runs run_id step_key now = do
  p ← mutate_run runs run_id λ run. (do
    steps ← with_step step_key (λ s. ok (bump_retry s)) run.steps
    ok (record run { steps = steps; updated_at = some now }))
  ok (p.0, p.1, retry_value (get_step runs run_id step_key))
