-- ===== src/Store/Runs.antt =====
-- `FileRunStore` of app/stores/run_store.py. An exception inside `mutate` leaves the file as it was
-- (`mutate` of app/persistence/json_store.py saves after the call), so a refused call is an `err`
-- and has no new store.
use ai_agent_workflow.Prelude.{
  ℕ, ◌+◌, String, Bool, true, false, Option, none, some, List, [], ◌∷◌, str_eq, ltb, if◌then◌else◌,
  or_else, find, select, Result, ok, ◌>>=◌,
}
use ai_agent_workflow.Engine.Tables.{member, InvalidTransition, validate_transition}
use ai_agent_workflow.Engine.History.{append_transition}
use ai_agent_workflow.Store.Records.{Run}

-- data["runs"]
abbrev pub Runs : Type 0
Runs = List Run

unfoldable pub get_run : Runs → String → Option Run
get_run runs run_id = find (λ r. str_eq r.id run_id) runs

abbrev pub has_status : List String → Run → Bool
has_status statuses run = elim run.status [ none ↦ false | some s ↦ member s statuses ]

unfoldable pub list_by_status : Runs → List String → Runs
list_by_status runs statuses = select (has_status statuses) runs

-- The first of the newest: `sorted(..., reverse=True)[0]` keeps the order of equal keys.
newest : Option Run → Runs → Option Run
newest best [] = best
newest none (r ∷ rest) = newest (some r) rest
newest (some b) (r ∷ rest) = newest (some (if ltb b.created_at r.created_at then r else b)) rest

unfoldable pub latest_for_session : Runs → String → Option Run
unfolding newest
latest_for_session runs session_id = newest none (select (λ r. str_eq r.session_id session_id) runs)

-- The first run of that id is changed, and its version goes up; `fn` may raise.
unfoldable pub mutate_run :
    {E : Type 0} → Runs → String → (Run → Result E Run) → Result E (Runs × Option Run)
mutate_run [] run_id fn = ok ([], none)
mutate_run (r ∷ rest) run_id fn =
    let later = mutate_run rest run_id fn in
    if str_eq r.id run_id
    then (do
      changed ← fn r
      let saved = record changed { state_version = changed.state_version + 1 }
      ok (saved ∷ rest, some saved))
    else (do (rest', found) ← later; ok (r ∷ rest', found))

-- The `extra` argument: its transition reason, and what `run.update(extra)` does to the run.
pub record Extra : Type 0 where
  pub transition_reason : Option String
  pub update : Run → Run

abbrev pub resets_error : String → Bool
resets_error status = member status ("queued" ∷ "running" ∷ "done" ∷ [])

set_error : String → Option String → Option String → Run → Run
set_error status (some error) error_code run = record run {
  error = some error;
  failure = some (record {
    raw_message = error;
    source = "workflow";
    step_key = none;
    error_code = error_code;
  });
}
set_error status none error_code run =
    if resets_error status then record run { error = none; failure = none } else run

set_error_code : String → Option String → Run → Run
set_error_code status (some code) run = record run { error_code = some code }
set_error_code status none run =
    if resets_error status then record run { error_code = none } else run

set_ended : Bool → ℕ → Run → Run
set_ended ended now run = if ended then record run { ended_at = some now } else run

unfoldable pub update_extra : Option Extra → Run → Run
update_extra none run = run
update_extra (some extra) run = extra.update run

abbrev pub extra_reason : Option Extra → Option String
extra_reason none = none
extra_reason (some extra) = extra.transition_reason

-- What `apply` of `transition_status` writes before the extra update.
unfoldable pub moved_run :
    String → Option String → Option String → Bool → Option Extra → ℕ → Run → Run
unfolding set_error set_error_code set_ended
moved_run status error error_code ended extra now run =
    let history =
      append_transition run.transitions "run" (some (or_else run.status "")) status
        (extra_reason extra) now in
    let moved = record run {
      transitions = some history;
      status = some status;
      updated_at = some now;
    } in
    set_error_code status error_code (set_error status error error_code (set_ended ended now moved))

-- `apply` of `transition_status`: nothing is written before the validation.
unfoldable pub apply_transition :
    String
    → Option String
    → Option String
    → Bool
    → Option Extra
    → ℕ
    → Run
    → Result InvalidTransition Run
apply_transition status error error_code ended extra now run = do
  decision ← validate_transition "run" (some (or_else run.status "")) status true
  ok (update_extra extra (moved_run status error error_code ended extra now run))

unfoldable pub transition_status :
    Runs
    → String
    → String
    → Option String
    → Option String
    → Bool
    → Option Extra
    → ℕ
    → Result InvalidTransition (Runs × Option Run)
transition_status runs run_id status error error_code ended extra now =
    mutate_run runs run_id (apply_transition status error error_code ended extra now)
