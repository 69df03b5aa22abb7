-- ===== src/Recovery/Runs.antt =====
-- The runs of the store (app/workflow_runtime/run_lifecycle.py). The time is an argument of a call; what
-- a path resolves to is a parameter.
use ai_agent_workflow.Prelude.{
  ℕ, ◌+◌, ◌-◌, min, String, Bool, true, false, ◌&&◌, ◌||◌, Option, none, some, List, [], ◌∷◌, map,
  str_eq, if◌then◌else◌, length, or_else,
}
use ai_agent_workflow.Prelude.Letters.{is_in}
use ai_agent_workflow.Recovery.Owners.{
  Process, Owner, owner_matches_current_process, owner_process_is_alive,
}

pub record Step : Type 0 where
  pub key : Option String
  pub status : String
  pub error : Option String
  pub error_code : Option String
  pub ended_at : Option String

-- `recovery` of a run; an index that is missing is -1.
pub record Restart : Type 0 where
  pub last_completed_step : Option String
  pub last_completed_index : Option ℕ
  pub resume_index : ℕ
  pub checkpoint_id : Option String

pub record Run : Type 0 where
  pub id : Option String
  pub session_id : Option String
  pub workflow_id : Option String
  pub status : String
  pub created_at : Option String
  pub updated_at : Option String
  pub ended_at : Option String
  pub original_project_path : Option String
  pub project_path : Option String
  pub run_owner : Option Owner
  pub steps : List Step
  pub checkpoints : List (Option String)
  pub error : Option String
  pub error_code : Option String
  pub restart_recoverable : Bool
  pub recovery : Option Restart
  pub has_project_lock : Bool
  pub interrupted_by_owner : Option Owner
  pub cancel_requested : Bool
  pub cancel_reason : Option String
  pub cancel_requested_at : Option String

abbrev pub active_statuses : List String
active_statuses = "queued" ∷ "running" ∷ "waiting_input" ∷ "cancelling" ∷ []

-- `a or b`
abbrev pub or_path : Option String → Option String → Option String
or_path none b = b
or_path (some a) b = if str_eq a "" then b else some a

unfoldable pub run_project_path : Run → String
run_project_path run = or_else (or_path run.original_project_path run.project_path) ""

unfoldable pub is_active_run : Run → Bool
is_active_run run = is_in run.status active_statuses

unfoldable pub is_terminal_run : Run → Bool
is_terminal_run run = is_in run.status ("done" ∷ "failed" ∷ "cancelled" ∷ [])

abbrev pub is_live_owner : Process → Option Owner → Bool
is_live_owner process none = true
is_live_owner process (some owner) =
    owner_matches_current_process process owner || owner_process_is_alive process owner

unfoldable pub active_run_owner_is_live : Process → Run → Bool
unfolding is_active_run
active_run_owner_is_live process run = is_active_run run && is_live_owner process run.run_owner

abbrev pub is_complete : String → Bool
is_complete status = is_in status ("passed" ∷ "skipped" ∷ [])

abbrev pub is_open : String → Bool
is_open status =
    is_in status ("running" ∷ "waiting_input" ∷ "failed" ∷ "pending" ∷ "queued" ∷ "cancelling" ∷ [])

-- The variables of the loop in `build_restart_recovery`.
pub record Scan : Type 0 where
  pub last_index : Option ℕ
  pub last_key : Option String
  pub resume : ℕ

unfoldable pub scan : ℕ → Scan → List Step → Scan
scan index found [] = found
scan index found (step ∷ steps) =
    let passed : Scan = record {
      last_index = some index;
      last_key = step.key;
      resume = index + 1;
    } in
    let past = scan (index + 1) (if is_complete step.status then passed else found) steps in
    if is_complete step.status
    then past
    else if is_open step.status
    then record found { resume = index }
    else past

abbrev pub last_checkpoint : List (Option String) → Option String
last_checkpoint [] = some "baseline"
last_checkpoint (id ∷ []) = id
last_checkpoint (id ∷ next ∷ ids) = last_checkpoint (next ∷ ids)

unfoldable pub build_restart_recovery : Run → Restart
unfolding scan
build_restart_recovery run =
    let found = scan 0 (record { last_index = none; last_key = none; resume = 0 }) run.steps in
    record {
      last_completed_step = found.last_key;
      last_completed_index = found.last_index;
      resume_index = min found.resume (length run.steps - 1);
      checkpoint_id = last_checkpoint run.checkpoints;
    }

abbrev pub failed_step : String → String → Step → Step
failed_step message now step = record step {
  status = "failed";
  error = some message;
  error_code = some "INTERRUPTED";
  ended_at = some now;
}

unfoldable pub mark_stale_active_run_interrupted : String → Option String → Run → Run
unfolding build_restart_recovery
mark_stale_active_run_interrupted now reason run =
    let message =
      or_else (or_path reason none)
        "Workflow owner process is no longer alive; run was recovered as interrupted." in
    record run {
      status = "failed";
      error = some message;
      error_code = some "INTERRUPTED";
      ended_at = some now;
      updated_at = some now;
      restart_recoverable = true;
      recovery = some (build_restart_recovery run);
      has_project_lock = false;
      steps =
          map
            (λ step.
              if is_in step.status ("queued" ∷ "running" ∷ "cancelling" ∷ [])
              then failed_step message now step
              else step)
            run.steps;
    }

unfoldable pub mark_cancel_requested : String → String → Run → Run
mark_cancel_requested now reason run = record run {
  cancel_requested = true;
  cancel_reason = some reason;
  cancel_requested_at = some now;
  status = "cancelling";
  updated_at = some now;
}

unfoldable pub cancel_requested : Run → Bool
cancel_requested run = run.cancel_requested || str_eq run.status "cancelling"
