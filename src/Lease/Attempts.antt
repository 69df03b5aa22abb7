-- ===== src/Lease/Attempts.antt =====
-- Attempts of steps: `begin_attempt` and `finish_attempt`. The id of an attempt is `attempt-` and a
-- number, which stands for it here.
use mathlib.Core.List.{reverse}
use ai_agent_workflow.Prelude.{
  ℕ, ◌+◌, String, Bool, false, not, ◌&&◌, Option, none, some, List, [], ◌∷◌, ◌++◌, str_eq, ◌==◌,
  if◌then◌else◌, find, keep_last, length, Result, ok, err,
}

pub record Attempt : Type 0 where
  pub number : ℕ
  pub step_key : String
  pub idempotency_key : String
  pub owner_id : String
  pub status : String
  pub started_at : ℕ
  pub resumed_at : Option ℕ
  pub ended_at : Option ℕ
  pub error : Option String

-- The keys of the run document that the attempts use.
pub record RunAttempts : Type 0 where
  pub attempts : List Attempt
  pub active_attempt : Option ℕ

-- The `RunLeaseConflict` for a duplicate, with the key of the step.
pub data DuplicateAttempt : Type 0 where
  duplicate_active : String → DuplicateAttempt

pub data Begun : Type 0 where
  started resumed duplicate_completed : Attempt → Begun

abbrev pub has_key : String → Attempt → Bool
has_key key a = str_eq a.idempotency_key key

-- The last attempt of a key: `next(... for item in reversed(attempts) ...)`
unfoldable pub latest : String → List Attempt → Option Attempt
latest key attempts = find (has_key key) (reverse attempts)

unfoldable pub change_first : String → (Attempt → Attempt) → List Attempt → List Attempt
change_first key f [] = []
change_first key f (a ∷ rest) =
    let rest' = change_first key f rest in if has_key key a then f a ∷ rest else a ∷ rest'

-- A change of the last attempt of a key, in place.
unfoldable pub change_latest : String → (Attempt → Attempt) → List Attempt → List Attempt
change_latest key f attempts = reverse (change_first key f (reverse attempts))

abbrev pub resume : String → ℕ → Attempt → Attempt
resume owner_id now a = record a { status = "running"; owner_id = owner_id; resumed_at = some now }

abbrev pub new_attempt : RunAttempts → String → String → String → ℕ → Attempt
new_attempt run step_key key owner_id now = record {
  number = length run.attempts + 1;
  step_key = step_key;
  idempotency_key = key;
  owner_id = owner_id;
  status = "running";
  started_at = now;
  resumed_at = none;
  ended_at = none;
  error = none;
}

abbrev pub attempt_limit : ℕ
attempt_limit = 200

-- The rest of `begin_attempt`, once the last attempt of the key is found.
unfoldable pub begin_after :
    Option Attempt
    → RunAttempts
    → String
    → String
    → String
    → ℕ
    → Result DuplicateAttempt (RunAttempts × Begun)
begin_after none run step_key key owner_id now =
    let a : Attempt = new_attempt run step_key key owner_id now in
    ok (
      record {
        attempts = keep_last attempt_limit (run.attempts ++ a ∷ []);
        active_attempt = some a.number;
      },
      Begun.started a,
    )
begin_after (some a) run step_key key owner_id now =
    if str_eq a.status "running" && not (str_eq a.owner_id owner_id)
    then err (duplicate_active step_key)
    else if str_eq a.status "completed"
    then ok (run, Begun.duplicate_completed a)
    else ok (
      record run { attempts = change_latest key (resume owner_id now) run.attempts },
      Begun.resumed (resume owner_id now a),
    )

unfoldable pub begin_attempt :
    RunAttempts → String → String → String → ℕ → Result DuplicateAttempt (RunAttempts × Begun)
unfolding begin_after
begin_attempt run step_key key owner_id now =
    begin_after (latest key run.attempts) run step_key key owner_id now

abbrev pub finished : String → Option String → ℕ → Attempt → Attempt
finished status error now a = record a { status = status; ended_at = some now; error = error }

abbrev pub is_number : Option ℕ → ℕ → Bool
is_number none n = false
is_number (some m) n = m == n

unfoldable pub finish_found :
    Option Attempt
    → RunAttempts
    → String
    → String
    → Option String
    → ℕ
    → RunAttempts × Option Attempt
finish_found none run key status error now = (run, none)
finish_found (some a) run key status error now = (
  record {
    attempts = change_latest key (finished status error now) run.attempts;
    active_attempt = if is_number run.active_attempt a.number then none else run.active_attempt;
  },
  some (finished status error now a),
)

unfoldable pub finish_attempt :
    RunAttempts → String → String → Option String → ℕ → RunAttempts × Option Attempt
unfolding finish_found
finish_attempt run key status error now =
    finish_found (latest key run.attempts) run key status error now
