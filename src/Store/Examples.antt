-- ===== src/Store/Examples.antt =====
-- A run with two steps, and the calls of one pass over it.
use ai_agent_workflow.Prelude.{String, ◌≡◌, refl, true, false, some, none, List, [], ◌∷◌, arith}
use ai_agent_workflow.Prelude.Dict.{get}
use ai_agent_workflow.Engine.Tables.{run_transitions, allows}
use ai_agent_workflow.Store.Records.{Step, Run}
use ai_agent_workflow.Store.Runs.{Runs, Extra, get_run}
use ai_agent_workflow.Store.Legal.{IsLegalStep, IsLegalRun}
use ai_agent_workflow.Store.Kept.{IsLegalFile}
use ai_agent_workflow.Store.Operations.{Operation, perform_all, perform_all-IsLegalFile}

abbrev pending_step : String → Step
pending_step key = record {
  key = key;
  status = some "pending";
  started_at = none;
  ended_at = none;
  error = none;
  error_code = none;
  failure = none;
  retry_count = 0;
  manual_retry_started_at = none;
  transitions = none;
  events = none;
  last_event = none;
  retry_history = none;
}

abbrev queued_run : Run
queued_run = record {
  id = "run-1";
  session_id = "session-1";
  created_at = 1;
  status = some "queued";
  steps = pending_step "spec" ∷ pending_step "code" ∷ [];
  error = none;
  error_code = none;
  failure = none;
  updated_at = none;
  ended_at = none;
  transitions = none;
  timeline = none;
  state_version = 4;
}

abbrev file : Runs
file = queued_run ∷ []

pending_step-IsLegalStep : (key : String) → IsLegalStep (pending_step key)
pending_step-IsLegalStep key = record {
  known = refl;
  running_clean = λ e. cc;
  ended_timed = λ e. cc;
  history = record { edges = tt; short = omega arith };
}

queued_run-IsLegalRun : IsLegalRun queued_run
queued_run-IsLegalRun = record {
  known = refl;
  history = record { edges = tt; short = omega arith };
  steps = (pending_step-IsLegalStep "spec", (pending_step-IsLegalStep "code", tt));
}

-- The extra fields of a start, as the executor gives them.
abbrev start_fields : Extra
start_fields = record { transition_reason = none; update = λ r. record r { ended_at = none } }

-- The second call is refused: no step has the status `retrying`.
abbrev some_calls : List Operation
some_calls =
    Operation.transition "run-1" "running" none none false (some start_fields) 10
    ∷ Operation.mark_of "run-1" "code" "retrying" none none 11
    ∷ Operation.mark_of "run-1" "spec" "running" none none 12
    ∷ Operation.mark_of "run-1" "spec" "failed" (some "no output") none 20
    ∷ Operation.retry "run-1" "spec" 21
    ∷ Operation.reset "run-1" 0 22
    ∷ []

perform_all-IsLegalFile_example : IsLegalFile (perform_all file some_calls)
perform_all-IsLegalFile_example =
    perform_all-IsLegalFile file some_calls (queued_run-IsLegalRun, tt)
      ((λ r. (refl, refl, refl)), (tt, (tt, (tt, (tt, (tt, tt))))))

abbrev cancelled_run : Run
cancelled_run = record queued_run { status = some "cancelled" }

cancelled : get_run (cancelled_run ∷ []) "run-1" ≡ some cancelled_run
unfolding get_run
cancelled = refl

stored : get_run file "run-1" ≡ some queued_run
unfolding get_run
stored = refl

no_edge : allows run_transitions "cancelled" "done" ≡ false
unfolding allows get
no_edge = refl

yes_edge : allows run_transitions "queued" "running" ≡ true
unfolding allows get
yes_edge = refl
