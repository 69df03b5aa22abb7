-- ===== src/Completion/Records.antt =====
-- What the completion gate reads, and what it answers (app/workflow_runtime/completion_gate.py).
use ai_agent_workflow.Prelude.{String, Bool, Option, List}

-- A value of `exit_code`: nothing or a false value other than 0, a value equal to 0, another number,
-- or a text.
pub data ExitCode : Type 0 where
  missing : ExitCode
  zero_code other_code : ExitCode
  text_code : String → ExitCode

pub record Validation : Type 0 where
  pub key : Option String
  pub status : Option String
  pub exit_code : ExitCode

pub record Task : Type 0 where
  pub id : Option String
  pub status : Option String

pub record Step : Type 0 where
  pub key : Option String
  pub status : Option String

-- What the gate reads of the run: entries that are no dictionaries are left out.
pub record Run : Type 0 where
  pub workflow_id : Option String
  pub validation_results : List Validation
  pub required : Bool
  pub tasks : List Task
  pub steps : List Step
  pub violations_resolved : List Bool

pub record Evidence : Type 0 where
  pub text_of : String → String
  pub says_pass : String → Bool
  pub says_exit_zero : String → Bool

pub data Verdict : Type 0 where
  pass fail not_configured : Verdict

-- The checks, in their order; the first stands only for the workflows that write code.
pub record Gate : Type 0 where
  pub automated_tests : Option Verdict
  pub user_validation : Verdict
  pub accepted_tasks : Verdict
  pub incomplete : List String
  pub step_state : Verdict
  pub failed_steps : List String
  pub policy : Verdict
  pub status : Verdict
  pub errors : List String
