-- ===== src/Store/Records.antt =====
-- The run and step documents, with the fields that the stores read or write. A key that may be
-- missing or `None` is an `Option`; times are the values of `utc_now()`.
use ai_agent_workflow.Prelude.{ℕ, String, Option, List}
use ai_agent_workflow.Engine.History.{Transition}

pub record Event : Type 0 where
  pub kind : Option String
  pub type : Option String
  pub message : Option String

-- What `normalize_failure` computes the failure envelope from.
pub record Failure : Type 0 where
  pub raw_message : String
  pub source : String
  pub step_key : Option String
  pub error_code : Option String

pub record Step : Type 0 where
  pub key : String
  pub status : Option String
  pub started_at : Option ℕ
  pub ended_at : Option ℕ
  pub error : Option String
  pub error_code : Option String
  pub failure : Option Failure
  pub retry_count : ℕ
  pub manual_retry_started_at : Option ℕ
  pub transitions : Option (List Transition)
  pub events : Option (List Event)
  pub last_event : Option String
  pub retry_history : Option (List Event)

pub record Run : Type 0 where
  pub id : String
  pub session_id : String
  pub created_at : ℕ
  pub status : Option String
  pub steps : List Step
  pub error : Option String
  pub error_code : Option String
  pub failure : Option Failure
  pub updated_at : Option ℕ
  pub ended_at : Option ℕ
  pub transitions : Option (List Transition)
  pub timeline : Option (List Event)
  pub state_version : ℕ
