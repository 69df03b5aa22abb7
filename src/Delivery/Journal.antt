-- ===== src/Delivery/Journal.antt =====
-- The journal of a delivery: its operations, their states, and how it is saved.
use ai_agent_workflow.Prelude.{
  ℕ, String, Bool, true, false, not, ◌&&◌, Option, none, some, List, if◌then◌else◌,
}
use ai_agent_workflow.Delivery.Files.{
  Node, Platform, unsafe_path, Exec, pure, raise, effect, exists, is_file, file_sha256, same_sha,
}

pub data Action : Type 0 where
  write delete : Action

pub data OperationStatus : Type 0 where
  prepared applied committed rolled_back : OperationStatus

-- The backup of a file is kept at its own path below the backup root.
pub record Operation : Type 0 where
  pub path : String
  pub action : Action
  pub status : OperationStatus
  pub existed : Bool
  pub target_before_sha256 : Option String
  pub source_sha256 : Option String

pub data JournalStatus : Type 0 where
  prepared applying verifying committed rolling_back rolled_back : JournalStatus

pub record Journal : Type 0 where
  pub transaction_id : String
  pub run_id : String
  pub status : JournalStatus
  pub fencing_token : Option ℕ
  pub changed_files : List String
  pub operations : List Operation
  pub rollback : Option (List String × List String)

abbrev pub Step : Type 0 → Type 0
Step = Exec Journal

-- `persist_delivery_journal`, at the path that `deliver_isolated_changes` always passes.
unfoldable pub persist_delivery_journal : Journal → Step (Unit {0})
persist_delivery_journal journal = effect (λ w. record w { disk = some journal })

abbrev pub is_terminal : JournalStatus → Bool
is_terminal JournalStatus.committed = true
is_terminal JournalStatus.rolled_back = true
is_terminal _ = false

unfoldable pub checked_path : Option String → String → Step String
checked_path none path = raise (unsafe_path path)
checked_path (some rel) path = pure rel

-- `_safe_relative`
unfoldable pub safe_path : Platform → String → Step String
unfolding checked_path
safe_path p path = checked_path (p.safe_relative path) path

applied_at : Platform → Action → Option Node → Operation → Bool
applied_at p delete target op = not (exists target)
applied_at p write target op = is_file target && same_sha (file_sha256 p target) op.source_sha256

-- `_operation_is_applied`, at what stands at the target.
unfoldable pub operation_is_applied : Platform → Option Node → Operation → Bool
unfolding applied_at
operation_is_applied p target op = applied_at p op.action target op

-- `_operation_is_baseline`, at what stands at the target.
unfoldable pub operation_is_baseline : Platform → Option Node → Operation → Bool
operation_is_baseline p target op =
    if op.existed
    then is_file target && same_sha (file_sha256 p target) op.target_before_sha256
    else not (exists target)

unfoldable pub mark_status : OperationStatus → Operation → Operation
mark_status status op = record op { status = status }
