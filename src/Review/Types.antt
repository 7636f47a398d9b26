-- ===== src/Review/Types.antt =====
-- The state of the server and of its iteration operation: the structs of internal/review/server.go
-- and internal/review/operations.go.
use planmaxx.Base.{ℕ, Bool, Option, List}
use planmaxx.Base.Text.{Text}
use planmaxx.Session.Types.{Session}

-- The constants iterationOperation…; the field Status holds no other value.
pub data OperationStatus : Type 0 where
  queued running canceling succeeded failed canceled : OperationStatus

-- iterationOperationView
pub record OperationView : Type 0 where
  pub id : Text
  pub kind : Text
  pub status : OperationStatus
  pub started_at : ℕ
  pub completed_at : Option ℕ
  pub base_revision_id : Text
  pub proposal_id : Text
  pub result_kind : Text
  pub thread_id : Text
  pub error : Text

-- iterationOperation: `has_cancel` says that its function cancel is not nil, `interrupted` that the
-- context which the function cancels is canceled.
pub record IterationOperation : Type 0 where
  pub view : OperationView
  pub input_key : Text
  pub has_cancel : Bool
  pub interrupted : Bool

-- Document
pub record Document : Type 0 where
  pub canonical_path : Text
  pub source_hash : Text
  pub source_text : Text
  pub plan_format : Text

pub record ReviewResult : Type 0 where
  pub session : Session
  pub canceled : Bool
  pub abandoned : Bool

-- AgentInfo of client_state.go
pub record AgentInfo : Type 0 where
  pub id : Text
  pub display_name : Text
  pub context_mode : Text
  pub available : Bool
  pub unavailable_reason : Text

-- Server. `done` is what was sent on the channel of that name.
pub record Server : Type 0 where
  pub session : Session
  pub finished : Bool
  pub autosave_status : Text
  pub autosave_generation : ℕ
  pub autosave_document : Document
  pub agent : AgentInfo
  pub iteration_operation : Option IterationOperation
  pub iteration_sequence : ℕ
  pub done : List ReviewResult
