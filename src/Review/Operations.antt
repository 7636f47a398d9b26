-- ===== src/Review/Operations.antt =====
-- The one iteration operation of the server: internal/review/operations.go.
pub mod Tasks
pub mod Live
pub mod Actions
use planmaxx.Base.{
  ℕ, ◌+◌, ◌%◌, ◌^◌, Bool, true, false, Option, none, some, ◌++◌, [], ◌==◌, if◌then◌else◌, not,
}
use planmaxx.Base.Text.{Text, codes, text_comparable}
use planmaxx.Base.Int.{pos}
use planmaxx.Base.Decimal.{itoa}
use planmaxx.Review.Types.{
  OperationStatus, queued, running, canceling, succeeded, failed, canceled, OperationView,
  IterationOperation, Server,
}

abbrev pub is_running : OperationStatus → Bool
is_running queued = true
is_running running = true
is_running canceling = true
is_running succeeded = false
is_running failed = false
is_running canceled = false

abbrev pub is_canceling : OperationStatus → Bool
is_canceling canceling = true
is_canceling queued = false
is_canceling running = false
is_canceling succeeded = false
is_canceling failed = false
is_canceling canceled = false

abbrev pub status_of : IterationOperation → OperationStatus
status_of o = o.view.status

abbrev pub operation_running : Option IterationOperation → Bool
operation_running none = false
operation_running (some o) = is_running (status_of o)

-- iterationRunningLocked
abbrev pub iteration_running : Server → Bool
iteration_running s = operation_running s.iteration_operation

abbrev pub with_status : OperationStatus → IterationOperation → IterationOperation
with_status status o = record o { view = record (o.view) { status = status } }

-- What cancelIterationLocked makes of a running operation: its context is canceled if the function
-- cancel is not nil.
unfoldable pub cancel_operation : IterationOperation → IterationOperation
cancel_operation o = record (with_status canceling o) {
  interrupted = if o.has_cancel then true else o.interrupted;
}

unfoldable pub cancel_if_running : Option IterationOperation → Option IterationOperation
unfolding cancel_operation
cancel_if_running none = none
cancel_if_running (some o) = if is_running (status_of o) then some (cancel_operation o) else some o

-- cancelIterationLocked, and cancelActiveIteration, which takes the lock around it.
unfoldable pub cancel_iteration : Server → Server
unfolding cancel_if_running
cancel_iteration s = record s { iteration_operation = cancel_if_running s.iteration_operation }

unfoldable pub clear_if_terminal : Option IterationOperation → Option IterationOperation
clear_if_terminal none = none
clear_if_terminal (some o) = if is_running (status_of o) then some o else none

-- clearTerminalIterationLocked
unfoldable pub clear_terminal_iteration : Server → Server
unfolding clear_if_terminal
clear_terminal_iteration s = record s {
  iteration_operation = clear_if_terminal s.iteration_operation;
}

-- The operation that startIteration puts into the server, and the number it takes.
unfoldable pub queue_operation : Text → Text → Text → ℕ → Server → IterationOperation × Server
queue_operation kind input_key base_revision_id now s =
    let n = (s.iteration_sequence + 1) % 2 ^ 64 in
    let operation : IterationOperation = record {
      view = record {
        id = codes "operation-" ++ itoa (pos n);
        kind = kind;
        status = queued;
        started_at = now;
        completed_at = none;
        base_revision_id = base_revision_id;
        proposal_id = [];
        result_kind = [];
        thread_id = [];
        error = [];
      };
      input_key = input_key;
      has_cancel = true;
      interrupted = false;
    } in
    (operation, record s { iteration_sequence = n; iteration_operation = some operation })

-- The first section of runIteration under the lock: false where the goroutine returns at once.
unfoldable pub begin_at : Text → Option IterationOperation → Bool × Option IterationOperation
begin_at id none = (false, none)
begin_at id (some o) =
    if o.view.id == id then (true, some (with_status running o)) else (false, some o)

unfoldable pub begin_iteration : Text → Server → Bool × Server
unfolding begin_at
begin_iteration id s =
    let (go, operation) = begin_at id s.iteration_operation in
    (go, record s { iteration_operation = operation })

-- What executePreparedProposal returns: a proposal or the thread that was answered, or an error,
-- which may be context.Canceled.
pub data Execution : Type 0 where
  proposed replied : Text → Execution
  interrupted_error : Execution
  execution_failed : Text → Execution

-- The operation behind the second section of runIteration under the lock.
unfoldable pub complete_operation : ℕ → Execution → IterationOperation → IterationOperation
complete_operation now result o =
    let o' = record o {
      has_cancel = false;
      interrupted = if o.has_cancel then true else o.interrupted;
      view = record (o.view) { completed_at = some now };
    } in
    let as_canceled = record o' { view = record (o'.view) { status = canceled; error = [] } } in
    if is_canceling (status_of o) then as_canceled else elim result [
      | interrupted_error ↦ as_canceled
      | execution_failed message ↦ record o' {
        view = record (o'.view) { status = failed; error = message };
      }
      | proposed id ↦ record o' {
        view = record (o'.view) {
          status = succeeded;
          result_kind = codes "proposal";
          proposal_id = id;
          error = [];
        };
      }
      | replied id ↦ record o' {
        view = record (o'.view) {
          status = succeeded;
          result_kind = codes "thread_reply";
          thread_id = id;
          error = [];
        };
      }
    ]

finish_at : Text → ℕ → Execution → Option IterationOperation → Option IterationOperation
unfolding complete_operation
finish_at id now result none = none
finish_at id now result (some o) =
    if o.view.id == id then some (complete_operation now result o) else some o

unfoldable pub finish_iteration : Text → ℕ → Execution → Server → Server
unfolding finish_at
finish_iteration id now result s = record s {
  iteration_operation = finish_at id now result s.iteration_operation;
}
