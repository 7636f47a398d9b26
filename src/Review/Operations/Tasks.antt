-- ===== src/Review/Operations/Tasks.antt =====
-- The goroutines of runIteration beside the server: internal/review/operations.go as a step
-- relation.
use planmaxx.Base.{
  ℕ, ◌≡◌, Bool, true, false, Option, none, some, List, [], ◌∷◌, ◌++◌, if◌then◌else◌,
}
use planmaxx.Base.Text.{Text, text_comparable}
use planmaxx.Review.Types.{IterationOperation, Server}
use planmaxx.Review.Operations.{
  iteration_running, cancel_iteration, clear_terminal_iteration, queue_operation, begin_iteration,
  finish_iteration, Execution, interrupted_error,
}

-- A goroutine before its first section under the lock, and between its two sections. `late` says
-- that the context was canceled when it called Propose, which returns context.Canceled then.
-- The deadline of the context is no step: past it the agent fails, which an execution may always do.
pub data Task : Type 0 where
  waiting : Text → Task
  executing : Text → Bool → Task

pub record System : Type 0 where
  pub server : Server
  pub tasks : List Task

-- Whether the context of the server's operation is canceled.
abbrev pub interrupted_now : Option IterationOperation → Bool
interrupted_now none = false
interrupted_now (some o) = o.interrupted

-- What becomes of a goroutine behind its first section.
abbrev pub after_begin : Text → Bool × Server → List Task
after_begin id (go, s) =
    if go then executing id (interrupted_now s.iteration_operation) ∷ [] else []

pub data Step : System → System → Type 0 where
  -- startIteration behind its checks
  start :
      {s : Server} {ts : List Task} (kind key base : Text) (now : ℕ)
      → iteration_running s ≡ false
      → Step
          (record { server = s; tasks = ts })
          (record {
            server = (queue_operation kind key base now s).1;
            tasks = waiting ((queue_operation kind key base now s).0).view.id ∷ ts;
          })
  begin :
      {s : Server} {ts : List Task} (before after : List Task) (id : Text)
      → ts ≡ before ++ waiting id ∷ after
      → Step
          (record { server = s; tasks = ts })
          (record {
            server = (begin_iteration id s).1;
            tasks = before ++ after_begin id (begin_iteration id s) ++ after;
          })
  finish :
      {s : Server} {ts : List Task} (before after : List Task) (id : Text) (late : Bool) (now : ℕ)
      (result : Execution)
      → ts ≡ before ++ executing id late ∷ after
      → (late ≡ true → result ≡ interrupted_error)
      → Step
          (record { server = s; tasks = ts })
          (record { server = finish_iteration id now result s; tasks = before ++ after })
  -- A request to cancel, the end of the review, or Close.
  cancel :
      {s : Server} {ts : List Task}
      → Step
          (record { server = s; tasks = ts })
          (record { server = cancel_iteration s; tasks = ts })
  -- A change of the review clears a terminal operation.
  clear :
      {s : Server} {ts : List Task}
      → Step
          (record { server = s; tasks = ts })
          (record { server = clear_terminal_iteration s; tasks = ts })
  -- Whatever else the server does leaves the operation alone.
  other :
      {s t : Server} {ts : List Task}
      → t.iteration_operation ≡ s.iteration_operation
      → Step (record { server = s; tasks = ts }) (record { server = t; tasks = ts })

pub data Reach (s : Server) : System → Type 0 where
  new : s.iteration_operation ≡ none → Reach s (record { server = s; tasks = [] })
  later : {x y : System} → Reach s x → Step x y → Reach s y
