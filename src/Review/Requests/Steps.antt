-- ===== src/Review/Requests/Steps.antt =====
-- The requests are steps of the system of the server and its goroutines.
use planmaxx.Base.{◌≢◌, refl, ◌∙◌, List}
use planmaxx.Review.Types.{Server}
use planmaxx.Review.Operations.{cancel_iteration, clear_terminal_iteration}
use planmaxx.Review.Operations.Tasks.{Task, Reach, later, cancel, clear, other}
use planmaxx.Review.Mutate.{World, Reply, overflowed}
use planmaxx.Review.Mutate.Change.{refused, taken_back, reloaded, changed, crashed}
use planmaxx.Review.Handlers.Course
use planmaxx.Review.Requests.{Json, Request, handle}
use planmaxx.Review.Requests.Outcome.{
  Outcome, handled, finalized, canceled, stopped, handle-Outcome,
}

module _ (w : World) (initial s : Server) (ts : List Task)
    (reached : Reach initial (record { server = s; tasks = ts })) where
  Outcome-Reach :
      (r : Reply × Server)
      → Outcome w s r
      → r.0 ≢ overflowed
      → Reach initial (record { server = r.1; tasks = ts })
  unfolding clear_terminal_iteration cancel_iteration Course.canonical_digest
  Outcome-Reach _ (handled (refused error same)) h = later reached (other same.operation)
  Outcome-Reach _ (handled (taken_back error active undone)) h =
      later reached (other undone.operation)
  Outcome-Reach _ (handled (reloaded error active loaded)) h =
      later reached (other loaded.saved.operation)
  Outcome-Reach _ (handled (changed new active idle saved)) h =
      later (later reached clear) (other saved.operation)
  Outcome-Reach _ (handled (crashed active reason)) h = absurd (h refl)
  Outcome-Reach _ (finalized submitted new result active free idle ends saved sent) h =
      later reached (other (saved.operation ∙ ends.operation))
  Outcome-Reach _ (canceled new result active ends saved sent) h =
      later (later reached cancel) (other (saved.operation ∙ ends.operation))
  Outcome-Reach _ (stopped error active same) h =
      later (later reached cancel) (other same.operation)

  -- Every request on feedback, proposals, restored revisions or the end of the review that is
  -- answered takes the server and its goroutines to a state that the steps
  -- reach, so that what holds in all of these holds behind any requests.
  pub handle-Reach :
      (j : Json) (request : Request)
      → (handle w j request s).0 ≢ overflowed
      → Reach initial (record { server = (handle w j request s).1; tasks = ts })
  handle-Reach j request = Outcome-Reach (handle w j request s) (handle-Outcome w j request s)
