-- ===== src/Review/Tests/Instances.antt =====
-- The instances of the theorems on the server.
use planmaxx.Base.{◌≡◌, ◌≢◌, refl, none, some, true, false, [], ◌∷◌, arith}
use planmaxx.Base.Text.{Text, codes, text_comparable, text_eqb}
use planmaxx.Base.Utf8.{trim_space}
use planmaxx.Base.Decimal.{itoa}
use planmaxx.Review.Types.{IterationOperation, canceled, Server}
use planmaxx.Review.Operations.{
  begin_iteration, cancel_iteration, cancel_if_running, cancel_operation, finish_iteration,
  proposed, queue_operation, status_of, begin_at,
}
use planmaxx.Review.Operations.Tasks.{
  executing, System, Reach, new, later, start, begin, cancel, interrupted_now,
}
use planmaxx.Review.Operations.Live.{Live, Reach-Live, finish-canceled}
use planmaxx.Review.Mutate.{overflowed, sync_external_source, compare_source, source_matches}
use planmaxx.Review.Mutate.Outcome.{SameReview}
use planmaxx.Review.Mutate.Change.{IsError}
use planmaxx.Review.Handlers.Threads.{
  handle_reanchor_thread, handle_mark_thread_addressed, handle_create_follow_up,
  handle_promote_side_answer, handle_unpromote_side_answer,
}
use planmaxx.Review.Handlers.Threads.Obsolete.{obsolete-overflowed}
use planmaxx.Review.Requests.{Request, handle}
use planmaxx.Review.Requests.Outcome.{Outcome}
use planmaxx.Review.Requests.Final.{
  SentOnce, handle-finished, handle-SentOnce, handle-ne-overflowed,
}
use planmaxx.Review.Tests.Data.{server, finished_server, old_server, world, json, second_line}

-- The reviewer replies to the comment.
abbrev reply : Request
reply = Request.threads (codes "POST") (codes "/api/threads/thread-1/reply") (codes "more")

handle-finished_example :
    IsError (handle world json reply finished_server).0
    × SameReview finished_server (handle world json reply finished_server).1
handle-finished_example = handle-finished world json reply finished_server refl

handle-ne-overflowed_example : (handle world json reply server).0 ≢ overflowed
handle-ne-overflowed_example = handle-ne-overflowed world json reply server (omega arith) refl

-- The reviewer cancels the review.
abbrev stop : Request
stop = Request.cancel (codes "POST")

handle-SentOnce_example : SentOnce (handle world json stop server).1
handle-SentOnce_example =
    handle-SentOnce world json stop server
      (handle-ne-overflowed world json stop server (omega arith) refl) refl

old_server-in_step : sync_external_source world old_server ≡ (none, old_server)
unfolding sync_external_source compare_source source_matches text_eqb
old_server-in_step = refl

rev_1-trimmed : trim_space (codes "rev-1") ≢ []
unfolding trim_space
rev_1-trimmed q = cc

obsolete-overflowed_example :
    ((handle_promote_side_answer world (codes "side-1") old_server).0 ≡ overflowed)
    × ((handle_unpromote_side_answer world (codes "side-1") old_server).0 ≡ overflowed)
    × ((handle_create_follow_up world (codes "side-1") old_server).0 ≡ overflowed)
    × ((handle_reanchor_thread world (some second_line) (codes "side-1") old_server).0 ≡ overflowed)
    × ((handle_mark_thread_addressed world (some (codes "rev-1")) (codes "side-1") old_server).0
        ≡ overflowed)
obsolete-overflowed_example =
    obsolete-overflowed world old_server refl refl old_server-in_step refl (codes "side-1")
      (codes "rev-1") second_line rev_1-trimmed

-- The iteration was queued, its goroutine ran the first section, and then it was canceled.
abbrev queued_server : Server
queued_server = (queue_operation (codes "section") [] (codes "rev-1") 30 server).1

abbrev id : Text
id = (queue_operation (codes "section") [] (codes "rev-1") 30 server).0.view.id

abbrev running_server : Server
running_server = (begin_iteration id queued_server).1

abbrev canceling_server : Server
canceling_server = cancel_iteration running_server

abbrev canceling_system : System
canceling_system = record { server = canceling_server; tasks = executing id false ∷ [] }

system-Reach : Reach server canceling_system
unfolding queue_operation begin_iteration begin_at text_eqb itoa
system-Reach =
    later
      (later (later (new refl) (start (codes "section") [] (codes "rev-1") 30 refl))
        (begin [] [] id refl))
      cancel

Reach-Live_example : Live canceling_server.iteration_operation (executing id false ∷ [])
Reach-Live_example = Reach-Live system-Reach

canceling-interrupted : interrupted_now canceling_server.iteration_operation ≡ true
unfolding queue_operation begin_iteration begin_at text_eqb itoa cancel_iteration cancel_if_running
    cancel_operation
canceling-interrupted = refl

finish-canceled_example :
    (o : IterationOperation) × ((finish_iteration id 40
        (proposed (codes "proposal-1"))
        canceling_server).iteration_operation
      ≡ some o)
    × (status_of o ≡ canceled)
finish-canceled_example =
    finish-canceled server canceling_server (executing id false ∷ []) [] [] id false 40
      (proposed (codes "proposal-1")) system-Reach refl (λ q. cc) canceling-interrupted
