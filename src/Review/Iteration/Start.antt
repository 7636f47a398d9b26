-- ===== src/Review/Iteration/Start.antt =====
-- The requests that start an iteration: handleProposeSection, handleProposeReview and proposeSection
-- of internal/review/server.go, handleStartReviewIteration and handleStartSectionIteration of
-- internal/review/operations.go.
pub mod Steps
use planmaxx.Base.{
  ℕ, ◌≡◌, refl, ap, ◌∙◌, Bool, true, false, not, Option, none, some, List, [], ◌∷◌, ◌==◌, ◌⊎◌, inl,
  inr, if◌then◌else◌, if-cases, Bool-cases,
}
use planmaxx.Base.Text.{Text, codes, text_comparable}
use planmaxx.Session.Types.{zero_anchor, Digest, SectionProposal, SectionProposalInput, kind_review}
use planmaxx.Sectioniter.Proposal.{ProposeError}
use planmaxx.Review.Types.{IterationOperation, Server}
use planmaxx.Review.Operations.{iteration_running, operation_running, queue_operation}
use planmaxx.Review.Operations.Tasks.{Task, waiting, System, Reach, later, start, other}
use planmaxx.Review.Mutate.{
  World, Failure, response, conflict, committed, other, after_sync, sync_external_source,
}
use planmaxx.Review.Mutate.Outcome.{SyncOutcome, sync_external_source-SyncOutcome}
use planmaxx.Review.Iteration.Request.{
  Outside, ProposeRequest, ProposalLifecycle, Prepared, digest_has_content,
}
use planmaxx.Review.Iteration.Prepare.{prepare_proposal, prepare_session}
use planmaxx.Review.Iteration.Execute.{
  Executed, stored, answered_thread, interrupted, failed_with, execute_prepared, prepare_when_idle,
  Started, accepted, rejected, queue_prepared, start_iteration, join_running,
}

-- What these handlers write.
pub data IterationReply : Type 0 where
  proposal : SectionProposal → IterationReply
  replied_on : Text → IterationReply
  operation : IterationOperation → IterationReply
  failed : ℕ → Text → IterationReply

-- writeProposalError
unfoldable pub proposal_error : Failure → IterationReply
proposal_error conflict =
    failed 409 (
      codes "review state changed in another PlanMaxx session; reload the review before continuing")
proposal_error (response code text) = failed code text
proposal_error (committed text) = failed 500 text
proposal_error (Failure.other text) = failed 500 text

-- The request and the lifecycle of a review, and of a section.
abbrev pub no_request : ProposeRequest
no_request = record { thread_id = []; anchor = zero_anchor; instruction = [] }

abbrev pub review_lifecycle : Digest → ProposalLifecycle
review_lifecycle d = record {
  kind = kind_review;
  review_digest = some d;
  consumed_side_answer_ids = [];
}

abbrev pub section_lifecycle : ProposalLifecycle
section_lifecycle = record { kind = []; review_digest = none; consumed_side_answer_ids = [] }

-- A handler of a review behind its checks on the request.
abbrev checked_digest :
    Text → Option Digest → (Digest → IterationReply × Server) → Server → IterationReply × Server
checked_digest method body next s =
    if not (method == codes "POST")
    then (failed 405 (codes "method not allowed"), s)
    else elim body [
      | none ↦ (failed 400 (codes "invalid review iteration json"), s)
      | some d ↦
          if not (digest_has_content d)
          then (failed 400 (codes "review iteration requires feedback"), s)
          else next d
    ]

-- The end of proposeSection: context.Canceled is an error of another kind.
unfoldable pub executed_reply : Executed → IterationReply
unfolding proposal_error
executed_reply (stored p) = proposal p
executed_reply (answered_thread id) = replied_on id
executed_reply interrupted = failed 500 (codes "context canceled")
executed_reply (failed_with e) = proposal_error e

-- proposeSection, given what the agent answers to what was prepared, and the server that the lock is
-- taken on for the second time.
unfoldable pub finish_propose :
    World
    → Outside
    → (Prepared → (ProposeError ⊎ SectionProposalInput) × Server)
    → (Failure ⊎ Prepared) × Server
    → IterationReply × Server
unfolding proposal_error executed_reply execute_prepared
finish_propose w o agent (inl e, s) = (proposal_error e, s)
finish_propose w o agent (inr p, s) =
    let (answer, later_server) = agent p in
    let (result, t) = execute_prepared w o p answer later_server in (executed_reply result, t)

unfoldable pub propose_section :
    World
    → Outside
    → (Prepared → (ProposeError ⊎ SectionProposalInput) × Server)
    → ProposeRequest
    → ProposalLifecycle
    → Server
    → IterationReply × Server
unfolding prepare_when_idle finish_propose
propose_section w o agent r l s = finish_propose w o agent (prepare_when_idle w o r l s)

unfoldable pub handle_propose_section :
    World
    → Outside
    → (Prepared → (ProposeError ⊎ SectionProposalInput) × Server)
    → Text
    → Option ProposeRequest
    → Server
    → IterationReply × Server
unfolding propose_section
handle_propose_section w o agent method body s =
    if not (method == codes "POST")
    then (failed 405 (codes "method not allowed"), s)
    else if s.finished
    then (failed 409 (codes "review already completed"), s)
    else elim body [
      | none ↦ (failed 400 (codes "invalid section proposal json"), s)
      | some r ↦ propose_section w o agent r section_lifecycle s
    ]

unfoldable pub handle_propose_review :
    World
    → Outside
    → (Prepared → (ProposeError ⊎ SectionProposalInput) × Server)
    → Text
    → Option Digest
    → Server
    → IterationReply × Server
unfolding propose_section digest_has_content
handle_propose_review w o agent method body s =
    checked_digest method body (λ d. propose_section w o agent no_request (review_lifecycle d) s) s

unfoldable pub started_reply : Started × Server → IterationReply × Server
unfolding proposal_error
started_reply (accepted o, s) = (operation o, s)
started_reply (rejected e, s) = (proposal_error e, s)

-- The key is what iterationInputKey makes of the request by encoding/json and SHA-256.
unfoldable pub handle_start_review_iteration :
    World → Outside → (Digest → Text) → Text → Option Digest → Server → IterationReply × Server
unfolding start_iteration started_reply digest_has_content
handle_start_review_iteration w o key method body s =
    checked_digest method body
      (λ d.
        started_reply
          (start_iteration w o (codes "review") (key d) no_request (review_lifecycle d) s))
      s

unfoldable pub handle_start_section_iteration :
    World
    → Outside
    → (ProposeRequest → Text)
    → Text
    → Option ProposeRequest
    → Server
    → IterationReply × Server
unfolding start_iteration started_reply
handle_start_section_iteration w o key method body s =
    if not (method == codes "POST")
    then (failed 405 (codes "method not allowed"), s)
    else elim body [
      | none ↦ (failed 400 (codes "invalid section proposal json"), s)
      | some r ↦ started_reply (start_iteration w o (codes "section") (key r) r section_lifecycle s)
    ]
