-- ===== src/Review/Iteration/Execute.antt =====
-- executePreparedProposal and prepareProposal of internal/review/server.go, and startIteration of
-- internal/review/operations.go.
use planmaxx.Base.{
  ℕ, Bool, ◌||◌, not, Option, none, some, [], ◌++◌, ◌==◌, if◌then◌else◌, ◌⊎◌, inl, inr,
}
use planmaxx.Base.Int.{int_comparable}
use planmaxx.Base.Text.{Text, codes, text_comparable}
use planmaxx.Session.Types.{SectionProposal, SectionProposalInput, Session, Result, ok, err}
use planmaxx.Session.Feedback.{add_agent_reply_checked}
use planmaxx.Session.Proposals.{create_section_proposal, retarget_proposal_threads}
use planmaxx.Sectioniter.Proposal.{
  ProposeError, context_canceled, deadline_exceeded, unavailable, failure,
}
use planmaxx.Review.Types.{Server, IterationOperation}
use planmaxx.Review.Operations.{
  iteration_running, operation_running, queue_operation, Execution, proposed, replied,
  interrupted_error, execution_failed,
}
use planmaxx.Review.Mutate.{
  World, Failure, response, conflict, committed, other, after_sync, after_persist,
  sync_external_source, persist, clone_session, transition_response_error,
}
use planmaxx.Review.Iteration.Request.{
  Outside, ProposeRequest, ProposalLifecycle, Prepared, pending_proposal_id,
}
use planmaxx.Review.Iteration.Prepare.{prepare_proposal}

-- What executePreparedProposal returns.
pub data Executed : Type 0 where
  stored : SectionProposal → Executed
  answered_thread : Text → Executed
  interrupted : Executed
  failed_with : Failure → Executed

-- The error of Propose; context.Canceled is passed on.
unfoldable pub propose_failure : ProposeError → Executed
propose_failure context_canceled = interrupted
propose_failure (deadline_exceeded text) = failed_with (response 504 text)
propose_failure (unavailable text) = failed_with (response 503 text)
propose_failure (failure text) = failed_with (response 502 text)

-- The review is not the one that the request was made for.
unfoldable pub has_moved : Outside → Prepared → Session → Bool
unfolding pending_proposal_id
has_moved o p s =
    not (s.current_revision_id == p.base_revision_id)
    || not (pending_proposal_id s == p.base_pending_proposal_id)
    || not (o.fingerprint s.threads s.side_answers == p.base_feedback)

-- A copy of `before` is put back where the save is lost.
unfoldable pub keep_or_restore : World → Session → Executed → Server → Executed × Server
unfolding clone_session persist
keep_or_restore w before result s =
    after_persist (λ e t. (failed_with e, record t { session = clone_session w before }))
      (λ t. (result, t)) (persist w s)

unfoldable pub after_reply : World → Text → Server → Result (Unit {0}) × Session → Executed × Server
unfolding keep_or_restore
after_reply w thread_id s (err e, changed) =
    (failed_with (transition_response_error e), record s { session = changed })
after_reply w thread_id s (ok _, changed) =
    keep_or_restore w s.session (answered_thread thread_id) (record s { session = changed })

-- The session with the proposal, and with the threads on the proposal that it replaces.
unfoldable pub with_proposal :
    ℕ → Prepared → SectionProposalInput → Session → SectionProposal × Session
with_proposal now p input s =
    let (proposal, s1) =
      create_section_proposal
        (record input {
          kind = p.lifecycle.kind;
          review_digest = p.lifecycle.review_digest;
          consumed_side_answer_ids = p.lifecycle.consumed_side_answer_ids;
        })
        now s in
    (
      proposal,
      if p.base_pending_proposal_id == []
          then s1
          else retarget_proposal_threads p.base_pending_proposal_id proposal.id
              p.previous_proposed_plan proposal.proposed_plan s1,
    )

-- executePreparedProposal behind the check that the review is the same.
unfoldable pub store_input : World → Prepared → SectionProposalInput → Server → Executed × Server
unfolding after_reply with_proposal keep_or_restore
store_input w p input s =
    if not (input.agent_reply == [])
    then after_reply w input.thread_id s
        (add_agent_reply_checked input.thread_id input.agent_reply w.now s.session)
    else let (proposal, changed) = with_proposal w.now p input s.session in
      keep_or_restore w s.session (stored proposal) (record s { session = changed })

unfoldable pub store_unmoved :
    World → Outside → Prepared → SectionProposalInput → Server → Executed × Server
unfolding has_moved store_input
store_unmoved w o p input s =
    if has_moved o p s.session
    then (failed_with (response 409 (codes "plan changed while section iteration was running")), s)
    else store_input w p input s

-- executePreparedProposal, given what Propose returned
unfoldable pub execute_prepared :
    World → Outside → Prepared → ProposeError ⊎ SectionProposalInput → Server → Executed × Server
unfolding propose_failure sync_external_source store_unmoved
execute_prepared w o p (inl e) s = (propose_failure e, s)
execute_prepared w o p (inr input) s =
    if s.finished
    then (failed_with (response 409 (codes "review already completed")), s)
    else after_sync (λ e t. (failed_with e, t)) (store_unmoved w o p input)
        (sync_external_source w s)

failure_message : Failure → Text
failure_message (response code text) = text
failure_message conflict = codes "review state changed in another PlanMaxx session"
failure_message (committed text) = text
failure_message (other text) = text

-- What runIteration makes of it.
unfoldable pub as_execution : Executed → Execution
unfolding failure_message
as_execution (stored p) = proposed p.id
as_execution (answered_thread id) = replied id
as_execution interrupted = interrupted_error
as_execution (failed_with e) = execution_failed (failure_message e)

-- What startIteration answers: an operation is accepted, or an error.
pub data Started : Type 0 where
  accepted : IterationOperation → Started
  rejected : Failure → Started

-- startIteration while an operation runs: the same input is answered with that operation.
unfoldable pub join_running : Text → IterationOperation → Started
join_running key o =
    if o.input_key == key
    then accepted o
    else rejected (response 409 (codes "iteration " ++ o.view.id ++ codes " is already running"))

unfoldable pub queue_prepared : Text → Text → ℕ → Failure ⊎ Prepared → Server → Started × Server
queue_prepared kind key now (inl e) s = (rejected e, s)
queue_prepared kind key now (inr p) s =
    let (o, t) = queue_operation kind key p.base_revision_id now s in (accepted o, t)

abbrev pub running_operation : Option IterationOperation → Option IterationOperation
running_operation none = none
running_operation (some o) = if operation_running (some o) then some o else none

unfoldable pub start_iteration :
    World → Outside → Text → Text → ProposeRequest → ProposalLifecycle → Server → Started × Server
unfolding join_running prepare_proposal queue_prepared
start_iteration w o kind key r l s = elim (running_operation s.iteration_operation) [
  | some running ↦ (join_running key running, s)
  | none ↦
      let (prepared, t) = prepare_proposal w o r l s in queue_prepared kind key w.now prepared t
]

-- prepareProposal, which proposeSection calls.
unfoldable pub prepare_when_idle :
    World → Outside → ProposeRequest → ProposalLifecycle → Server → (Failure ⊎ Prepared) × Server
unfolding prepare_proposal
prepare_when_idle w o r l s =
    if iteration_running s
    then (
      inl (response 409 (codes "wait for or stop the active iteration before starting another")),
      s,
    )
    else prepare_proposal w o r l s
