-- ===== src/Review/Handlers/Course.antt =====
-- The handlers of internal/review/server.go that begin a thread, settle a proposal, restore a
-- revision and end the review.
pub mod Outcome
pub mod Offered
use planmaxx.Base.{
  ℕ, Bool, true, false, ◌&&◌, ◌||◌, not, Option, none, some, List, [], ◌∷◌, ◌++◌, ◌==◌,
  if◌then◌else◌,
}
use planmaxx.Base.Text.{Text, codes, text_comparable}
use planmaxx.Base.Utf8.{trim_space}
use planmaxx.Session.Types.{Digest, Revision, Thread, Session, intent_instruction, Result, ok, err}
use planmaxx.Session.State.{find_thread}
use planmaxx.Session.Feedback.{add_thread_with_intent_for_revision, find_revision}
use planmaxx.Session.Proposals.{apply_proposal_checked, discard_proposal_checked}
use planmaxx.Session.Revisions.{restore_revision}
use planmaxx.Digest.{draft_from_state}
use planmaxx.Review.Types.{Server, ReviewResult}
use planmaxx.Review.Operations.{iteration_running, cancel_iteration}
use planmaxx.Review.ClientState.{project_thread, has_proposal}
use planmaxx.Review.Paths.{
  CreateThreadRequest, validate_thread_request, parse_revision_restore_path,
  parse_revision_proposal_action_path, parse_action_path,
}
use planmaxx.Review.Handlers.Threads.{completed}
use planmaxx.Review.Mutate.{
  World, Failure, Mutated, response, conflict, committed, other, Body, status, thread, revision,
  Reply, answered, is_success, reply_error, Mutation, ◌>>=◌, ◌>>◌, pure, fail_with, reading,
  checked, is_obsolete, is_committed, sync_external_source, source_sync_reply, persist,
  clone_session, conclude, mutate_session, after_sync, after_persist,
}

-- The revision and the plan that a new thread is on.
unfoldable pub thread_target : Session → Text × Text
thread_target s = elim s.pending_proposal [
  | none ↦ (s.current_revision_id, s.plan)
  | some p ↦ (p.id, p.proposed_plan)
]

-- The view of the new thread is the answer where the change is saved.
abbrev pub with_view : Text → Reply × Server → Reply × Server
with_view id (reply, s) = (
  if is_success reply
      then answered 200 (thread (project_thread s.session s.finished id s.agent.available))
      else reply,
  s,
)

-- handleCreateThread behind addThreadWithIntentForRevision, and behind its checks.
unfoldable pub after_adding : World → Server → Result Thread × Session → Reply × Server
unfolding conclude project_thread
after_adding w s (err e, changed) = (reply_error 400 e.message, record s { session = changed })
after_adding w s (ok t, changed) =
    with_view t.id (conclude w s (status []) (record s { session = changed }))

unfoldable pub create_thread : World → CreateThreadRequest → Server → Reply × Server
unfolding thread_target validate_thread_request after_adding
create_thread w r s =
    let (revision_id, plan) = thread_target s.session in
    let intent = if r.intent == [] then intent_instruction else r.intent in
    let added =
      add_thread_with_intent_for_revision revision_id r.anchor r.body r.selected_text intent w.now
        s.session in
    elim (validate_thread_request r plan) [
      | some _ ↦ (reply_error 400 (codes "invalid thread json"), s)
      | none ↦ after_adding w s added
    ]

unfoldable pub create_when_idle : World → CreateThreadRequest → Server → Reply × Server
unfolding create_thread
create_when_idle w r s =
    if iteration_running s
    then (
      reply_error 409
          (codes "wait for or stop the active iteration before changing review feedback"),
      s,
    )
    else if is_obsolete s.session
    then (reply_error 409 (codes "discard the stale proposal before changing review feedback"), s)
    else create_thread w (record r { body = trim_space r.body }) s

unfoldable pub handle_create_thread : World → Option CreateThreadRequest → Server → Reply × Server
unfolding sync_external_source source_sync_reply create_when_idle
handle_create_thread w none s = (reply_error 400 (codes "invalid thread json"), s)
handle_create_thread w (some r) s =
    if s.finished
    then (completed, s)
    else after_sync (λ e t. (source_sync_reply e, t)) (create_when_idle w r)
        (sync_external_source w s)

-- handleRevisionProposalAction with its actions apply and discard.
unfoldable pub handle_apply_proposal : World → Text → Server → Reply × Server
unfolding mutate_session
handle_apply_proposal w id s =
    if s.finished
    then (completed, s)
    else mutate_session w (do r ← checked (apply_proposal_checked id w.now); pure (revision r)) s

unfoldable pub handle_discard_proposal : World → Text → Server → Reply × Server
unfolding mutate_session
handle_discard_proposal w id s =
    if s.finished
    then (completed, s)
    else mutate_session w
        (do checked (discard_proposal_checked id); pure (status (codes "discarded"))) s

abbrev pub revision_or_missing : Text → Mutation Revision
revision_or_missing id s = elim (find_revision id s.revisions) [
  | none ↦ (Mutated.failed_with (response 404 (codes "revision not found")), s)
  | some r ↦ (Mutated.returned r, s)
]

-- The plan of a revision that the archive holds.
abbrev pub stored_content : World → Revision → Mutation Text
stored_content w r = if r.commit_id == [] then pure r.plan else elim (w.read_revision r.commit_id) [
  | none ↦ fail_with (other (codes "read revision"))
  | some content ↦ pure content
]

unfoldable pub handle_revision_restore : World → Text → Server → Reply × Server
unfolding mutate_session
handle_revision_restore w id = mutate_session w do
  r ← revision_or_missing id
  content ← stored_content w r
  restored ← checked (restore_revision id content w.now)
  pure (revision restored)

-- handleDigestDraft: what it writes, or none where the review is completed.
unfoldable pub handle_digest_draft : Server → Option Digest
handle_digest_draft s = if s.finished then none else some (draft_from_state s.session)

abbrev pub send : ReviewResult → Server → Server
send result s = record s { done = s.done ++ result ∷ [] }

abbrev pub failure_text : Failure → Text
failure_text (response code text) = text
failure_text conflict = codes "review state changed in another PlanMaxx session"
failure_text (committed text) = text
failure_text (other text) = text

-- finalize and cancel return an error's text or the result.
pub data Ended : Type 0 where
  refused : Text → Ended
  ended : ReviewResult → Ended

-- The digest that finalize stores: the draft, with the summary that was submitted if it has text.
unfoldable pub canonical_digest : Digest → Session → Digest
canonical_digest submitted s =
    let draft = draft_from_state s in
    if trim_space submitted.summary == []
    then draft
    else record draft { summary = trim_space submitted.summary }

abbrev pub final_result : Bool → Server → ReviewResult
final_result was_canceled s = record {
  session = s.session;
  canceled = was_canceled;
  abandoned = false;
}

-- The review that finalize saves, and the one that cancel saves.
unfoldable pub final_review : Digest → Server → Server
unfolding canonical_digest
final_review submitted s = record s {
  session = record (s.session) { digest = canonical_digest submitted s.session };
  finished = true;
  autosave_status = codes "finalized";
}

unfoldable pub canceled_review : Server → Server
unfolding cancel_iteration
canceled_review s = record (cancel_iteration s) {
  finished = true;
  autosave_status = codes "canceled";
}

-- finalize behind its checks.
unfoldable pub store_final : World → Digest → Server → Ended × Server
unfolding final_review persist clone_session
store_final w submitted s =
    after_persist
      (λ e t. (
        refused (failure_text e),
        record t {
          session = clone_session w s.session;
          finished = false;
          autosave_status = s.autosave_status;
        },
      ))
      (λ t. (ended (final_result false t), t)) (persist w (final_review submitted s))

unfoldable pub finalize_when_idle : World → Digest → Server → Ended × Server
unfolding store_final
finalize_when_idle w submitted s =
    if has_proposal s.session
    then (refused (codes "apply or discard the pending proposal before finalizing"), s)
    else if iteration_running s
    then (refused (codes "wait for or stop the active iteration before finalizing"), s)
    else store_final w submitted s

unfoldable pub finalize : World → Digest → Server → Ended × Server
unfolding sync_external_source finalize_when_idle
finalize w submitted s =
    if s.finished
    then (refused (codes "review already completed"), s)
    else after_sync (λ e t. (refused (failure_text e), t)) (finalize_when_idle w submitted)
        (sync_external_source w s)

-- cancel behind its check.
unfoldable pub store_canceled : World → Server → Ended × Server
unfolding canceled_review persist
store_canceled w s =
    after_persist
      (λ e t. (
        refused (failure_text e),
        record t { finished = false; autosave_status = s.autosave_status },
      ))
      (λ t. (ended (final_result true t), t)) (persist w (canceled_review s))

unfoldable pub cancel : World → Server → Ended × Server
unfolding store_canceled
cancel w s =
    if s.finished then (refused (codes "review already completed"), s) else store_canceled w s

-- The end of handleFinalize and handleCancel: the result is sent, or the error is the answer.
unfoldable pub end_review : Text → Ended × Server → Reply × Server
end_review done (refused text, s) = (reply_error 409 text, s)
end_review done (ended result, s) = (answered 200 (status done), send result s)

unfoldable pub handle_finalize : World → Option Digest → Server → Reply × Server
unfolding finalize end_review
handle_finalize w none s = (reply_error 400 (codes "invalid digest json"), s)
handle_finalize w (some submitted) s = end_review (codes "finalized") (finalize w submitted s)

unfoldable pub handle_cancel : World → Server → Reply × Server
unfolding cancel end_review
handle_cancel w s = end_review (codes "canceled") (cancel w s)

-- abandonOrphanedReview
unfoldable pub abandon_orphaned_review : Server → Server
unfolding cancel_iteration
abandon_orphaned_review s =
    if s.finished
    then s
    else send (record { session = s.session; canceled = false; abandoned = true })
        (cancel_iteration (record s { finished = true }))
