-- ===== src/Review/Iteration/Outcome.antt =====
-- What executePreparedProposal leaves behind.
use planmaxx.Base.{◌≡◌, false}
use planmaxx.Base.Text.{text_comparable}
use planmaxx.Session.Types.{SectionProposal, SectionProposalInput, Session, ok}
use planmaxx.Session.Feedback.{add_agent_reply_checked}
use planmaxx.Review.Types.{Server}
use planmaxx.Review.Mutate.{World, Failure}
use planmaxx.Review.Mutate.Outcome.{SameReview, TakenBack, IsSaved, Reloaded}
use planmaxx.Review.Iteration.Request.{Outside, Prepared}
use planmaxx.Review.Iteration.Saved.{Unmoved, IsProposed}
use planmaxx.Review.Iteration.Execute.{Executed, stored, answered_thread, interrupted, failed_with}

-- It fails and the review is as it was, or a copy of the session is put back; or the source file was changed outside, and the review that
-- was adjusted to it is saved; or the review is active and the one that the request was made for, and
-- is saved with the proposal, or with the agent's reply on the thread.
pub data ExecuteOutcome (w : World) (o : Outside) (p : Prepared) (s : Server)
    : Executed × Server → Type 0 where
  kept : {t : Server} → SameReview s t → ExecuteOutcome w o p s (interrupted, t)
  failed : {e : Failure} {t : Server} → SameReview s t → ExecuteOutcome w o p s (failed_with e, t)
  taken_back :
      {e : Failure} {t : Server}
      → s.finished ≡ false
      → TakenBack w s t
      → ExecuteOutcome w o p s (failed_with e, t)
  reloaded :
      {e : Failure} {t : Server}
      → s.finished ≡ false
      → Reloaded w s t
      → ExecuteOutcome w o p s (failed_with e, t)
  proposal_stored :
      {t : Server} (input : SectionProposalInput) (q : SectionProposal) (changed : Session)
      → s.finished ≡ false
      → Unmoved o p s.session
      → IsProposed w.now p input s.session q changed
      → IsSaved w (record s { session = changed }) t
      → ExecuteOutcome w o p s (stored q, t)
  reply_stored :
      {t : Server} (input : SectionProposalInput) (changed : Session)
      → s.finished ≡ false
      → Unmoved o p s.session
      → add_agent_reply_checked input.thread_id input.agent_reply w.now s.session ≡ (ok tt, changed)
      → IsSaved w (record s { session = changed }) t
      → ExecuteOutcome w o p s (answered_thread input.thread_id, t)
