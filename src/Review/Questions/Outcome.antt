-- ===== src/Review/Questions/Outcome.antt =====
-- What a side question leaves behind.
use planmaxx.Base.{◌≡◌, false}
use planmaxx.Base.Text.{Text, text_comparable}
use planmaxx.Session.Types.{SideAnswer, Session, ok}
use planmaxx.Session.Feedback.{add_side_answer_checked}
use planmaxx.Review.Types.{Server}
use planmaxx.Review.Operations.{iteration_running}
use planmaxx.Review.ClientState.{has_proposal, project_side_answer}
use planmaxx.Review.Mutate.{World, Reply, answered, side_answer}
use planmaxx.Review.Mutate.Outcome.{SameReview, TakenBack, IsSaved, Reloaded}
use planmaxx.Review.Mutate.Change.{IsError, changed_review}
use planmaxx.Review.Iteration.Request.{Outside}
use planmaxx.Review.Questions.{Asked}

-- The question is refused and the review is as it was, or a copy of the session is put back; or the source file was changed outside, and
-- the review that was adjusted to it is saved; or the review is active, without a proposal, idle and
-- the one that the question was asked about, and is saved with the answer, which is shown.
pub data AnswerOutcome (w : World) (o : Outside) (q : Asked) (s : Server)
    : Reply × Server → Type 0 where
  unanswered : {r : Reply} {t : Server} → IsError r → SameReview s t → AnswerOutcome w o q s (r, t)
  taken_back :
      {r : Reply} {t : Server}
      → IsError r
      → s.finished ≡ false
      → TakenBack w s t
      → AnswerOutcome w o q s (r, t)
  reloaded :
      {r : Reply} {t : Server}
      → IsError r
      → s.finished ≡ false
      → Reloaded w s t
      → AnswerOutcome w o q s (r, t)
  stored :
      {t : Server} (answer : Text) (a : SideAnswer) (changed : Session)
      → s.finished ≡ false
      → has_proposal s.session ≡ false
      → iteration_running s ≡ false
      → s.session.current_revision_id ≡ q.base_revision_id
      → o.fingerprint s.session.threads s.session.side_answers ≡ q.base_feedback
      → add_side_answer_checked q.question.thread_id q.question.question answer w.now s.session
        ≡ (ok a, changed)
      → IsSaved w (changed_review s changed) t
      → AnswerOutcome w o q s
          (answered 200 (side_answer (project_side_answer t.session t.finished a.id)), t)
