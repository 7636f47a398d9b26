-- ===== src/Review/Requests/Ends.antt =====
-- The review that finalize and cancel of internal/review/server.go save, and the result they send.
use planmaxx.Base.{◌≡◌, ◌≢◌, refl, Bool, true, false, [], ◌==◌, if-cases, arith}
use planmaxx.Base.Text.{codes, text_comparable, text_eqb_iff}
use planmaxx.Base.Utf8.{trim_space}
use planmaxx.Session.Types.{Digest, Session}
use planmaxx.Digest.{draft_from_state}
use planmaxx.Review.Types.{Server, ReviewResult}
use planmaxx.Review.Operations.{cancel_iteration}
use planmaxx.Review.Handlers.Course
use planmaxx.Review.Handlers.Course.{final_review, canceled_review, final_result}

-- The digest of the end: the decisions and answers are those of the draft from the session, the
-- summary the submitted one, or the draft's where that has no text.
pub record IsFinalDigest (submitted : Digest) (s : Session) (d : Digest) : Type 0 where
  pub decisions : d.reviewer_decisions ≡ (draft_from_state s).reviewer_decisions
  pub answers : d.promoted_side_answers ≡ (draft_from_state s).promoted_side_answers
  pub unwritten : trim_space submitted.summary ≡ [] → d.summary ≡ (draft_from_state s).summary
  pub written : trim_space submitted.summary ≢ [] → d.summary ≡ trim_space submitted.summary

-- The review that is saved as finalized differs from the one before by its end and its digest.
pub record IsFinalized (submitted : Digest) (s u : Server) : Type 0 where
  pub status : u.autosave_status ≡ codes "finalized"
  pub finished : u.finished ≡ true
  pub session : u.session ≡ record (s.session) { digest = u.session.digest }
  pub digest : IsFinalDigest submitted s.session u.session.digest
  pub operation : u.iteration_operation ≡ s.iteration_operation
  pub sequence : u.iteration_sequence ≡ s.iteration_sequence
  pub document : u.autosave_document ≡ s.autosave_document
  pub done : u.done ≡ s.done

-- The review that is saved as canceled: its session is as it was, and its iteration is stopped.
pub record IsCanceled (s u : Server) : Type 0 where
  pub status : u.autosave_status ≡ codes "canceled"
  pub finished : u.finished ≡ true
  pub session : u.session ≡ s.session
  pub operation : u.iteration_operation ≡ (cancel_iteration s).iteration_operation
  pub sequence : u.iteration_sequence ≡ s.iteration_sequence
  pub document : u.autosave_document ≡ s.autosave_document
  pub done : u.done ≡ s.done

-- A result tells the session that was written, and whether the review was canceled.
pub record IsResult (was_canceled : Bool) (t : Server) (result : ReviewResult) : Type 0 where
  pub session : result.session ≡ t.session
  pub canceled : result.canceled ≡ was_canceled
  pub abandoned : result.abandoned ≡ false

canonical-IsFinalDigest :
    (submitted : Digest) (s : Session)
    → IsFinalDigest submitted s (Course.canonical_digest submitted s)
unfolding Course.canonical_digest
canonical-IsFinalDigest submitted s =
    if-cases (IsFinalDigest submitted s) (trim_space submitted.summary == []) _ _
      (λ none_given. record {
        decisions = refl;
        answers = refl;
        unwritten = λ _. refl;
        written =
            λ text. absurd (text ((text_eqb_iff (trim_space submitted.summary) []).0 none_given));
      })
      (λ given. record {
        decisions = refl;
        answers = refl;
        unwritten =
            λ e. absurd (ground (arith, given, text_eqb_iff (trim_space submitted.summary) [], e));
        written = λ _. refl;
      })

pub final_review-IsFinalized :
    (submitted : Digest) (s : Server) → IsFinalized submitted s (final_review submitted s)
unfolding final_review
final_review-IsFinalized submitted s = record {
  status = refl;
  finished = refl;
  session = refl;
  digest = canonical-IsFinalDigest submitted s.session;
  operation = refl;
  sequence = refl;
  document = refl;
  done = refl;
}

pub canceled_review-IsCanceled : (s : Server) → IsCanceled s (canceled_review s)
unfolding canceled_review cancel_iteration
canceled_review-IsCanceled s = record {
  status = refl;
  finished = refl;
  session = refl;
  operation = refl;
  sequence = refl;
  document = refl;
  done = refl;
}

pub final-IsResult : (b : Bool) (t : Server) → IsResult b t (final_result b t)
final-IsResult b t = record { session = refl; canceled = refl; abandoned = refl }
