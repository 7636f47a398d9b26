-- ===== src/Review/Tests/Parts.antt =====
-- The instances of the theorems on the presence, the comparison and the side questions.
use planmaxx.Base.{◌≡◌, ◌↔◌, refl, none, some, if◌then◌else◌, [], ◌∷◌, List, arith, true, contains}
use planmaxx.Base.Int.{pos, ltb_ℤ}
use planmaxx.Base.Text.{Text, codes, text_eqb, split_lines}
use planmaxx.Session.Types.{ok, err, empty_digest, lifecycle_of}
use planmaxx.Session.Locate.{validate_session_anchor}
use planmaxx.Session.Validate.{
  validate, check_revisions, check_current, check_threads, check_messages, check_answers,
  check_proposal,
}
use planmaxx.Session.Validate.Sound.{validate_sound}
use planmaxx.Session.Validate.Spec.{IsValid}
use planmaxx.Session.Proposals.{apply_proposal_checked, apply_pending, commit}
use planmaxx.Review.Mutate.{sync_external_source, compare_source, source_matches}
use planmaxx.Review.Handlers.Course.{finalize, store_final, refused}
use planmaxx.Review.Handlers.Course.Offered.{
  offered, stale_proposal, finalize-Offered, apply-Offered,
}
use planmaxx.Review.Presence.{
  Event, timeout_set, connected, disconnected, expired, run, new_presence, expire, step,
  set_timeout, stop_timer, start_timer, add, remove, is_connected, disconnect,
}
use planmaxx.Review.Presence.Watched.{Sound, expire_iff, run-Sound}
use planmaxx.Review.Compare.{feedback_between}
use planmaxx.Review.Compare.Between.{FeedbackOutcome, feedback_between-FeedbackOutcome}
use planmaxx.Review.Questions.{Asked}
use planmaxx.Review.Operations.Tasks.{Reach, new}
use planmaxx.Review.Requests.{Request, handle}
use planmaxx.Review.Requests.Final.{handle-ne-overflowed}
use planmaxx.Review.Requests.Steps.{handle-Reach}
use planmaxx.Review.Tests.Data.{
  server, world, json, comment, longer_review, new_proposal, proposed_server,
}

-- A browser connects and leaves, and the timer that its leaving started expires.
abbrev visit : List Event
visit = timeout_set (pos 5) ∷ connected 1 ∷ disconnected 1 ∷ []

visit-timed : ltb_ℤ (pos 0) (run visit new_presence).1.timeout ≡ true
unfolding run step set_timeout stop_timer start_timer add remove is_connected disconnect
    new_presence
visit-timed = refl

expire_iff_example :
    ((expire 4 (run visit new_presence).1).0 ≡ true) ↔ ((run visit new_presence).1.timer ≡ some 4)
expire_iff_example = expire_iff visit 4 visit-timed

run-Sound_example : Sound (run (expired 4 ∷ expired 4 ∷ visit) new_presence)
run-Sound_example = run-Sound (expired 4 ∷ expired 4 ∷ visit)

longer_review-valid : validate longer_review ≡ ok tt
unfolding validate text_eqb check_revisions contains check_current check_threads
    validate_session_anchor split_lines check_messages check_answers lifecycle_of check_proposal
longer_review-valid = refl

longer_review-IsValid : IsValid longer_review
longer_review-IsValid = validate_sound longer_review longer_review-valid

feedback_between-FeedbackOutcome_example :
    FeedbackOutcome longer_review.revisions
      (codes "rev-1")
      (codes "rev-3")
      (feedback_between longer_review (codes "rev-1") (codes "rev-3"))
feedback_between-FeedbackOutcome_example =
    feedback_between-FeedbackOutcome longer_review (codes "rev-1") (codes "rev-3")
      longer_review-IsValid

-- The reviewer asks about the comment.
abbrev asked : Asked
asked = record {
  question = record {
    thread_id = codes "thread-1";
    question = codes "why";
    file_path = [];
    reference = [];
    selected_text = [];
    plan_excerpt = [];
    format = [];
  };
  thread = comment;
  base_revision_id = codes "rev-1";
  base_feedback = [];
}

-- The reviewer cancels the review.
abbrev stop : Request
stop = Request.cancel (codes "POST")

handle-Reach_example :
    Reach server (record { server = (handle world json stop server).1; tasks = [] })
handle-Reach_example =
    handle-Reach world server server [] (new refl) json stop
      (handle-ne-overflowed world json stop server (omega arith) refl)

server-in_step : sync_external_source world server ≡ (none, server)
unfolding sync_external_source compare_source source_matches text_eqb
server-in_step = refl

finalize-Offered_example :
    (text : Text) × (finalize world empty_digest server ≡ (
      if (offered server).can_finalize
      then store_final world empty_digest server
      else (refused text, server)))
finalize-Offered_example = finalize-Offered world server server-in_step empty_digest

apply-Offered_example : apply_proposal_checked (codes "proposal-1") 30 proposed_server.session ≡ (
    if (offered proposed_server).can_apply_proposal
    then commit proposed_server.session (apply_pending new_proposal 30 proposed_server.session)
    else (err stale_proposal, proposed_server.session))
apply-Offered_example = apply-Offered proposed_server new_proposal 30 refl refl
