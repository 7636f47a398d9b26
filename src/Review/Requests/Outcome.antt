-- ===== src/Review/Requests/Outcome.antt =====
-- What a request leaves behind, whatever it asks for.
use planmaxx.Base.{
  ℕ, ◌≡◌, refl, sym, [], ◌∷◌, ◌++◌, inl, inr, Bool, true, false, Option, none, some, ◌==◌, if-cases,
  if◌then◌else◌, arith,
}
use planmaxx.Base.Text.{Text, codes, text_comparable}
use planmaxx.Session.Types.{Digest}
use planmaxx.Review.Types.{Server, ReviewResult}
use planmaxx.Review.Operations.{iteration_running, cancel_iteration}
use planmaxx.Review.ClientState.{has_proposal}
use planmaxx.Review.Mutate.{
  World, Failure, status, Reply, answered, reply_error, is_committed, persist, after_sync,
  sync_external_source,
}
use planmaxx.Review.Mutate.Outcome.{
  SameReview, SameReview-refl, IsSaved, PersistOutcome, persist-Saved, SyncOutcome,
  sync_external_source-SyncOutcome,
}
use planmaxx.Review.Mutate.Change.{refused, taken_back, reloaded, IsError}
use planmaxx.Review.Handlers.Threads.Outcome.{
  Handled, reply-Handled, delete-Handled, move-Handled, reanchor-Handled, mark_addressed-Handled,
  edit-Handled, kind-Handled, intent-Handled, follow_up-Handled, promote-Handled, unpromote-Handled,
  unless_finished,
}
use planmaxx.Review.Handlers.Course
use planmaxx.Review.Handlers.Course.{
  Ended, ended, end_review, final_review, canceled_review, final_result, send,
}
use planmaxx.Review.Handlers.Course.Outcome.{
  apply-Handled, discard-Handled, create_thread-Handled, restore-Handled,
}
use planmaxx.Review.Requests.Ends.{
  IsFinalized, IsCanceled, IsResult, final_review-IsFinalized, canceled_review-IsCanceled,
  final-IsResult,
}
use planmaxx.Review.Requests.{
  Json, Request, wrong_method, post, routed, thread_action, side_answer_action, proposal_action,
  restore_at, handle_thread_action, handle_side_answer_action, handle_revision_proposal_action,
  handle,
}

-- Beside what a handler of a change leaves behind: the review is finalized or canceled, was saved
-- so, and its result is sent; or a cancellation is not saved, and only the iteration is stopped.
pub data Outcome (w : World) (s : Server) : Reply × Server → Type 0 where
  handled : {r : Reply × Server} → Handled w s r → Outcome w s r
  finalized :
      {t : Server} (submitted : Digest) (saved : Server) (result : ReviewResult)
      → s.finished ≡ false
      → has_proposal s.session ≡ false
      → iteration_running s ≡ false
      → IsFinalized submitted s saved
      → IsSaved w saved t
      → IsResult false t result
      → Outcome w s
          (answered 200 (status (codes "finalized")), record t { done = t.done ++ result ∷ [] })
  canceled :
      {t : Server} (saved : Server) (result : ReviewResult)
      → s.finished ≡ false
      → IsCanceled s saved
      → IsSaved w saved t
      → IsResult true t result
      → Outcome w s
          (answered 200 (status (codes "canceled")), record t { done = t.done ++ result ∷ [] })
  stopped :
      {r : Reply} {t : Server}
      → IsError r
      → s.finished ≡ false
      → SameReview (cancel_iteration s) t
      → Outcome w s (r, t)

module _ (w : World) (s : Server) where
  saved_final :
      (submitted : Digest) (t : Server)
      → s.finished ≡ false
      → has_proposal s.session ≡ false
      → iteration_running s ≡ false
      → IsSaved w (final_review submitted s) t
      → Outcome w s (answered 200 (status (codes "finalized")), send (final_result false t) t)
  saved_final submitted t active clear idle saved =
      finalized submitted (final_review submitted s) (final_result false t) active clear idle
        (final_review-IsFinalized submitted s) saved (final-IsResult false t)

  saved_canceled :
      (t : Server)
      → s.finished ≡ false
      → IsSaved w (canceled_review s) t
      → Outcome w s (answered 200 (status (codes "canceled")), send (final_result true t) t)
  saved_canceled t active saved =
      canceled (canceled_review s) (final_result true t) active (canceled_review-IsCanceled s) saved
        (final-IsResult true t)

  error_now : (code : ℕ) (text : Text) → Outcome w s (reply_error code text, s)
  error_now code text = handled (refused (code, text, refl) (SameReview-refl s))

  finalized-Outcome :
      (submitted : Digest)
      → s.finished ≡ false
      → has_proposal s.session ≡ false
      → iteration_running s ≡ false
      → (r : Option Failure × Server) → PersistOutcome w (final_review submitted s) r
      → persist w (final_review submitted s) ≡ r
      → Outcome w s (end_review (codes "finalized") (Course.store_final w submitted s))
  unfolding Course.store_final end_review final_review
  finalized-Outcome submitted active clear idle (none, t) (inl (lost, same)) e = absurd (cc)
  finalized-Outcome submitted active clear idle (some f, t) (inl (lost, same)) e = rw e (
      if-cases (λ r. Outcome w s (end_review (codes "finalized") r)) (is_committed f) _ _
        (λ q. absurd (ground (arith, q, lost)))
        (λ _. handled (
          taken_back (_, _, refl) active
            (record {
              session = refl;
              finished = sym active;
              operation = same.operation;
              sequence = same.sequence;
              document = same.document;
              done = same.done;
            }))))
  finalized-Outcome submitted active clear idle (none, t) (inr (kept, saved)) e =
      rw e (saved_final submitted t active clear idle saved)
  finalized-Outcome submitted active clear idle (some f, t) (inr (kept, saved)) e = rw e (
      if-cases (λ r. Outcome w s (end_review (codes "finalized") r)) (is_committed f) _ _
        (λ _. saved_final submitted t active clear idle saved)
        (λ q. absurd (ground (arith, q, kept))))

  idle-Outcome :
      (submitted : Digest)
      → s.finished ≡ false
      → Outcome w s (end_review (codes "finalized") (Course.finalize_when_idle w submitted s))
  unfolding Course.finalize_when_idle end_review
  idle-Outcome submitted active =
      if-cases (λ r. Outcome w s (end_review (codes "finalized") r)) (has_proposal s.session) _ _
        (λ _. error_now 409 _)
        λ clear.
          if-cases (λ r. Outcome w s (end_review (codes "finalized") r)) (iteration_running s) _ _
            (λ _. error_now 409 _)
            λ idle.
              finalized-Outcome submitted active clear idle (persist w (final_review submitted s))
                (persist-Saved w (final_review submitted s)) refl

  synced-Outcome :
      (submitted : Digest)
      → s.finished ≡ false
      → (x : Option Failure × Server) → SyncOutcome w s x
      → Outcome w s (
          end_review (codes "finalized") (
            after_sync
              (λ e t. (Ended.refused (Course.failure_text e), t))
              (Course.finalize_when_idle w submitted)
              x))
  unfolding end_review
  synced-Outcome submitted active (none, t) e = rw e (idle-Outcome submitted active)
  synced-Outcome submitted active (some e, t) (inl same) = handled (refused (_, _, refl) same)
  synced-Outcome submitted active (some e, t) (inr (inl undone)) =
      handled (taken_back (_, _, refl) active undone)
  synced-Outcome submitted active (some e, t) (inr (inr loaded)) =
      handled (reloaded (_, _, refl) active loaded)

  finalize-Outcome : (r : Option Digest) → Outcome w s (Course.handle_finalize w r s)
  unfolding Course.handle_finalize Course.finalize end_review
  finalize-Outcome none = error_now 400 _
  finalize-Outcome (some submitted) =
      if-cases (λ r. Outcome w s (end_review (codes "finalized") r)) s.finished _ _
        (λ _. error_now 409 _)
        (λ active.
          synced-Outcome submitted active (sync_external_source w s)
            (sync_external_source-SyncOutcome w s))

  canceled-Outcome :
      s.finished ≡ false
      → (r : Option Failure × Server) → PersistOutcome w (canceled_review s) r
      → persist w (canceled_review s) ≡ r
      → Outcome w s (end_review (codes "canceled") (Course.store_canceled w s))
  unfolding Course.store_canceled end_review canceled_review
  canceled-Outcome active (none, t) (inl (lost, same)) e = absurd (cc)
  canceled-Outcome active (some f, t) (inl (lost, same)) e = rw e (
      if-cases (λ r. Outcome w s (end_review (codes "canceled") r)) (is_committed f) _ _
        (λ q. absurd (ground (arith, q, lost)))
        (λ _.
          stopped (_, _, refl) active
            (record {
              session = same.session;
              finished = sym active;
              operation = same.operation;
              sequence = same.sequence;
              document = same.document;
              done = same.done;
            })))
  canceled-Outcome active (none, t) (inr (kept, saved)) e = rw e (saved_canceled t active saved)
  canceled-Outcome active (some f, t) (inr (kept, saved)) e = rw e (
      if-cases (λ r. Outcome w s (end_review (codes "canceled") r)) (is_committed f) _ _
        (λ _. saved_canceled t active saved) (λ q. absurd (ground (arith, q, kept))))

  cancel-Outcome : Outcome w s (Course.handle_cancel w s)
  unfolding Course.handle_cancel Course.cancel end_review
  cancel-Outcome =
      if-cases (λ r. Outcome w s (end_review (codes "canceled") r)) s.finished _ _
        (λ _. error_now 409 _)
        (λ active.
          canceled-Outcome active (persist w (canceled_review s))
            (persist-Saved w (canceled_review s)) refl)

  -- A test of the route: what holds of both branches.
  if-Handled :
      (b : Bool) (x y : Reply × Server)
      → Handled w s x
      → Handled w s y
      → Handled w s (if b then x else y)
  if-Handled b x y hx hy = if-cases (Handled w s) b x y (λ _. hx) (λ _. hy)

  missing : (code : ℕ) (text : Text) → Handled w s (reply_error code text, s)
  missing code text = refused (code, text, refl) (SameReview-refl s)

  thread_action-Handled :
      (j : Json) (id action body : Text) → Handled w s (thread_action w j id action body s)
  unfolding thread_action
  thread_action-Handled j id action body = if-Handled _ _ _ (reply-Handled w s _ id) (
      if-Handled _ _ _ (delete-Handled w s id) (
        if-Handled _ _ _ (move-Handled w s _ id) (
          if-Handled _ _ _ (reanchor-Handled w s _ id) (
            if-Handled _ _ _ (mark_addressed-Handled w s _ id) (
              if-Handled _ _ _ (edit-Handled w s _ id) (
                if-Handled _ _ _ (kind-Handled w s _ id) (
                  if-Handled _ _ _ (intent-Handled w s _ id)
                    (if-Handled _ _ _ (follow_up-Handled w s id) (missing 404 _)))))))))

  side_answer_action-Handled : (id action : Text) → Handled w s (side_answer_action w id action s)
  unfolding side_answer_action
  side_answer_action-Handled id action =
      if-Handled _ _ _ (promote-Handled w s id)
        (if-Handled _ _ _ (unpromote-Handled w s id) (missing 404 _))

  proposal_action-Handled : (id action : Text) → Handled w s (proposal_action w id action s)
  unfolding proposal_action
  proposal_action-Handled id action = unless_finished w s _ (
      if-Handled _ _ _ (apply-Handled w s id)
        (if-Handled _ _ _ (discard-Handled w s id) (missing 404 _)))

  routed-Handled :
      (parsed : Option (Text × Text)) (method : Text) (act : Text → Text → Server → Reply × Server)
      → ((id action : Text) → Handled w s (act id action s))
      → Handled w s (routed parsed method act s)
  routed-Handled none method act h = missing 404 _
  routed-Handled (some (id, action)) method act h = if-Handled _ _ _ (h id action) (missing 405 _)

  restore_at-Handled :
      (parsed : Option Text) (method : Text) → Handled w s (restore_at w parsed method s)
  unfolding restore_at
  restore_at-Handled none method = missing 404 _
  restore_at-Handled (some id) method = if-Handled _ _ _ (restore-Handled w s id) (missing 405 _)

pub handle-Outcome :
    (w : World) (j : Json) (request : Request) (s : Server) → Outcome w s (handle w j request s)
unfolding handle handle_thread_action handle_side_answer_action handle_revision_proposal_action
handle-Outcome w j (Request.threads method path body) s = handled (
    routed-Handled w s _ method (λ id action. thread_action w j id action body)
      (λ id action. thread_action-Handled w s j id action body))
handle-Outcome w j (Request.side_answers method path) s =
    handled (routed-Handled w s _ method (side_answer_action w) (side_answer_action-Handled w s))
handle-Outcome w j (Request.proposals method path) s =
    handled (routed-Handled w s _ method (proposal_action w) (proposal_action-Handled w s))
handle-Outcome w j (Request.create method body) s = handled (
    if-Handled w s (method == post) (Course.handle_create_thread w (j.create body) s)
      (wrong_method, s) (create_thread-Handled w s (j.create body)) (missing w s 405 _))
handle-Outcome w j (Request.finalize method body) s =
    if-cases (Outcome w s) (method == post) (Course.handle_finalize w (j.digest body) s)
      (wrong_method, s) (λ _. finalize-Outcome w s (j.digest body)) (λ _. error_now w s 405 _)
handle-Outcome w j (Request.restore method path) s = handled (restore_at-Handled w s _ method)
handle-Outcome w j (Request.cancel method) s =
    if-cases (Outcome w s) (method == post) (Course.handle_cancel w s) (wrong_method, s)
      (λ _. cancel-Outcome w s) (λ _. error_now w s 405 _)
