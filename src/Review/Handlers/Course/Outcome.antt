-- ===== src/Review/Handlers/Course/Outcome.antt =====
-- What the handlers of Course leave behind.
use planmaxx.Base.{
  ℕ, ◌≡◌, refl, inl, inr, Bool, true, false, Option, none, some, [], ◌==◌, Option-cases, if-cases,
  if◌then◌else◌, arith,
}
use planmaxx.Base.Text.{Text, text_comparable}
use planmaxx.Base.Utf8.{trim_space}
use planmaxx.Session.Types.{Anchor, Revision, Thread, Session, Result, ok, err, intent_instruction}
use planmaxx.Session.Feedback.{add_thread_with_intent_for_revision, find_revision}
use planmaxx.Session.Proposals.{apply_proposal_checked, discard_proposal_checked}
use planmaxx.Session.Revisions.{restore_revision}
use planmaxx.Review.Types.{Server}
use planmaxx.Review.Operations.{iteration_running}
use planmaxx.Review.Paths.{CreateThreadRequest, validate_thread_request}
use planmaxx.Review.Mutate.{
  World, Failure, response, conflict, committed, other, Body, status, revision, reply_error,
  Mutation, ◌>>=◌, pure, checked, is_obsolete, persistence_reply, after_sync, sync_external_source,
  source_sync_reply, mutate_session,
}
use planmaxx.Review.Mutate.Outcome.{SameReview-refl, SyncOutcome, sync_external_source-SyncOutcome}
use planmaxx.Review.Mutate.Change.{
  refused, taken_back, reloaded, conclude-ChangeOutcome, mutate_session-ChangeOutcome,
  source_sync_reply-IsError,
}
use planmaxx.Review.Mutate.Overflow.{
  Returns, >>=-Returns, >>-Returns, pure-Returns, checked-Returns, Overflows,
}
use planmaxx.Review.Handlers.Threads.Outcome.{Handled, unless_finished}
use planmaxx.Review.Handlers.Course

with_view-error :
    (id : Text) (f : Failure) (t : Server)
    → Course.with_view id (persistence_reply f, t) ≡ (persistence_reply f, t)
unfolding persistence_reply
with_view-error id (response code text) t = refl
with_view-error id conflict t = refl
with_view-error id (committed text) t = refl
with_view-error id (other text) t = refl

is_err : {A : Type 0} → Result A → Bool
is_err (ok a) = false
is_err (err e) = true

add-unchanged :
    (revision_id : Text) (a : Anchor) (body selected intent : Text) (now : ℕ) (s : Session)
    → is_err (add_thread_with_intent_for_revision revision_id a body selected intent now s).0 ≡ true
    → (add_thread_with_intent_for_revision revision_id a body selected intent now s).1 ≡ s
unfolding is_err add_thread_with_intent_for_revision
add-unchanged revision_id a body selected intent now s h = ground (arith, h)

module _ (w : World) (s : Server) where
  error_now : (code : ℕ) (text : Text) → Handled w s (reply_error code text, s)
  error_now code text = refused (code, text, refl) (SameReview-refl s)

  -- A change with no guard before it.
  free-Handled : (m : Mutation Body) → Returns m → Handled w s (mutate_session w m s)
  free-Handled m h =
      mutate_session-ChangeOutcome w m s (Overflows w.frames s.session)
        (λ q. absurd (h s.session q))

  pub apply-Handled : (id : Text) → Handled w s (Course.handle_apply_proposal w id s)
  unfolding Course.handle_apply_proposal
  apply-Handled id = unless_finished w s _ (
      free-Handled _ (
        >>=-Returns (checked (apply_proposal_checked id w.now)) (λ r. pure (revision r))
          (checked-Returns _) (λ r. pure-Returns (revision r))))

  pub discard-Handled : (id : Text) → Handled w s (Course.handle_discard_proposal w id s)
  unfolding Course.handle_discard_proposal
  discard-Handled id = unless_finished w s _ (
      free-Handled _
        (>>-Returns (checked (discard_proposal_checked id)) _ (checked-Returns _) (pure-Returns _)))

  added-Handled :
      s.finished ≡ false
      → iteration_running s ≡ false
      → (r : Result Thread × Session) → (is_err r.0 ≡ true → r.1 ≡ s.session)
      → Handled w s (Course.after_adding w s r)
  unfolding Course.after_adding is_err
  added-Handled active idle (err e, new) same =
      refused (_, _, refl)
        (record {
          session = same refl;
          finished = refl;
          operation = refl;
          sequence = refl;
          document = refl;
          done = refl;
        })
  added-Handled active idle (ok t, new) same =
      conclude-ChangeOutcome w s (Overflows w.frames s.session) active idle (status []) new
        (Course.with_view t.id) (with_view-error t.id) (λ u. (_, refl))

  create-Handled :
      (r : CreateThreadRequest) → s.finished ≡ false → Handled w s (Course.create_when_idle w r s)
  unfolding Course.create_when_idle Course.create_thread
  create-Handled r active =
      if-cases (Handled w s) (iteration_running s) _ _ (λ _. error_now 409 _)
        λ idle.
          if-cases (Handled w s) (is_obsolete s.session) _ _ (λ _. error_now 409 _)
            λ _.
              elim (Option-cases (
                validate_thread_request (record r { body = trim_space r.body })
                  (Course.thread_target s.session).1)) [
                    | inr (m, e) ↦ rw (e, Course.create_thread) (error_now 400 _)
                    | inl e ↦
                        rw (e, Course.create_thread)
                          (added-Handled active idle
                            (add_thread_with_intent_for_revision (Course.thread_target s.session).0
                              r.anchor (trim_space r.body) r.selected_text
                              (if r.intent == [] then intent_instruction else r.intent) w.now
                              s.session)
                            (add-unchanged _ _ _ _ _ _ _))
                  ]

  create_synced-Handled :
      (r : CreateThreadRequest)
      → s.finished ≡ false
      → (x : Option Failure × Server) → SyncOutcome w s x
      → Handled w s (after_sync (λ e t. (source_sync_reply e, t)) (Course.create_when_idle w r) x)
  create_synced-Handled r active (none, t) e = rw e (create-Handled r active)
  create_synced-Handled r active (some e, t) (inl same) = refused (source_sync_reply-IsError e) same
  create_synced-Handled r active (some e, t) (inr (inl undone)) =
      taken_back (source_sync_reply-IsError e) active undone
  create_synced-Handled r active (some e, t) (inr (inr loaded)) =
      reloaded (source_sync_reply-IsError e) active loaded

  pub create_thread-Handled :
      (r : Option CreateThreadRequest) → Handled w s (Course.handle_create_thread w r s)
  unfolding Course.handle_create_thread
  create_thread-Handled none = error_now 400 _
  create_thread-Handled (some r) =
      if-cases (Handled w s) s.finished _ _ (λ _. error_now 409 _)
        (λ active.
          create_synced-Handled r active (sync_external_source w s)
            (sync_external_source-SyncOutcome w s))

  revision_or_missing-Returns : (id : Text) → Returns (Course.revision_or_missing id)
  revision_or_missing-Returns id u q = elim (Option-cases (find_revision id u.revisions)) [
    | inl e ↦ ground (arith, e, q)
    | inr (r, e) ↦ ground (arith, e, q)
  ]

  stored_content-Returns : (r : Revision) → Returns (Course.stored_content w r)
  stored_content-Returns r u q = elim (Option-cases (w.read_revision r.commit_id)) [
    | inl e ↦ ground (arith, e, q)
    | inr (c, e) ↦ ground (arith, e, q)
  ]

  pub restore-Handled : (id : Text) → Handled w s (Course.handle_revision_restore w id s)
  unfolding Course.handle_revision_restore
  restore-Handled id = free-Handled _ (
      >>=-Returns (Course.revision_or_missing id) _ (revision_or_missing-Returns id) λ r.
        >>=-Returns (Course.stored_content w r)
          (λ content.
            checked (restore_revision id content w.now) >>= λ restored. pure (revision restored))
          (stored_content-Returns r)
          λ content.
            >>=-Returns (checked (restore_revision id content w.now))
              (λ restored. pure (revision restored)) (checked-Returns _)
              (λ restored. pure-Returns (revision restored)))
