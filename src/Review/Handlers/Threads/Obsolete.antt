-- ===== src/Review/Handlers/Threads/Obsolete.antt =====
-- Where the pending proposal is obsolete, the handlers behind rejectPendingFeedbackMutation never
-- answer.
use planmaxx.Base.{
  ◌≡◌, ◌≢◌, refl, ap, ◌∙◌, Bool, true, false, Option, none, some, [], ◌==◌, arith, if◌then◌else◌,
}
use planmaxx.Base.Text.{Text, text_comparable, text_eqb_iff}
use planmaxx.Base.Utf8.{trim_space}
use planmaxx.Session.Types.{Anchor, Session}
use planmaxx.Review.Types.{Server}
use planmaxx.Review.Operations.{iteration_running}
use planmaxx.Review.Mutate.{
  World, Failure, Body, Reply, overflowed, Mutated, overflow, Mutation, ◌>>◌, and_then, is_obsolete,
  mutate_session, after_sync, after_mutation, source_sync_reply, sync_external_source,
  reject_pending_feedback_mutation,
}
use planmaxx.Review.Mutate.Overflow.{reject_pending-overflow}
use planmaxx.Review.Handlers.Threads.{
  completed, handle_reanchor_thread, handle_mark_thread_addressed, handle_create_follow_up,
  handle_promote_side_answer, handle_unpromote_side_answer,
}

and_then-overflow_at :
    {A B : Type 0} (m : A → Mutation B) (r : Mutated A × Session)
    → r.0 ≡ overflow
    → (and_then m r).0 ≡ overflow
and_then-overflow_at m (Mutated.returned a, u) q = absurd (cc)
and_then-overflow_at m (Mutated.failed_with e, u) q = absurd (cc)
and_then-overflow_at m (overflow, u) q = refl

after_mutation-overflowed :
    (w : World) (s : Server) (r : Mutated Body × Session)
    → r.0 ≡ overflow
    → (after_mutation w s r).0 ≡ overflowed
unfolding after_mutation
after_mutation-overflowed w s (Mutated.returned a, u) q = absurd (cc)
after_mutation-overflowed w s (Mutated.failed_with e, u) q = absurd (cc)
after_mutation-overflowed w s (overflow, u) q = refl

if-false : (b : Bool) (x y : Reply × Server) → b ≡ false → (if b then x else y).0 ≡ y.0
if-false b x y h = rw h

module _ (w : World) (s : Server) (active : s.finished ≡ false) (idle : iteration_running s ≡ false)
    (in_step : sync_external_source w s ≡ (none, s)) (old : is_obsolete s.session ≡ true) where
  pending-overflowed :
      (m : Mutation Body)
      → (mutate_session w (reject_pending_feedback_mutation w.frames >> m) s).0 ≡ overflowed
  unfolding mutate_session
  pending-overflowed m =
      if-false s.finished _ _ active
      ∙ if-false (iteration_running s) _ _ idle
      ∙ ap
          (λ (r : Option Failure × Server).
            (after_sync (λ e t. (source_sync_reply e, t))
              (λ t. after_mutation w t ((reject_pending_feedback_mutation w.frames >> m) t.session))
              r).0)
          in_step
      ∙ (after_mutation-overflowed w s _ (
          and_then-overflow_at (λ _. m) (reject_pending_feedback_mutation w.frames s.session)
            (reject_pending-overflow w.frames s.session old)))

  unfinished :
      (r : Reply × Server)
      → r.0 ≡ overflowed
      → (if s.finished then (completed, s) else r).0 ≡ overflowed
  unfinished r h = if-false s.finished (completed, s) r active ∙ h

  -- While the review is active, idle and in step with its source file, and its pending proposal is
  -- obsolete, the requests to include an answer or keep it private, to follow up, reanchor or mark
  -- feedback addressed end in a stack overflow, however many frames the stack holds.
  pub obsolete-overflowed :
      (id revision_id : Text) (a : Anchor)
      → trim_space revision_id ≢ []
      → ((handle_promote_side_answer w id s).0 ≡ overflowed)
        × ((handle_unpromote_side_answer w id s).0 ≡ overflowed)
        × ((handle_create_follow_up w id s).0 ≡ overflowed)
        × ((handle_reanchor_thread w (some a) id s).0 ≡ overflowed)
        × ((handle_mark_thread_addressed w (some revision_id) id s).0 ≡ overflowed)
  unfolding handle_promote_side_answer handle_unpromote_side_answer handle_create_follow_up
      handle_reanchor_thread handle_mark_thread_addressed
  obsolete-overflowed id revision_id a h = (
    unfinished _ (pending-overflowed _),
    unfinished _ (pending-overflowed _),
    unfinished _ (pending-overflowed _),
    unfinished _ (pending-overflowed _),
    unfinished _ (
        if-false (trim_space revision_id == []) _ _
          (ground (arith, text_eqb_iff (trim_space revision_id) [], h))
        ∙ pending-overflowed _),
  )
