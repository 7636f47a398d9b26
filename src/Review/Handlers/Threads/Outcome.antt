-- ===== src/Review/Handlers/Threads/Outcome.antt =====
-- What the handlers of one thread and of one side answer leave behind.
use planmaxx.Base.{
  refl, inl, inr, Bool, not, Option, none, some, [], ◌==◌, Option-cases, if-cases, if◌then◌else◌,
  arith,
}
use planmaxx.Base.Text.{Text, codes, text_comparable}
use planmaxx.Base.Utf8.{trim_space}
use planmaxx.Session.Types.{Anchor, Position, Session}
use planmaxx.Session.Feedback.{
  set_thread_kind, create_follow_up, reanchor_thread_checked, edit_thread_checked,
}
use planmaxx.Review.Types.{Server}
use planmaxx.Review.ClientState.{project_thread}
use planmaxx.Review.Paths.{validate_anchor}
use planmaxx.Review.Mutate.{
  World, Failure, Body, thread, status, Reply, reply_error, Mutation, ◌>>◌, ◌>>=◌, pure, reading,
  checked, mutate_session, reject_pending_feedback_mutation, reject_locked_thread_mutation,
}
use planmaxx.Review.Mutate.Outcome.{SameReview-refl}
use planmaxx.Review.Mutate.Change.{ChangeOutcome, refused, mutate_session-ChangeOutcome}
use planmaxx.Review.Mutate.Overflow.{
  Returns, >>=-Returns, >>-Returns, pure-Returns, checked-Returns, fail_when-Returns, guarded,
  Overflows, reject_pending-Overflows, reject_locked-Overflows,
}
use planmaxx.Review.Handlers.Threads.{
  completed, with_body, valid_or, found_or, kind_failure, set_kind_or, target_plan,
  EditThreadRequest, handle_reply_thread, handle_delete_thread, handle_move_thread,
  handle_reanchor_thread, handle_mark_thread_addressed, handle_edit_thread, handle_thread_kind,
  handle_thread_intent, handle_create_follow_up, handle_promote_side_answer,
  handle_unpromote_side_answer,
}

abbrev pub Handled : World → Server → Reply × Server → Type 0
Handled w s = ChangeOutcome w s (Overflows w.frames s.session)

reading-Returns : {A : Type 0} (f : Session → A) → Returns (reading f)
reading-Returns f s q = cc

valid_or-Returns :
    (complaint : Text) (a : Anchor) (plan : Text) → Returns (valid_or complaint a plan)
valid_or-Returns complaint a plan s q = elim (Option-cases (validate_anchor a plan)) [
  | inl e ↦ ground (arith, e, q)
  | inr (m, e) ↦ ground (arith, e, q)
]

found_or-Returns : (e : Failure) (call : Session → Bool × Session) → Returns (found_or e call)
found_or-Returns e call s = fail_when-Returns (not (call s).0) e (call s).1

set_kind_or-Returns : (id kind : Text) → Returns (set_kind_or id kind)
set_kind_or-Returns id kind s =
    fail_when-Returns (not (set_thread_kind id kind s).0)
      (kind_failure id (set_thread_kind id kind s).1) (set_thread_kind id kind s).1

-- A step that returns, and a fixed answer.
answers : {A : Type 0} (m : Mutation A) (body : Body) → Returns m → Returns (m >> pure body)
answers m body h = >>-Returns m (pure body) h (pure-Returns body)

-- A change behind a check of an anchor in a plan that is read from the session.
plan-Returns :
    {A : Type 0} (f : Session → Text) (complaint : Text) (a : Anchor) (m : Mutation A) (body : Body)
    → Returns m
    → Returns (reading f >>= λ plan. valid_or complaint a plan >> (m >> pure body))
plan-Returns f complaint a m body h =
    >>=-Returns (reading f) (λ plan. valid_or complaint a plan >> (m >> pure body))
      (reading-Returns f)
      (λ plan.
        >>-Returns (valid_or complaint a plan) (m >> pure body) (valid_or-Returns complaint a plan)
          (answers m body h))

module _ (w : World) (s : Server) where
  pub unless_finished :
      (r : Reply × Server) → Handled w s r → Handled w s (if s.finished then (completed, s) else r)
  unless_finished r h =
      if-cases (Handled w s) s.finished _ _ (λ _. refused (_, _, refl) (SameReview-refl s)) (λ _. h)

  with_body-Handled :
      {A : Type 0} (body : Option A) (complaint : Text) (next : A → Reply × Server)
      → ((a : A) → Handled w s (next a))
      → Handled w s (with_body s body complaint next)
  with_body-Handled none complaint next h =
      unless_finished _ (refused (_, _, refl) (SameReview-refl s))
  with_body-Handled (some a) complaint next h = unless_finished _ (h a)

  -- `if test { writeError(400) }`
  unless_bad :
      (b : Bool) (text : Text) (r : Reply × Server)
      → Handled w s r
      → Handled w s (if b then (reply_error 400 text, s) else r)
  unless_bad b text r h =
      if-cases (Handled w s) b _ _ (λ _. refused (_, _, refl) (SameReview-refl s)) (λ _. h)

  -- A change behind rejectLockedThreadMutation, and one behind rejectPendingFeedbackMutation.
  locked-Handled :
      (id : Text) (m : Mutation Body)
      → Returns m
      → Handled w s (mutate_session w (reject_locked_thread_mutation w.frames id >> m) s)
  locked-Handled id m h = mutate_session-ChangeOutcome w _ s (Overflows w.frames s.session) (
      guarded (Overflows w.frames s.session) (reject_locked_thread_mutation w.frames id) m s.session
        (reject_locked-Overflows w.frames id s.session) h)

  pending-Handled :
      (m : Mutation Body)
      → Returns m
      → Handled w s (mutate_session w (reject_pending_feedback_mutation w.frames >> m) s)
  pending-Handled m h = mutate_session-ChangeOutcome w _ s (Overflows w.frames s.session) (
      guarded (Overflows w.frames s.session) (reject_pending_feedback_mutation w.frames) m s.session
        (reject_pending-Overflows w.frames s.session) h)

  pub reply-Handled :
      (body : Option Text) (id : Text) → Handled w s (handle_reply_thread w body id s)
  unfolding handle_reply_thread
  reply-Handled body id = with_body-Handled body _ _ λ text.
      unless_bad (trim_space text == []) _ _ (locked-Handled id _ (answers _ _ (checked-Returns _)))

  pub delete-Handled : (id : Text) → Handled w s (handle_delete_thread w id s)
  unfolding handle_delete_thread
  delete-Handled id = unless_finished _ (locked-Handled id _ (answers _ _ (found_or-Returns _ _)))

  pub move-Handled :
      (body : Option Position) (id : Text) → Handled w s (handle_move_thread w body id s)
  unfolding handle_move_thread
  move-Handled body id =
      with_body-Handled body _ _
        λ position. locked-Handled id _ (answers _ _ (found_or-Returns _ _))

  pub reanchor-Handled :
      (body : Option Anchor) (id : Text) → Handled w s (handle_reanchor_thread w body id s)
  unfolding handle_reanchor_thread
  reanchor-Handled body id = with_body-Handled body _ _ λ anchor. pending-Handled _ (
      plan-Returns (λ u. u.plan) (codes "invalid anchor json") anchor
        (checked (reanchor_thread_checked id anchor)) (status (codes "reanchored"))
        (checked-Returns _))

  pub mark_addressed-Handled :
      (body : Option Text) (id : Text) → Handled w s (handle_mark_thread_addressed w body id s)
  unfolding handle_mark_thread_addressed
  mark_addressed-Handled body id = with_body-Handled body _ _ λ revision_id.
      unless_bad (trim_space revision_id == []) _ _
        (pending-Handled _ (answers _ _ (checked-Returns _)))

  pub edit-Handled :
      (body : Option EditThreadRequest) (id : Text) → Handled w s (handle_edit_thread w body id s)
  unfolding handle_edit_thread
  edit-Handled body id = with_body-Handled body _ _ λ r. unless_bad (trim_space r.body == []) _ _ (
      locked-Handled id _ (
        plan-Returns (target_plan id) (codes "invalid thread edit json") r.anchor
          (checked (edit_thread_checked id r.anchor (trim_space r.body) r.selected_text))
          (status (codes "edited")) (checked-Returns _)))

  pub kind-Handled : (body : Option Text) (id : Text) → Handled w s (handle_thread_kind w body id s)
  unfolding handle_thread_kind
  kind-Handled body id =
      with_body-Handled body _ _
        λ kind. locked-Handled id _ (answers _ _ (set_kind_or-Returns id (trim_space kind)))

  pub intent-Handled :
      (body : Option Text) (id : Text) → Handled w s (handle_thread_intent w body id s)
  unfolding handle_thread_intent
  intent-Handled body id =
      with_body-Handled body _ _ λ intent. locked-Handled id _ (answers _ _ (checked-Returns _))

  pub follow_up-Handled : (id : Text) → Handled w s (handle_create_follow_up w id s)
  unfolding handle_create_follow_up
  follow_up-Handled id = unless_finished _ (
      pending-Handled _ (
        >>=-Returns (checked (create_follow_up id w.now)) _ (checked-Returns _) λ t.
          >>=-Returns (reading λ u. project_thread u s.finished t.id s.agent.available)
            (λ view. pure (thread view)) (reading-Returns _) (λ view. pure-Returns (thread view))))

  pub promote-Handled : (id : Text) → Handled w s (handle_promote_side_answer w id s)
  unfolding handle_promote_side_answer
  promote-Handled id = unless_finished _ (pending-Handled _ (answers _ _ (checked-Returns _)))

  pub unpromote-Handled : (id : Text) → Handled w s (handle_unpromote_side_answer w id s)
  unfolding handle_unpromote_side_answer
  unpromote-Handled id = unless_finished _ (pending-Handled _ (answers _ _ (checked-Returns _)))
