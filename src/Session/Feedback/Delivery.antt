-- ===== src/Session/Feedback/Delivery.antt =====
-- Every checked operation keeps included answers on active threads.
use planmaxx.Base.{ℕ, ◌≡◌, true, some, List, [], ◌∷◌, arith}
use planmaxx.Base.Text.{Text, text_comparable}
use planmaxx.Session.Types.{Thread, SideAnswer, Lifecycle, lifecycle, Session, lifecycle-open}
use planmaxx.Session.State.{
  find_thread, thread_pointer, mutable_active_thread, detach_thread, add_thread, new_message,
  make_answers_private, make_private, add_side_answer,
}
use planmaxx.Session.State.Delivery.{
  OnlyActive, OnlyActive-update, OnlyActive-update_private, OnlyActive-append_thread,
  OnlyActive-append_answer,
}
use planmaxx.Session.Anchors.{resolve_thread_after_proposal}
use planmaxx.Session.Feedback.{find_answer, update_answer}
use planmaxx.Session.Feedback.Ops.{Op, apply}

OnlyActive-update_off :
    (id : Text) (ts : List Thread) (as' : List SideAnswer)
    → OnlyActive ts as'
    → OnlyActive ts (update_answer id make_private as')
unfolding OnlyActive update_answer
OnlyActive-update_off id ts [] h = tt
OnlyActive-update_off id ts (a ∷ as') (ha, h) =
    ground (arith, ha, OnlyActive-update_off id ts as' h)

OnlyActive-update_on :
    (id : Text) (ts : List Thread) (as' : List SideAnswer) (a : SideAnswer) (t : Thread)
    → find_answer id as' ≡ some a
    → find_thread a.thread_id ts ≡ some t
    → lifecycle t ≡ Lifecycle.active
    → OnlyActive ts as'
    → OnlyActive ts (update_answer id (λ b. record b { promoted = true }) as')
unfolding OnlyActive update_answer find_answer
OnlyActive-update_on id ts [] a t ha ht live h = tt
OnlyActive-update_on id ts (b ∷ as') a t ha ht live (hb, h) =
    ground (arith, OnlyActive-update_on id ts as' a t)

module _ (now : ℕ) (s : Session) (h : OnlyActive s.threads s.side_answers) where
  -- If every included side answer belongs to an active thread, the same holds behind any checked
  -- operation on feedback, whether it succeeds or not.
  pub apply-OnlyActive :
      (o : Op) → let s' = (apply o now s).1 in OnlyActive s'.threads s'.side_answers
  unfolding apply thread_pointer mutable_active_thread detach_thread add_thread new_message
      make_answers_private add_side_answer resolve_thread_after_proposal
  apply-OnlyActive (Op.add_thread _ _ _ _ _) = grind (arith, OnlyActive-append_thread)
  apply-OnlyActive (Op.set_intent _ _) = grind (arith, OnlyActive-update)
  apply-OnlyActive (Op.reply _ _) = grind (arith, OnlyActive-update)
  apply-OnlyActive (Op.agent_reply _ _) = grind (arith, OnlyActive-update)
  apply-OnlyActive (Op.reanchor _ _) = grind (arith, OnlyActive-update, lifecycle-open)
  apply-OnlyActive (Op.edit _ _ _ _) = grind (arith, OnlyActive-update, lifecycle-open)
  apply-OnlyActive (Op.address _ _) = grind (arith, OnlyActive-update_private)
  apply-OnlyActive (Op.record_addressed _ _) = grind (arith, OnlyActive-update_private)
  apply-OnlyActive (Op.detach _) = grind (arith, OnlyActive-update_private)
  apply-OnlyActive (Op.include_answer _) = grind (arith, OnlyActive-update_on)
  apply-OnlyActive (Op.keep_private _) = grind (arith, OnlyActive-update_off)
  apply-OnlyActive (Op.ask _ _ _) = grind (arith, OnlyActive-append_answer)
  apply-OnlyActive (Op.follow_up _) = grind (arith, OnlyActive-append_thread)
