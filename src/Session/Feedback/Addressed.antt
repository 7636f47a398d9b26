-- ===== src/Session/Feedback/Addressed.antt =====
-- Addressed feedback is read-only.
use planmaxx.Base.{ℕ, ◌≡◌, some, arith}
use planmaxx.Base.Text.{Text}
use planmaxx.Session.Types.{Thread, Lifecycle, lifecycle, Session}
use planmaxx.Session.State.{
  find_thread, thread_pointer, mutable_active_thread, detach_thread, add_thread, new_message,
  make_answers_private, add_side_answer,
}
use planmaxx.Session.State.Threads.{find-update_other, find-append}
use planmaxx.Session.Anchors.{resolve_thread_after_proposal}
use planmaxx.Session.Feedback.Ops.{Op, apply}

-- If the thread with an id is addressed, it is found with the same contents behind any checked
-- operation on feedback.
pub apply-Addressed :
    (o : Op) (now : ℕ) (s : Session) (k : Text) {t : Thread}
    → find_thread k s.threads ≡ some t
    → lifecycle t ≡ Lifecycle.addressed
    → find_thread k (apply o now s).1.threads ≡ some t
unfolding apply thread_pointer mutable_active_thread detach_thread add_thread new_message
    make_answers_private add_side_answer resolve_thread_after_proposal
apply-Addressed (Op.add_thread _ _ _ _ _) now s k h e = grind (arith, find-append)
apply-Addressed (Op.set_intent id i) now s k h e = grind (arith, find-update_other)
apply-Addressed _ now s k h e = grind (arith, find-update_other, find-append)
