-- ===== src/Session/Feedback/Numbered.antt =====
-- Every checked operation keeps the ids of threads and side answers distinct.
use planmaxx.Base.{ℕ, ◌≡◌, refl, sym, subst, ap, List, [], ◌∷◌, ◌++◌, arith}
use planmaxx.Base.Int.{ℤ, pos, ◌<ℤ◌, ◌+ℤ◌}
use planmaxx.Base.Text.{Text, codes, text_comparable}
use planmaxx.Base.Decimal.{itoa}
use planmaxx.Session.Types.{Thread, SideAnswer, Session}
use planmaxx.Session.State.{
  update_thread, thread_pointer, mutable_active_thread, detach_thread, add_thread, new_message,
  make_answers_private, add_side_answer,
}
use planmaxx.Session.Anchors.{resolve_thread_after_proposal}
use planmaxx.Session.State.Loops.{ids-update}
use planmaxx.Session.Restore.Counted.{thread_ids, answer_ids}
use planmaxx.Session.Restore.New.{Numbered, Numbered-snoc, max_int}
use planmaxx.Session.Feedback.Ops.{Op, apply}

-- The ids of the threads are distinct, and the counter counts them.
unfoldable pub NumberedThreads : List Thread → ℤ → Type 0
NumberedThreads ts n = Numbered (codes "thread-") n (thread_ids ts)

-- The same of the side answers.
unfoldable pub NumberedAnswers : List SideAnswer → ℤ → Type 0
NumberedAnswers xs n = Numbered (codes "side-") n (answer_ids xs)

NumberedThreads-update :
    (id : Text) (f : Thread → Thread) (ts : List Thread) (n : ℤ)
    → ((u : Thread) → (f u).id ≡ u.id)
    → NumberedThreads ts n
    → NumberedThreads (update_thread id f ts) n
unfolding NumberedThreads
NumberedThreads-update id f ts n same =
    subst (Numbered (codes "thread-") n) (sym (ids-update id f ts same))

ids-append :
    (ts : List Thread) (t : Thread) → thread_ids (ts ++ t ∷ []) ≡ thread_ids ts ++ t.id ∷ []
ids-append [] t = refl
ids-append (u ∷ ts) t = ap (λ l. u.id ∷ l) (ids-append ts t)

NumberedThreads-append :
    (ts : List Thread) (n : ℤ) (t : Thread)
    → n <ℤ max_int
    → t.id ≡ codes "thread-" ++ itoa (n +ℤ pos 1)
    → NumberedThreads ts n
    → NumberedThreads (ts ++ t ∷ []) (n +ℤ pos 1)
unfolding NumberedThreads
NumberedThreads-append ts n t hi named h =
    subst (Numbered (codes "thread-") (n +ℤ pos 1)) (sym (ids-append ts t)) (
      subst (λ x. Numbered (codes "thread-") (n +ℤ pos 1) (thread_ids ts ++ x ∷ [])) (sym named)
        (Numbered-snoc (codes "thread-") n (thread_ids ts) hi h))

module _ (now : ℕ) (s : Session) (room : s.next_thread_id <ℤ max_int) where
  -- If the thread ids are distinct and the counter of threads counts them and is below the largest
  -- int, they are distinct and counted behind any checked operation on feedback.
  pub apply-NumberedThreads :
      NumberedThreads s.threads s.next_thread_id
      → (o : Op) → let s' = (apply o now s).1 in NumberedThreads s'.threads s'.next_thread_id
  unfolding apply thread_pointer mutable_active_thread detach_thread add_thread new_message
      make_answers_private add_side_answer resolve_thread_after_proposal
  apply-NumberedThreads h (Op.add_thread _ _ _ _ _) = grind (arith, NumberedThreads-append)
  apply-NumberedThreads h (Op.set_intent _ _) = grind (arith, NumberedThreads-update)
  apply-NumberedThreads h (Op.reply _ _) = grind (arith, NumberedThreads-update)
  apply-NumberedThreads h (Op.agent_reply _ _) = grind (arith, NumberedThreads-update)
  apply-NumberedThreads h (Op.reanchor _ _) = grind (arith, NumberedThreads-update)
  apply-NumberedThreads h (Op.edit _ _ _ _) = grind (arith, NumberedThreads-update)
  apply-NumberedThreads h (Op.address _ _) = grind (arith, NumberedThreads-update)
  apply-NumberedThreads h (Op.record_addressed _ _) = grind (arith, NumberedThreads-update)
  apply-NumberedThreads h (Op.detach _) = grind (arith, NumberedThreads-update)
  apply-NumberedThreads h (Op.include_answer _) = grind arith
  apply-NumberedThreads h (Op.keep_private _) = grind arith
  apply-NumberedThreads h (Op.ask _ _ _) = grind arith
  apply-NumberedThreads h (Op.follow_up _) = grind (arith, NumberedThreads-append)
