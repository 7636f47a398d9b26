-- ===== src/Session/Tests/Ids.antt =====
-- The counters and ids of the review of Tests/Data.
use planmaxx.Base.{◌≡◌, refl, subst, false, contains, arith, []}
use planmaxx.Base.Text.{codes, text_comparable, text_eqb, cut_prefix, has_prefix}
use planmaxx.Base.Decimal.{atoi}
use planmaxx.Session.Types.{lifecycle_of}
use planmaxx.Session.State.{add_thread, add_side_answer, add_revision, normalize_answer_delivery}
use planmaxx.Session.Restore.{restore_counters, numbered_message_id}
use planmaxx.Session.Restore.Counted.{
  Counted, restore_counters-Counted, thread_ids, answer_ids, revision_ids,
}
use planmaxx.Session.Restore.New.{Counted-new}
use planmaxx.Session.Feedback.Ops.{Op, apply}
use planmaxx.Session.Feedback.Numbered.{NumberedThreads, apply-NumberedThreads}
use planmaxx.Session.Tests.Data.{review, lines}

-- The review's counters are in order.
review_restored : restore_counters 20 review ≡ review
unfolding restore_counters normalize_answer_delivery text_eqb cut_prefix has_prefix lifecycle_of
    atoi numbered_message_id
review_restored = refl

review-Counted : Counted review
review-Counted = subst Counted review_restored (restore_counters-Counted 20 review)

restore_counters-Counted_example : Counted (restore_counters 20 review)
restore_counters-Counted_example = restore_counters-Counted 20 review

Counted-new_example :
    let t = add_thread (codes "rev-2") (lines 1 1) (codes "why") [] (codes "decision") 20 review in
    let a = add_side_answer (codes "rev-2") (codes "why") [] 20 review in
    let r =
      add_revision (codes "rev-2") (codes "why") [] (lines 1 1) (codes "decision") 20 review in
    (contains t.0.id (thread_ids review.threads) ≡ false)
    × (contains a.0.id (answer_ids review.side_answers) ≡ false)
    × (contains r.0.id (revision_ids review.revisions) ≡ false)
Counted-new_example =
    Counted-new review review-Counted (omega arith) (omega arith) (omega arith) (codes "rev-2")
      (codes "why") [] (codes "decision") (lines 1 1) 20

review-NumberedThreads : NumberedThreads review.threads review.next_thread_id
unfolding NumberedThreads contains text_eqb
review-NumberedThreads = ((refl, (refl, (refl, tt))), review-Counted.0)

apply-NumberedThreads_example :
    let s = (apply (Op.follow_up (codes "thread-2")) 20 review).1 in
    NumberedThreads s.threads s.next_thread_id
apply-NumberedThreads_example =
    apply-NumberedThreads 20 review (omega arith) review-NumberedThreads
      (Op.follow_up (codes "thread-2"))
