-- ===== src/Session/Proposals/Frame.antt =====
-- Moving the threads along keeps everything else of the session, and loses no thread.
use planmaxx.Base.{
  ℕ, ◌≡◌, false, some, List, ◌==◌, if◌then◌else◌, inl, inr, Bool-cases, arith, length, get_elem?,
  contains, ltb,
}
use planmaxx.Base.Int.{ℤ, pos, int_comparable}
use planmaxx.Base.Text.{Text, text_comparable}
use planmaxx.Session.Types.{Anchor, Thread, SectionProposal, Session, is_review_proposal}
use planmaxx.Session.State.Loops.{
  Frame, Frame-refl, Frame-trans, for_threads_inv, set_thread-Frame, detach_thread-Frame,
  answer_keys-map,
}
use planmaxx.Session.Anchors.{resolve_thread_after_proposal}
use planmaxx.Session.State.{
  for_threads, normalize_answer_delivery, consume_included_answers, active_at, make_private,
}
use planmaxx.Session.Proposals.{
  try_detach, review_body, adjust_threads_for_review_proposal, complete_body,
  complete_review_iteration, hunks_body, applied_body, adjust_threads_for_applied_proposal,
  adjust_threads,
}

pub try_detach-Frame : (id : Text) (s : Session) → Frame s (try_detach id s)
try_detach-Frame id s = detach_thread-Frame id s

module _ (p : SectionProposal) (i : ℕ) (t : Thread) (s : Session)
    (at : get_elem? s.threads i ≡ some t) where
  review_body-Frame : (previous : Text) → Frame s (review_body p previous i t s)
  unfolding review_body resolve_thread_after_proposal
  review_body-Frame previous = grind (arith, Frame-refl, set_thread-Frame, detach_thread-Frame)

  complete_body-Frame : Frame s (complete_body p i t s)
  unfolding complete_body resolve_thread_after_proposal
  complete_body-Frame = grind (arith, Frame-refl, set_thread-Frame)

  hunks_body-Frame : Frame s (hunks_body p i t s)
  unfolding hunks_body resolve_thread_after_proposal
  hunks_body-Frame = grind (arith, Frame-refl, set_thread-Frame, detach_thread-Frame)

  applied_body-Frame : (applied : Anchor) (delta : ℤ) → Frame s (applied_body p applied delta i t s)
  unfolding applied_body resolve_thread_after_proposal
  applied_body-Frame applied delta =
      grind (arith, Frame-refl, set_thread-Frame, detach_thread-Frame)

-- A loop whose rounds keep the frame keeps it.
pub for_threads-Frame :
    (body : ℕ → Thread → Session → Session) (s : Session)
    → ((i : ℕ) (t : Thread) (u : Session) → get_elem? u.threads i ≡ some t → Frame u (body i t u))
    → Frame s (for_threads body s)
for_threads-Frame body s keep =
    for_threads_inv (Frame s) body (λ i t u at h. Frame-trans h (keep i t u at)) s (Frame-refl s)

complete_review_iteration-Frame :
    (p : SectionProposal) (s : Session) → Frame s (complete_review_iteration p s)
unfolding complete_review_iteration
complete_review_iteration-Frame p s =
    let f = for_threads-Frame (complete_body p) s (λ i t u at. complete_body-Frame p i t u at) in
    ground (arith, f)

applied-Frame :
    (p : SectionProposal) (delta : ℤ) (s : Session)
    → Frame s (adjust_threads_for_applied_proposal p delta s)
unfolding adjust_threads_for_applied_proposal
applied-Frame p delta s = elim (Bool-cases (ltb 0 (length p.applied_hunks))) [
  | inl e ↦ rw e (for_threads-Frame (hunks_body p) s (λ i t u at. hunks_body-Frame p i t u at))
  | inr e ↦
      let applied = if p.applied_anchor.start_line == pos 0 then p.anchor else p.applied_anchor in
      rw e (
        for_threads-Frame (applied_body p applied delta) s
          (λ i t u at. applied_body-Frame p i t u at applied delta))
]

review-Frame :
    (p : SectionProposal) (previous : Text) (s : Session)
    → Frame s (adjust_threads_for_review_proposal p previous s)
unfolding adjust_threads_for_review_proposal
review-Frame p previous s =
    for_threads-Frame (review_body p previous) s (λ i t u at. review_body-Frame p i t u at previous)

pub adjust_threads-Frame :
    (p : SectionProposal) (previous : Text) (delta : ℤ) (s : Session)
    → Frame s (adjust_threads p previous delta s)
unfolding adjust_threads
adjust_threads-Frame p previous delta s = elim (Bool-cases (is_review_proposal p)) [
  | inl e ↦ rw e (
      Frame-trans (review-Frame p previous s)
        (complete_review_iteration-Frame p (adjust_threads_for_review_proposal p previous s)))
  | inr e ↦ rw e (applied-Frame p delta s)
]

normalize_answer_delivery-Frame : (s : Session) → Frame s (normalize_answer_delivery s)
unfolding normalize_answer_delivery
normalize_answer_delivery-Frame s = ground (
  arith,
  answer_keys-map (λ a. if active_at false a.thread_id s.threads then a else make_private a)
      s.side_answers (λ a. ground arith) (λ a. ground arith),
)

consume_included_answers-Frame :
    (ids : List Text) (s : Session) → Frame s (consume_included_answers ids s)
unfolding consume_included_answers
consume_included_answers-Frame ids s = ground (
  arith,
  answer_keys-map (λ a. if contains a.id ids then make_private a else a) s.side_answers
      (λ a. ground arith) (λ a. ground arith),
)

-- Consuming answers and normalising them, in the order of ApplyProposalChecked.
pub deliver-Frame :
    (ids : List Text) (s : Session)
    → Frame s (normalize_answer_delivery (consume_included_answers ids s))
deliver-Frame ids s =
    Frame-trans (consume_included_answers-Frame ids s)
      (normalize_answer_delivery-Frame (consume_included_answers ids s))
