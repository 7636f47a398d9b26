-- ===== src/Session/Proposals/Settled.antt =====
-- What applying a review proposal settles: the comments that it carried out are closed, and the
-- answers that it used are not delivered again.
use planmaxx.Base.{
  All-of_map, ℕ, ◌≡◌, refl, sym, subst, false, true, some, none, List, [], ◌∷◌, map, not, ◌||◌,
  ◌==◌, if◌then◌else◌, arith, get_elem?, set, Bool, contains, All, if-cases,
}
use planmaxx.Base.Int.{ℤ, pos, ◌-ℤ◌}
use planmaxx.Base.Text.{Text, text_comparable, text_eqb}
use planmaxx.Session.Types.{
  Anchor, source_iteration, source_immediate, Thread, SideAnswer, Revision, SectionProposal,
  Session, ok, lifecycle, is_active, is_review_proposal, lifecycle_of,
}
use planmaxx.Session.State.{
  add_revision_with_feedback, normalize_answer_delivery, consume_included_answers, active_at,
  make_private,
}
use planmaxx.Session.State.MapLoop.{for_threads-map, set_same}
use planmaxx.Session.Anchors.{line_anchor, resolve_thread_after_proposal, line_count}
use planmaxx.Session.Proposals.{
  complete_body, complete_review_iteration, adjust_threads, adjust_threads_for_review_proposal,
  retarget_revision, apply_pending, apply_proposal_checked, commit, feedback_for_proposal,
}

-- A comment of the proposal that is not active.
abbrev pub IsClosed : SectionProposal → Thread → Type 0
IsClosed p t = contains t.id p.included_thread_ids ≡ true → is_active (lifecycle t) ≡ false

abbrev pub IsUsedUp : SectionProposal → SideAnswer → Type 0
IsUsedUp p a = contains a.id p.consumed_side_answer_ids ≡ true → a.promoted ≡ false

complete_thread : SectionProposal → Thread → Thread
complete_thread p t =
    if not (contains t.id p.included_thread_ids) || not (is_active (lifecycle t))
    then t
    else resolve_thread_after_proposal (line_anchor t.anchor) t

resolve-closed :
    (a : Anchor) (t : Thread) → is_active (lifecycle (resolve_thread_after_proposal a t)) ≡ false
unfolding resolve_thread_after_proposal lifecycle_of text_eqb
resolve-closed a t = refl

complete_thread-IsClosed : (p : SectionProposal) (t : Thread) → IsClosed p (complete_thread p t)
unfolding complete_thread
complete_thread-IsClosed p t =
    let stays = not (contains t.id p.included_thread_ids) || not (is_active (lifecycle t)) in
    if-cases (IsClosed p) stays t (resolve_thread_after_proposal (line_anchor t.anchor) t)
      (λ e included. ground (arith, e, included)) (λ _ _. resolve-closed (line_anchor t.anchor) t)

complete_body-set :
    (p : SectionProposal) (i : ℕ) (t : Thread) (s : Session)
    → get_elem? s.threads i ≡ some t
    → (complete_body p i t s).threads ≡ set s.threads i (complete_thread p t)
unfolding complete_body complete_thread
complete_body-set p i t s at = ground (arith, set_same s.threads i t at)

All-mapped {ℓ κ} :
    {A : Type ℓ} (P : A → Type κ) (f : A → A) (xs : List A)
    → ((x : A) → P x → P (f x))
    → All P xs
    → All P (map f xs)
All-mapped P f [] h a = tt
All-mapped P f (x ∷ xs) h (p, a) = (h x p, All-mapped P f xs h a)

-- The loop of completeReviewIteration closes every comment of the proposal.
complete_review_iteration-IsClosed :
    (p : SectionProposal) (s : Session) → All (IsClosed p) (complete_review_iteration p s).threads
unfolding complete_review_iteration
complete_review_iteration-IsClosed p s =
    subst (All (IsClosed p))
      (sym (for_threads-map (complete_thread p) (complete_body p) (complete_body-set p) s))
      (All-of_map (IsClosed p) (complete_thread p) s.threads (complete_thread-IsClosed p))

consume-IsUsedUp :
    (p : SectionProposal) (a : SideAnswer)
    → IsUsedUp p (if contains a.id p.consumed_side_answer_ids then make_private a else a)
consume-IsUsedUp p a =
    if-cases (IsUsedUp p) (contains a.id p.consumed_side_answer_ids) (make_private a) a
      (λ _ _. refl) (λ e used. cc (e, used))

private-IsUsedUp :
    (p : SectionProposal) (b : Bool) (a : SideAnswer)
    → IsUsedUp p a
    → IsUsedUp p (if b then a else make_private a)
private-IsUsedUp p true a h = h
private-IsUsedUp p false a h = λ _. refl

pub record Settled (p : SectionProposal) (u : Session) : Type 0 where
  pub closed : All (IsClosed p) u.threads
  pub used_up : All (IsUsedUp p) u.side_answers

adjust_threads-IsClosed :
    (p : SectionProposal) (previous : Text) (delta : ℤ) (s : Session)
    → is_review_proposal p ≡ true
    → All (IsClosed p) (adjust_threads p previous delta s).threads
unfolding adjust_threads
adjust_threads-IsClosed p previous delta s review =
    rw (review, adjust_threads)
      (complete_review_iteration-IsClosed p (adjust_threads_for_review_proposal p previous s))

deliver-Settled :
    (p : SectionProposal) (from to : Text) (s : Session)
    → All (IsClosed p) s.threads
    → Settled p
        (record (retarget_revision from to
          (normalize_answer_delivery (consume_included_answers p.consumed_side_answer_ids s))) {
            pending_proposal = none;
          })
unfolding retarget_revision normalize_answer_delivery consume_included_answers
deliver-Settled p from to s closed = record {
  closed =
      All-mapped (IsClosed p) _ s.threads
        (λ t h.
          if-cases (IsClosed p) (t.revision_id == from) (record t { revision_id = to }) t (λ _. h)
            (λ _. h))
        closed;
  used_up =
      All-mapped (IsUsedUp p) _ _
        (λ a h. private-IsUsedUp p (active_at false a.thread_id s.threads) a h)
        (All-of_map (IsUsedUp p) _ s.side_answers (consume-IsUsedUp p));
}

apply_pending-Settled :
    (p : SectionProposal) (now : ℕ) (s : Session)
    → is_review_proposal p ≡ true
    → Settled p (apply_pending p now s).1
unfolding apply_pending
apply_pending-Settled p now s review =
    let delta = pos (line_count p.proposed_plan) -ℤ pos (line_count s.plan) in
    let source = if is_review_proposal p then source_iteration else source_immediate in
    let (r, s1) =
      add_revision_with_feedback p.parent_id source p.proposed_plan p.anchor p.summary
        (feedback_for_proposal s p) now s in
    deliver-Settled p p.id r.id (adjust_threads p s.plan delta s1)
      (adjust_threads-IsClosed p s.plan delta s1 review)

commit-same : (s u v : Session) (r q : Revision) → commit s (r, u) ≡ (ok q, v) → u ≡ v
unfolding commit
commit-same s u v r q e = ground arith

-- When a review proposal is applied, no comment that it carried out is active behind it, and no side
-- answer that it used is included.
pub apply_proposal_checked-Settled :
    (s u : Session) (id : Text) (now : ℕ) (p : SectionProposal) (r : Revision)
    → s.pending_proposal ≡ some p
    → is_review_proposal p ≡ true
    → apply_proposal_checked id now s ≡ (ok r, u)
    → Settled p u
unfolding apply_proposal_checked
apply_proposal_checked-Settled s u id now p r pending review e =
    let (q, v) = apply_pending p now s in
    let same : v ≡ u = ground (arith, pending, commit-same s v u q r) in
    subst (Settled p) same (apply_pending-Settled p now s review)
