-- ===== src/Session/Proposals/Apply.antt =====
-- What ApplyProposalChecked and DiscardProposalChecked come to, on every branch.
use planmaxx.Base.{
  ℕ, ◌≡◌, refl, ◌∙◌, false, none, some, List, [], ◌∷◌, ◌++◌, map, ◌==◌, if◌then◌else◌, inl, inr,
  arith, Option-cases,
}
use planmaxx.Base.Int.{pos, ◌-ℤ◌}
use planmaxx.Base.Text.{Text, text_comparable, text_eqb_iff}
use planmaxx.Session.Types.{
  Thread, Revision, SectionProposal, Session, Result, ok, err, is_review_proposal, source_immediate,
  source_iteration,
}
use planmaxx.Session.State.{
  add_revision_with_feedback, normalize_answer_delivery, consume_included_answers,
}
use planmaxx.Session.State.Loops.{Frame-trans, ids}
use planmaxx.Session.Anchors.{line_count}
use planmaxx.Session.Validate.Spec.{IsValid}
use planmaxx.Session.Validate.Sound.{validate_sound}
use planmaxx.Session.Proposals.Commit.{commit_cases}
use planmaxx.Session.Proposals.{
  feedback_for_proposal, adjust_threads, retarget_revision, apply_pending, commit,
  apply_proposal_checked,
}
use planmaxx.Session.Proposals.Frame.{adjust_threads-Frame, deliver-Frame}

-- The new revision `r` in the session `u` that a proposal `p` on `s` has become.
pub record Applied (s : Session) (p : SectionProposal) (r : Revision) (u : Session) : Type 0 where
  pub plan : u.plan ≡ p.proposed_plan
  pub content : r.plan ≡ p.proposed_plan
  pub parent : r.parent_id ≡ p.parent_id
  pub current : u.current_revision_id ≡ r.id
  pub history : u.revisions ≡ s.revisions ++ r ∷ []
  pub pending : u.pending_proposal ≡ none
  pub threads : ids u.threads ≡ ids s.threads

ids-retarget :
    (a b : Text) (ts : List Thread)
    → ids (map (λ (t : Thread). if t.revision_id == a then record t { revision_id = b } else t) ts)
      ≡ ids ts
ids-retarget a b [] = refl
ids-retarget a b (t ∷ ts) = ground (arith, ids-retarget a b ts)

apply_pending-Applied :
    (p : SectionProposal) (now : ℕ) (s : Session)
    → let (r, u) = apply_pending p now s in Applied s p r u
unfolding apply_pending add_revision_with_feedback retarget_revision
apply_pending-Applied p now s =
    let delta = pos (line_count p.proposed_plan) -ℤ pos (line_count s.plan) in
    let source = if is_review_proposal p then source_iteration else source_immediate in
    let (r, s1) =
      add_revision_with_feedback p.parent_id source p.proposed_plan p.anchor p.summary
        (feedback_for_proposal s p) now s in
    let s2 = adjust_threads p s.plan delta s1 in
    let f =
      Frame-trans (adjust_threads-Frame p s.plan delta s1)
        (deliver-Frame p.consumed_side_answer_ids s2) in
    record {
      plan = f.plan;
      content = refl;
      parent = refl;
      current = f.current;
      history = f.revisions;
      pending = refl;
      threads =
          ids-retarget p.id r.id
            (normalize_answer_delivery
              (consume_included_answers p.consumed_side_answer_ids s2)).threads
          ∙ f.threads;
    }

-- What a call on `s` with an id may come to.
abbrev pub ApplyOutcome : Session → Text → Result Revision × Session → Type 0
ApplyOutcome s id (ok r, u) =
    (p : SectionProposal) × (s.pending_proposal ≡ some p)
    × (p.id ≡ id)
    × (p.obsolete ≡ false)
    × (p.parent_id ≡ s.current_revision_id)
    × Applied s p r u
    × IsValid u
ApplyOutcome s id (err e, u) = u ≡ s

commit-ApplyOutcome :
    (s : Session) (id : Text) (p : SectionProposal) (r : Revision) (u : Session)
    → s.pending_proposal ≡ some p
    → p.id ≡ id
    → p.obsolete ≡ false
    → p.parent_id ≡ s.current_revision_id
    → Applied s p r u
    → ApplyOutcome s id (commit s (r, u))
commit-ApplyOutcome s id p r u e named fresh based done =
    commit_cases (ApplyOutcome s id) s u r
      (λ v. (p, e, named, fresh, based, done, validate_sound u v)) (λ x. refl)

-- ApplyProposalChecked either returns an error and the session as it was, or the given id is that of
-- the pending proposal, which is not obsolete and based on the checked-out revision; then the session
-- is valid, its plan is the proposed one, one new revision with that plan and parent is appended and
-- checked out, nothing is pending, and the threads have the same ids.
pub apply_proposal_checked-ApplyOutcome :
    (s : Session) (id : Text) (now : ℕ) → ApplyOutcome s id (apply_proposal_checked id now s)
unfolding apply_proposal_checked
apply_proposal_checked-ApplyOutcome s id now = elim (Option-cases s.pending_proposal) [
  | inl e ↦ rw e refl
  | inr (p, e) ↦
      let (r, u) = apply_pending p now s in
      ground (
        arith,
        e,
        text_eqb_iff p.id id,
        text_eqb_iff p.parent_id s.current_revision_id,
        commit-ApplyOutcome s id p r u e,
        apply_pending-Applied p now s,
      )
]
