-- ===== src/Review/Iteration/Saved.antt =====
-- The session that executePreparedProposal saves with a new proposal, and the review that a request
-- was prepared for.
use planmaxx.Base.{
  ◌≡◌, ◌≢◌, refl, ℕ, true, false, Option, none, some, [], ◌++◌, ◌==◌, arith, if-cases,
}
use planmaxx.Base.Int.{pos, ◌+ℤ◌}
use planmaxx.Base.Text.{Text, codes, text_comparable, text_eqb_iff}
use planmaxx.Base.Decimal.{itoa}
use planmaxx.Session.Types.{SectionProposal, SectionProposalInput, Session}
use planmaxx.Session.Proposals.{create_section_proposal, retarget_proposal_threads}
use planmaxx.Session.Proposals.Retarget.{Moves, retarget-Moves}
use planmaxx.Review.Iteration.Request.{Outside, Prepared, pending_proposal_id}
use planmaxx.Review.Iteration.Execute.{has_moved, with_proposal}

-- The id of the pending proposal, which is empty where there is none.
abbrev pub HasPendingId : Text → Option SectionProposal → Type 0
HasPendingId base none = base ≡ []
HasPendingId base (some q) = q.id ≡ base

-- The revision, the pending proposal and the feedback are those that the request was prepared for.
pub record Unmoved (o : Outside) (p : Prepared) (s : Session) : Type 0 where
  pub revision : s.current_revision_id ≡ p.base_revision_id
  pub pending : HasPendingId p.base_pending_proposal_id s.pending_proposal
  pub feedback : o.fingerprint s.threads s.side_answers ≡ p.base_feedback

-- A text that is compared with another is that.
equal_text : (a b : Text) → (a == b) ≡ true → a ≡ b
equal_text a b h = (text_eqb_iff a b).0 h

pending_at :
    (base : Text) (c : Option SectionProposal)
    → (elim c [ none ↦ [] | some q ↦ q.id ]) ≡ base
    → HasPendingId base c
pending_at base none h = cc
pending_at base (some q) h = h

pub has_moved-Unmoved :
    (o : Outside) (p : Prepared) (s : Session) → has_moved o p s ≡ false → Unmoved o p s
unfolding has_moved pending_proposal_id
has_moved-Unmoved o p s h = record {
  revision = equal_text s.current_revision_id p.base_revision_id (ground (arith, h));
  pending =
      pending_at p.base_pending_proposal_id s.pending_proposal
        (equal_text (pending_proposal_id s) p.base_pending_proposal_id (ground (arith, h)));
  feedback =
      equal_text (o.fingerprint s.threads s.side_answers) p.base_feedback (ground (arith, h));
}

-- The new proposal: its lifecycle is that of the request, its text what the agent proposes, on the
-- current revision.
pub record IsProposal (now : ℕ) (p : Prepared) (input : SectionProposalInput) (s : Session)
    (q : SectionProposal) : Type 0 where
  pub id : q.id ≡ codes "proposal-" ++ itoa (s.next_proposal_id +ℤ pos 1)
  pub kind : q.kind ≡ p.lifecycle.kind
  pub review_digest : q.review_digest ≡ p.lifecycle.review_digest
  pub consumed : q.consumed_side_answer_ids ≡ p.lifecycle.consumed_side_answer_ids
  pub parent : q.parent_id ≡ s.current_revision_id
  pub thread : q.thread_id ≡ input.thread_id
  pub anchor : q.anchor ≡ input.anchor
  pub applied : q.applied_anchor ≡ input.applied_anchor
  pub hunks : q.applied_hunks ≡ input.applied_hunks
  pub original : q.original_section ≡ input.original_section
  pub proposed : q.proposed_section ≡ input.proposed_section
  pub plan : q.proposed_plan ≡ input.proposed_plan
  pub summary : q.summary ≡ input.summary
  pub instruction : q.instruction ≡ input.instruction
  pub response : q.raw_response ≡ input.raw_response
  pub included : q.included_thread_ids ≡ input.included_thread_ids
  pub current : q.obsolete ≡ false
  pub created : q.created_at ≡ now

-- The session with the new proposal. Where it replaces a proposal, the threads on that one move to
-- the new one and the others stay; else all threads stay.
pub record IsProposed (now : ℕ) (p : Prepared) (input : SectionProposalInput) (s : Session)
    (q : SectionProposal) (u : Session) : Type 0 where
  pub made : IsProposal now p input s q
  pub pending : u.pending_proposal ≡ some q
  pub counter : u.next_proposal_id ≡ s.next_proposal_id +ℤ pos 1
  pub rest : u ≡ record s {
    pending_proposal = u.pending_proposal;
    next_proposal_id = u.next_proposal_id;
    threads = u.threads;
  }
  pub first : p.base_pending_proposal_id ≡ [] → u.threads ≡ s.threads
  pub again :
      p.base_pending_proposal_id ≢ [] → Moves p.base_pending_proposal_id q.id s.threads u.threads

with_proposal-IsProposal :
    (now : ℕ) (p : Prepared) (input : SectionProposalInput) (s : Session)
    → IsProposal now p input s (with_proposal now p input s).0
unfolding with_proposal create_section_proposal
with_proposal-IsProposal now p input s = record {
  id = refl;
  kind = refl;
  review_digest = refl;
  consumed = refl;
  parent = refl;
  thread = refl;
  anchor = refl;
  applied = refl;
  hunks = refl;
  original = refl;
  proposed = refl;
  plan = refl;
  summary = refl;
  instruction = refl;
  response = refl;
  included = refl;
  current = refl;
  created = refl;
}

pub with_proposal-IsProposed :
    (now : ℕ) (p : Prepared) (input : SectionProposalInput) (s : Session)
    → IsProposed now p input s (with_proposal now p input s).0 (with_proposal now p input s).1
unfolding with_proposal create_section_proposal retarget_proposal_threads
with_proposal-IsProposed now p input s =
    if-cases (IsProposed now p input s (with_proposal now p input s).0)
      (p.base_pending_proposal_id == []) _ _
      (λ none_before. record {
        made = with_proposal-IsProposal now p input s;
        pending = refl;
        counter = refl;
        rest = refl;
        first = λ _. refl;
        again = λ before. absurd (before (equal_text p.base_pending_proposal_id [] none_before));
      })
      (λ before. record {
        made = with_proposal-IsProposal now p input s;
        pending = refl;
        counter = refl;
        rest = refl;
        first = λ e. absurd (ground (arith, before, text_eqb_iff p.base_pending_proposal_id [], e));
        again = λ _. retarget-Moves p.base_pending_proposal_id _ _ _ s.threads;
      })
