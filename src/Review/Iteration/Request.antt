-- ===== src/Review/Iteration/Request.antt =====
-- What an iteration asks of the agent: sectionIterationRequestLocked and the helpers of
-- internal/review/server.go on anchors, digests and proposals.
use planmaxx.Base.{
  Bool, false, ◌&&◌, ◌||◌, not, Option, none, some, List, [], ◌∷◌, ◌==◌, if◌then◌else◌, ◌⊎◌, inl,
  inr, length, ltb,
}
use planmaxx.Base.Int.{pos, ◌+ℤ◌, ◌-ℤ◌, leb_ℤ, max, int_comparable}
use planmaxx.Base.Text.{Text, text_comparable}
use planmaxx.Base.Utf8.{trim_space}
use planmaxx.Session.Types.{
  Anchor, zero_anchor, Digest, Thread, SideAnswer, SectionProposal, Session, Revision,
}
use planmaxx.Session.Anchors.{line_count}
use planmaxx.Session.Context.{select_context}
use planmaxx.Sectioniter.Section.{section_for_anchor}
use planmaxx.Sectioniter.Proposal.{IterationRequest, plan_lines}

-- What is not modelled here: encoding/json, by which reviewFeedbackFingerprint spells the feedback,
-- and the template of prompts.ReviewIterationInstruction.
pub record Outside : Type 0 where
  pub fingerprint : List Thread → List SideAnswer → Text
  pub review_instruction : Text → List Text → List Text → Text → Text

-- proposeSectionRequest, proposalLifecycle and preparedProposal
pub record ProposeRequest : Type 0 where
  pub thread_id : Text
  pub anchor : Anchor
  pub instruction : Text

pub record ProposalLifecycle : Type 0 where
  pub kind : Text
  pub review_digest : Option Digest
  pub consumed_side_answer_ids : List Text

pub record Prepared : Type 0 where
  pub request : IterationRequest
  pub lifecycle : ProposalLifecycle
  pub base_revision_id : Text
  pub base_pending_proposal_id : Text
  pub base_feedback : Text
  pub previous_proposed_plan : Text

unfoldable pub anchors_equal : Anchor → Anchor → Bool
anchors_equal a b =
    a.start_line == b.start_line
    && a.start_char == b.start_char
    && a.end_line == b.end_line
    && a.end_char == b.end_char

unfoldable pub whole_plan_anchor : Text → Anchor
whole_plan_anchor plan = record {
  start_line = pos 1;
  start_char = pos 0;
  end_line = pos (plan_lines plan);
  end_char = pos 0;
}

unfoldable pub pending_proposal_id : Session → Text
pending_proposal_id s = elim s.pending_proposal [ none ↦ [] | some p ↦ p.id ]

unfoldable pub review_iteration_instruction : Outside → Option Digest → Text → Text
review_iteration_instruction o none refinement = trim_space refinement
review_iteration_instruction o (some d) refinement =
    o.review_instruction d.summary d.reviewer_decisions d.promoted_side_answers refinement

-- digestHasContent
has_text : List Text → Bool
has_text [] = false
has_text (t ∷ ts) = not (trim_space t == []) || has_text ts

unfoldable pub digest_has_content : Digest → Bool
unfolding has_text
digest_has_content d =
    not (trim_space d.summary == [])
    || has_text d.reviewer_decisions
    || has_text d.promoted_side_answers

-- pendingProposalReplacementAnchor
unfoldable pub pending_replacement_anchor : Anchor → Text → Anchor
pending_replacement_anchor a section =
    let lines = pos (line_count section) in
    if leb_ℤ lines (pos 1) && (not (a.start_char == pos 0) || not (a.end_char == pos 0))
    then a
    else record {
      start_line = a.start_line;
      start_char = pos 0;
      end_line = a.start_line +ℤ max lines (pos 1) -ℤ pos 1;
      end_char = pos 0;
    }

-- protocolRevisionIDLocked: the first revision that is the current one and has a commit.
commit_of : Text → Text → List Revision → Text
commit_of fallback id [] = fallback
commit_of fallback id (r ∷ rs) =
    if r.id == id && not (r.commit_id == []) then r.commit_id else commit_of fallback id rs

unfoldable pub protocol_revision_id : Session → Text
unfolding commit_of
protocol_revision_id s = commit_of s.current_revision_id s.current_revision_id s.revisions

-- The pending proposal that a request refines: it has the same anchor.
unfoldable pub refined_proposal : Session → Anchor → Option SectionProposal
unfolding anchors_equal
refined_proposal s a = elim s.pending_proposal [
  | none ↦ none
  | some p ↦ if anchors_equal p.anchor a then some p else none
]

section_or_empty : Text ⊎ Text → Text
section_or_empty (inl e) = []
section_or_empty (inr t) = t

-- The request on the plan itself, and the one that refines a proposal.
unfoldable pub plain_request : Session → ProposeRequest → IterationRequest
unfolding section_or_empty protocol_revision_id
plain_request s r =
    let selection = select_context s (record {
      anchor = some r.anchor;
      explicit_thread_id = r.thread_id;
      revision_id = s.current_revision_id;
    }) in
    record {
      revision_id = protocol_revision_id s;
      thread_id = r.thread_id;
      plan = s.plan;
      anchor = r.anchor;
      replacement_anchor = r.anchor;
      root_applied_anchor = zero_anchor;
      selected_section = section_or_empty (section_for_anchor s.plan r.anchor);
      reviewer_instruction = r.instruction;
      included_thread_ids = selection.thread_ids;
    }

unfoldable pub refining_request : Session → ProposeRequest → SectionProposal → IterationRequest
unfolding protocol_revision_id pending_replacement_anchor
refining_request s r p =
    let selection =
      select_context s
        (record { anchor = none; explicit_thread_id = r.thread_id; revision_id = p.id }) in
    record {
      revision_id = protocol_revision_id s;
      thread_id = r.thread_id;
      plan = p.proposed_plan;
      anchor = r.anchor;
      replacement_anchor =
          if p.replacement_anchor.start_line == pos 0
          then pending_replacement_anchor r.anchor p.proposed_section
          else p.replacement_anchor;
      root_applied_anchor =
          if p.applied_anchor.start_line == pos 0 then p.anchor else p.applied_anchor;
      selected_section = p.proposed_section;
      reviewer_instruction = r.instruction;
      included_thread_ids =
          if ltb 0 (length p.included_thread_ids)
          then p.included_thread_ids
          else selection.thread_ids;
    }

-- sectionIterationRequestLocked, without the XML of the prompt
unfoldable pub section_iteration_request : Session → ProposeRequest → IterationRequest
unfolding refined_proposal plain_request refining_request
section_iteration_request s r = elim (refined_proposal s r.anchor) [
  | none ↦ plain_request s r
  | some p ↦ refining_request s r p
]
