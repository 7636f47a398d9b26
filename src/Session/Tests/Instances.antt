-- ===== src/Session/Tests/Instances.antt =====
-- The theorems at the review of Tests/Data.
use planmaxx.Base.{◌≡◌, ◌↔◌, refl, none, ◌++◌, ◌∷◌, some, []}
use planmaxx.Digest.{draft_from_state, selected_answers}
use planmaxx.Session.Context.{instruction_messages, select_context}
use planmaxx.Digest.Silent.{draft_from_state_silent}
use planmaxx.Base.Text.{
  codes, newline, text_eqb, split_lines, join_lines, count_newlines, after_last_newline,
}
use planmaxx.Base.Utf8.{runes, sum_units}
use planmaxx.Session.Anchors.{utf16_length, clamped_line_anchor}
use planmaxx.Session.Validate.Repair.{
  Repaired, repair_invalid_open_anchors-Repaired, clamped_line_anchor-valid,
}
use planmaxx.Session.Locate.{unique_anchor_for_text, text_for_anchor, unique_line_sequence_index}
use planmaxx.Session.Locate.Sound.{IsFullLine, unique_anchor_for_text_unique}
use planmaxx.Session.Tests.Runs.{review_applies}
use planmaxx.Session.Proposals.{apply_pending, create_section_proposal}
use planmaxx.Session.Proposals.Settled.{Settled, apply_proposal_checked-Settled}
use planmaxx.Session.Types.{
  is_review_proposal, Anchor, SectionProposalInput, Session, lifecycle_of, ok,
}
use planmaxx.Session.State.{find_thread}
use planmaxx.Session.State.Delivery.{OnlyActive}
use planmaxx.Session.Validate.{validate, repair_invalid_open_anchors}
use planmaxx.Session.Locate.{validate_session_anchor}
use planmaxx.Session.Validate.Spec.{IsValid}
use planmaxx.Session.Validate.Complete.{validate_iff}
use planmaxx.Session.Feedback.Ops.{Op, apply}
use planmaxx.Session.Reach.{Step, Reach}
use planmaxx.Session.Reach.Later.{Later, Reach-Later}
use planmaxx.Session.Feedback.Atomic.{Unchanged, apply-Unchanged}
use planmaxx.Session.Feedback.Addressed.{apply-Addressed}
use planmaxx.Session.Feedback.Delivery.{apply-OnlyActive}
use planmaxx.Session.Proposals.{apply_proposal_checked}
use planmaxx.Session.Proposals.Apply.{ApplyOutcome, apply_proposal_checked-ApplyOutcome}
use planmaxx.Session.Revisions.{reconcile_external_plan, restore_revision}
use planmaxx.Session.Revisions.Outcome.{
  RestoreOutcome, restore_revision-RestoreOutcome, External, reconcile_external_plan-External,
  IsRejected, apply_after_external,
}
use planmaxx.Session.Tests.Data.{proposal, review, plan_text, next_text, lines, comment}
use planmaxx.Session.Types.{status_resolved}

validate_iff_example : (validate review ≡ ok tt) ↔ IsValid review
validate_iff_example = validate_iff review

apply_proposal_checked-ApplyOutcome_example :
    ApplyOutcome review (codes "proposal-1") (apply_proposal_checked (codes "proposal-1") 20 review)
apply_proposal_checked-ApplyOutcome_example =
    apply_proposal_checked-ApplyOutcome review (codes "proposal-1") 20

apply-Unchanged_example :
    Unchanged review (apply (Op.reply (codes "thread-2") (codes "more")) 20 review)
apply-Unchanged_example = apply-Unchanged (Op.reply (codes "thread-2") (codes "more")) 20 review

apply-Addressed_example :
    find_thread
      (codes "thread-2")
      (apply (Op.edit (codes "thread-2") (lines 1 1) (codes "new") []) 20 review).1.threads
    ≡ some (comment (codes "thread-2") 3 status_resolved (codes "msg-2"))
unfolding find_thread text_eqb lifecycle_of
apply-Addressed_example =
    apply-Addressed (Op.edit (codes "thread-2") (lines 1 1) (codes "new") []) 20 review
      (codes "thread-2") refl refl

apply-OnlyActive_example :
    let u = (apply (Op.detach (codes "thread-1")) 20 review).1 in
    OnlyActive u.threads u.side_answers
unfolding OnlyActive find_thread text_eqb lifecycle_of
apply-OnlyActive_example = apply-OnlyActive 20 review (λ p. refl, tt) (Op.detach (codes "thread-1"))

restore_revision-RestoreOutcome_example :
    RestoreOutcome review
      (codes "rev-1")
      plan_text
      (restore_revision (codes "rev-1") plan_text 20 review)
restore_revision-RestoreOutcome_example =
    restore_revision-RestoreOutcome review (codes "rev-1") plan_text 20

reconcile_external_plan-External_example :
    External review next_text (reconcile_external_plan plan_text next_text 20 review)
reconcile_external_plan-External_example =
    reconcile_external_plan-External plan_text next_text 20 review

apply_after_external_example :
    let u = reconcile_external_plan plan_text next_text 20 review in
    IsRejected u (apply_proposal_checked (codes "proposal-1") 21 u)
apply_after_external_example =
    apply_after_external plan_text next_text (codes "proposal-1") 20 21 review

step_one_moves : unique_anchor_for_text next_text (codes "step one") (lines 2 2) ≡ some (lines 3 3)
unfolding unique_anchor_for_text text_eqb unique_line_sequence_index split_lines join_lines
    count_newlines after_last_newline utf16_length runes sum_units
step_one_moves = refl

unique_anchor_for_text_unique_example :
    (text_for_anchor next_text (lines 3 3) ≡ codes "step one")
    × ((b : Anchor) → IsFullLine b → text_for_anchor next_text b ≡ codes "step one" → b ≡ lines 3 3)
unique_anchor_for_text_unique_example =
    unique_anchor_for_text_unique next_text (codes "step one") (lines 2 2) (lines 3 3) (refl, refl)
      step_one_moves

apply_proposal_checked-Settled_example : Settled proposal (apply_pending proposal 20 review).1
unfolding text_eqb is_review_proposal
apply_proposal_checked-Settled_example =
    apply_proposal_checked-Settled review (apply_pending proposal 20 review).1 (codes "proposal-1")
      20 proposal (apply_pending proposal 20 review).0 refl refl review_applies

-- The review after its plan was cut to two lines.
abbrev cut_review : Session
cut_review = record review { plan = codes "# Plan" ++ newline ∷ codes "step one" }

repair_invalid_open_anchors-Repaired_example :
    let (changed, u) = repair_invalid_open_anchors cut_review in Repaired cut_review changed u
repair_invalid_open_anchors-Repaired_example = repair_invalid_open_anchors-Repaired cut_review

clamped_line_anchor-valid_example :
    validate_session_anchor (clamped_line_anchor (lines 7 9) plan_text) plan_text ≡ none
clamped_line_anchor-valid_example = clamped_line_anchor-valid (lines 7 9) plan_text

-- A follow-up on an addressed comment, and the proposal after it.
abbrev followed : Session
followed = (apply (Op.follow_up (codes "thread-2")) 20 review).1

-- Behind it another proposal is made.
abbrev next_input : SectionProposalInput
next_input = record {
  kind = [];
  thread_id = [];
  anchor = lines 1 1;
  applied_anchor = lines 1 1;
  applied_hunks = [];
  replacement_anchor = lines 1 1;
  original_section = codes "# Plan";
  proposed_section = codes "# Plan";
  proposed_plan = plan_text;
  summary = codes "again";
  instruction = codes "again";
  raw_response = [];
  included_thread_ids = [];
  consumed_side_answer_ids = [];
  review_digest = none;
  agent_reply = [];
}

abbrev proposed_again : Session
proposed_again =
    (create_section_proposal next_input 22
      (apply_proposal_checked (codes "proposal-1") 21 followed).1).1

Reach-Later_example : Later review proposed_again
Reach-Later_example = Reach-Later (
    Reach.next (Step.feedback (Op.follow_up (codes "thread-2")) 20) (
      Reach.next (Step.apply_proposal (codes "proposal-1") 21)
        (Reach.next (Step.propose next_input 22) Reach.done)))

-- The review with its one resolved comment, and the promoted answer of a comment that is gone.
abbrev quiet_review : Session
quiet_review = record review {
  threads = comment (codes "thread-2") 3 status_resolved (codes "msg-2") ∷ [];
}

draft_from_state_silent_example : draft_from_state quiet_review ≡ record {
  summary = codes "Approved without comments.";
  reviewer_decisions = [];
  promoted_side_answers = [];
}
unfolding lifecycle_of text_eqb
draft_from_state_silent_example = draft_from_state_silent quiet_review (refl, tt)

draft_of_review : (draft_from_state review).summary ≡ codes "Approved with review comments."
unfolding draft_from_state instruction_messages select_context lifecycle_of text_eqb
    selected_answers
draft_of_review = refl
