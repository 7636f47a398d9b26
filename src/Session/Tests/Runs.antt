-- ===== src/Session/Tests/Runs.antt =====
-- Runs of the model.
use planmaxx.Base.{◌≡◌, refl, false, none, [], ◌∷◌, map, contains}
use planmaxx.Base.Int.{pos, ◌+ℤ◌, ◌-ℤ◌}
use planmaxx.Base.Text.{
  codes, text_eqb, split_lines, join_lines, has_prefix, count_newlines, after_last_newline,
}
use planmaxx.Base.Utf8.{runes, sum_units}
use planmaxx.Base.Decimal.{itoa}
use planmaxx.Session.Types.{
  ok, Thread, SideAnswer, status_resolved, status_stale, lifecycle_of, is_review_proposal,
}
use planmaxx.Session.State.{
  add_revision_with_feedback, for_threads, consume_included_answers, normalize_answer_delivery,
}
use planmaxx.Session.Anchors.{
  utf16_length, line_anchor, clamped_line_anchor, line_count, resolve_thread_after_proposal,
}
use planmaxx.Session.Locate.{
  validate_session_anchor, text_for_anchor, unique_anchor_for_text, unique_line_sequence_index,
  reanchor_thread_in_plan,
}
use planmaxx.Session.Validate.{
  validate, check_revisions, check_current, check_threads, check_messages, check_answers,
  check_proposal,
}
use planmaxx.Session.Proposals.{
  feedback_for_proposal, result_anchor_for_feedback, adjust_threads,
  adjust_threads_for_review_proposal, complete_review_iteration, retarget_revision, apply_pending,
  commit, apply_proposal_checked,
}
use planmaxx.Session.Tests.Data.{proposal, review, next_text}

pub review_validates : validate review ≡ ok tt
unfolding validate text_eqb check_revisions contains check_current check_threads
    validate_session_anchor split_lines check_messages check_answers lifecycle_of check_proposal
review_validates = refl

-- The comment that the review carried out is resolved on its line in the new plan.
review_applied :
    let u = (apply_proposal_checked (codes "proposal-1") 20 review).1 in
    (u.plan ≡ next_text)
    × (u.current_revision_id ≡ codes "rev-3")
    × (u.pending_proposal ≡ none)
    × (map (λ (t : Thread). t.status) u.threads
        ≡ status_resolved ∷ status_resolved ∷ status_stale ∷ [])
    × (map (λ (t : Thread). t.anchor.start_line) u.threads ≡ pos 3 ∷ pos 3 ∷ pos 9 ∷ [])
    × (map (λ (a : SideAnswer). a.promoted) u.side_answers ≡ false ∷ [])
unfolding apply_proposal_checked apply_pending commit add_revision_with_feedback adjust_threads
    retarget_revision for_threads is_review_proposal validate text_eqb check_revisions contains
    check_current check_threads validate_session_anchor split_lines check_messages check_answers
    lifecycle_of check_proposal itoa ◌+ℤ◌ ◌-ℤ◌ feedback_for_proposal result_anchor_for_feedback
    reanchor_thread_in_plan text_for_anchor unique_anchor_for_text unique_line_sequence_index
    join_lines line_anchor adjust_threads_for_review_proposal complete_review_iteration
    resolve_thread_after_proposal consume_included_answers normalize_answer_delivery count_newlines
    after_last_newline utf16_length runes sum_units has_prefix line_count clamped_line_anchor
review_applied = (refl, refl, refl, refl, refl, refl)

-- Validate accepts the session that the proposal leaves.
pub review_applies :
    apply_proposal_checked (codes "proposal-1") 20 review
    ≡ (ok (apply_pending proposal 20 review).0, (apply_pending proposal 20 review).1)
unfolding apply_proposal_checked apply_pending commit add_revision_with_feedback adjust_threads
    retarget_revision for_threads is_review_proposal validate text_eqb check_revisions contains
    check_current check_threads validate_session_anchor split_lines check_messages check_answers
    lifecycle_of check_proposal itoa ◌+ℤ◌ ◌-ℤ◌ feedback_for_proposal result_anchor_for_feedback
    reanchor_thread_in_plan text_for_anchor unique_anchor_for_text unique_line_sequence_index
    join_lines line_anchor adjust_threads_for_review_proposal complete_review_iteration
    resolve_thread_after_proposal consume_included_answers normalize_answer_delivery count_newlines
    after_last_newline utf16_length runes sum_units has_prefix line_count clamped_line_anchor
review_applies = refl
