-- ===== src/Session/Proposals.antt =====
-- The pending proposal of a session: creating, applying and discarding it, and moving the threads
-- along (internal/session/session.go).
pub mod Commit
pub mod Frame
pub mod Apply
pub mod Settled
pub mod Retarget
use planmaxx.Base.{
  ℕ, false, ◌&&◌, ◌||◌, not, Option, none, some, List, [], ◌∷◌, ◌++◌, map, ◌==◌, if◌then◌else◌,
  length, contains, ltb, nat_comparable,
}
use planmaxx.Base.Int.{ℤ, pos, ◌+ℤ◌, ◌-ℤ◌, ltb_ℤ, int_comparable}
use planmaxx.Base.Text.{Text, codes, text_comparable}
use planmaxx.Base.Decimal.{itoa}
use planmaxx.Session.Types.{
  Anchor, Thread, RevisionFeedback, Revision, SectionProposal, SectionProposalInput, Session,
  empty_digest, source_immediate, source_iteration, intent_instruction, lifecycle, is_active,
  intent, is_review_proposal, Result, ok, err, missing_error, stale_error,
}
use planmaxx.Session.State.{
  Action, for_threads, set_thread, add_revision_with_feedback, normalize_answer_delivery,
  consume_included_answers, detach_thread,
}
use planmaxx.Session.Anchors.{
  line_anchor, line_count, clamped_line_anchor, shift_anchor, find_overlap, reanchor_after_hunks,
  replacement_anchor_for_thread, replacement_anchor_from_section, resolve_thread_after_proposal,
}
use planmaxx.Session.Locate.{reanchor_thread_in_plan}
use planmaxx.Session.Feedback.{delete_threads_for_revision}
use planmaxx.Session.Validate.{validate}

unfoldable pub create_section_proposal :
    SectionProposalInput → ℕ → Session → SectionProposal × Session
create_section_proposal input now s =
    let n = s.next_proposal_id +ℤ pos 1 in
    let proposal : SectionProposal = record {
      id = codes "proposal-" ++ itoa n;
      kind = input.kind;
      parent_id = s.current_revision_id;
      thread_id = input.thread_id;
      anchor = input.anchor;
      applied_anchor = input.applied_anchor;
      applied_hunks = input.applied_hunks;
      replacement_anchor =
          if input.replacement_anchor.start_line == pos 0
          then replacement_anchor_from_section input.anchor input.proposed_section
          else input.replacement_anchor;
      original_section = input.original_section;
      proposed_section = input.proposed_section;
      proposed_plan = input.proposed_plan;
      summary = input.summary;
      instruction = input.instruction;
      raw_response = input.raw_response;
      included_thread_ids = input.included_thread_ids;
      consumed_side_answer_ids = input.consumed_side_answer_ids;
      review_digest = input.review_digest;
      obsolete = false;
      created_at = now;
    } in
    (proposal, record s { next_proposal_id = n; pending_proposal = some proposal })

-- `_ = s.DetachThread(id)`
abbrev pub try_detach : Text → Session → Session
try_detach id s = (detach_thread id s).1

unfoldable pub result_anchor_for_feedback : Session → Thread → SectionProposal → Anchor
result_anchor_for_feedback s t p =
    if not (is_review_proposal p)
    then replacement_anchor_for_thread t.anchor p
    else elim (reanchor_thread_in_plan t s.plan p.proposed_plan) [
      | some a ↦ line_anchor a
      | none ↦
          if length p.applied_hunks == 0
          then clamped_line_anchor t.anchor p.proposed_plan
          else line_anchor (replacement_anchor_for_thread t.anchor p)
    ]

-- The first active thread with an id.
unfoldable pub find_active : Text → List Thread → Option Thread
find_active id [] = none
find_active id (t ∷ ts) =
    if not (t.id == id) || not (is_active (lifecycle t)) then find_active id ts else some t

feedback_for : Session → SectionProposal → Thread → RevisionFeedback
feedback_for s p t = record {
  revision_id = [];
  thread_id = t.id;
  anchor = t.anchor;
  result_anchor = result_anchor_for_feedback s t p;
  selected_text = t.selected_text;
  kind = t.kind;
  messages = t.messages;
}

feedback_loop : Session → SectionProposal → List Text → List RevisionFeedback
unfolding find_active feedback_for
feedback_loop s p [] = []
feedback_loop s p (id ∷ ids) =
    let rest = feedback_loop s p ids in
    elim (find_active id s.threads) [ none ↦ rest | some t ↦ feedback_for s p t ∷ rest ]

unfoldable pub feedback_for_proposal : Session → SectionProposal → List RevisionFeedback
unfolding feedback_loop
feedback_for_proposal s p = feedback_loop s p p.included_thread_ids

-- The bodies of the loops over the threads.
unfoldable pub review_body : SectionProposal → Text → ℕ → Thread → Session → Session
review_body p previous_plan i t s =
    let result = reanchor_thread_in_plan t previous_plan p.proposed_plan in
    let fallback =
      if length p.applied_hunks == 0
      then clamped_line_anchor t.anchor p.proposed_plan
      else replacement_anchor_for_thread t.anchor p in
    if t.revision_id == p.id || not (is_active (lifecycle t))
    then s
    else if contains t.id p.included_thread_ids
    then set_thread i
        (resolve_thread_after_proposal (line_anchor (elim result [ none ↦ fallback | some a ↦ a ]))
          t)
        s
    else elim result [
      | some a ↦ set_thread i (record t { anchor = a }) s
      | none ↦ try_detach t.id s
    ]

unfoldable pub adjust_threads_for_review_proposal : SectionProposal → Text → Session → Session
unfolding review_body
adjust_threads_for_review_proposal p previous_plan = for_threads (review_body p previous_plan)

unfoldable pub complete_body : SectionProposal → ℕ → Thread → Session → Session
complete_body p i t s =
    if not (contains t.id p.included_thread_ids) || not (is_active (lifecycle t))
    then s
    else set_thread i (resolve_thread_after_proposal (line_anchor t.anchor) t) s

unfoldable pub complete_review_iteration : SectionProposal → Session → Session
unfolding complete_body
complete_review_iteration p s = record (for_threads (complete_body p) s) { digest = empty_digest }

unfoldable pub hunks_body : SectionProposal → ℕ → Thread → Session → Session
hunks_body p i t s =
    if t.revision_id == p.id || not (is_active (lifecycle t))
    then s
    else elim (find_overlap t.anchor p.applied_hunks) [
      | none ↦ set_thread i (record t { anchor = reanchor_after_hunks t.anchor p.applied_hunks }) s
      | some _ ↦
          if contains t.id p.included_thread_ids
          then set_thread i
              (resolve_thread_after_proposal (replacement_anchor_for_thread t.anchor p) t) s
          else try_detach t.id s
    ]

unfoldable pub applied_body : SectionProposal → Anchor → ℤ → ℕ → Thread → Session → Session
applied_body p applied delta i t s =
    if t.revision_id == p.id || not (is_active (lifecycle t))
    then s
    else if ltb_ℤ t.anchor.end_line applied.start_line
    then s
    else if ltb_ℤ applied.end_line t.anchor.start_line
    then set_thread i (record t { anchor = shift_anchor t.anchor delta }) s
    else if contains t.id p.included_thread_ids
    then set_thread i (resolve_thread_after_proposal p.replacement_anchor t) s
    else try_detach t.id s

unfoldable pub adjust_threads_for_applied_proposal : SectionProposal → ℤ → Session → Session
unfolding hunks_body applied_body
adjust_threads_for_applied_proposal p delta =
    if ltb 0 (length p.applied_hunks)
    then for_threads (hunks_body p)
    else for_threads (
        applied_body p (if p.applied_anchor.start_line == pos 0 then p.anchor else p.applied_anchor)
          delta)

-- Comments on the proposal become comments on the revision.
unfoldable pub retarget_revision : Text → Text → Session → Session
retarget_revision proposal_id revision_id s = record s {
  threads =
      map
        (λ (t : Thread).
          if t.revision_id == proposal_id then record t { revision_id = revision_id } else t)
        s.threads;
}

-- What applying does to the threads.
unfoldable pub adjust_threads : SectionProposal → Text → ℤ → Session → Session
adjust_threads p previous_plan delta s =
    if is_review_proposal p
    then complete_review_iteration p (adjust_threads_for_review_proposal p previous_plan s)
    else adjust_threads_for_applied_proposal p delta s

-- The body of ApplyProposalChecked between its guards and its call of Validate.
unfoldable pub apply_pending : SectionProposal → ℕ → Session → Revision × Session
apply_pending p now s =
    let delta = pos (line_count p.proposed_plan) -ℤ pos (line_count s.plan) in
    let source = if is_review_proposal p then source_iteration else source_immediate in
    let (revision, s1) =
      add_revision_with_feedback p.parent_id source p.proposed_plan p.anchor p.summary
        (feedback_for_proposal s p) now s in
    let s2 = adjust_threads p s.plan delta s1 in
    let s3 = normalize_answer_delivery (consume_included_answers p.consumed_side_answer_ids s2) in
    (revision, record (retarget_revision p.id revision.id s3) { pending_proposal = none })

-- if err := s.Validate(); err != nil { *s = before; return …, err }
unfoldable pub commit : {A : Type 0} → Session → A × Session → Result A × Session
commit before (a, s) = elim (validate s) [ ok _ ↦ (ok a, s) | err e ↦ (err e, before) ]

unfoldable pub apply_proposal_checked : Text → ℕ → Action Revision
apply_proposal_checked proposal_id now s = elim s.pending_proposal [
  | none ↦ (err (missing_error (codes "proposal not found")), s)
  | some p ↦
      if not (p.id == proposal_id)
      then (err (stale_error (codes "proposal is no longer pending")), s)
      else if p.obsolete || not (p.parent_id == s.current_revision_id)
      then (err (stale_error (codes "proposal is obsolete or based on another revision")), s)
      else commit s (apply_pending p now s)
]

pub discard_proposal_checked : Text → Action (Unit {0})
discard_proposal_checked proposal_id s = elim s.pending_proposal [
  | none ↦ (err (missing_error (codes "proposal not found")), s)
  | some p ↦
      if not (p.id == proposal_id)
      then (err (stale_error (codes "proposal is no longer pending")), s)
      else (ok tt, record (delete_threads_for_revision proposal_id s) { pending_proposal = none })
]

-- RetargetProposalThreads
unfoldable pub retarget_thread : Text → Text → Text → Text → Thread → Thread
retarget_thread previous_id next_id previous_plan next_plan t =
    let moved : Thread = elim (reanchor_thread_in_plan t previous_plan next_plan) [
      | some a ↦ record t { anchor = a; revision_id = next_id }
      | none ↦ record t {
        anchor = clamped_line_anchor t.anchor next_plan;
        selected_text = [];
        revision_id = next_id;
      }
    ] in
    if not (t.revision_id == previous_id)
    then t
    else if is_active (lifecycle moved) && intent moved == intent_instruction
    then resolve_thread_after_proposal moved.anchor moved
    else moved

unfoldable pub retarget_proposal_threads : Text → Text → Text → Text → Session → Session
unfolding retarget_thread
retarget_proposal_threads previous_id next_id previous_plan next_plan s = record s {
  threads = map (retarget_thread previous_id next_id previous_plan next_plan) s.threads;
}
