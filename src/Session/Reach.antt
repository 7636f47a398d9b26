-- ===== src/Session/Reach.antt =====
-- Sequences of operations on a session: feedback, creating a proposal and moving the threads to it,
-- applying a proposal, restoring a revision, and an edit of the plan file. The deletions
-- (DeleteThread, DiscardProposal) are not steps: they do take comments away.
pub mod Later
use planmaxx.Base.{
  ℕ, ◌≡◌, refl, sym, subst, ap, ◌∙◌, inl, inr, List, [], ◌∷◌, ◌++◌, ◌==◌, map, arith, append-nil,
  append_assoc, if◌then◌else◌, Bool-cases,
}
use planmaxx.Base.Text.{Text, text_comparable}
use planmaxx.Session.Types.{Thread, Revision, SectionProposalInput, Session, Result, ok, err}
use planmaxx.Session.State.{
  update_thread, thread_pointer, mutable_active_thread, detach_thread, add_thread, new_message,
  make_answers_private, add_side_answer,
}
use planmaxx.Session.State.Loops.{ids}
use planmaxx.Session.Anchors.{resolve_thread_after_proposal}
use planmaxx.Session.Feedback.{update_revision}
use planmaxx.Session.Feedback.Ops.{Op, apply}
use planmaxx.Session.Proposals.{
  create_section_proposal, retarget_proposal_threads, apply_proposal_checked,
}
use planmaxx.Session.Proposals.Apply.{ApplyOutcome, apply_proposal_checked-ApplyOutcome}
use planmaxx.Session.Revisions.{restore_revision, reconcile_external_plan}
use planmaxx.Session.Revisions.Outcome.{
  RestoreOutcome, restore_revision-RestoreOutcome, reconcile_external_plan-External,
}

-- One operation of the reviewer or the agent, whether it succeeds or not.
pub data Step : Session → Session → Type 0 where
  feedback : {s : Session} (o : Op) (now : ℕ) → Step s (apply o now s).1
  propose :
      {s : Session} (input : SectionProposalInput) (now : ℕ)
      → Step s (create_section_proposal input now s).1
  retarget :
      {s : Session} (previous_id next_id previous_plan next_plan : Text)
      → Step s (retarget_proposal_threads previous_id next_id previous_plan next_plan s)
  apply_proposal : {s : Session} (id : Text) (now : ℕ) → Step s (apply_proposal_checked id now s).1
  restore :
      {s : Session} (id content : Text) (now : ℕ) → Step s (restore_revision id content now s).1
  external :
      {s : Session} (previous next : Text) (now : ℕ)
      → Step s (reconcile_external_plan previous next now s)

pub data Reach : Session → Session → Type 0 where
  done : {s : Session} → Reach s s
  next : {s u v : Session} → Step s u → Reach u v → Reach s v
