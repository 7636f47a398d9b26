-- ===== src/Review/Migrations.antt =====
-- The steps that bring a stored session up to date: internal/review/migrations.go, and
-- migrateLegacyReviewProposal and rebuildPendingProposal of internal/review/server.go.
pub mod Rebuilt
use planmaxx.Base.{
  ℕ, Bool, true, false, ◌&&◌, ◌||◌, not, Option, none, some, List, [], ◌∷◌, ◌++◌, ◌==◌, length, eqb,
  leb, if◌then◌else◌, ◌⊎◌, inl, inr,
}
use planmaxx.Base.Text.{Text, codes, text_comparable}
use planmaxx.Session.Types.{
  zero_anchor, Digest, empty_digest, Revision, SectionProposal, SectionProposalInput, Session,
  kind_review, is_review_proposal, Result, ok, err,
}
use planmaxx.Session.Context.{select_context}
use planmaxx.Session.Validate.{validate, repair_invalid_open_anchors}
use planmaxx.Session.Restore.{restore_counters}
use planmaxx.Session.Revisions.{reconcile_external_plan}
use planmaxx.Digest.{no_options}
use planmaxx.Sectioniter.Protocol.{Xml, ParsedResponse, parse_response}
use planmaxx.Sectioniter.Proposal.{IterationRequest, build_proposal}
use planmaxx.Review.Types.{Document, Server}
use planmaxx.Review.Mutate.{World, Failure, other, new_document, source_matches, persist}
use planmaxx.Review.Iteration.Request.{anchors_equal, whole_plan_anchor, digest_has_content}

-- isTerminalAutosaveStatus
unfoldable pub is_terminal_status : Text → Bool
is_terminal_status status =
    status == codes "finalized" || status == codes "canceled" || status == codes "rejected"

-- migrateLegacyReviewProposal, for the proposal that is pending.
unfoldable pub as_review_proposal : Session → SectionProposal → SectionProposal
as_review_proposal s p = record p {
  kind = kind_review;
  review_digest = elim p.review_digest [ none ↦ some (s.digest) | some d ↦ some d ];
  consumed_side_answer_ids =
      if eqb (length p.consumed_side_answer_ids) 0
      then (select_context s no_options).answer_ids
      else p.consumed_side_answer_ids;
}

unfoldable pub is_legacy_review : Session → SectionProposal → Bool
unfolding anchors_equal whole_plan_anchor digest_has_content
is_legacy_review s p =
    is_review_proposal p
    || (p.parent_id == s.current_revision_id
        && p.thread_id == []
        && anchors_equal p.anchor (whole_plan_anchor s.plan)
        && digest_has_content s.digest)

unfoldable pub migrate_legacy_review_proposal : Session → Session
unfolding as_review_proposal is_legacy_review
migrate_legacy_review_proposal s = elim s.pending_proposal [
  | none ↦ s
  | some p ↦
      if p.kind == [] && is_legacy_review s p
      then record s { pending_proposal = some (as_review_proposal s p) }
      else s
]

-- rebuildPendingProposal: what BuildProposal is asked.
unfoldable pub rebuild_request : Session → SectionProposal → ParsedResponse → IterationRequest
rebuild_request s p parsed = record {
  revision_id = parsed.revision_id;
  thread_id = p.thread_id;
  plan = s.plan;
  anchor = p.anchor;
  replacement_anchor = zero_anchor;
  root_applied_anchor = zero_anchor;
  selected_section = p.original_section;
  reviewer_instruction = p.instruction;
  included_thread_ids = p.included_thread_ids;
}

unfoldable pub with_rebuilt : SectionProposal → SectionProposalInput → SectionProposal
with_rebuilt p i = record p {
  anchor = i.anchor;
  applied_anchor = i.applied_anchor;
  applied_hunks = i.applied_hunks;
  replacement_anchor = i.replacement_anchor;
  original_section = i.original_section;
  proposed_section = i.proposed_section;
  proposed_plan = i.proposed_plan;
  summary = i.summary;
  instruction = i.instruction;
  raw_response = i.raw_response;
  included_thread_ids = i.included_thread_ids;
}

-- The proposal behind BuildProposal, and whether it was replaced.
unfoldable pub replace_proposal :
    SectionProposal → Text ⊎ SectionProposalInput → Bool × SectionProposal
unfolding with_rebuilt
replace_proposal p (inl e) = (false, p)
replace_proposal p (inr i) =
    if i.proposed_plan == p.proposed_plan then (false, p) else (true, with_rebuilt p i)

unfoldable pub rebuild_parsed :
    Xml → Session → SectionProposal → Text ⊎ ParsedResponse → Bool × SectionProposal
unfolding rebuild_request replace_proposal
rebuild_parsed x s p (inl e) = (false, p)
rebuild_parsed x s p (inr parsed) =
    replace_proposal p (build_proposal x (rebuild_request s p parsed) p.raw_response)

unfoldable pub is_rebuildable : Session → SectionProposal → Bool
is_rebuildable s p =
    not p.obsolete
    && p.parent_id == s.current_revision_id
    && not (p.raw_response == [])
    && not (eqb (length p.applied_hunks) 0)

unfoldable pub rebuild_proposal : Xml → Session → SectionProposal → Bool × SectionProposal
unfolding is_rebuildable rebuild_parsed
rebuild_proposal x s p =
    if is_rebuildable s p
    then rebuild_parsed x s p (parse_response x p.raw_response)
    else (false, p)

unfoldable pub rebuild_pending_proposal : Xml → Session → Bool × Session
unfolding rebuild_proposal
rebuild_pending_proposal x s = elim s.pending_proposal [
  | none ↦ (false, s)
  | some p ↦
      let (rebuilt, q) = rebuild_proposal x s p in (rebuilt, record s { pending_proposal = some q })
]

-- The steps of migrateLoadedSession on the session.
unfoldable pub migrate_session : ℕ → Xml → Bool → Session → Session
unfolding migrate_legacy_review_proposal rebuild_pending_proposal
migrate_session now x terminal s =
    let s1 = (rebuild_pending_proposal x (migrate_legacy_review_proposal s)).1 in
    let s2 = (repair_invalid_open_anchors s1).1 in
    restore_counters now (if terminal then record s2 { digest = empty_digest } else s2)

-- migrateLoadedSession: the status, whether there is something to save, and the session. `encode` is
-- json.Marshal.
unfoldable pub migrate_loaded_session :
    ℕ → Xml → (Session → Text) → Text → Bool → Session → Text × Bool × Session
unfolding is_terminal_status migrate_session
migrate_loaded_session now x encode status reopen s =
    let terminal = reopen && is_terminal_status status in
    let t = migrate_session now x terminal s in
    (if terminal then codes "active" else status, not (encode s == encode t) || terminal, t)
