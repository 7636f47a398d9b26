-- ===== src/Review/ClientState.antt =====
-- What the browser is shown: internal/review/client_state.go.
mod Data
mod Views
pub use Data.*
unfoldable pub use Views.*
use planmaxx.Base.{
  ℕ, ◌+◌, Bool, true, false, ◌&&◌, ◌||◌, not, Option, none, some, List, [], ◌∷◌, map, ◌==◌,
  if◌then◌else◌,
}
use planmaxx.Base.Text.{Text, codes, text_comparable}
use planmaxx.Session.Types.{
  Anchor, Position, Message, Thread, RevisionFeedback, Revision, SectionProposal, Digest,
  SideAnswer, Session, Lifecycle, active, addressed, detached, lifecycle, is_active, intent,
  intent_instruction,
}
use planmaxx.Diff.{Change}
use planmaxx.Reviewmodel.Data.{mode_proposal}
use planmaxx.Reviewmodel.Build.{build}
use planmaxx.Review.Types.{AgentInfo, OperationView}
use planmaxx.Review.Operations.{is_running}

abbrev pub summary_of : SectionProposal → PendingProposalSummary
summary_of p = record {
  id = p.id;
  kind = p.kind;
  parent_id = p.parent_id;
  thread_id = p.thread_id;
  anchor = p.anchor;
  replacement_anchor = p.replacement_anchor;
  summary = p.summary;
  instruction = p.instruction;
  review_digest = p.review_digest;
  obsolete = p.obsolete;
  created_at = p.created_at;
}

abbrev pub view_running : Option OperationView → Bool
view_running none = false
view_running (some v) = is_running v.status

unfoldable pub client_capabilities :
    Session → Bool → Bool → Option OperationView → ClientCapabilities
client_capabilities s finished agent_available operation =
    let busy = view_running operation in
    let locked = finished || has_proposal s || busy in
    record {
      can_finalize = not locked;
      can_iterate = not locked && agent_available;
      can_edit_feedback = elim s.pending_proposal [
        | none ↦ not locked
        | some p ↦ not finished && not busy && not p.obsolete
      ];
      can_restore_revision = not locked;
      can_apply_proposal = elim s.pending_proposal [
        | none ↦ false
        | some p ↦ not finished && not p.obsolete && p.parent_id == s.current_revision_id
      ];
    }

abbrev pub without_body : Revision → Revision
without_body r = record r { plan = []; feedback = [] }

-- buildClientStateWithOperation; the diff of go-diff is the first argument.
unfoldable pub build_client_state :
    (List ℕ → List ℕ → List Change)
    → Session
    → Bool
    → AgentInfo
    → Option OperationView
    → ClientState
unfolding build_thread_views build_side_answer_views client_capabilities
build_client_state diff s finished agent operation =
    let busy = view_running operation in
    let locked = finished || has_proposal s || busy in
    let (threads, counts) = build_thread_views s locked agent.available (finished || busy) in
    let (answers, counts') = build_side_answer_views s locked counts in
    record {
      schema_version = 5;
      agent = agent;
      id = s.id;
      plan = s.plan;
      plan_path = s.plan_path;
      plan_format = s.plan_format;
      current_revision_id = s.current_revision_id;
      revisions = map without_body s.revisions;
      pending_proposal = elim s.pending_proposal [ none ↦ none | some p ↦ some (summary_of p) ];
      threads = threads;
      side_answers = answers;
      counts = counts';
      digest = s.digest;
      phase = elim s.pending_proposal [
        | some _ ↦ codes "proposal_pending"
        | none ↦ if finished then codes "terminal" else codes "active"
      ];
      capabilities = client_capabilities s finished agent.available operation;
      operation = operation;
      active_change = elim s.pending_proposal [
        | none ↦ none
        | some p ↦ some (
            build diff (record {
              mode = mode_proposal;
              is_direct = false;
              base_id = p.parent_id;
              target_id = p.id;
              format = s.plan_format;
              before = s.plan;
              after = p.proposed_plan;
              threads = s.threads;
              review_thread_ids = p.included_thread_ids;
              feedback = [];
            }))
      ];
    }
