-- ===== src/Session/Revisions.antt =====
-- The revisions of a session: a new session, turns, external edits and restored revisions
-- (internal/session/session.go, RestoreRevision of transitions.go).
pub mod Outcome
use planmaxx.Base.{ℕ, true, ◌&&◌, ◌||◌, not, Option, none, some, [], ◌++◌, ◌==◌, if◌then◌else◌}
use planmaxx.Base.Int.{pos}
use planmaxx.Base.Text.{Text, codes, text_comparable}
use planmaxx.Session.Types.{
  Thread, Revision, SectionProposal, Session, zero_anchor, empty_digest, source_initial,
  source_turn, source_external, lifecycle, is_active, err, blocked_error, missing_error,
}
use planmaxx.Session.State.{Action, for_threads, set_thread, add_revision}
use planmaxx.Session.Locate.{text_for_anchor, anchor_matches_text, unique_anchor_for_text}
use planmaxx.Session.Feedback.{find_revision}
use planmaxx.Session.Proposals.{try_detach, commit}

-- planformat.Normalize(format, ""), and New, which passes Markdown.
abbrev markdown : Text
markdown = codes "markdown"

abbrev html : Text
html = codes "html"

pub new_with_format : Text → Text → Text → ℕ → Session
new_with_format id plan format now =
    let blank : Session = record {
      id = id;
      plan = plan;
      plan_path = [];
      plan_format = if format == html || format == markdown then format else markdown;
      current_revision_id = [];
      revisions = [];
      pending_proposal = none;
      threads = [];
      side_answers = [];
      digest = empty_digest;
      next_thread_id = pos 0;
      next_side_answer_id = pos 0;
      next_proposal_id = pos 0;
      next_message = pos 0;
      next_revision = pos 0;
    } in
    (add_revision [] source_initial plan zero_anchor (codes "Initial plan") now blank).1

-- The rest of a round of reconcileActiveThreadAnchors, from the text to look for.
follow : Text → Text → ℕ → Thread → Session → Session
follow next_source selected i t s = elim (unique_anchor_for_text next_source selected t.anchor) [
  | none ↦ try_detach t.id s
  | some a ↦ set_thread i (record t { anchor = a }) s
]

unfoldable pub reconcile_body : Text → Text → ℕ → Thread → Session → Session
unfolding follow
reconcile_body previous_source next_source i t s =
    if not (t.revision_id == []) && not (t.revision_id == s.current_revision_id)
      || not (is_active (lifecycle t))
    then s
    else if t.selected_text == []
    then if not (s.plan == previous_source)
      then try_detach t.id s
      else follow next_source (text_for_anchor previous_source t.anchor) i t s
    else if not (anchor_matches_text previous_source t.anchor t.selected_text)
    then try_detach t.id s
    else follow next_source t.selected_text i t s

unfoldable pub reconcile_active_thread_anchors : Text → Text → Session → Session
unfolding reconcile_body
reconcile_active_thread_anchors previous_source next_source =
    for_threads (reconcile_body previous_source next_source)

pub add_turn_revision : Text → Text → ℕ → Session → Revision × Session
add_turn_revision plan summary now s =
    let s1 = record s { pending_proposal = none } in
    let s2 = reconcile_active_thread_anchors s1.plan plan s1 in
    add_revision s2.current_revision_id source_turn plan zero_anchor summary now s2

pub add_external_revision : Text → Text → ℕ → Session → Revision × Session
add_external_revision plan summary now s =
    add_revision s.current_revision_id source_external plan zero_anchor summary now s

mark_obsolete : Option SectionProposal → Option SectionProposal
mark_obsolete none = none
mark_obsolete (some p) = some (record p { obsolete = true })

pub reconcile_external_plan : Text → Text → ℕ → Session → Session
unfolding add_external_revision mark_obsolete
reconcile_external_plan previous_source next_source now s =
    let s1 = reconcile_active_thread_anchors previous_source next_source s in
    let s2 = record s1 { pending_proposal = mark_obsolete s1.pending_proposal } in
    (add_external_revision next_source (codes "Plan file changed outside PlanMaxx") now s2).1

pub restore_revision : Text → Text → ℕ → Action Revision
restore_revision revision_id content now s = elim s.pending_proposal [
  | some _ ↦ (
    err (blocked_error (codes "apply or discard the pending proposal before restoring a revision")),
    s,
  )
  | none ↦ elim (find_revision revision_id s.revisions) [
    | none ↦ (err (missing_error (codes "revision not found")), s)
    | some _ ↦
        commit s (add_turn_revision content (codes "Restored revision " ++ revision_id) now s)
  ]
]

-- CurrentRevision
pub current_revision : Session → Option Revision
current_revision s = find_revision s.current_revision_id s.revisions
