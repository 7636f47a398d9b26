-- ===== src/Session/Restore.antt =====
-- RestoreCounters of internal/session/session.go with what it calls: the counters of a session
-- that was read from a file. The variables of its loops do not depend on each other; each has a
-- function of its own.
pub mod Fresh
pub mod Messages
pub mod Counted
pub mod New
use planmaxx.Base.{
  ℕ, Bool, Option, none, some, List, [], ◌∷◌, ◌==◌, map, if◌then◌else◌, length, last?,
}
use planmaxx.Base.Int.{ℤ, pos, ltb_ℤ, max, int_comparable}
use planmaxx.Base.Text.{Text, codes, text_comparable, cut_prefix, has_prefix}
use planmaxx.Base.Decimal.{atoi}
use planmaxx.Session.Types.{
  Message, Thread, RevisionFeedback, Revision, SideAnswer, SectionProposal, Session, zero_anchor,
  kind_decision, status_open, source_initial,
}
use planmaxx.Session.State.{add_revision, normalize_answer_delivery}

-- numberedID: none is false.
unfoldable pub numbered_id : Text → Text → Option ℤ
numbered_id id prefix = elim (cut_prefix id prefix) [ none ↦ none | some raw ↦ atoi raw ]

unfoldable pub numbered_message_id : Text → ℤ
unfolding numbered_id
numbered_message_id id = elim (numbered_id id (codes "msg-")) [ none ↦ pos 0 | some n ↦ n ]

-- if n, ok := numberedID(…); ok && n > m { m = n }
unfoldable pub raise : ℤ → Option ℤ → ℤ
raise m none = m
raise m (some n) = if ltb_ℤ m n then n else m

-- maxThread, maxSideAnswer and maxRevision
unfoldable pub max_numbered : Text → ℤ → List Text → ℤ
max_numbered prefix m [] = m
max_numbered prefix m (id ∷ ids) = max_numbered prefix (raise m (numbered_id id prefix)) ids

-- maxMessage over some messages
unfoldable pub max_message : ℤ → List Message → ℤ
max_message m [] = m
max_message m (x ∷ xs) = max_message (max m (numbered_message_id x.id)) xs

unfoldable pub max_thread_message : ℤ → List Thread → ℤ
unfolding max_message
max_thread_message m [] = m
max_thread_message m (t ∷ ts) = max_thread_message (max_message m t.messages) ts

unfoldable pub max_feedback_message : ℤ → List RevisionFeedback → ℤ
unfolding max_message
max_feedback_message m [] = m
max_feedback_message m (f ∷ fs) = max_feedback_message (max_message m f.messages) fs

-- A revision whose id has another form is passed over with its feedback.
unfoldable pub max_revision_message : ℤ → List Revision → ℤ
unfolding max_feedback_message
max_revision_message m [] = m
max_revision_message m (r ∷ rs) =
    max_revision_message
      (if has_prefix r.id (codes "rev-") then max_feedback_message m r.feedback else m) rs

-- maxProposal
unfoldable pub max_proposal : Option SectionProposal → ℤ
unfolding raise numbered_id
max_proposal none = pos 0
max_proposal (some p) = raise (pos 0) (numbered_id p.id (codes "proposal-"))

unfoldable pub thread_defaults : Thread → Thread
thread_defaults t = record t {
  kind = if t.kind == [] then kind_decision else t.kind;
  status = if t.status == [] then status_open else t.status;
}

-- restoreThreadDefaults
unfoldable pub restore_thread_defaults : Session → Session
unfolding thread_defaults
restore_thread_defaults s =
    normalize_answer_delivery (record s { threads = map thread_defaults s.threads })

-- s.Revisions[len(s.Revisions)-1].ID
abbrev pub last_id : List Revision → Text
last_id rs = elim (last? rs) [ none ↦ [] | some r ↦ r.id ]

-- restoreRevisionDefaults; the list is s.Revisions.
unfoldable pub revision_defaults_of : ℕ → Session → List Revision → Session
revision_defaults_of now s [] =
    (add_revision [] source_initial s.plan zero_anchor (codes "Initial plan") now s).1
revision_defaults_of now s (r ∷ rs) = record s {
  current_revision_id =
      if s.current_revision_id == [] then last_id (r ∷ rs) else s.current_revision_id;
  next_revision = if s.next_revision == pos 0 then pos (length (r ∷ rs)) else s.next_revision;
}

unfoldable pub restore_revision_defaults : ℕ → Session → Session
unfolding revision_defaults_of
restore_revision_defaults now s = revision_defaults_of now s s.revisions

-- RestoreCounters up to the defaults.
unfoldable pub count_ids : Session → Session
unfolding max_numbered max_thread_message max_revision_message max_proposal
count_ids s = record s {
  next_message = max_revision_message (max_thread_message (pos 0) s.threads) s.revisions;
  next_revision = max_numbered (codes "rev-") (pos 0) (map (λ (r : Revision). r.id) s.revisions);
  next_proposal_id = max s.next_proposal_id (max_proposal s.pending_proposal);
  next_thread_id =
      max s.next_thread_id
        (max_numbered (codes "thread-") (pos 0) (map (λ (t : Thread). t.id) s.threads));
  next_side_answer_id =
      max s.next_side_answer_id
        (max_numbered (codes "side-") (pos 0) (map (λ (a : SideAnswer). a.id) s.side_answers));
}

unfoldable pub restore_counters : ℕ → Session → Session
unfolding count_ids restore_thread_defaults restore_revision_defaults
restore_counters now s = restore_revision_defaults now (restore_thread_defaults (count_ids s))
