-- ===== src/Session/Validate.antt =====
-- Session.Validate and RepairInvalidOpenAnchors of internal/session/transitions.go. A map that a
-- loop fills is the list of the keys so far.
pub mod Spec
pub mod Sound
pub mod Complete
pub mod Repair
use planmaxx.Base.{
  ℕ, zero, suc, Bool, true, false, ◌&&◌, ◌||◌, not, Option, none, some, List, [], ◌∷◌, ◌++◌, map,
  ◌==◌, if◌then◌else◌, contains,
}
use planmaxx.Base.Text.{Text, codes, text_comparable}
use planmaxx.Session.Types.{
  Message, Thread, Revision, SideAnswer, SectionProposal, Session, kind_decision, kind_note,
  kind_review, status_open, status_resolved, status_stale, source_initial, source_turn,
  source_immediate, source_iteration, source_external, lifecycle, is_active, Result, ok, err,
  invariant_error,
}
use planmaxx.Session.State.{normalize_answer_delivery}
use planmaxx.Session.Locate.{validate_session_anchor}

-- An early return of an error.
infixl 5 ◌>>=◌ ◌>>◌
abbrev pub ◌>>=◌ : {A B : Type 0} → Result A → (A → Result B) → Result B
◌>>=◌ r next = elim r [ err e ↦ err e | ok a ↦ next a ]

abbrev pub ◌>>◌ : {A B : Type 0} → Result A → Result B → Result B
◌>>◌ r next = r >>= λ _. next

abbrev pub reject_if : Bool → Text → Result (Unit {0})
reject_if true m = err (invariant_error m)
reject_if false m = ok tt

unfoldable pub allowed_source : Text → Bool
allowed_source s =
    s == source_initial
    || s == source_turn
    || s == source_immediate
    || s == source_iteration
    || s == source_external

-- The branches on index == 0.
unfoldable pub check_parent : ℕ → List Text → Revision → Result (Unit {0})
check_parent zero seen r =
    reject_if (not (r.parent_id == []) || not (r.source == source_initial))
      (codes "first revision must be an initial root")
check_parent (suc index) seen r =
    reject_if (not (contains r.parent_id seen)) (codes "revision parent is missing for " ++ r.id)

unfoldable pub check_revisions : ℕ → List Text → List Revision → Result (Unit {0})
unfolding check_parent allowed_source
check_revisions index seen [] = ok tt
check_revisions index seen (r ∷ rs) = do
  reject_if (r.id == []) (codes "revision id is empty")
  reject_if (contains r.id seen) (codes "duplicate revision id " ++ r.id)
  reject_if (not (allowed_source r.source)) (codes "invalid revision source for " ++ r.id)
  check_parent index seen r
  check_revisions (suc index) (r.id ∷ seen) rs

-- revisions[s.CurrentRevisionID]
unfoldable pub find_current : Text → List Revision → Option Revision
find_current id [] = none
find_current id (r ∷ rs) = if r.id == id then some r else find_current id rs

unfoldable pub check_current : Session → Result (Unit {0})
unfolding find_current
check_current s = elim (find_current s.current_revision_id s.revisions) [
  | none ↦ err (invariant_error (codes "checked-out revision is missing"))
  | some r ↦
      reject_if (not (r.plan == []) && not (r.plan == s.plan))
        (codes "working plan does not match checked-out revision")
]

-- The message ids seen so far go in and come out.
unfoldable pub check_messages : List Text → List Message → Result (List Text)
check_messages seen [] = ok seen
check_messages seen (m ∷ ms) = do
  reject_if (m.id == [] || contains m.id seen) (codes "duplicate or empty message id")
  check_messages (m.id ∷ seen) ms

unfoldable pub check_anchor : Text → Thread → Result (Unit {0})
check_anchor plan t =
    if t.status == status_open
    then elim (validate_session_anchor t.anchor plan) [
      | none ↦ ok tt
      | some e ↦ err (invariant_error (codes "invalid anchor for " ++ (t.id ++ (codes ": " ++ e))))
    ]
    else ok tt

unfoldable pub check_threads : Text → List Text → List Text → List Thread → Result (Unit {0})
unfolding check_anchor
check_threads plan seen messages [] = ok tt
check_threads plan seen messages (t ∷ ts) = do
  reject_if (t.id == [] || contains t.id seen) (codes "duplicate or empty thread id")
  reject_if (not (t.kind == kind_decision) && not (t.kind == kind_note))
      (codes "invalid thread kind for " ++ t.id)
  reject_if
      (not (t.status == status_open)
        && not (t.status == status_resolved)
        && not (t.status == status_stale))
      (codes "invalid thread status for " ++ t.id)
  check_anchor plan t
  messages' ← check_messages messages t.messages
  check_threads plan (t.id ∷ seen) messages' ts

-- Some thread with this id is not active.
unfoldable pub has_inactive : Text → List Thread → Bool
has_inactive id [] = false
has_inactive id (t ∷ ts) = (t.id == id && not (is_active (lifecycle t))) || has_inactive id ts

abbrev pub thread_ids : List Thread → List Text
thread_ids = map (λ (t : Thread). t.id)

abbrev pub answer_ids : List SideAnswer → List Text
answer_ids = map (λ (a : SideAnswer). a.id)

unfoldable pub check_answers : List Thread → List Text → List SideAnswer → Result (Unit {0})
unfolding has_inactive
check_answers threads seen [] = ok tt
check_answers threads seen (a ∷ as') = do
  reject_if (a.id == [] || contains a.id seen) (codes "duplicate or empty side-answer id")
  reject_if (not (contains a.thread_id (thread_ids threads)))
      (codes "side answer references missing thread")
  reject_if (a.promoted && has_inactive a.thread_id threads)
      (codes "non-active thread retains included side answer " ++ a.id)
  check_answers threads (a.id ∷ seen) as'

unfoldable pub check_known : List Text → Text → List Text → Result (Unit {0})
check_known known message [] = ok tt
check_known known message (id ∷ ids) = do
  reject_if (not (contains id known)) message
  check_known known message ids

unfoldable pub check_proposal : Session → Option SectionProposal → Result (Unit {0})
unfolding check_known
check_proposal s none = ok tt
check_proposal s (some p) = do
  reject_if (p.id == []) (codes "pending proposal id is empty")
  reject_if (not p.obsolete && not (p.parent_id == s.current_revision_id))
      (codes "pending proposal parent is not checked out")
  reject_if (not (p.kind == []) && not (p.kind == kind_review))
      (codes "invalid pending proposal kind")
  check_known (thread_ids s.threads) (codes "pending proposal references missing thread")
      p.included_thread_ids
  check_known (answer_ids s.side_answers) (codes "pending proposal references missing side answer")
      p.consumed_side_answer_ids

abbrev is_empty {ℓ} : {A : Type ℓ} → List A → Bool
is_empty [] = true
is_empty (_ ∷ _) = false

unfoldable pub validate : Session → Result (Unit {0})
validate s = do
  reject_if (s.id == []) (codes "session id is empty")
  reject_if (is_empty s.revisions) (codes "session has no revisions")
  check_revisions zero [] s.revisions
  check_current s
  check_threads s.plan [] [] s.threads
  check_answers s.threads [] s.side_answers
  check_proposal s s.pending_proposal

-- One round of RepairInvalidOpenAnchors on a thread, with whether it changed it.
needs_repair : Text → Thread → Bool
needs_repair plan t =
    t.status == status_open
    && elim (validate_session_anchor t.anchor plan) [ none ↦ false | some _ ↦ true ]

some_needs_repair : Text → List Thread → Bool
some_needs_repair plan [] = false
some_needs_repair plan (t ∷ ts) = needs_repair plan t || some_needs_repair plan ts

pub repair : Text → Thread → Thread
repair plan t = if needs_repair plan t then record t { status = status_stale } else t

pub repair_invalid_open_anchors : Session → Bool × Session
unfolding some_needs_repair repair needs_repair
repair_invalid_open_anchors s =
    let repaired = record s { threads = map (repair s.plan) s.threads } in
    if some_needs_repair s.plan s.threads
    then (true, normalize_answer_delivery repaired)
    else (false, repaired)
