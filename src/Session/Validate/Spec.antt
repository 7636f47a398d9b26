-- ===== src/Session/Validate/Spec.antt =====
-- What a loadable session is, said without the order in which Validate looks at it.
use planmaxx.Base.{
  ◌≡◌, ◌≢◌, ◌⊎◌, true, false, Option, none, some, List, [], ◌∷◌, ◌++◌, map, All, contains, Distinct,
}
use planmaxx.Base.Text.{Text, text_comparable}
use planmaxx.Session.Types.{
  Message, Thread, Revision, SideAnswer, SectionProposal, Session, kind_decision, kind_note,
  kind_review, status_open, status_resolved, status_stale, source_initial,
}
use planmaxx.Session.Locate.{validate_session_anchor}
use planmaxx.Session.Validate.{allowed_source, find_current, has_inactive, thread_ids, answer_ids}

abbrev pub revision_ids : List Revision → List Text
revision_ids = map λ (r : Revision). r.id

-- Revisions grow from one initial root, each with a new id and under a parent that is there.
pub data IsHistory : List Revision → Type 0 where
  root :
      (r : Revision) → r.id ≢ [] → r.parent_id ≡ [] → r.source ≡ source_initial → IsHistory (r ∷ [])
  grow :
      {rs qs : List Revision} (r : Revision)
      → IsHistory rs
      → r.id ≢ []
      → contains r.id (revision_ids rs) ≡ false
      → contains r.parent_id (revision_ids rs) ≡ true
      → allowed_source r.source ≡ true
      → qs ≡ rs ++ r ∷ []
      → IsHistory qs

-- The checked-out revision is there, and holds the working plan unless it holds none.
abbrev pub IsCheckedOut : Session → Type 0
IsCheckedOut s =
    (r : Revision) × (find_current s.current_revision_id s.revisions ≡ some r)
    × ((r.plan ≡ []) ⊎ (r.plan ≡ s.plan))

pub record IsValidThread (plan : Text) (t : Thread) : Type 0 where
  pub named : t.id ≢ []
  pub kinds : (t.kind ≡ kind_decision) ⊎ (t.kind ≡ kind_note)
  pub statuses :
      (t.status ≡ status_open) ⊎ ((t.status ≡ status_resolved) ⊎ (t.status ≡ status_stale))
  pub placed : t.status ≡ status_open → validate_session_anchor t.anchor plan ≡ none

abbrev pub message_ids : List Thread → List Text
message_ids [] = []
message_ids (t ∷ ts) = map (λ (m : Message). m.id) t.messages ++ message_ids ts

-- An answer hangs on a thread, and is included only on active feedback.
pub record IsValidAnswer (threads : List Thread) (a : SideAnswer) : Type 0 where
  pub named : a.id ≢ []
  pub attached : contains a.thread_id (thread_ids threads) ≡ true
  pub delivered : a.promoted ≡ true → has_inactive a.thread_id threads ≡ false

pub record IsValidProposal (s : Session) (p : SectionProposal) : Type 0 where
  pub named : p.id ≢ []
  pub based : p.obsolete ≡ false → p.parent_id ≡ s.current_revision_id
  pub kinds : (p.kind ≡ []) ⊎ (p.kind ≡ kind_review)
  pub threads : All (λ id. contains id (thread_ids s.threads) ≡ true) p.included_thread_ids
  pub answers :
      All (λ id. contains id (answer_ids s.side_answers) ≡ true) p.consumed_side_answer_ids

abbrev pub IsValidPending : Session → Option SectionProposal → Type 0
IsValidPending s none = Unit
IsValidPending s (some p) = IsValidProposal s p

pub record IsValid (s : Session) : Type 0 where
  pub named : s.id ≢ []
  pub history : IsHistory s.revisions
  pub checked_out : IsCheckedOut s
  pub threads : All (IsValidThread s.plan) s.threads
  pub distinct_threads : Distinct (thread_ids s.threads)
  pub named_messages : All (λ id. id ≢ []) (message_ids s.threads)
  pub distinct_messages : Distinct (message_ids s.threads)
  pub answers : All (IsValidAnswer s.threads) s.side_answers
  pub distinct_answers : Distinct (answer_ids s.side_answers)
  pub proposal : IsValidPending s s.pending_proposal
