-- ===== src/Session/Types/Records.antt =====
-- The records of internal/session/session.go. Strings are byte sequences, an int is a ℤ, a time is
-- the number of nanoseconds since Go's zero time, a nil pointer is `none`.
use planmaxx.Base.{ℕ, Bool, Option, List}
use planmaxx.Base.Int.{ℤ}
use planmaxx.Base.Text.{Text}

pub record Anchor : Type 0 where
  pub start_line : ℤ
  pub start_char : ℤ
  pub end_line : ℤ
  pub end_char : ℤ

pub record Position : Type 0 where
  pub x : ℤ
  pub y : ℤ

pub record Message : Type 0 where
  pub id : Text
  pub author : Text
  pub body : Text
  pub created_at : ℕ

pub record Thread : Type 0 where
  pub id : Text
  pub revision_id : Text
  pub anchor : Anchor
  pub selected_text : Text
  pub kind : Text
  pub status : Text
  pub position : Position
  pub messages : List Message

pub record RevisionFeedback : Type 0 where
  pub revision_id : Text
  pub thread_id : Text
  pub anchor : Anchor
  pub result_anchor : Anchor
  pub selected_text : Text
  pub kind : Text
  pub messages : List Message

pub record Revision : Type 0 where
  pub id : Text
  pub commit_id : Text
  pub parent_id : Text
  pub source : Text
  pub created_at : ℕ
  pub plan : Text
  pub anchor : Anchor
  pub summary : Text
  pub feedback : List RevisionFeedback

pub record AppliedHunk : Type 0 where
  pub anchor : Anchor
  pub result : Anchor
  pub line_delta : ℤ

pub record Digest : Type 0 where
  pub summary : Text
  pub reviewer_decisions : List Text
  pub promoted_side_answers : List Text

pub record SectionProposal : Type 0 where
  pub id : Text
  pub kind : Text
  pub parent_id : Text
  pub thread_id : Text
  pub anchor : Anchor
  pub applied_anchor : Anchor
  pub applied_hunks : List AppliedHunk
  pub replacement_anchor : Anchor
  pub original_section : Text
  pub proposed_section : Text
  pub proposed_plan : Text
  pub summary : Text
  pub instruction : Text
  pub raw_response : Text
  pub included_thread_ids : List Text
  pub consumed_side_answer_ids : List Text
  pub review_digest : Option Digest
  pub obsolete : Bool
  pub created_at : ℕ

pub record SectionProposalInput : Type 0 where
  pub kind : Text
  pub thread_id : Text
  pub anchor : Anchor
  pub applied_anchor : Anchor
  pub applied_hunks : List AppliedHunk
  pub replacement_anchor : Anchor
  pub original_section : Text
  pub proposed_section : Text
  pub proposed_plan : Text
  pub summary : Text
  pub instruction : Text
  pub raw_response : Text
  pub included_thread_ids : List Text
  pub consumed_side_answer_ids : List Text
  pub review_digest : Option Digest
  pub agent_reply : Text

pub record SideAnswer : Type 0 where
  pub id : Text
  pub thread_id : Text
  pub question : Text
  pub answer : Text
  pub promoted : Bool
  pub created_at : ℕ

pub record Session : Type 0 where
  pub id : Text
  pub plan : Text
  pub plan_path : Text
  pub plan_format : Text
  pub current_revision_id : Text
  pub revisions : List Revision
  pub pending_proposal : Option SectionProposal
  pub threads : List Thread
  pub side_answers : List SideAnswer
  pub digest : Digest
  pub next_thread_id : ℤ
  pub next_side_answer_id : ℤ
  pub next_proposal_id : ℤ
  pub next_message : ℤ
  pub next_revision : ℤ
