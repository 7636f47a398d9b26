-- ===== src/Review/ClientState/Data.antt =====
-- The views of internal/review/client_state.go. A count is a natural number; it is at most the
-- length of a slice.
use planmaxx.Base.{ℕ, Bool, Option, List}
use planmaxx.Base.Text.{Text, text_comparable}
use planmaxx.Session.Types.{Anchor, Position, Message, Revision, Digest, Lifecycle}
use planmaxx.Reviewmodel.Data.{ChangeView}
use planmaxx.Review.Types.{AgentInfo, OperationView}

pub record ClientCapabilities : Type 0 where
  pub can_finalize : Bool
  pub can_iterate : Bool
  pub can_edit_feedback : Bool
  pub can_restore_revision : Bool
  pub can_apply_proposal : Bool

pub record ThreadCapabilities : Type 0 where
  pub can_edit : Bool
  pub can_reply : Bool
  pub can_change_intent : Bool
  pub can_ask : Bool
  pub can_iterate : Bool
  pub can_reanchor : Bool
  pub can_mark_addressed : Bool
  pub can_delete : Bool
  pub can_create_follow_up : Bool

pub record ThreadView : Type 0 where
  pub id : Text
  pub revision_id : Text
  pub anchor : Anchor
  pub selected_text : Text
  pub intent : Text
  pub lifecycle : Lifecycle
  pub bucket : Text
  pub delivery : Text
  pub addressed_revision_id : Text
  pub position : Position
  pub messages : List Message
  pub capabilities : ThreadCapabilities

pub record SideAnswerCapabilities : Type 0 where
  pub can_include : Bool
  pub can_keep_private : Bool

pub record SideAnswerView : Type 0 where
  pub id : Text
  pub thread_id : Text
  pub question : Text
  pub answer : Text
  pub included : Bool
  pub delivery : Text
  pub created_at : ℕ
  pub capabilities : SideAnswerCapabilities

pub record ReviewCounts : Type 0 where
  pub active_instructions : ℕ
  pub active_private_notes : ℕ
  pub included_answers : ℕ
  pub private_answers : ℕ
  pub detached_feedback : ℕ
  pub addressed_history : ℕ

pub record PendingProposalSummary : Type 0 where
  pub id : Text
  pub kind : Text
  pub parent_id : Text
  pub thread_id : Text
  pub anchor : Anchor
  pub replacement_anchor : Anchor
  pub summary : Text
  pub instruction : Text
  pub review_digest : Option Digest
  pub obsolete : Bool
  pub created_at : ℕ

pub record ClientState : Type 0 where
  pub schema_version : ℕ
  pub agent : AgentInfo
  pub id : Text
  pub plan : Text
  pub plan_path : Text
  pub plan_format : Text
  pub current_revision_id : Text
  pub revisions : List Revision
  pub pending_proposal : Option PendingProposalSummary
  pub threads : List ThreadView
  pub side_answers : List SideAnswerView
  pub counts : ReviewCounts
  pub digest : Digest
  pub phase : Text
  pub capabilities : ClientCapabilities
  pub operation : Option OperationView
  pub active_change : Option ChangeView
