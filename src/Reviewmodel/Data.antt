-- ===== src/Reviewmodel/Data.antt =====
-- The types of internal/reviewmodel/change.go.
use planmaxx.Base.{ℕ, Bool, List}
use planmaxx.Base.Int.{ℤ}
use planmaxx.Base.Text.{Text, codes}
use planmaxx.Session.Types.{Thread, RevisionFeedback}

abbrev pub mode_proposal : Text
mode_proposal = codes "proposal"

abbrev pub mode_revision : Text
mode_revision = codes "revision"

abbrev pub stop_comment : Text
stop_comment = codes "comment"

abbrev pub stop_feedback : Text
stop_feedback = codes "feedback"

abbrev pub stop_change : Text
stop_change = codes "change"

pub record DocumentSnapshot : Type 0 where
  pub format : Text
  pub text : Text
  pub lines : List Text
  pub terminal_newline : Bool

pub record ChangeRow : Type 0 where
  pub id : Text
  pub index : ℕ
  pub kind : Text
  pub before : ℕ
  pub after : ℕ
  pub text : Text
  pub cluster_id : Text

pub record ChangeCluster : Type 0 where
  pub id : Text
  pub first_row : ℕ
  pub last_row : ℕ
  pub before_start : ℕ
  pub before_end : ℕ
  pub after_start : ℕ
  pub after_end : ℕ

pub record ThreadPlacement : Type 0 where
  pub thread_id : Text
  pub row_id : Text
  pub row_index : ℕ

pub record FeedbackPlacement : Type 0 where
  pub revision_id : Text
  pub thread_id : Text
  pub row_id : Text
  pub row_index : ℕ

pub record ReviewStop : Type 0 where
  pub id : Text
  pub kind : Text
  pub row_id : Text
  pub row_index : ℕ
  pub thread_id : Text
  pub revision_id : Text
  pub cluster_id : Text
  pub before_start : ℤ
  pub before_end : ℤ
  pub after_start : ℤ
  pub after_end : ℤ

pub record ChangeView : Type 0 where
  pub mode : Text
  pub is_direct : Bool
  pub base_id : Text
  pub target_id : Text
  pub before : DocumentSnapshot
  pub after : DocumentSnapshot
  pub rows : List ChangeRow
  pub clusters : List ChangeCluster
  pub thread_placements : List ThreadPlacement
  pub feedback : List RevisionFeedback
  pub feedback_placements : List FeedbackPlacement
  pub review_stops : List ReviewStop

pub record BuildInput : Type 0 where
  pub mode : Text
  pub is_direct : Bool
  pub base_id : Text
  pub target_id : Text
  pub format : Text
  pub before : Text
  pub after : Text
  pub threads : List Thread
  pub review_thread_ids : List Text
  pub feedback : List RevisionFeedback
