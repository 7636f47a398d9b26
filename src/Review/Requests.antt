-- ===== src/Review/Requests.antt =====
-- The requests on feedback, proposals, restored revisions and the end of the review, routed to their
-- handlers: handleThreadAction, handleSideAnswerAction and handleRevisionProposalAction of
-- internal/review/server.go.
pub mod Ends
pub mod Outcome
pub mod Final
pub mod Steps
use planmaxx.Base.{ℕ, Bool, true, false, not, Option, none, some, ◌==◌, if◌then◌else◌}
use planmaxx.Base.Text.{Text, codes, text_comparable}
use planmaxx.Session.Types.{Anchor, Position, Digest}
use planmaxx.Review.Types.{Server}
use planmaxx.Review.Paths.{
  CreateThreadRequest, parse_action_path, parse_thread_action_path, parse_side_answer_action_path,
  parse_revision_proposal_action_path, parse_revision_restore_path,
}
use planmaxx.Review.Mutate.{World, Reply, reply_error}
use planmaxx.Review.Handlers.Threads.{
  completed, EditThreadRequest, handle_reply_thread, handle_delete_thread, handle_move_thread,
  handle_reanchor_thread, handle_mark_thread_addressed, handle_edit_thread, handle_thread_kind,
  handle_thread_intent, handle_create_follow_up, handle_promote_side_answer,
  handle_unpromote_side_answer,
}
use planmaxx.Review.Handlers.Course.{
  handle_create_thread, handle_apply_proposal, handle_discard_proposal, handle_revision_restore,
  handle_finalize, handle_cancel,
}

-- decodeJSON at the type of each request: encoding/json.
pub record Json : Type 0 where
  pub text_field : Text → Text → Option Text
  pub position : Text → Option Position
  pub anchor : Text → Option Anchor
  pub edit : Text → Option EditThreadRequest
  pub create : Text → Option CreateThreadRequest
  pub digest : Text → Option Digest

abbrev pub not_found : Reply
not_found = reply_error 404 (codes "not found")

abbrev pub wrong_method : Reply
wrong_method = reply_error 405 (codes "method not allowed")

abbrev pub post : Text
post = codes "POST"

-- The switch of handleThreadAction.
unfoldable pub thread_action : World → Json → Text → Text → Text → Server → Reply × Server
thread_action w j id action body s =
    if action == codes "reply"
    then handle_reply_thread w (j.text_field (codes "body") body) id s
    else if action == codes "delete"
    then handle_delete_thread w id s
    else if action == codes "move"
    then handle_move_thread w (j.position body) id s
    else if action == codes "reanchor"
    then handle_reanchor_thread w (j.anchor body) id s
    else if action == codes "mark-addressed"
    then handle_mark_thread_addressed w (j.text_field (codes "revisionId") body) id s
    else if action == codes "edit"
    then handle_edit_thread w (j.edit body) id s
    else if action == codes "kind"
    then handle_thread_kind w (j.text_field (codes "kind") body) id s
    else if action == codes "intent"
    then handle_thread_intent w (j.text_field (codes "intent") body) id s
    else if action == codes "follow-up"
    then handle_create_follow_up w id s
    else (not_found, s)

unfoldable pub side_answer_action : World → Text → Text → Server → Reply × Server
side_answer_action w id action s =
    if action == codes "promote"
    then handle_promote_side_answer w id s
    else if action == codes "unpromote"
    then handle_unpromote_side_answer w id s
    else (not_found, s)

unfoldable pub proposal_action : World → Text → Text → Server → Reply × Server
proposal_action w id action s =
    if s.finished
    then (completed, s)
    else if action == codes "apply"
    then handle_apply_proposal w id s
    else if action == codes "discard"
    then handle_discard_proposal w id s
    else (not_found, s)

-- A path with its action, then the method, then the switch.
abbrev pub routed :
    Option (Text × Text) → Text → (Text → Text → Server → Reply × Server) → Server → Reply × Server
routed parsed method act s = elim parsed [
  | none ↦ (not_found, s)
  | some (id, action) ↦ if method == post then act id action s else (wrong_method, s)
]

unfoldable pub handle_thread_action : World → Json → Text → Text → Text → Server → Reply × Server
unfolding thread_action
handle_thread_action w j method path body =
    routed (parse_thread_action_path path) method (λ id action. thread_action w j id action body)

unfoldable pub handle_side_answer_action : World → Text → Text → Server → Reply × Server
unfolding side_answer_action
handle_side_answer_action w method path =
    routed (parse_side_answer_action_path path) method (side_answer_action w)

unfoldable pub handle_revision_proposal_action : World → Text → Text → Server → Reply × Server
unfolding proposal_action
handle_revision_proposal_action w method path =
    routed (parse_revision_proposal_action_path path) method (proposal_action w)

-- A request by its route in Handler: the method, the path and the body.
pub data Request : Type 0 where
  threads : Text → Text → Text → Request
  side_answers proposals : Text → Text → Request
  create finalize : Text → Text → Request
  restore : Text → Text → Request
  cancel : Text → Request

-- handleRevisionAction at a path that ends in restore; the comparison of two revisions is in Compare.
unfoldable pub restore_at : World → Option Text → Text → Server → Reply × Server
restore_at w none method s = (not_found, s)
restore_at w (some id) method s =
    if method == post then handle_revision_restore w id s else (wrong_method, s)

unfoldable pub handle : World → Json → Request → Server → Reply × Server
unfolding handle_thread_action handle_side_answer_action handle_revision_proposal_action restore_at
handle w j (Request.threads method path body) s = handle_thread_action w j method path body s
handle w j (Request.side_answers method path) s = handle_side_answer_action w method path s
handle w j (Request.proposals method path) s = handle_revision_proposal_action w method path s
handle w j (Request.create method body) s =
    if method == post then handle_create_thread w (j.create body) s else (wrong_method, s)
handle w j (Request.finalize method body) s =
    if method == post then handle_finalize w (j.digest body) s else (wrong_method, s)
handle w j (Request.restore method path) s =
    restore_at w (parse_revision_restore_path path) method s
handle w j (Request.cancel method) s =
    if method == post then handle_cancel w s else (wrong_method, s)
