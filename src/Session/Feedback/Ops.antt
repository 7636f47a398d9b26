-- ===== src/Session/Feedback/Ops.antt =====
-- One reviewer operation as a value, over the checked methods of
-- internal/session/comment_state.go; `apply` runs the method and drops what it returns.
use planmaxx.Base.{ℕ}
use planmaxx.Base.Text.{Text}
use planmaxx.Session.Types.{Anchor}
use planmaxx.Session.State.{Action, ◌>>◌, pure, detach_thread}
use planmaxx.Session.Feedback.{
  add_thread_with_intent_for_revision, set_thread_intent, add_reply_checked,
  add_agent_reply_checked, reanchor_thread_checked, edit_thread_checked, address_thread,
  record_detached_thread_addressed, include_side_answer, keep_side_answer_private,
  add_side_answer_checked, create_follow_up,
}

pub data Op : Type 0 where
  add_thread : Text → Anchor → Text → Text → Text → Op
  set_intent : Text → Text → Op
  reply agent_reply : Text → Text → Op
  reanchor : Text → Anchor → Op
  edit : Text → Anchor → Text → Text → Op
  address : Text → Anchor → Op
  record_addressed : Text → Text → Op
  detach : Text → Op
  include_answer keep_private : Text → Op
  ask : Text → Text → Text → Op
  follow_up : Text → Op

unfoldable pub apply : Op → ℕ → Action (Unit {0})
unfolding add_thread_with_intent_for_revision set_thread_intent add_reply_checked
    add_agent_reply_checked reanchor_thread_checked edit_thread_checked address_thread
    record_detached_thread_addressed include_side_answer keep_side_answer_private
    add_side_answer_checked create_follow_up
apply (Op.add_thread revision_id anchor body selected intent) now =
    add_thread_with_intent_for_revision revision_id anchor body selected intent now >> pure tt
apply (Op.set_intent id intent) now = set_thread_intent id intent
apply (Op.reply id body) now = add_reply_checked id body now
apply (Op.agent_reply id body) now = add_agent_reply_checked id body now
apply (Op.reanchor id anchor) now = reanchor_thread_checked id anchor
apply (Op.edit id anchor body selected) now = edit_thread_checked id anchor body selected
apply (Op.address id anchor) now = address_thread id anchor
apply (Op.record_addressed id revision_id) now = record_detached_thread_addressed id revision_id
apply (Op.detach id) now = detach_thread id
apply (Op.include_answer id) now = include_side_answer id
apply (Op.keep_private id) now = keep_side_answer_private id
apply (Op.ask id question answer) now = add_side_answer_checked id question answer now >> pure tt
apply (Op.follow_up id) now = create_follow_up id now >> pure tt
