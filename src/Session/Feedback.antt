-- ===== src/Session/Feedback.antt =====
-- The operations on reviewer feedback: internal/session/comment_state.go, and the methods of
-- session.go that call them and report success as a bool.
pub mod Ops
pub mod Atomic
pub mod Addressed
pub mod Delivery
pub mod Numbered
use planmaxx.Base.{
  ℕ, Bool, true, false, ◌||◌, not, Option, none, some, List, [], ◌∷◌, ◌++◌, ◌==◌, if◌then◌else◌,
  length, last?, keep, ltb, nat_comparable,
}
use planmaxx.Base.Text.{Text, codes, text_comparable}
use planmaxx.Base.Utf8.{trim_space}
use planmaxx.Session.Types.{
  Anchor, Position, Message, Thread, RevisionFeedback, Revision, SideAnswer, Session, zero_anchor,
  kind_decision, status_open, status_resolved, lifecycle, is_active, is_addressed, is_detached,
  intent, kind_for_intent, intent_for_legacy_kind, ok, TransitionError, blocked_error,
  invariant_error, missing_error,
}
use planmaxx.Session.State.{
  Action, ◌>>=◌, ◌>>◌, fail_if, modify, or_fail, succeeds, find_thread, write_thread,
  thread_pointer, mutable_active_thread, new_message, add_thread, add_side_answer, make_private,
  make_answers_private, delete_side_answers, detach_thread,
}
use planmaxx.Session.Anchors.{line_anchor, clamped_line_anchor, resolve_thread_after_proposal}

-- A method without an error result, as an action.
abbrev lift : {A : Type 0} → (Session → A × Session) → Action A
lift m s = let (a, s') = m s in (ok a, s')

-- `s.CurrentRevisionID`, `s.Plan` and other reads
abbrev gets : {A : Type 0} → (Session → A) → Action A
gets f s = (ok (f s), s)

unfoldable pub add_thread_with_intent_for_revision :
    Text → Anchor → Text → Text → Text → ℕ → Action Thread
add_thread_with_intent_for_revision revision_id anchor body selected_text intent now = do
  kind ← or_fail (kind_for_intent intent) (invariant_error (codes "invalid thread intent"))
  lift (add_thread revision_id anchor body selected_text kind now)

pub add_thread_with_intent : Anchor → Text → Text → Text → ℕ → Action Thread
unfolding add_thread_with_intent_for_revision
add_thread_with_intent anchor body selected_text intent now = do
  revision_id ← gets (λ s. s.current_revision_id)
  add_thread_with_intent_for_revision revision_id anchor body selected_text intent now

-- AddThreadWithSelectedText; AddThread is the same with no selected text.
pub add_thread_with_selected_text : Anchor → Text → Text → ℕ → Session → Thread × Session
add_thread_with_selected_text anchor body selected_text now s =
    add_thread s.current_revision_id anchor body selected_text kind_decision now s

pub set_thread_intent : Text → Text → Action (Unit {0})
set_thread_intent id intent = do
  kind ← or_fail (kind_for_intent intent) (invariant_error (codes "invalid thread intent"))
  mutable_active_thread id (codes "change intent for")
  modify (write_thread id (λ t. record t { kind = kind }))

abbrev append_message : Message → Thread → Thread
append_message m t = record t { messages = t.messages ++ m ∷ [] }

pub add_reply_checked : Text → Text → ℕ → Action (Unit {0})
add_reply_checked id body now = do
  mutable_active_thread id (codes "reply to")
  m ← lift (new_message (codes "reviewer") body now)
  modify (write_thread id (append_message m))

pub add_agent_reply_checked : Text → Text → ℕ → Action (Unit {0})
add_agent_reply_checked id body now = do
  mutable_active_thread id (codes "reply to")
  let trimmed = trim_space body
  fail_if (trimmed == []) (invariant_error (codes "agent reply body is empty"))
  m ← lift (new_message (codes "assistant") trimmed now)
  modify (write_thread id (append_message m))

abbrev read_only : TransitionError
read_only = blocked_error (codes "addressed feedback is read-only; create a follow-up instead")

pub reanchor_thread_checked : Text → Anchor → Action (Unit {0})
reanchor_thread_checked id anchor = do
  t ← thread_pointer id
  fail_if (is_addressed (lifecycle t)) read_only
  modify (write_thread id (λ u. record u { anchor = anchor; status = status_open }))

-- thread.Messages[0].Body = body
abbrev set_first_body : Text → List Message → List Message
set_first_body body [] = []
set_first_body body (m ∷ ms) = record m { body = body } ∷ ms

pub edit_thread_checked : Text → Anchor → Text → Text → Action (Unit {0})
edit_thread_checked id anchor body selected_text = do
  t ← thread_pointer id
  fail_if (is_addressed (lifecycle t)) read_only
  fail_if (length t.messages == 0) (invariant_error (codes "thread has no original message"))
  modify (
      write_thread id (λ u. record u {
        anchor = anchor;
        selected_text = selected_text;
        status = status_open;
        messages = set_first_body body u.messages;
      }))

pub address_thread : Text → Anchor → Action (Unit {0})
address_thread id anchor = do
  t ← thread_pointer id
  fail_if (not (is_active (lifecycle t)))
      (blocked_error (codes "only active feedback can be addressed"))
  modify (write_thread id (resolve_thread_after_proposal anchor))
  modify (make_answers_private id)

-- The first revision with an id, and a write to it.
pub find_revision : Text → List Revision → Option Revision
find_revision id [] = none
find_revision id (r ∷ rs) = if r.id == id then some r else find_revision id rs

unfoldable pub update_revision : Text → (Revision → Revision) → List Revision → List Revision
update_revision id f [] = []
update_revision id f (r ∷ rs) = if r.id == id then f r ∷ rs else r ∷ update_revision id f rs

-- revision.CreatedAt.Before(thread.Messages[0].CreatedAt), if there is a message
is_before_thread : Revision → List Message → Bool
is_before_thread r [] = false
is_before_thread r (m ∷ ms) = ltb r.created_at m.created_at

has_feedback : Text → List RevisionFeedback → Bool
has_feedback id [] = false
has_feedback id (f ∷ fs) = f.thread_id == id || has_feedback id fs

feedback_of : Text → Thread → RevisionFeedback
feedback_of revision_id t = record {
  revision_id = revision_id;
  thread_id = t.id;
  anchor = t.anchor;
  result_anchor = zero_anchor;
  selected_text = t.selected_text;
  kind = t.kind;
  messages = t.messages;
}

pub record_detached_thread_addressed : Text → Text → Action (Unit {0})
unfolding find_revision update_revision is_before_thread has_feedback feedback_of
record_detached_thread_addressed id revision_id = do
  t ← thread_pointer id
  fail_if (not (is_detached (lifecycle t)))
      (blocked_error (codes "only detached feedback can be recorded as addressed"))
  revisions ← gets (λ s. s.revisions)
  r ← or_fail (find_revision revision_id revisions) (missing_error (codes "revision not found"))
  fail_if (r.parent_id == [])
      (blocked_error (codes "the initial revision cannot have addressed feedback"))
  fail_if (is_before_thread r t.messages)
      (blocked_error (codes "feedback cannot be addressed by an earlier revision"))
  fail_if (has_feedback id r.feedback)
      (blocked_error (codes "feedback is already recorded in that revision"))
  modify (λ s. record s {
    revisions =
        update_revision revision_id
          (λ q. record q { feedback = q.feedback ++ feedback_of revision_id t ∷ [] }) s.revisions;
  })
  modify (write_thread id (λ u. record u { status = status_resolved }))
  modify (make_answers_private id)

pub find_answer : Text → List SideAnswer → Option SideAnswer
find_answer id [] = none
find_answer id (a ∷ as') = if a.id == id then some a else find_answer id as'

update_answer : Text → (SideAnswer → SideAnswer) → List SideAnswer → List SideAnswer
update_answer id f [] = []
update_answer id f (a ∷ as') = if a.id == id then f a ∷ as' else a ∷ update_answer id f as'

abbrev write_answer : Text → (SideAnswer → SideAnswer) → Session → Session
write_answer id f s = record s { side_answers = update_answer id f s.side_answers }

-- The thread of the answer, behind the pointer to the answer itself.
answer_and_thread : Text → Action Thread
unfolding find_answer
answer_and_thread id = do
  answers ← gets (λ s. s.side_answers)
  a ← or_fail (find_answer id answers) (missing_error (codes "side answer not found"))
  thread_pointer a.thread_id

pub include_side_answer : Text → Action (Unit {0})
unfolding answer_and_thread update_answer
include_side_answer id = do
  t ← answer_and_thread id
  fail_if (not (is_active (lifecycle t)))
      (blocked_error (codes "only answers on active feedback can be included"))
  modify (write_answer id (λ a. record a { promoted = true }))

pub keep_side_answer_private : Text → Action (Unit {0})
unfolding answer_and_thread update_answer
keep_side_answer_private id = do answer_and_thread id; modify (write_answer id make_private)

pub add_side_answer_checked : Text → Text → Text → ℕ → Action SideAnswer
add_side_answer_checked thread_id question answer now = do
  mutable_active_thread thread_id (codes "ask a side question on")
  lift (add_side_answer thread_id question answer now)

follow_up_body : List Message → Text
follow_up_body ms = elim (last? ms) [
  | none ↦ codes "Follow up on addressed feedback."
  | some m ↦
      if m.body == []
      then codes "Follow up on addressed feedback."
      else codes "Follow up: " ++ m.body
]

pub create_follow_up : Text → ℕ → Action Thread
unfolding follow_up_body add_thread_with_intent
create_follow_up id now = do
  t ← thread_pointer id
  fail_if (not (is_addressed (lifecycle t)))
      (blocked_error (codes "follow-ups are created from addressed feedback"))
  plan ← gets (λ s. s.plan)
  add_thread_with_intent (clamped_line_anchor t.anchor plan) (follow_up_body t.messages) []
      (intent t) now

-- DeleteThread
delete_first : Text → List Thread → List Thread
delete_first id [] = []
delete_first id (t ∷ ts) = if t.id == id then ts else t ∷ delete_first id ts

pub delete_thread : Text → Session → Bool × Session
unfolding delete_first
delete_thread id s = elim (find_thread id s.threads) [
  | none ↦ (false, s)
  | some t ↦ (true, delete_side_answers id (record s { threads = delete_first id s.threads }))
]

-- MoveThread
pub move_thread : Text → Position → Session → Bool × Session
move_thread id position s = elim (find_thread id s.threads) [
  | none ↦ (false, s)
  | some t ↦ (true, write_thread id (λ u. record u { position = position }) s)
]

-- DeleteThreadsForRevision: the answers go thread by thread.
delete_answers_of : Text → List Thread → Session → Session
delete_answers_of revision_id [] s = s
delete_answers_of revision_id (t ∷ ts) s =
    delete_answers_of revision_id ts
      (if t.revision_id == revision_id then delete_side_answers t.id s else s)

unfoldable pub delete_threads_for_revision : Text → Session → Session
unfolding delete_answers_of
delete_threads_for_revision revision_id s = record (delete_answers_of revision_id s.threads s) {
  threads = keep (λ (t : Thread). not (t.revision_id == revision_id)) s.threads;
}

-- The methods of session.go that report success as a bool.
pub set_thread_kind : Text → Text → Session → Bool × Session
unfolding set_thread_intent
set_thread_kind id kind s = elim (intent_for_legacy_kind kind) [
  | none ↦ (false, s)
  | some intent ↦ succeeds (set_thread_intent id intent) s
]

pub resolve_thread : Text → Session → Bool × Session
unfolding address_thread
resolve_thread id = succeeds (thread_pointer id >>= λ t. address_thread id (line_anchor t.anchor))

pub mark_thread_stale : Text → Session → Bool × Session
mark_thread_stale id = succeeds (detach_thread id)
