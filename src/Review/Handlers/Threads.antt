-- ===== src/Review/Handlers/Threads.antt =====
-- The handlers of one thread and of one side answer in internal/review/server.go. A decoded body is
-- `none` where decodeJSON fails.
pub mod Outcome
pub mod Obsolete
use planmaxx.Base.{
  ℕ, Bool, true, false, ◌||◌, not, Option, none, some, List, [], ◌∷◌, ◌++◌, ◌==◌, if◌then◌else◌,
}
use planmaxx.Base.Text.{Text, codes, text_comparable}
use planmaxx.Base.Utf8.{trim_space}
use planmaxx.Session.Types.{Anchor, Position, Thread, Session, intent_instruction, Result, ok, err}
use planmaxx.Session.State.{find_thread}
use planmaxx.Session.Feedback.{
  add_thread_with_intent_for_revision, set_thread_intent, add_reply_checked,
  reanchor_thread_checked, edit_thread_checked, record_detached_thread_addressed,
  include_side_answer, keep_side_answer_private, create_follow_up, delete_thread, move_thread,
  set_thread_kind,
}
use planmaxx.Review.Types.{Server}
use planmaxx.Review.Operations.{iteration_running}
use planmaxx.Review.ClientState.{project_thread}
use planmaxx.Review.Paths.{
  parse_action_path, parse_thread_action_path, parse_side_answer_action_path, validate_anchor,
  CreateThreadRequest, validate_thread_request,
}
use planmaxx.Review.Mutate.{
  World, Failure, response, Body, message, status, thread, Reply, reply_error, Mutation, ◌>>=◌,
  ◌>>◌, pure, fail_with, fail_when, reading, checked, reject_pending_feedback_mutation,
  reject_locked_thread_mutation, sync_external_source, source_sync_reply, conclude, mutate_session,
}

abbrev pub completed : Reply
completed = reply_error 409 (codes "review already completed")

-- isFinished and the decoding, which come first in a handler.
abbrev pub with_body :
    {A : Type 0} → Server → Option A → Text → (A → Reply × Server) → Reply × Server
with_body s body complaint next =
    if s.finished
    then (completed, s)
    else elim body [ none ↦ (reply_error 400 complaint, s) | some a ↦ next a ]

-- A method that returns whether it found the thread.
abbrev pub found_or : Failure → (Session → Bool × Session) → Mutation (Unit {0})
found_or e call s = fail_when (not (call s).0) e (call s).1

thread_missing : Failure
thread_missing = response 404 (codes "thread not found")

unfoldable pub handle_reply_thread : World → Option Text → Text → Server → Reply × Server
unfolding reject_locked_thread_mutation mutate_session
handle_reply_thread w body thread_id s = with_body s body (codes "invalid reply json") λ text.
    let text' = trim_space text in
    if text' == []
    then (reply_error 400 (codes "invalid reply json"), s)
    else mutate_session w
        (do
          reject_locked_thread_mutation w.frames thread_id
          checked (add_reply_checked thread_id text' w.now)
          pure (status (codes "replied")))
        s

unfoldable pub handle_delete_thread : World → Text → Server → Reply × Server
unfolding reject_locked_thread_mutation mutate_session thread_missing
handle_delete_thread w thread_id s =
    if s.finished
    then (completed, s)
    else mutate_session w
        (do
          reject_locked_thread_mutation w.frames thread_id
          found_or thread_missing (delete_thread thread_id)
          pure (status (codes "deleted")))
        s

unfoldable pub handle_move_thread : World → Option Position → Text → Server → Reply × Server
unfolding reject_locked_thread_mutation mutate_session thread_missing
handle_move_thread w body thread_id s = with_body s body (codes "invalid position json") λ position.
    mutate_session w
      (do
        reject_locked_thread_mutation w.frames thread_id
        found_or thread_missing (move_thread thread_id position)
        pure (status (codes "moved")))
      s

-- `if err := validateAnchor(anchor, plan); err != nil { return nil, 400 }`
abbrev pub valid_or : Text → Anchor → Text → Mutation (Unit {0})
valid_or complaint a plan = elim (validate_anchor a plan) [
  | none ↦ pure tt
  | some _ ↦ fail_with (response 400 complaint)
]

unfoldable pub handle_reanchor_thread : World → Option Anchor → Text → Server → Reply × Server
unfolding reject_pending_feedback_mutation mutate_session
handle_reanchor_thread w body thread_id s = with_body s body (codes "invalid anchor json") λ anchor.
    mutate_session w
      (do
        reject_pending_feedback_mutation w.frames
        plan ← reading (λ u. u.plan)
        valid_or (codes "invalid anchor json") anchor plan
        checked (reanchor_thread_checked thread_id anchor)
        pure (status (codes "reanchored")))
      s

-- The cache of comparisons is cleared too; it holds no state of the review.
unfoldable pub handle_mark_thread_addressed : World → Option Text → Text → Server → Reply × Server
unfolding reject_pending_feedback_mutation mutate_session
handle_mark_thread_addressed w body thread_id s =
    with_body s body (codes "invalid revision json") λ revision_id.
      if trim_space revision_id == []
      then (reply_error 400 (codes "invalid revision json"), s)
      else mutate_session w
          (do
            reject_pending_feedback_mutation w.frames
            checked (record_detached_thread_addressed thread_id revision_id)
            pure (status (codes "addressed")))
          s

-- The plan that an edit of a thread is checked against.
unfoldable pub target_plan : Text → Session → Text
target_plan thread_id s = elim s.pending_proposal [
  | none ↦ s.plan
  | some p ↦ elim (find_thread thread_id s.threads) [
    | none ↦ s.plan
    | some t ↦ if t.revision_id == p.id then p.proposed_plan else s.plan
  ]
]

-- editThreadRequest
pub record EditThreadRequest : Type 0 where
  pub anchor : Anchor
  pub body : Text
  pub selected_text : Text

unfoldable pub handle_edit_thread :
    World → Option EditThreadRequest → Text → Server → Reply × Server
unfolding reject_locked_thread_mutation mutate_session target_plan
handle_edit_thread w body thread_id s = with_body s body (codes "invalid thread edit json") λ r.
    let text = trim_space r.body in
    if text == []
    then (reply_error 400 (codes "invalid thread edit json"), s)
    else mutate_session w
        (do
          reject_locked_thread_mutation w.frames thread_id
          plan ← reading (target_plan thread_id)
          valid_or (codes "invalid thread edit json") r.anchor plan
          checked (edit_thread_checked thread_id r.anchor text r.selected_text)
          pure (status (codes "edited")))
        s

abbrev pub kind_failure : Text → Session → Failure
kind_failure thread_id s = elim (find_thread thread_id s.threads) [
  | none ↦ response 404 (codes "thread not found")
  | some _ ↦ response 400 (codes "invalid thread kind json")
]

abbrev pub set_kind_or : Text → Text → Mutation (Unit {0})
set_kind_or thread_id kind s =
    let (done, s') = set_thread_kind thread_id kind s in
    fail_when (not done) (kind_failure thread_id s') s'

unfoldable pub handle_thread_kind : World → Option Text → Text → Server → Reply × Server
unfolding reject_locked_thread_mutation mutate_session
handle_thread_kind w body thread_id s = with_body s body (codes "invalid thread kind json") λ kind.
    mutate_session w
      (do
        reject_locked_thread_mutation w.frames thread_id
        set_kind_or thread_id (trim_space kind)
        pure (status (codes "updated")))
      s

unfoldable pub handle_thread_intent : World → Option Text → Text → Server → Reply × Server
unfolding reject_locked_thread_mutation mutate_session
handle_thread_intent w body thread_id s =
    with_body s body (codes "invalid thread intent json") λ intent.
      mutate_session w
        (do
          reject_locked_thread_mutation w.frames thread_id
          checked (set_thread_intent thread_id intent)
          pure (status (codes "updated")))
        s

-- `finished` and the agent cannot change between the call and the view of the thread.
unfoldable pub handle_create_follow_up : World → Text → Server → Reply × Server
unfolding reject_pending_feedback_mutation mutate_session project_thread
handle_create_follow_up w thread_id s =
    if s.finished
    then (completed, s)
    else mutate_session w
        (do
          reject_pending_feedback_mutation w.frames
          t ← checked (create_follow_up thread_id w.now)
          view ← reading (λ u. project_thread u s.finished t.id s.agent.available)
          pure (thread view))
        s

unfoldable pub handle_promote_side_answer : World → Text → Server → Reply × Server
unfolding reject_pending_feedback_mutation mutate_session
handle_promote_side_answer w answer_id s =
    if s.finished
    then (completed, s)
    else mutate_session w
        (do
          reject_pending_feedback_mutation w.frames
          checked (include_side_answer answer_id)
          pure (status (codes "promoted")))
        s

unfoldable pub handle_unpromote_side_answer : World → Text → Server → Reply × Server
unfolding reject_pending_feedback_mutation mutate_session
handle_unpromote_side_answer w answer_id s =
    if s.finished
    then (completed, s)
    else mutate_session w
        (do
          reject_pending_feedback_mutation w.frames
          checked (keep_side_answer_private answer_id)
          pure (status (codes "unpromoted")))
        s
