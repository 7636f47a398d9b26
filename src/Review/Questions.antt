-- ===== src/Review/Questions.antt =====
-- A side question: handleSideQuestion and its helpers of internal/review/server.go, and
-- internal/sidequestions/service.go. The agent answers between two sections under the lock.
pub mod Outcome
use planmaxx.Base.{
  ℕ, ◌-◌, Bool, true, false, ◌&&◌, ◌||◌, not, Option, none, some, List, [], ◌∷◌, ◌++◌, ◌==◌, length,
  if◌then◌else◌, ◌⊎◌, inl, inr,
}
use planmaxx.Base.Int.{ℤ, pos, ◌+ℤ◌, ltb_ℤ, max, int_comparable}
use planmaxx.Base.Text.{Text, codes, text_comparable, split_lines, join_lines}
use planmaxx.Base.Utf8.{trim_space}
use planmaxx.Base.Decimal.{itoa}
use planmaxx.Session.Types.{
  Anchor, Thread, SideAnswer, Session, is_active, lifecycle, Result, ok, err,
}
use planmaxx.Session.State.{find_thread}
use planmaxx.Session.Locate.{to_nat, slice}
use planmaxx.Session.Feedback.{add_side_answer_checked}
use planmaxx.Review.Types.{Server}
use planmaxx.Review.Operations.{iteration_running}
use planmaxx.Review.ClientState.{has_proposal, project_side_answer}
use planmaxx.Review.Mutate.{
  World, Body, status, side_answer, Reply, answered, reply_error, is_success, sync_external_source,
  source_sync_reply, clone_session, conclude, after_sync,
}
use planmaxx.Review.Handlers.Threads.{completed}
use planmaxx.Review.Iteration.Request.{Outside}

-- Request of the package sidequestions
pub record Question : Type 0 where
  pub thread_id : Text
  pub question : Text
  pub file_path : Text
  pub reference : Text
  pub selected_text : Text
  pub plan_excerpt : Text
  pub format : Text

-- Ask of Service: `context` is what ctx.Err returns, `attached` says that the service has a thread
-- and a client, `client` is the client's Ask. An error is the left summand.
unfoldable pub ask : Text → Option Text → Bool → (Question → Text ⊎ Text) → Question → Text ⊎ Text
ask current_thread_id context attached client q =
    if trim_space q.question == [] then inl (codes "question is required") else elim context [
      | some e ↦ inl e
      | none ↦
          if not attached
          then inl (codes "side questions unavailable")
          else client (record q { thread_id = current_thread_id })
    ]

-- anchorReference
unfoldable pub anchor_reference : Text → Anchor → Text
anchor_reference file_path a =
    let path = if file_path == [] then codes "(unknown file)" else file_path in
    if a.start_char == pos 0 && a.end_char == pos 0
    then if a.start_line == a.end_line
      then path ++ codes ":" ++ itoa a.start_line
      else path ++ codes ":" ++ itoa a.start_line ++ codes "-" ++ itoa a.end_line
    else path
      ++ codes ":"
      ++ itoa a.start_line
      ++ codes ":"
      ++ itoa (a.start_char +ℤ pos 1)
      ++ codes "-"
      ++ itoa a.end_line
      ++ codes ":"
      ++ itoa (a.end_char +ℤ pos 1)

-- planLineExcerpt
unfoldable pub plan_line_excerpt : Text → ℤ → ℤ → Text
plan_line_excerpt plan start_line end_line =
    let lines = split_lines plan in
    let start = max (pos 1) start_line in
    let end = max start end_line in
    let count = pos (length lines) in
    if ltb_ℤ count start
    then []
    else join_lines
        (slice lines (to_nat start - 1) (if ltb_ℤ count end then length lines else to_nat end))

abbrev or_else : Text → Text → Text
or_else given value = if given == [] then value else given

-- withSideQuestionContext
unfoldable pub with_question_context : Session → Question → Thread → Question
unfolding anchor_reference plan_line_excerpt
with_question_context s q t =
    let path = or_else q.file_path s.plan_path in
    let excerpt =
      or_else q.plan_excerpt (plan_line_excerpt s.plan t.anchor.start_line t.anchor.end_line) in
    record q {
      file_path = path;
      format = s.plan_format;
      reference = or_else q.reference (anchor_reference path t.anchor);
      plan_excerpt = excerpt;
      selected_text = or_else (or_else q.selected_text t.selected_text) excerpt;
    }

-- What the handler keeps while the agent answers.
pub record Asked : Type 0 where
  pub question : Question
  pub thread : Thread
  pub base_revision_id : Text
  pub base_feedback : Text

abbrev pending_first : Reply
pending_first =
    reply_error 409 (codes "apply or discard the pending proposal before asking a side question")

-- handleSideQuestion until its first section under the lock ends: a reply, or what is asked.
unfoldable pub prepare_question : Outside → Text → Option Question → Server → Reply ⊎ Asked
prepare_question o method body s =
    if not (method == codes "POST")
    then inl (reply_error 405 (codes "method not allowed"))
    else if s.finished
    then inl completed
    else elim body [
      | none ↦ inl (reply_error 400 (codes "invalid side-question json"))
      | some q ↦
          if has_proposal s.session
          then inl pending_first
          else if iteration_running s
          then inl (
              reply_error 409
                (codes "wait for or stop the active iteration before asking a side question"))
          else elim (find_thread q.thread_id s.session.threads) [
            | none ↦ inl (reply_error 404 (codes "thread not found"))
            | some t ↦
                if is_active (lifecycle t)
                then inr (record {
                  question = q;
                  thread = t;
                  base_revision_id = s.session.current_revision_id;
                  base_feedback = o.fingerprint s.session.threads s.session.side_answers;
                })
                else inl
                    (reply_error 409 (codes "reactivate feedback before asking a side question"))
          ]
    ]

-- The view of the answer is written where the change is saved.
abbrev pub with_answer_view : Text → Reply × Server → Reply × Server
with_answer_view id (reply, s) = (
  if is_success reply
      then answered 200 (side_answer (project_side_answer s.session s.finished id))
      else reply,
  s,
)

-- The handler behind AddSideAnswerChecked.
unfoldable pub after_answer : World → Server → Result SideAnswer × Session → Reply × Server
unfolding conclude project_side_answer clone_session
after_answer w s (err e, changed) =
    (reply_error 409 e.message, record s { session = clone_session w s.session })
after_answer w s (ok a, changed) =
    with_answer_view a.id (conclude w s (status []) (record s { session = changed }))

-- The review is not the one that the question was asked about.
unfoldable pub has_feedback_moved : Outside → Asked → Session → Bool
has_feedback_moved o q s =
    not (s.current_revision_id == q.base_revision_id)
    || not (o.fingerprint s.threads s.side_answers == q.base_feedback)

unfoldable pub store_unmoved_answer : World → Outside → Asked → Text → Server → Reply × Server
unfolding has_feedback_moved after_answer
store_unmoved_answer w o q answer s =
    if has_feedback_moved o q s.session
    then (reply_error 409 (codes "review feedback changed while the side question was running"), s)
    else after_answer w s
        (add_side_answer_checked q.question.thread_id q.question.question answer w.now s.session)

-- The last section of handleSideQuestion under the lock, given what Ask returned.
unfoldable pub store_answer : World → Outside → Asked → Text ⊎ Text → Server → Reply × Server
unfolding sync_external_source source_sync_reply store_unmoved_answer
store_answer w o q (inl e) s = (reply_error 503 e, s)
store_answer w o q (inr answer) s =
    if s.finished
    then (completed, s)
    else if has_proposal s.session
    then (pending_first, s)
    else if iteration_running s
    then (reply_error 409 (codes "iteration started while the side question was running"), s)
    else after_sync (λ e t. (source_sync_reply e, t)) (store_unmoved_answer w o q answer)
        (sync_external_source w s)

-- handleSideQuestion: `during` is the server when the lock is taken to complete the question, and
-- `agent` the answer to it with the server when the lock is taken for the last time.
unfoldable pub handle_side_question :
    World
    → Outside
    → Text
    → Option Question
    → Server
    → (Question → (Text ⊎ Text) × Server)
    → Server
    → Reply × Server
unfolding prepare_question with_question_context store_answer
handle_side_question w o method body during agent s = elim (prepare_question o method body s) [
  | inl reply ↦ (reply, s)
  | inr q ↦
      let (answer, t) = agent (with_question_context during.session q.question q.thread) in
      store_answer w o q answer t
]
