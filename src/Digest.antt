-- ===== src/Digest.antt =====
-- The package internal/digest: the summary of a review that is handed over. BuildPrompt passes the
-- same parts on to the prompt templates, which are not modelled.
pub mod Silent
use planmaxx.Base.{
  ℕ, Bool, ◌&&◌, ◌||◌, not, Option, none, some, List, [], ◌∷◌, ◌++◌, ◌==◌, if◌then◌else◌, length,
  map, ltb,
}
use planmaxx.Base.Int.{ℤ, pos, ◌+ℤ◌, int_comparable}
use planmaxx.Base.Text.{Text, codes, text_comparable, newline}
use planmaxx.Base.Utf8.{trim_space}
use planmaxx.Base.Decimal.{itoa}
use planmaxx.Session.Types.{Anchor, Thread, SideAnswer, Session, Digest}
use planmaxx.Session.State.{find_thread}
use planmaxx.Session.Context.{
  ContextOptions, ContextSelection, select_context, instruction_messages,
}

-- digestAnchorReference
unfoldable pub digest_anchor_reference : Text → Anchor → Text
digest_anchor_reference file_path a =
    let path = if file_path == [] then codes "(unknown file)" else file_path in
    if a.start_char == pos 0 && a.end_char == pos 0
    then if a.start_line == a.end_line
      then path ++ codes ":" ++ itoa a.start_line
      else path ++ codes ":" ++ itoa a.start_line ++ codes "-" ++ itoa a.end_line
    else path
      ++ codes ":"
      ++ itoa a.start_line
      ++ codes ":"
      ++ itoa (a.start_char +ℤ pos 1)
      ++ codes "-"
      ++ itoa a.end_line
      ++ codes ":"
      ++ itoa (a.end_char +ℤ pos 1)

-- The part of promotedAnswerContext about the thread.
thread_context : Session → Thread → Text
thread_context s t =
    codes "/btw context: "
    ++ digest_anchor_reference s.plan_path t.anchor
    ++ newline
      ∷ (if trim_space t.selected_text == []
          then []
          else codes "Selected text:" ++ newline ∷ t.selected_text ++ newline ∷ [])

-- promotedAnswerContext; findThread is the first thread with an id.
unfoldable pub promoted_answer_context : Session → SideAnswer → Text
unfolding thread_context
promoted_answer_context s a =
    (elim (find_thread a.thread_id s.threads) [ none ↦ [] | some t ↦ thread_context s t ])
    ++ codes "Question:"
    ++ newline ∷ a.question
    ++ newline ∷ codes "Answer:"
    ++ newline ∷ a.answer

-- selectedAnswers
unfoldable pub selected_answers : Session → ContextSelection → List Text
selected_answers s selection = map (promoted_answer_context s) selection.included_answers

-- session.ContextOptions{}
abbrev pub no_options : ContextOptions
no_options = record { revision_id = []; explicit_thread_id = []; anchor = none }

-- DraftFromState
unfoldable pub draft_from_state : Session → Digest
draft_from_state s =
    let selection = select_context s no_options in
    let decisions = instruction_messages selection in
    let answers = selected_answers s selection in
    record {
      summary =
          if ltb 0 (length decisions) || ltb 0 (length answers)
          then codes "Approved with review comments."
          else codes "Approved without comments.";
      reviewer_decisions = decisions;
      promoted_side_answers = answers;
    }
