-- ===== src/Session/Context.antt =====
-- What a model is shown of a review: internal/session/context_selection.go.
use planmaxx.Base.{
  Bool, true, false, ◌&&◌, ◌||◌, not, Option, none, some, List, [], ◌∷◌, ◌++◌, map, ◌==◌,
  if◌then◌else◌, keep, contains,
}
use planmaxx.Base.Text.{Text, codes, text_comparable}
use planmaxx.Base.Utf8.{trim_space}
use planmaxx.Session.Types.{
  Anchor, Message, Thread, SideAnswer, Session, intent_instruction, lifecycle, is_active, intent,
}
use planmaxx.Session.Anchors.{anchors_overlap}

-- `none` is the nil anchor, the whole plan.
pub record ContextOptions : Type 0 where
  pub anchor : Option Anchor
  pub explicit_thread_id : Text
  pub revision_id : Text

pub record ContextSelection : Type 0 where
  pub instruction_threads : List Thread
  pub context_threads : List Thread
  pub included_answers : List SideAnswer
  pub thread_ids : List Text
  pub answer_ids : List Text

unfoldable pub thread_in_scope : Thread → Option Anchor → Bool
thread_in_scope t none = true
thread_in_scope t (some a) = anchors_overlap t.anchor a

-- The condition of the first loop: none of its `continue`s, and the test of its last `if`.
unfoldable pub is_instruction : Session → ContextOptions → Thread → Bool
unfolding thread_in_scope
is_instruction s o t =
    let target = if o.revision_id == [] then s.current_revision_id else o.revision_id in
    let own = if t.revision_id == [] then s.current_revision_id else t.revision_id in
    is_active (lifecycle t)
    && own == target
    && (t.id == o.explicit_thread_id
        || (intent t == intent_instruction && thread_in_scope t o.anchor))

-- threadByID: a later thread overwrites an earlier one with the same id.
unfoldable pub thread_by_id : Option Thread → Text → List Thread → Option Thread
thread_by_id found id [] = found
thread_by_id found id (t ∷ ts) = thread_by_id (if t.id == id then some t else found) id ts

-- The condition of the second loop.
unfoldable pub is_included : Session → ContextOptions → SideAnswer → Bool
unfolding thread_by_id thread_in_scope
is_included s o a = elim (thread_by_id none a.thread_id s.threads) [
  | none ↦ false
  | some t ↦
      a.promoted
      && is_active (lifecycle t)
      && (t.id == o.explicit_thread_id || thread_in_scope t o.anchor)
]

unfoldable pub select_context : Session → ContextOptions → ContextSelection
unfolding is_instruction is_included
select_context s o =
    let instructions = keep (is_instruction s o) s.threads in
    let answers = keep (is_included s o) s.side_answers in
    let messages = map (λ (t : Thread). t.id) instructions in
    let contexts = map (λ (a : SideAnswer). a.thread_id) answers in
    record {
      instruction_threads = instructions;
      context_threads =
          keep (λ (t : Thread). contains t.id messages || contains t.id contexts) s.threads;
      included_answers = answers;
      thread_ids = messages;
      answer_ids = map (λ (a : SideAnswer). a.id) answers;
    }

-- The bodies of one thread's messages that InstructionMessages keeps.
reviewer_bodies : List Message → List Text
reviewer_bodies [] = []
reviewer_bodies (m ∷ ms) =
    if m.author == codes "reviewer" && not (trim_space m.body == [])
    then m.body ∷ reviewer_bodies ms
    else reviewer_bodies ms

unfoldable pub messages_of : List Thread → List Text
unfolding reviewer_bodies
messages_of [] = []
messages_of (t ∷ ts) = reviewer_bodies t.messages ++ messages_of ts

unfoldable pub instruction_messages : ContextSelection → List Text
unfolding messages_of
instruction_messages c = messages_of c.instruction_threads
