-- ===== src/Review/ClientState/Views.antt =====
-- The views of the threads and the side answers, their counts, and the projection of one of them:
-- buildThreadViews, buildSideAnswerViews, projectThread and projectSideAnswer.
use planmaxx.Base.{
  ◌+◌, Bool, true, false, ◌&&◌, ◌||◌, not, Option, none, some, List, [], ◌∷◌, map, ◌==◌,
  if◌then◌else◌,
}
use planmaxx.Base.Text.{Text, codes, text_comparable}
use planmaxx.Session.Types.{
  Thread, RevisionFeedback, Revision, SideAnswer, Session, Lifecycle, active, addressed, detached,
  lifecycle, is_active, intent, intent_instruction,
}
use planmaxx.Review.ClientState.Data.{ThreadCapabilities, ThreadView, SideAnswerView, ReviewCounts}

-- What the map addressedByThread holds at a thread: the last feedback of it that is stored.
addressed_feedback : Text → Text → Text → List RevisionFeedback → Text
addressed_feedback revision_id found id [] = found
addressed_feedback revision_id found id (f ∷ fs) =
    addressed_feedback revision_id (if f.thread_id == id then revision_id else found) id fs

unfoldable pub addressed_by : Text → Text → List Revision → Text
unfolding addressed_feedback
addressed_by found id [] = found
addressed_by found id (r ∷ rs) = addressed_by (addressed_feedback r.id found id r.feedback) id rs

abbrev pub no_capabilities : ThreadCapabilities
no_capabilities = record {
  can_edit = false;
  can_reply = false;
  can_change_intent = false;
  can_ask = false;
  can_iterate = false;
  can_reanchor = false;
  can_mark_addressed = false;
  can_delete = false;
  can_create_follow_up = false;
}

abbrev pub no_counts : ReviewCounts
no_counts = record {
  active_instructions = 0;
  active_private_notes = 0;
  included_answers = 0;
  private_answers = 0;
  detached_feedback = 0;
  addressed_history = 0;
}

abbrev pub has_proposal : Session → Bool
has_proposal s = elim s.pending_proposal [ none ↦ false | some _ ↦ true ]

-- threadLocked
unfoldable pub thread_locked : Session → Bool → Bool → Thread → Bool
thread_locked s locked hard_locked t = elim s.pending_proposal [
  | none ↦ locked
  | some p ↦ if not hard_locked && t.revision_id == p.id then false else locked
]

unfoldable pub thread_capabilities : Session → Bool → Bool → Lifecycle → ThreadCapabilities
thread_capabilities s agent_available locked l = if locked then no_capabilities else elim l [
  | active ↦ record no_capabilities {
    can_edit = true;
    can_reply = true;
    can_change_intent = true;
    can_delete = true;
    can_ask = not (has_proposal s) && agent_available;
    can_iterate = not (has_proposal s) && agent_available;
  }
  | detached ↦ record no_capabilities {
    can_edit = true;
    can_reanchor = true;
    can_mark_addressed = true;
    can_delete = true;
  }
  | addressed ↦ record no_capabilities { can_delete = true; can_create_follow_up = true }
]

abbrev pub bucket_of : Lifecycle → Text
bucket_of active = codes "active"
bucket_of detached = codes "attention"
bucket_of addressed = codes "history"

unfoldable pub thread_delivery : Lifecycle → Text → Text
thread_delivery active i = if i == intent_instruction then codes "iteration" else codes "private"
thread_delivery detached i = codes "none"
thread_delivery addressed i = codes "none"

unfoldable pub count_thread : Lifecycle → Text → ReviewCounts → ReviewCounts
count_thread active i c =
    if i == intent_instruction
    then record c { active_instructions = c.active_instructions + 1 }
    else record c { active_private_notes = c.active_private_notes + 1 }
count_thread detached i c = record c { detached_feedback = c.detached_feedback + 1 }
count_thread addressed i c = record c { addressed_history = c.addressed_history + 1 }

unfoldable pub thread_view : Session → Bool → Bool → Bool → Thread → ThreadView
unfolding addressed_by thread_locked thread_capabilities thread_delivery
thread_view s locked agent_available hard_locked t = record {
  id = t.id;
  revision_id = t.revision_id;
  anchor = t.anchor;
  selected_text = t.selected_text;
  intent = intent t;
  lifecycle = lifecycle t;
  bucket = bucket_of (lifecycle t);
  delivery = thread_delivery (lifecycle t) (intent t);
  addressed_revision_id = addressed_by [] t.id s.revisions;
  position = t.position;
  messages = t.messages;
  capabilities =
      thread_capabilities s agent_available (thread_locked s locked hard_locked t) (lifecycle t);
}

-- buildThreadViews: the views in the order of the threads, and the counts.
unfoldable pub count_threads : ReviewCounts → List Thread → ReviewCounts
unfolding count_thread
count_threads c [] = c
count_threads c (t ∷ ts) = count_threads (count_thread (lifecycle t) (intent t) c) ts

unfoldable pub build_thread_views : Session → Bool → Bool → Bool → List ThreadView × ReviewCounts
unfolding thread_view count_threads
build_thread_views s locked agent_available hard_locked = (
  map (thread_view s locked agent_available hard_locked) s.threads,
  count_threads no_counts s.threads,
)

-- threadLifecycle[id] == active; a missing id reads as the empty word, and a later thread with the
-- same id overwrites the entry.
unfoldable pub active_thread : Bool → Text → List Thread → Bool
active_thread found id [] = found
active_thread found id (t ∷ ts) =
    active_thread (if t.id == id then is_active (lifecycle t) else found) id ts

unfoldable pub side_answer_view : Session → Bool → SideAnswer → SideAnswerView
unfolding active_thread
side_answer_view s locked a =
    let live = active_thread false a.thread_id s.threads in
    let included = live && a.promoted in
    record {
      id = a.id;
      thread_id = a.thread_id;
      question = a.question;
      answer = a.answer;
      included = included;
      delivery =
          if not live
          then codes "none"
          else if included
          then codes "iteration"
          else codes "private";
      created_at = a.created_at;
      capabilities = record {
        can_include = live && not locked && not included;
        can_keep_private = live && not locked && included;
      };
    }

unfoldable pub count_answer : Bool → Bool → ReviewCounts → ReviewCounts
count_answer live included c =
    if included
    then record c { included_answers = c.included_answers + 1 }
    else if live
    then record c { private_answers = c.private_answers + 1 }
    else c

unfoldable pub count_answers : Session → ReviewCounts → List SideAnswer → ReviewCounts
unfolding count_answer active_thread
count_answers s c [] = c
count_answers s c (a ∷ rest) =
    let live = active_thread false a.thread_id s.threads in
    count_answers s (count_answer live (live && a.promoted) c) rest

unfoldable pub build_side_answer_views :
    Session → Bool → ReviewCounts → List SideAnswerView × ReviewCounts
unfolding side_answer_view count_answers
build_side_answer_views s locked c =
    (map (side_answer_view s locked) s.side_answers, count_answers s c s.side_answers)

find_view : Text → List ThreadView → Option ThreadView
find_view id [] = none
find_view id (v ∷ vs) = if v.id == id then some v else find_view id vs

-- projectThread; its last argument is always given.
unfoldable pub project_thread : Session → Bool → Text → Bool → Option ThreadView
unfolding find_view build_thread_views
project_thread s finished id agent_available =
    find_view id (build_thread_views s (finished || has_proposal s) agent_available false).0

find_answer_view : Text → List SideAnswerView → Option SideAnswerView
find_answer_view id [] = none
find_answer_view id (v ∷ vs) = if v.id == id then some v else find_answer_view id vs

unfoldable pub project_side_answer : Session → Bool → Text → Option SideAnswerView
unfolding find_answer_view build_side_answer_views
project_side_answer s finished id =
    find_answer_view id (build_side_answer_views s (finished || has_proposal s) no_counts).0
