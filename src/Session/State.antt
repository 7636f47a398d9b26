-- ===== src/Session/State.antt =====
-- The session as a state: the calls of a method with Go's error results, pointers into the thread
-- and answer slices, loops over the threads, and the small mutators of internal/session/session.go
-- and comment_state.go. A time that the code reads from the clock is an argument `now`.
pub mod Threads
pub mod Delivery
pub mod Loops
pub mod MapLoop
use planmaxx.Base.{
  ℕ, zero, suc, ◌+◌, ◌*◌, Bool, true, false, not, Option, none, some, List, [], ◌∷◌, ◌++◌, map,
  ◌==◌, if◌then◌else◌, length, get_elem?, set, keep, contains,
}
use planmaxx.Base.Int.{pos, ◌+ℤ◌, to_int}
use planmaxx.Base.Text.{Text, codes, text_comparable}
use planmaxx.Base.Decimal.{itoa}
use planmaxx.Session.Types.{
  Anchor, Message, Thread, RevisionFeedback, Revision, SideAnswer, Session, status_open,
  status_stale, lifecycle, is_active, Result, ok, err, TransitionError, blocked_error,
  missing_error,
}

-- A method on *Session with an error result: what it returns, and the session that it leaves.
abbrev pub Action : Type 0 → Type 0
Action A = Session → Result A × Session

infixl 5 ◌>>=◌ ◌>>◌
abbrev pub ◌>>=◌ : {A B : Type 0} → Action A → (A → Action B) → Action B
◌>>=◌ call next s = elim (call s).0 [ ok a ↦ next a (call s).1 | err e ↦ (err e, (call s).1) ]

abbrev pub ◌>>◌ : {A B : Type 0} → Action A → Action B → Action B
◌>>◌ call next = call >>= λ _. next

-- return …, nil
abbrev pub pure : {A : Type 0} → A → Action A
pure a = λ s. (ok a, s)

-- if test { return e }
abbrev pub fail_if : Bool → TransitionError → Action (Unit {0})
fail_if test e s = (if test then err e else ok tt, s)

-- An assignment to fields of the session.
abbrev pub modify : (Session → Session) → Action (Unit {0})
modify change = λ s. (ok tt, change s)

abbrev pub or_fail : {A : Type 0} → Option A → TransitionError → Action A
or_fail none e s = (err e, s)
or_fail (some a) e s = (ok a, s)

-- `m() == nil`
abbrev pub succeeds : {A : Type 0} → Action A → Session → Bool × Session
succeeds m s = let (r, s') = m s in (elim r [ ok _ ↦ true | err _ ↦ false ], s')

-- The first thread with an id, and a write through the pointer to it.
unfoldable pub find_thread : Text → List Thread → Option Thread
find_thread id [] = none
find_thread id (t ∷ ts) = if t.id == id then some t else find_thread id ts

unfoldable pub update_thread : Text → (Thread → Thread) → List Thread → List Thread
update_thread id f [] = []
update_thread id f (t ∷ ts) = if t.id == id then f t ∷ ts else t ∷ update_thread id f ts

abbrev pub write_thread : Text → (Thread → Thread) → Session → Session
write_thread id f s = record s { threads = update_thread id f s.threads }

unfoldable pub thread_pointer : Text → Action Thread
thread_pointer id s =
    or_fail (find_thread id s.threads) (missing_error (codes "thread not found")) s

unfoldable pub mutable_active_thread : Text → Text → Action Thread
unfolding thread_pointer
mutable_active_thread id action = do
  t ← thread_pointer id
  fail_if (not (is_active (lifecycle t)))
      (blocked_error (codes "cannot " ++ (action ++ codes " non-active feedback")))
  pure t

-- for i := range s.Threads { thread := &s.Threads[i]; … }: the body is given the index and the
-- thread as it is when its round begins.
abbrev pub at_thread : (ℕ → Thread → Session → Session) → ℕ → Session → Session
at_thread body i s = elim (get_elem? s.threads i) [ none ↦ s | some t ↦ body i t s ]

unfoldable pub loop_threads : (ℕ → Thread → Session → Session) → ℕ → ℕ → Session → Session
loop_threads body i zero s = s
loop_threads body i (suc rounds) s = loop_threads body (suc i) rounds (at_thread body i s)

unfoldable pub for_threads : (ℕ → Thread → Session → Session) → Session → Session
unfolding loop_threads
for_threads body s = loop_threads body 0 (length s.threads) s

abbrev pub set_thread : ℕ → Thread → Session → Session
set_thread i t s = record s { threads = set s.threads i t }

unfoldable pub new_message : Text → Text → ℕ → Session → Message × Session
new_message author body now s =
    let n = s.next_message +ℤ pos 1 in
    (
      record { id = codes "msg-" ++ itoa n; author = author; body = body; created_at = now },
      record s { next_message = n },
    )

-- addThread
unfoldable pub add_thread : Text → Anchor → Text → Text → Text → ℕ → Session → Thread × Session
unfolding new_message
add_thread revision_id anchor body selected_text kind now s =
    let n = s.next_thread_id +ℤ pos 1 in
    let (message, s') = new_message (codes "reviewer") body now s in
    let thread : Thread = record {
      id = codes "thread-" ++ itoa n;
      revision_id = revision_id;
      anchor = anchor;
      selected_text = selected_text;
      kind = kind;
      status = status_open;
      position = record { x = pos 720; y = to_int (pos (120 + length s.threads * 96)) };
      messages = message ∷ [];
    } in
    (thread, record s' { next_thread_id = n; threads = s.threads ++ thread ∷ [] })

-- addSideAnswer
unfoldable pub add_side_answer : Text → Text → Text → ℕ → Session → SideAnswer × Session
add_side_answer thread_id question answer now s =
    let n = s.next_side_answer_id +ℤ pos 1 in
    let side_answer : SideAnswer = record {
      id = codes "side-" ++ itoa n;
      thread_id = thread_id;
      question = question;
      answer = answer;
      promoted = false;
      created_at = now;
    } in
    (
      side_answer,
      record s { next_side_answer_id = n; side_answers = s.side_answers ++ side_answer ∷ [] },
    )

-- addRevisionWithFeedback; the feedback slice is the caller's own, so the written ids are seen
-- only in the revision.
unfoldable pub add_revision_with_feedback :
    Text → Text → Text → Anchor → Text → List RevisionFeedback → ℕ → Session → Revision × Session
add_revision_with_feedback parent_id source plan anchor summary feedback now s =
    let n = s.next_revision +ℤ pos 1 in
    let id = codes "rev-" ++ itoa n in
    let revision : Revision = record {
      id = id;
      commit_id = [];
      parent_id = parent_id;
      source = source;
      created_at = now;
      plan = plan;
      anchor = anchor;
      summary = summary;
      feedback = map (λ (f : RevisionFeedback). record f { revision_id = id }) feedback;
    } in
    (
      revision,
      record s {
        next_revision = n;
        revisions = s.revisions ++ revision ∷ [];
        current_revision_id = id;
        plan = plan;
      },
    )

unfoldable pub add_revision : Text → Text → Text → Anchor → Text → ℕ → Session → Revision × Session
unfolding add_revision_with_feedback
add_revision parent_id source plan anchor summary now =
    add_revision_with_feedback parent_id source plan anchor summary [] now

abbrev pub map_answers : (SideAnswer → SideAnswer) → Session → Session
map_answers f s = record s { side_answers = map f s.side_answers }

abbrev pub make_private : SideAnswer → SideAnswer
make_private a = record a { promoted = false }

-- makeAnswersPrivateForThread
unfoldable pub make_answers_private : Text → Session → Session
make_answers_private id = map_answers (λ a. if a.thread_id == id then make_private a else a)

-- What the map `active` of normalizeAnswerDelivery holds at an id: a later thread with the same
-- id overwrites it, and an id that is missing reads as false.
unfoldable pub active_at : Bool → Text → List Thread → Bool
active_at found id [] = found
active_at found id (t ∷ ts) =
    active_at (if t.id == id then is_active (lifecycle t) else found) id ts

-- normalizeAnswerDelivery
unfoldable pub normalize_answer_delivery : Session → Session
unfolding active_at
normalize_answer_delivery s =
    map_answers (λ a. if active_at false a.thread_id s.threads then a else make_private a) s

-- deleteSideAnswersForThread
unfoldable pub delete_side_answers : Text → Session → Session
delete_side_answers id s = record s {
  side_answers = keep (λ a. not (a.thread_id == id)) s.side_answers;
}

-- consumeIncludedAnswers
unfoldable pub consume_included_answers : List Text → Session → Session
consume_included_answers ids = map_answers (λ a. if contains a.id ids then make_private a else a)

-- DetachThread
unfoldable pub detach_thread : Text → Action (Unit {0})
unfolding thread_pointer make_answers_private
detach_thread id = do
  t ← thread_pointer id
  fail_if (not (is_active (lifecycle t)))
      (blocked_error (codes "only active feedback can become detached"))
  modify (write_thread id (λ u. record u { status = status_stale }))
  modify (make_answers_private id)
