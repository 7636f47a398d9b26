-- ===== src/Session/State/Loops.antt =====
-- Loops over the threads: an invariant rule, and what such loops leave alone.
use planmaxx.Base.{
  ℕ, zero, suc, ◌≡◌, refl, ◌∙◌, ap, some, List, [], ◌∷◌, map, inl, inr, arith, length, get_elem?,
  set, Option-cases, ◌==◌, if◌then◌else◌,
}
use planmaxx.Base.Text.{Text, text_comparable}
use planmaxx.Session.Types.{Thread, SideAnswer, Session, status_stale}
use planmaxx.Session.State.{
  at_thread, loop_threads, for_threads, set_thread, update_thread, detach_thread, make_private,
}

module _ {ℓ} (P : Session → Type ℓ) (body : ℕ → Thread → Session → Session)
    (keep : (i : ℕ) (t : Thread) (s : Session)
      → get_elem? s.threads i ≡ some t
      → P s
      → P (body i t s)) where
  at_thread_inv : (i : ℕ) (s : Session) → P s → P (at_thread body i s)
  at_thread_inv i s h = elim (Option-cases (get_elem? s.threads i)) [
    | inl e ↦ rw (e, at_thread) h
    | inr (t, e) ↦ rw (e, at_thread) (keep i t s e h)
  ]

  loop_threads_inv : (i rounds : ℕ) (s : Session) → P s → P (loop_threads body i rounds s)
  unfolding loop_threads
  loop_threads_inv i zero s h = h
  loop_threads_inv i (suc rounds) s h =
      loop_threads_inv (suc i) rounds (at_thread body i s) (at_thread_inv i s h)

  -- What every round keeps holds behind the loop.
  pub for_threads_inv : (s : Session) → P s → P (for_threads body s)
  unfolding for_threads
  for_threads_inv s h = loop_threads_inv 0 (length s.threads) s h

abbrev pub ids : List Thread → List Text
ids = map λ (t : Thread). t.id

abbrev pub answer_keys : List SideAnswer → List (Text × Text)
answer_keys = map λ (a : SideAnswer). (a.id, a.thread_id)

-- Everything but the contents of threads, and which answers are included.
pub record Frame (s u : Session) : Type 0 where
  pub id : u.id ≡ s.id
  pub plan : u.plan ≡ s.plan
  pub current : u.current_revision_id ≡ s.current_revision_id
  pub revisions : u.revisions ≡ s.revisions
  pub pending : u.pending_proposal ≡ s.pending_proposal
  pub next_thread : u.next_thread_id ≡ s.next_thread_id
  pub next_answer : u.next_side_answer_id ≡ s.next_side_answer_id
  pub next_proposal : u.next_proposal_id ≡ s.next_proposal_id
  pub next_revision : u.next_revision ≡ s.next_revision
  pub next_message : u.next_message ≡ s.next_message
  pub threads : ids u.threads ≡ ids s.threads
  pub answers : answer_keys u.side_answers ≡ answer_keys s.side_answers

pub Frame-refl : (s : Session) → Frame s s
Frame-refl s = record {
  id = refl;
  plan = refl;
  current = refl;
  revisions = refl;
  pending = refl;
  next_thread = refl;
  next_answer = refl;
  next_proposal = refl;
  next_revision = refl;
  next_message = refl;
  threads = refl;
  answers = refl;
}

pub Frame-trans : {s u v : Session} → Frame s u → Frame u v → Frame s v
Frame-trans f g = record {
  id = g.id ∙ f.id;
  plan = g.plan ∙ f.plan;
  current = g.current ∙ f.current;
  revisions = g.revisions ∙ f.revisions;
  pending = g.pending ∙ f.pending;
  next_thread = g.next_thread ∙ f.next_thread;
  next_answer = g.next_answer ∙ f.next_answer;
  next_proposal = g.next_proposal ∙ f.next_proposal;
  next_revision = g.next_revision ∙ f.next_revision;
  next_message = g.next_message ∙ f.next_message;
  threads = g.threads ∙ f.threads;
  answers = g.answers ∙ f.answers;
}

ids-set :
    (ts : List Thread) (i : ℕ) (t u : Thread)
    → get_elem? ts i ≡ some t
    → u.id ≡ t.id
    → ids (set ts i u) ≡ ids ts
ids-set [] i t u h e = refl
ids-set (x ∷ ts) zero t u h e = ground arith
ids-set (x ∷ ts) (suc i) t u h e = ap (λ l. x.id ∷ l) (ids-set ts i t u h e)

pub ids-update :
    (id : Text) (f : Thread → Thread) (ts : List Thread)
    → ((u : Thread) → (f u).id ≡ u.id)
    → ids (update_thread id f ts) ≡ ids ts
unfolding update_thread
ids-update id f [] same = refl
ids-update id f (t ∷ ts) same = ground (arith, same t, ids-update id f ts same)

pub answer_keys-map :
    (f : SideAnswer → SideAnswer) (as' : List SideAnswer)
    → ((a : SideAnswer) → (f a).id ≡ a.id)
    → ((a : SideAnswer) → (f a).thread_id ≡ a.thread_id)
    → answer_keys (map f as') ≡ answer_keys as'
answer_keys-map f [] same same' = refl
answer_keys-map f (a ∷ as') same same' =
    ground (arith, same a, same' a, answer_keys-map f as' same same')

-- A write at the index of a thread that keeps its id.
pub set_thread-Frame :
    (i : ℕ) (t u : Thread) (s : Session)
    → get_elem? s.threads i ≡ some t
    → u.id ≡ t.id
    → Frame s (set_thread i u s)
set_thread-Frame i t u s h e = ground (arith, ids-set s.threads i t u h e)

answer_keys-make_private :
    (id : Text) (as' : List SideAnswer)
    → answer_keys (map (λ a. if a.thread_id == id then make_private a else a) as') ≡ answer_keys as'
answer_keys-make_private id [] = refl
answer_keys-make_private id (a ∷ as') = ground (arith, answer_keys-make_private id as')

pub detach_thread-Frame : (id : Text) (s : Session) → Frame s (detach_thread id s).1
unfolding detach_thread
detach_thread-Frame id s = ground (
  arith,
  ids-update id (λ u. record u { status = status_stale }) s.threads (λ u. refl),
  answer_keys-make_private id s.side_answers,
)
