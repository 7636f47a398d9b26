-- ===== src/Review/Mutate/Change.antt =====
-- What mutateSession leaves behind, and when it overflows the stack.
use planmaxx.Base.{ℕ, ◌≡◌, refl, inl, inr, false, Option, none, some, arith, if-cases}
use planmaxx.Base.Text.{Text}
use planmaxx.Session.Types.{Session}
use planmaxx.Review.Types.{Server}
use planmaxx.Review.Operations.{iteration_running, clear_terminal_iteration}
use planmaxx.Review.Mutate.{
  World, Failure, response, conflict, committed, other, Body, Reply, answered, overflowed,
  reply_error, Mutated, returned, failed_with, overflow, Mutation, is_committed, persist,
  sync_external_source, source_sync_reply, mutation_reply, persistence_reply, conclude,
  after_mutation, after_sync, mutate_session,
}
use planmaxx.Review.Mutate.Outcome.{
  SameReview, SameReview-refl, TakenBack, IsSaved, PersistOutcome, persist-Saved, Reloaded,
  SyncOutcome, sync_external_source-SyncOutcome,
}

abbrev pub IsError : Reply → Type 0
IsError r = (code : ℕ) × (text : Text) × (r ≡ reply_error code text)

-- The review that conclude saves.
abbrev pub changed_review : Server → Session → Server
changed_review s changed = clear_terminal_iteration (record s { session = changed })

-- A handler that changes the review behind mutateSession:
-- refused: it answers with an error, and the review is as it was;
-- taken_back: it answers with an error, and a copy of the session (cloneSession) is put back;
-- reloaded: it answers with an error, since the source file was changed, and holds the adjusted
-- review;
-- changed: it answers, the review was idle, and the new session was valid and is written;
-- crashed: the stack overflowed.
pub data ChangeOutcome (w : World) (s : Server) (Crash : Type 0) : Reply × Server → Type 0 where
  refused : {r : Reply} {t : Server} → IsError r → SameReview s t → ChangeOutcome w s Crash (r, t)
  taken_back :
      {r : Reply} {t : Server}
      → IsError r
      → s.finished ≡ false
      → TakenBack w s t
      → ChangeOutcome w s Crash (r, t)
  reloaded :
      {r : Reply} {t : Server}
      → IsError r
      → s.finished ≡ false
      → Reloaded w s t
      → ChangeOutcome w s Crash (r, t)
  changed :
      {body : Body} {t : Server} (new : Session)
      → s.finished ≡ false
      → iteration_running s ≡ false
      → IsSaved w (changed_review s new) t
      → ChangeOutcome w s Crash (answered 200 body, t)
  crashed : {t : Server} → s.finished ≡ false → Crash → ChangeOutcome w s Crash (overflowed, t)

pub source_sync_reply-IsError : (e : Failure) → IsError (source_sync_reply e)
unfolding source_sync_reply
source_sync_reply-IsError (response code text) = (code, text, refl)
source_sync_reply-IsError conflict = (_, _, refl)
source_sync_reply-IsError (committed text) = (_, _, refl)
source_sync_reply-IsError (other text) = (_, _, refl)

pub persistence_reply-IsError : (e : Failure) → IsError (persistence_reply e)
unfolding persistence_reply
persistence_reply-IsError (response code text) = (_, _, refl)
persistence_reply-IsError conflict = (_, _, refl)
persistence_reply-IsError (committed text) = (_, _, refl)
persistence_reply-IsError (other text) = (_, _, refl)

mutation_reply-IsError : (e : Failure) → IsError (mutation_reply e)
unfolding mutation_reply
mutation_reply-IsError (response code text) = (code, text, refl)
mutation_reply-IsError conflict = (_, _, refl)
mutation_reply-IsError (committed text) = (_, _, refl)
mutation_reply-IsError (other text) = (_, _, refl)

module _ (w : World) (s : Server) (new : Session) (body : Body) (P : Reply × Server → Type 0)
    (undone : (f : Failure) (t : Server) → TakenBack w s t → P (persistence_reply f, t))
    (written : (t : Server) → IsSaved w (changed_review s new) t → P (answered 200 body, t)) where
  concluded_at :
      (r : Option Failure × Server)
      → PersistOutcome w (changed_review s new) r
      → persist w (changed_review s new) ≡ r
      → P (conclude w s body (record s { session = new }))
  unfolding conclude clear_terminal_iteration
  concluded_at (none, t) (inl (lost, same)) e = absurd (cc)
  concluded_at (some f, t) (inl (lost, same)) e = rw e (
      if-cases P (is_committed f) _ _ (λ q. absurd (ground (arith, q, lost)))
        (λ _. undone f _ (record {
          session = refl;
          finished = same.finished;
          operation = refl;
          sequence = same.sequence;
          document = same.document;
          done = same.done;
        })))
  concluded_at (none, t) (inr (kept, saved)) e = rw e (written t saved)
  concluded_at (some f, t) (inr (kept, saved)) e = rw e (
      if-cases P (is_committed f) _ _ (λ _. written t saved)
        (λ q. absurd (ground (arith, q, kept))))

  -- The end of a change: the save is lost and a copy is put back, or it is written.
  pub concluded : P (conclude w s body (record s { session = new }))
  concluded =
      concluded_at (persist w (changed_review s new)) (persist-Saved w (changed_review s new)) refl

module _ (w : World) (s : Server) (Crash : Type 0) (active : s.finished ≡ false)
    (idle : iteration_running s ≡ false) where
  -- Also where the answer is replaced by a view of the review, if it is no error.
  pub conclude-ChangeOutcome :
      (body : Body) (new : Session) (view : Reply × Server → Reply × Server)
      → ((f : Failure) (t : Server) → view (persistence_reply f, t) ≡ (persistence_reply f, t))
      → ((t : Server) → (b : Body) × (view (answered 200 body, t) ≡ (answered 200 b, t)))
      → ChangeOutcome w s Crash (view (conclude w s body (record s { session = new })))
  conclude-ChangeOutcome body new view h k =
      concluded w s new body (λ r. ChangeOutcome w s Crash (view r))
        (λ f t undone. rw (h f) (taken_back (persistence_reply-IsError f) active undone))
        (λ t saved. let (b, q) = k t in rw q (changed new active idle saved))

  after_mutation-ChangeOutcome :
      (r : Mutated Body × Session)
      → (r.0 ≡ overflow → Crash)
      → ChangeOutcome w s Crash (after_mutation w s r)
  unfolding after_mutation
  after_mutation-ChangeOutcome (returned body, new) h =
      conclude-ChangeOutcome body new (λ r. r) (λ f t. refl) (λ t. (body, refl))
  after_mutation-ChangeOutcome (failed_with e, new) h =
      taken_back (mutation_reply-IsError e) active (record {
        session = refl;
        finished = refl;
        operation = refl;
        sequence = refl;
        document = refl;
        done = refl;
      })
  after_mutation-ChangeOutcome (overflow, new) h = crashed active (h refl)

synced-ChangeOutcome :
    (w : World) (mutate : Mutation Body) (s : Server) (Crash : Type 0)
    → s.finished ≡ false
    → iteration_running s ≡ false
    → ((mutate s.session).0 ≡ overflow → Crash)
    → (r : Option Failure × Server) → SyncOutcome w s r
    → ChangeOutcome w s Crash (
        after_sync (λ e t. (source_sync_reply e, t)) (λ t. after_mutation w t (mutate t.session)) r)
synced-ChangeOutcome w mutate s Crash active idle h (none, t) e =
    rw e (after_mutation-ChangeOutcome w s Crash active idle (mutate s.session) h)
synced-ChangeOutcome w mutate s Crash active idle h (some e, t) (inl same) =
    refused (source_sync_reply-IsError e) same
synced-ChangeOutcome w mutate s Crash active idle h (some e, t) (inr (inl undone)) =
    taken_back (source_sync_reply-IsError e) active undone
synced-ChangeOutcome w mutate s Crash active idle h (some e, t) (inr (inr loaded)) =
    reloaded (source_sync_reply-IsError e) active loaded

pub mutate_session-ChangeOutcome :
    (w : World) (mutate : Mutation Body) (s : Server) (Crash : Type 0)
    → ((mutate s.session).0 ≡ overflow → Crash)
    → ChangeOutcome w s Crash (mutate_session w mutate s)
unfolding mutate_session
mutate_session-ChangeOutcome w mutate s Crash h =
    if-cases (ChangeOutcome w s Crash) s.finished _ _
      (λ _. refused (_, _, refl) (SameReview-refl s))
      (λ active.
        if-cases (ChangeOutcome w s Crash) (iteration_running s) _ _
          (λ _. refused (_, _, refl) (SameReview-refl s))
          (λ idle.
            synced-ChangeOutcome w mutate s Crash active idle h (sync_external_source w s)
              (sync_external_source-SyncOutcome w s)))
