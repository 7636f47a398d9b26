-- ===== src/Review/Requests/Final.antt =====
-- A review ends once, and its result is sent once.
use planmaxx.Base.{
  ◌≡◌, ◌≢◌, ◌<◌, refl, ◌∙◌, inl, inr, true, false, [], ◌∷◌, arith, length, length-append,
  if◌then◌else◌,
}
use planmaxx.Review.Types.{Server, ReviewResult}
use planmaxx.Review.Operations.{clear_terminal_iteration, cancel_iteration}
use planmaxx.Review.Mutate.{World, Reply, overflowed, is_obsolete}
use planmaxx.Review.Mutate.Outcome.{SameReview}
use planmaxx.Review.Mutate.Change.{refused, taken_back, reloaded, changed, crashed, IsError}
use planmaxx.Review.Mutate.Overflow.{Overflows}
use planmaxx.Review.Handlers.Course
use planmaxx.Review.Handlers.Course.{send, abandon_orphaned_review}
use planmaxx.Review.Requests.{Json, Request, handle}
use planmaxx.Review.Requests.Outcome.{
  Outcome, handled, finalized, canceled, stopped, handle-Outcome,
}

Outcome-finished :
    (w : World) (s : Server) (r : Reply × Server)
    → Outcome w s r
    → s.finished ≡ true
    → IsError r.0 × SameReview s r.1
Outcome-finished w s _ (handled (refused error same)) h = (error, same)
Outcome-finished w s _ (handled (taken_back error active undone)) h = absurd (cc)
Outcome-finished w s _ (handled (reloaded error active loaded)) h = absurd (cc)
Outcome-finished w s _ (handled (changed new active idle saved)) h = absurd (cc)
Outcome-finished w s _ (handled (crashed active reason)) h = absurd (cc)
Outcome-finished w s _ (finalized submitted new result active clear idle ends saved sent) h =
    absurd (cc)
Outcome-finished w s _ (canceled new result active ends saved sent) h = absurd (cc)
Outcome-finished w s _ (stopped error active same) h = absurd (cc)

-- Once the review is finished, every request on feedback, proposals, restored revisions or the
-- end of the review is answered with an error and changes nothing of it.
pub handle-finished :
    (w : World) (j : Json) (request : Request) (s : Server)
    → s.finished ≡ true
    → IsError (handle w j request s).0 × SameReview s (handle w j request s).1
handle-finished w j request s =
    Outcome-finished w s (handle w j request s) (handle-Outcome w j request s)

-- As many results were sent as the review has ended: one if it is finished, else none.
abbrev pub SentOnce : Server → Type 0
SentOnce s = length s.done ≡ (if s.finished then 1 else 0)

SentOnce-same : (s t : Server) → t.finished ≡ s.finished → t.done ≡ s.done → SentOnce s → SentOnce t
SentOnce-same s t f d h = rw (f, d) h

SentOnce-send :
    (s t : Server) (result : ReviewResult)
    → s.finished ≡ false
    → t.finished ≡ true
    → t.done ≡ s.done
    → SentOnce s
    → SentOnce (send result t)
SentOnce-send s t result active ended d h =
    rw (ended, d) (omega (arith, length-append s.done (result ∷ []), none_sent))
  where
    none_sent : length s.done ≡ 0
    none_sent = h ∙ (rw active)

Outcome-SentOnce :
    (w : World) (s : Server) (r : Reply × Server)
    → Outcome w s r
    → r.0 ≢ overflowed
    → SentOnce s
    → SentOnce r.1
unfolding clear_terminal_iteration cancel_iteration Course.canonical_digest
Outcome-SentOnce w s (r, t) (handled (refused error same)) answers h =
    SentOnce-same s t same.finished same.done h
Outcome-SentOnce w s (r, t) (handled (taken_back error active undone)) answers h =
    SentOnce-same s t undone.finished undone.done h
Outcome-SentOnce w s (r, t) (handled (reloaded error active loaded)) answers h =
    SentOnce-same s t loaded.saved.finished loaded.saved.done h
Outcome-SentOnce w s (r, t) (handled (changed new active idle saved)) answers h =
    SentOnce-same s t saved.finished saved.done h
Outcome-SentOnce w s (r, t) (handled (crashed active reason)) answers h = absurd (answers refl)
Outcome-SentOnce w s _ (finalized {t} submitted new result active clear idle ends saved sent)
      answers h =
    SentOnce-send s t result active (saved.finished ∙ ends.finished) (saved.done ∙ ends.done) h
Outcome-SentOnce w s _ (canceled {t} new result active ends saved sent) answers h =
    SentOnce-send s t result active (saved.finished ∙ ends.finished) (saved.done ∙ ends.done) h
Outcome-SentOnce w s (r, t) (stopped error active same) answers h =
    SentOnce-same s t same.finished same.done h

-- A request on feedback, proposals, restored revisions or the end of the review that is answered
-- keeps the count of the results that were sent.
pub handle-SentOnce :
    (w : World) (j : Json) (request : Request) (s : Server)
    → (handle w j request s).0 ≢ overflowed
    → SentOnce s
    → SentOnce (handle w j request s).1
handle-SentOnce w j request s =
    Outcome-SentOnce w s (handle w j request s) (handle-Outcome w j request s)

Outcome-overflowed :
    (w : World) (s : Server) (r : Reply × Server)
    → Outcome w s r
    → r.0 ≡ overflowed
    → Overflows w.frames s.session
Outcome-overflowed w s _ (handled (refused (code, text, e) same)) h = absurd (cc)
Outcome-overflowed w s _ (handled (taken_back (code, text, e) active undone)) h = absurd (cc)
Outcome-overflowed w s _ (handled (reloaded (code, text, e) active loaded)) h = absurd (cc)
Outcome-overflowed w s _ (handled (changed new active idle saved)) h = absurd (cc)
Outcome-overflowed w s _ (handled (crashed active reason)) h = reason
Outcome-overflowed w s _ (finalized submitted new result active clear idle ends saved sent) h =
    absurd (cc)
Outcome-overflowed w s _ (canceled new result active ends saved sent) h = absurd (cc)
Outcome-overflowed w s _ (stopped (code, text, e) active same) h = absurd (cc)

-- One frame is enough for every request on feedback, proposals, restored revisions or the end of
-- the review, unless the pending proposal is obsolete.
pub handle-ne-overflowed :
    (w : World) (j : Json) (request : Request) (s : Server)
    → 0 < w.frames
    → is_obsolete s.session ≡ false
    → (handle w j request s).0 ≢ overflowed
handle-ne-overflowed w j request s some_frame fresh e =
    elim (Outcome-overflowed w s (handle w j request s) (handle-Outcome w j request s) e) [
      | inl old ↦ cc
      | inr no_frame ↦ omega arith
    ]
