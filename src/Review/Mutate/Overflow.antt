-- ===== src/Review/Mutate/Overflow.antt =====
-- When a change overflows the stack: rejectPendingFeedbackMutation and rejectLockedThreadMutation
-- of internal/review/server.go, and what runs behind them.
use planmaxx.Base.{
  ℕ, zero, suc, ◌≡◌, ◌≢◌, refl, ◌⊎◌, inl, inr, Bool, true, false, not, ◌||◌, arith, Bool-cases,
}
use planmaxx.Base.Text.{Text}
use planmaxx.Session.Types.{Session, Result, ok, err}
use planmaxx.Session.State.{Action}
use planmaxx.Review.Mutate.{
  Failure, Mutated, returned, failed_with, overflow, Mutation, ◌>>=◌, ◌>>◌, and_then, as_mutated,
  checked, pure, fail_when, is_obsolete, is_pending, reject_pending_feedback_mutation,
  reject_locked_thread_mutation, belongs_to_proposal,
}

-- No call of it overflows.
abbrev pub Returns : {A : Type 0} → Mutation A → Type 0
Returns m = (s : Session) → (m s).0 ≢ overflow

and_then-Returns :
    {A B : Type 0} (f : A → Mutation B) (r : Mutated A × Session)
    → r.0 ≢ overflow
    → ((a : A) → Returns (f a))
    → (and_then f r).0 ≢ overflow
and_then-Returns f (returned a, s) h k = k a s
and_then-Returns f (failed_with e, s) h k = λ q. cc
and_then-Returns f (overflow, s) h k = absurd (h refl)

pub >>=-Returns :
    {A B : Type 0} (m : Mutation A) (f : A → Mutation B)
    → Returns m
    → ((a : A) → Returns (f a))
    → Returns (m >>= f)
>>=-Returns m f h k s = and_then-Returns f (m s) (h s) k

pub >>-Returns :
    {A B : Type 0} (m : Mutation A) (n : Mutation B) → Returns m → Returns n → Returns (m >> n)
>>-Returns m n h k = >>=-Returns m (λ _. n) h (λ _. k)

pub pure-Returns : {A : Type 0} (a : A) → Returns (pure a)
pure-Returns a s q = cc

as_mutated-ne-overflow : {A : Type 0} (r : Result A × Session) → (as_mutated r).0 ≢ overflow
as_mutated-ne-overflow (ok a, s) q = cc
as_mutated-ne-overflow (err e, s) q = cc

pub checked-Returns : {A : Type 0} (call : Action A) → Returns (checked call)
checked-Returns call s = as_mutated-ne-overflow (call s)

pub fail_when-Returns : (b : Bool) (e : Failure) → Returns (fail_when b e)
fail_when-Returns true e s q = cc
fail_when-Returns false e s q = cc

and_then-overflow :
    {A B : Type 0} (P : Type 0) (m : A → Mutation B) (r : Mutated A × Session)
    → (r.0 ≡ overflow → P)
    → ((a : A) → Returns (m a))
    → (and_then m r).0 ≡ overflow
    → P
and_then-overflow P m (returned a, u) h k q = absurd (k a u q)
and_then-overflow P m (failed_with e, u) h k q = absurd (cc)
and_then-overflow P m (overflow, u) h k q = h refl

-- What stands behind a guard that overflows only for a reason P.
pub guarded :
    {A : Type 0} (P : Type 0) (g : Mutation (Unit {0})) (m : Mutation A) (s : Session)
    → ((g s).0 ≡ overflow → P)
    → Returns m
    → ((g >> m) s).0 ≡ overflow
    → P
guarded P g m s h k = and_then-overflow P (λ _. m) (g s) h (λ _. k)

abbrev pub Overflows : ℕ → Session → Type 0
Overflows frames s = (is_obsolete s ≡ true) ⊎ (frames ≡ 0)

pub reject_pending-Overflows :
    (frames : ℕ) (s : Session)
    → (reject_pending_feedback_mutation frames s).0 ≡ overflow
    → Overflows frames s
unfolding reject_pending_feedback_mutation
reject_pending-Overflows zero s q = inr refl
reject_pending-Overflows (suc n) s q = elim (Bool-cases (is_obsolete s)) [
  | inl old ↦ inl old
  | inr new ↦ absurd (ground (arith, new, q))
]

pub reject_locked-Overflows :
    (frames : ℕ) (id : Text) (s : Session)
    → (reject_locked_thread_mutation frames id s).0 ≡ overflow
    → Overflows frames s
unfolding reject_locked_thread_mutation
reject_locked-Overflows frames id s q =
    elim (Bool-cases (not (is_pending s) || belongs_to_proposal id s)) [
      | inl free ↦ absurd (ground (arith, free, q))
      | inr held ↦ reject_pending-Overflows frames s (ground (arith, held, q))
    ]

-- Where the pending proposal is obsolete no number of frames is enough.
pub reject_pending-overflow :
    (frames : ℕ) (s : Session)
    → is_obsolete s ≡ true
    → (reject_pending_feedback_mutation frames s).0 ≡ overflow
unfolding reject_pending_feedback_mutation
reject_pending-overflow zero s h = refl
reject_pending-overflow (suc n) s h = ground (arith, h, reject_pending-overflow n s h)
