-- ===== src/Session/Feedback/Atomic.antt =====
-- The checked operations on feedback fail without a trace.
use planmaxx.Base.{ℕ, ◌≡◌, arith}
use planmaxx.Session.Types.{Result, ok, err, Session}
use planmaxx.Session.State.{thread_pointer, mutable_active_thread, detach_thread}
use planmaxx.Session.Feedback.Ops.{Op, apply}

-- A call that ends in an error leaves the session that it was given.
abbrev pub Unchanged : {A : Type 0} → Session → Result A × Session → Type 0
Unchanged s (ok _, s') = Unit {0}
Unchanged s (err _, s') = s' ≡ s

-- A checked operation on feedback that returns an error leaves the session as it was.
pub apply-Unchanged : (o : Op) (now : ℕ) (s : Session) → Unchanged s (apply o now s)
unfolding apply thread_pointer mutable_active_thread detach_thread
apply-Unchanged (Op.add_thread _ _ _ _ _) now s = ground arith
apply-Unchanged _ now s = ground arith
