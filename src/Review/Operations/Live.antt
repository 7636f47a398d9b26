-- ===== src/Review/Operations/Live.antt =====
-- Every running operation is alive: a goroutine will complete it, and none works on another.
use planmaxx.Base.{
  ℕ, ◌≡◌, ◌≢◌, refl, ◌⊎◌, inl, inr, Bool, true, false, Option, none, some, List, [], ◌∷◌, ◌++◌,
  ◌==◌, arith, if◌then◌else◌,
}
use planmaxx.Base.Text.{Text, text_comparable, text_eqb_refl}
use planmaxx.Review.Types.{queued, running, canceling, canceled, IterationOperation, Server}
use planmaxx.Review.Operations.{
  is_running, status_of, operation_running, iteration_running, cancel_iteration, cancel_if_running,
  cancel_operation, clear_terminal_iteration, clear_if_terminal, queue_operation, begin_iteration,
  begin_at, finish_iteration, finish_at, complete_operation, Execution, interrupted_error,
}
use planmaxx.Review.Operations.Tasks.{
  Task, waiting, executing, System, Step, start, begin, finish, cancel, clear, other, Reach, new,
  later, interrupted_now,
}

-- How an operation stands while its goroutine waits, and while it executes.
abbrev Waits : IterationOperation → Type 0
Waits o =
    ((status_of o ≡ queued) × (o.interrupted ≡ false))
    ⊎ ((status_of o ≡ canceling) × (o.interrupted ≡ true))

abbrev Executes : Bool → IterationOperation → Type 0
Executes late o = ((status_of o ≡ running) × (o.interrupted ≡ late)) ⊎ (status_of o ≡ canceling)

-- A running operation has one goroutine, which has its id and will complete it; else there is none.
pub data Live : Option IterationOperation → List Task → Type 0 where
  idle : {x : Option IterationOperation} → operation_running x ≡ false → Live x []
  waits :
      {o : IterationOperation} {id : Text}
      → o.view.id ≡ id
      → o.has_cancel ≡ true
      → Waits o
      → Live (some o) (waiting id ∷ [])
  executes :
      {o : IterationOperation} {id : Text} {late : Bool}
      → o.view.id ≡ id
      → o.has_cancel ≡ true
      → Executes late o
      → Live (some o) (executing id late ∷ [])

Waits-runs : (o : IterationOperation) → Waits o → is_running (status_of o) ≡ true
Waits-runs o (inl (q, i)) = rw q
Waits-runs o (inr (q, i)) = rw q

Executes-runs :
    (o : IterationOperation) (late : Bool) → Executes late o → is_running (status_of o) ≡ true
Executes-runs o late (inl (q, i)) = rw q
Executes-runs o late (inr q) = rw q

Live-idle :
    {x : Option IterationOperation} {ts : List Task}
    → Live x ts
    → operation_running x ≡ false
    → ts ≡ []
Live-idle (idle e) h = refl
Live-idle {x = some o} (waits same has w) h = absurd (cc (Waits-runs o w))
Live-idle {x = some o} (executes {late} same has w) h = absurd (cc (Executes-runs o late w))

Live-cancel :
    {x : Option IterationOperation} {ts : List Task} → Live x ts → Live (cancel_if_running x) ts
unfolding cancel_if_running cancel_operation
Live-cancel {x = none} (idle e) = idle refl
Live-cancel {x = some o} (idle e) = rw e (idle e)
Live-cancel {x = some o} (waits same has w) =
    rw (Waits-runs o w) (waits same has (inr (refl, rw has)))
Live-cancel {x = some o} (executes {late} same has w) =
    rw (Executes-runs o late w) (executes same has (inr refl))

Live-clear :
    {x : Option IterationOperation} {ts : List Task} → Live x ts → Live (clear_if_terminal x) ts
unfolding clear_if_terminal
Live-clear {x = none} (idle e) = idle refl
Live-clear {x = some o} (idle e) = rw e (idle refl)
Live-clear {x = some o} (waits same has w) = rw (Waits-runs o w) (waits same has w)
Live-clear {x = some o} (executes {late} same has w) =
    rw (Executes-runs o late w) (executes same has w)

-- The one place of a list with one element.
only_place :
    (x : Task) (before : List Task) (t : Task) (after : List Task)
    → x ∷ [] ≡ before ++ t ∷ after
    → (x ≡ t) × (before ≡ []) × (after ≡ [])
only_place x [] t after e = (cc, refl, cc)
only_place x (y ∷ []) t after e = absurd (cc)
only_place x (y ∷ z ∷ before) t after e = absurd (cc)

no_place : (before : List Task) (t : Task) (after : List Task) → [] ≢ before ++ t ∷ after
no_place [] t after e = cc
no_place (y ∷ before) t after e = cc

complete-stops :
    (now : ℕ) (result : Execution) (o : IterationOperation)
    → is_running (status_of (complete_operation now result o)) ≡ false
unfolding complete_operation
complete-stops now result o = ground arith

id_matches :
    (o : IterationOperation) (own id : Text) → o.view.id ≡ own → own ≡ id → (o.view.id == id) ≡ true
id_matches o own id same e = rw (same, e) (text_eqb_refl id)

Live-begin :
    (x : Option IterationOperation) (ts before after : List Task) (id : Text)
    → Live x ts
    → ts ≡ before ++ waiting id ∷ after
    → Live (begin_at id x).1 (
        before
        ++ (if (begin_at id x).0 then executing id (interrupted_now (begin_at id x).1) ∷ [] else [])
        ++ after)
unfolding begin_at
Live-begin x _ before after id (idle e) q = absurd (no_place before (waiting id) after q)
Live-begin (some o) _ before after id (waits {id = own} same has w) q =
    let (e, b, a) = only_place (waiting own) before (waiting id) after q in
    rw (b, a, id_matches o own id same (cc)) (executes (cc) has (inl (refl, refl)))
Live-begin x _ before after id (executes {id = own} {late} same has w) q =
    let (e, b, a) = only_place (executing own late) before (waiting id) after q in absurd (cc)

Live-finish :
    (x : Option IterationOperation) (ts before after : List Task) (id : Text) (late : Bool)
    (now : ℕ) (result : Execution)
    → Live x ts
    → ts ≡ before ++ executing id late ∷ after
    → Live (finish_at id now result x) (before ++ after)
unfolding finish_at
Live-finish x _ before after id late now result (idle e) q =
    absurd (no_place before (executing id late) after q)
Live-finish (some o) _ before after id late now result
      (executes {id = own} {late = own_late} same has w) q =
    let (e, b, a) = only_place (executing own own_late) before (executing id late) after q in
    rw (b, a, id_matches o own id same (cc)) (idle (complete-stops now result o))
Live-finish x _ before after id late now result (waits {id = own} same has w) q =
    let (e, b, a) = only_place (waiting own) before (executing id late) after q in absurd (cc)

Live-start :
    (kind key base : Text) (now : ℕ) (s : Server) (ts : List Task)
    → Live s.iteration_operation ts
    → iteration_running s ≡ false
    → Live
        ((queue_operation kind key base now s).1).iteration_operation
        (waiting ((queue_operation kind key base now s).0).view.id ∷ ts)
unfolding queue_operation
Live-start kind key base now s ts h e = rw (Live-idle h e) (waits refl refl (inl (refl, refl)))

Step-Live :
    {x y : System}
    → Step x y
    → Live x.server.iteration_operation x.tasks
    → Live y.server.iteration_operation y.tasks
unfolding begin_iteration finish_iteration cancel_iteration clear_terminal_iteration
Step-Live (start {s} {ts} kind key base now e) h = Live-start kind key base now s ts h e
Step-Live (begin {s} {ts} before after id q) h =
    Live-begin s.iteration_operation ts before after id h q
Step-Live (finish {s} {ts} before after id late now result q p) h =
    Live-finish s.iteration_operation ts before after id late now result h q
Step-Live cancel h = Live-cancel h
Step-Live clear h = Live-clear h
Step-Live (other e) h = rw e h

-- In every state that a server without an operation comes to, a running operation has exactly one
-- goroutine, which carries its id, and where no operation runs there is no goroutine.
pub Reach-Live : {s : Server} {x : System} → Reach s x → Live x.server.iteration_operation x.tasks
Reach-Live (new e) = rw e (idle refl)
Reach-Live (later r st) = Step-Live st (Reach-Live r)

finish-canceled_at :
    (x : Option IterationOperation) (ts before after : List Task) (id : Text) (late : Bool)
    (now : ℕ) (result : Execution)
    → Live x ts
    → ts ≡ before ++ executing id late ∷ after
    → (late ≡ true → result ≡ interrupted_error)
    → interrupted_now x ≡ true
    → (o : IterationOperation) × (finish_at id now result x ≡ some o) × (status_of o ≡ canceled)
unfolding finish_at complete_operation
finish-canceled_at x _ before after id late now result (idle e) q p h =
    absurd (no_place before (executing id late) after q)
finish-canceled_at x _ before after id late now result (waits {id = own} same has w) q p h =
    let (e, b, a) = only_place (waiting own) before (executing id late) after q in absurd (cc)
finish-canceled_at (some o) _ before after id late now result
      (executes {id = own} {late = own_late} same has (inl (r, i))) q p h =
    let (e, b, a) = only_place (executing own own_late) before (executing id late) after q in
    let is_late : late ≡ true = cc in
    (
      complete_operation now result o,
      rw (id_matches o own id same (cc)) refl,
      rw (r, p is_late) refl,
    )
finish-canceled_at (some o) _ before after id late now result
      (executes {id = own} {late = own_late} same has (inr r)) q p h =
    let (e, b, a) = only_place (executing own own_late) before (executing id late) after q in
    (complete_operation now result o, rw (id_matches o own id same (cc)) refl, rw r refl)

-- Where the context of the operation was canceled before its goroutine finishes, however early, the
-- operation ends canceled, whatever the agent answered; and Propose is asked to return an error only
-- where it was called with a canceled context.
pub finish-canceled :
    (s u : Server) (ts before after : List Task) (id : Text) (late : Bool) (now : ℕ)
    (result : Execution)
    → Reach s (record { server = u; tasks = ts })
    → ts ≡ before ++ executing id late ∷ after
    → (late ≡ true → result ≡ interrupted_error)
    → interrupted_now u.iteration_operation ≡ true
    → (o : IterationOperation) × ((finish_iteration id now result u).iteration_operation ≡ some o)
      × (status_of o ≡ canceled)
unfolding finish_iteration
finish-canceled s u ts before after id late now result r =
    finish-canceled_at u.iteration_operation ts before after id late now result (Reach-Live r)
