-- ===== src/Review/Presence.antt =====
-- The connections of the browsers and the timer that ends an abandoned review: browserPresence of
-- internal/review/presence.go.
pub mod Watched
use planmaxx.Base.{
  ℕ, ◌+◌, ◌%◌, ◌^◌, Bool, true, false, not, ◌&&◌, ◌||◌, Option, none, some, List, [], ◌∷◌, eqb,
  if◌then◌else◌,
}
use planmaxx.Base.Int.{ℤ, pos, ltb_ℤ, leb_ℤ}

-- browserPresence: a connection and a timer are numbers; `timer` is the number of the timer that
-- time.AfterFunc started and that was not stopped. The function onOrphan is not nil: NewServer
-- passes abandonOrphanedReview.
pub record Presence : Type 0 where
  pub timeout : ℤ
  pub connections : List ℕ
  pub closed : Bool
  pub timer : Option ℕ
  pub timer_id : ℕ

unfoldable pub new_presence : Presence
new_presence = record {
  timeout = pos 0;
  connections = [];
  closed = false;
  timer = none;
  timer_id = 0;
}

abbrev pub nobody : List ℕ → Bool
nobody [] = true
nobody (c ∷ cs) = false

abbrev pub next_id : ℕ → ℕ
next_id n = (n + 1) % 2 ^ 64

-- stopTimerLocked
unfoldable pub stop_timer : Presence → Presence
stop_timer p = record p { timer_id = next_id p.timer_id; timer = none }

-- startTimerLocked
unfoldable pub start_timer : Presence → Presence
start_timer p =
    if p.closed || not (nobody p.connections) || leb_ℤ p.timeout (pos 0)
    then p
    else record p { timer_id = next_id p.timer_id; timer = some (next_id p.timer_id) }

unfoldable pub set_timeout : ℤ → Presence → Presence
unfolding stop_timer start_timer
set_timeout timeout p = start_timer (stop_timer (record p { timeout = timeout }))

unfoldable pub is_connected : ℕ → List ℕ → Bool
is_connected c [] = false
is_connected c (d ∷ ds) = eqb d c || is_connected c ds

unfoldable pub disconnect : ℕ → List ℕ → List ℕ
disconnect c [] = []
disconnect c (d ∷ ds) = let rest = disconnect c ds in if eqb d c then rest else d ∷ rest

-- add: whether the connection is served.
unfoldable pub add : ℕ → Presence → Bool × Presence
unfolding stop_timer
add c p = if p.closed then (false, p) else (
  true,
  stop_timer (record p {
    connections = if is_connected c p.connections then p.connections else c ∷ p.connections;
  }),
)

unfoldable pub remove : ℕ → Presence → Presence
unfolding is_connected disconnect start_timer
remove c p =
    if is_connected c p.connections
    then start_timer (record p { connections = disconnect c p.connections })
    else p

-- expire, which the timer with the number calls: whether it calls onOrphan.
unfoldable pub expire : ℕ → Presence → Bool × Presence
expire id p =
    if p.closed || not (eqb id p.timer_id) || not (nobody p.connections)
    then (false, p)
    else (true, record p { closed = true; timer = none })

unfoldable pub close : Presence → Presence
unfolding stop_timer
close p = if p.closed then p else stop_timer (record p { closed = true })

-- What happens to the presence, each under its lock. A timer that was stopped too late may expire.
pub data Event : Type 0 where
  timeout_set : ℤ → Event
  connected disconnected expired : ℕ → Event
  shut : Event

-- Whether onOrphan is called, and the presence behind the event.
unfoldable pub step : Event → Presence → Bool × Presence
unfolding set_timeout add remove expire close
step (timeout_set t) p = (false, set_timeout t p)
step (connected c) p = (false, (add c p).1)
step (disconnected c) p = (false, remove c p)
step (expired id) p = expire id p
step shut p = (false, close p)

-- How often onOrphan is called.
unfoldable pub run : List Event → Presence → ℕ × Presence
unfolding step
run [] p = (0, p)
run (e ∷ es) p =
    let (orphaned, q) = step e p in
    let (calls, r) = run es q in (if orphaned then calls + 1 else calls, r)
