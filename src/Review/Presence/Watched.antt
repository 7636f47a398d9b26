-- ===== src/Review/Presence/Watched.antt =====
-- When the timer runs, and how often it ends the review: the proofs on the presence.
use planmaxx.Base.{
  ℕ, ◌≤◌, ◌≡◌, ◌↔◌, refl, ap, ◌∙◌, Bool, true, false, not, ◌&&◌, ◌||◌, Option, none, some, List, [],
  ◌∷◌, eqb, if◌then◌else◌, if-cases, arith,
}
use planmaxx.Base.Int.{ℤ, pos, ltb_ℤ, leb_ℤ}
use planmaxx.Review.Presence

-- The timer as it should be: it runs with the current number just where the presence is open,
-- nobody is connected and there is a timeout.
abbrev pub due_timer : Presence.Presence → Option ℕ
due_timer p =
    if not p.closed && Presence.nobody p.connections && not (leb_ℤ p.timeout (pos 0))
    then some p.timer_id
    else none

abbrev pub IsWatched : Presence.Presence → Type 0
IsWatched p = p.timer ≡ due_timer p

start-IsWatched : (p : Presence.Presence) → p.timer ≡ none → IsWatched (Presence.start_timer p)
unfolding Presence.start_timer
start-IsWatched p h = ground (arith, h)

stop-none : (p : Presence.Presence) → (Presence.stop_timer p).timer ≡ none
unfolding Presence.stop_timer
stop-none p = refl

is_connected-somebody :
    (c : ℕ) (cs : List ℕ) → Presence.is_connected c cs ≡ true → Presence.nobody cs ≡ false
unfolding Presence.is_connected
is_connected-somebody c [] h = absurd (cc)
is_connected-somebody c (d ∷ ds) h = refl

set_timeout-IsWatched : (t : ℤ) (p : Presence.Presence) → IsWatched (Presence.set_timeout t p)
unfolding Presence.set_timeout Presence.stop_timer
set_timeout-IsWatched t p = start-IsWatched (Presence.stop_timer (record p { timeout = t })) refl

add-somebody :
    (c : ℕ) (cs : List ℕ)
    → Presence.nobody (if Presence.is_connected c cs then cs else c ∷ cs) ≡ false
add-somebody c cs =
    if-cases (λ (l : List ℕ). Presence.nobody l ≡ false) (Presence.is_connected c cs) cs (c ∷ cs)
      (is_connected-somebody c cs) (λ _. refl)

add-IsWatched : (c : ℕ) (p : Presence.Presence) → IsWatched p → IsWatched (Presence.add c p).1
unfolding Presence.add Presence.stop_timer
add-IsWatched c p h =
    if-cases (λ (r : Bool × Presence.Presence). IsWatched r.1) p.closed _ _ (λ _. h)
      (λ _. rw (add-somebody c p.connections) (ground arith))

remove-IsWatched : (c : ℕ) (p : Presence.Presence) → IsWatched p → IsWatched (Presence.remove c p)
unfolding Presence.remove
remove-IsWatched c p h =
    if-cases IsWatched (Presence.is_connected c p.connections) _ p
      (λ on.
        start-IsWatched (record p { connections = Presence.disconnect c p.connections })
          (h ∙ ground (arith, is_connected-somebody c p.connections on)))
      (λ _. h)

expire-IsWatched :
    (id : ℕ) (p : Presence.Presence) → IsWatched p → IsWatched (Presence.expire id p).1
unfolding Presence.expire
expire-IsWatched id p h =
    if-cases (λ (r : Bool × Presence.Presence). IsWatched r.1)
      (p.closed || not (eqb id p.timer_id) || not (Presence.nobody p.connections)) _ _ (λ _. h)
      (λ _. refl)

close-IsWatched : (p : Presence.Presence) → IsWatched p → IsWatched (Presence.close p)
unfolding Presence.close Presence.stop_timer
close-IsWatched p h = if-cases IsWatched p.closed p _ (λ _. h) (λ _. refl)

pub step-IsWatched :
    (e : Presence.Event) (p : Presence.Presence) → IsWatched p → IsWatched (Presence.step e p).1
unfolding Presence.step
step-IsWatched (Presence.timeout_set t) p h = set_timeout-IsWatched t p
step-IsWatched (Presence.connected c) p h = add-IsWatched c p h
step-IsWatched (Presence.disconnected c) p h = remove-IsWatched c p h
step-IsWatched (Presence.expired id) p h = expire-IsWatched id p h
step-IsWatched Presence.shut p h = close-IsWatched p h

run-IsWatched_from :
    (es : List Presence.Event) (p : Presence.Presence)
    → IsWatched p
    → IsWatched (Presence.run es p).1
unfolding Presence.run
run-IsWatched_from [] p h = h
run-IsWatched_from (e ∷ es) p h = run-IsWatched_from es (Presence.step e p).1 (step-IsWatched e p h)

run-IsWatched : (es : List Presence.Event) → IsWatched (Presence.run es Presence.new_presence).1
unfolding Presence.new_presence
run-IsWatched es = run-IsWatched_from es Presence.new_presence refl

expire_flag :
    (id : ℕ) (p : Presence.Presence)
    → (Presence.expire id p).0
      ≡ (not p.closed && Presence.nobody p.connections && eqb id p.timer_id)
unfolding Presence.expire
expire_flag id p = ground arith

same_number : (a b : ℕ) → some b ≡ some a → a ≡ b
same_number a b q = cc

some_iff :
    (free positive : Bool) (a b : ℕ)
    → positive ≡ true
    → ((free && eqb a b) ≡ true) ↔ ((if free && positive then some b else none) ≡ some a)
some_iff false positive a b h = (λ q. absurd (cc), λ q. absurd (cc))
some_iff true positive a b h =
    rw h (λ q. ap some (ground (arith, q)), λ q. ground (arith, same_number a b q))

positive-lem : (t : ℤ) → ltb_ℤ (pos 0) t ≡ true → not (leb_ℤ t (pos 0)) ≡ true
positive-lem t h = ground (arith, h)

expire_iff_at :
    (id : ℕ) (p : Presence.Presence)
    → IsWatched p
    → ltb_ℤ (pos 0) p.timeout ≡ true
    → ((Presence.expire id p).0 ≡ true) ↔ (p.timer ≡ some id)
expire_iff_at id p h positive =
    rw (expire_flag id p, h)
      (some_iff (not p.closed && Presence.nobody p.connections) (not (leb_ℤ p.timeout (pos 0))) id
        p.timer_id (positive-lem p.timeout positive))

-- Behind any events, where the timeout is positive: a timer that expires ends the review just where
-- it is the one that runs now, so that none which was stopped does, however late it expires.
pub expire_iff :
    (es : List Presence.Event) (id : ℕ)
    → ltb_ℤ (pos 0) (Presence.run es Presence.new_presence).1.timeout ≡ true
    → ((Presence.expire id (Presence.run es Presence.new_presence).1).0 ≡ true)
      ↔ ((Presence.run es Presence.new_presence).1.timer ≡ some id)
expire_iff es id = expire_iff_at id (Presence.run es Presence.new_presence).1 (run-IsWatched es)

start-closed : (p : Presence.Presence) → (Presence.start_timer p).closed ≡ p.closed
unfolding Presence.start_timer
start-closed p =
    if-cases (λ (q : Presence.Presence). q.closed ≡ p.closed)
      (p.closed || not (Presence.nobody p.connections) || leb_ℤ p.timeout (pos 0)) _ _ (λ _. refl)
      (λ _. refl)

-- A closed presence stays so and calls nothing; a call closes it.
abbrev Settles : Bool → Bool × Presence.Presence → Type 0
Settles before (calls, q) =
    (before ≡ true → (calls ≡ false) × (q.closed ≡ true)) × (calls ≡ true → q.closed ≡ true)

quiet-Settles :
    (p q : Presence.Presence) → (p.closed ≡ true → q.closed ≡ true) → Settles p.closed (false, q)
quiet-Settles p q h = (λ shut. (refl, h shut), λ e. absurd (cc))

step-Settles : (e : Presence.Event) (p : Presence.Presence) → Settles p.closed (Presence.step e p)
unfolding Presence.step Presence.set_timeout Presence.stop_timer Presence.add Presence.remove
    Presence.expire Presence.close
step-Settles (Presence.timeout_set t) p =
    quiet-Settles p (Presence.set_timeout t p)
      (λ h. start-closed (Presence.stop_timer (record p { timeout = t })) ∙ h)
step-Settles (Presence.connected c) p = quiet-Settles p (Presence.add c p).1 (λ h.
    if-cases (λ (r : Bool × Presence.Presence). r.1.closed ≡ true) p.closed _ _ (λ _. h) (λ _. h))
step-Settles (Presence.disconnected c) p = quiet-Settles p (Presence.remove c p) (λ h.
    if-cases (λ (q : Presence.Presence). q.closed ≡ true) (Presence.is_connected c p.connections) _
      p (λ _. start-closed (record p { connections = Presence.disconnect c p.connections }) ∙ h)
      (λ _. h))
step-Settles (Presence.expired id) p =
    if-cases (Settles p.closed)
      (p.closed || not (eqb id p.timer_id) || not (Presence.nobody p.connections)) _ _
      (λ _. quiet-Settles p p (λ h. h)) (λ q. (λ h. absurd (ground (arith, h, q)), λ _. refl))
step-Settles Presence.shut p =
    quiet-Settles p (Presence.close p)
      (λ h. if-cases (λ (q : Presence.Presence). q.closed ≡ true) p.closed p _ (λ _. h) (λ _. refl))

run-quiet :
    (es : List Presence.Event) (p : Presence.Presence)
    → p.closed ≡ true
    → ((Presence.run es p).0 ≡ 0) × ((Presence.run es p).1.closed ≡ true)
unfolding Presence.run
run-quiet [] p h = (refl, h)
run-quiet (e ∷ es) p h =
    let (quiet, shut) = (step-Settles e p).0 h in
    let (none_more, still) = run-quiet es (Presence.step e p).1 shut in
    (rw (quiet, none_more) refl, still)

-- How often a run calls onOrphan at most, by whether it leaves the presence closed.
abbrev pub AtMostOnce : ℕ × Presence.Presence → Type 0
AtMostOnce (calls, q) = calls ≤ (if q.closed then 1 else 0)

run-AtMostOnce_from :
    (es : List Presence.Event) (p : Presence.Presence) → AtMostOnce (Presence.run es p)
unfolding Presence.run
run-AtMostOnce_from [] p = omega arith
run-AtMostOnce_from (e ∷ es) p =
    if-cases (λ n. n ≤ (if (Presence.run es (Presence.step e p).1).1.closed then 1 else 0))
      (Presence.step e p).0 _ _
      (λ called.
        let (none_more, shut) = run-quiet es (Presence.step e p).1 ((step-Settles e p).1 called) in
        rw (shut, none_more) (omega arith))
      (λ _. run-AtMostOnce_from es (Presence.step e p).1)

abbrev pub Sound : ℕ × Presence.Presence → Type 0
Sound (calls, q) = IsWatched q × AtMostOnce (calls, q)

-- Whatever browsers connect and disconnect, whenever the timeout is set, the presence is closed or a
-- timer expires, even one that was stopped: the timer runs, with the current number, just where the
-- presence is open, nobody is connected and the timeout is positive; and the review is ended as
-- abandoned at most once, and not at all while the presence is open.
pub run-Sound : (es : List Presence.Event) → Sound (Presence.run es Presence.new_presence)
run-Sound es = (run-IsWatched es, run-AtMostOnce_from es Presence.new_presence)
