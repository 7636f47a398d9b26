-- ===== src/Session/Validate/Repair.antt =====
-- What RepairInvalidOpenAnchors leaves, and that a clamped anchor needs no repair.
use planmaxx.Base.{
  All-of_map, ◌≡◌, ◌≢◌, refl, sym, subst, ap, Bool, true, false, none, List, [], ◌∷◌, map, arith,
  length, All, if-cases,
}
use planmaxx.Base.Int.{ℤ, pos, ◌≤ℤ◌, min, max, int_comparable}
use planmaxx.Base.Text.{Text, text_comparable, text_eqb_iff, split_lines}
use planmaxx.Base.Lines.{length-split}
use planmaxx.Session.Types.{
  Anchor, Thread, SideAnswer, Session, status_open, status_stale, lifecycle_of, lifecycle-open,
  lifecycle-stale,
}
use planmaxx.Session.State.{normalize_answer_delivery, active_at, make_private}
use planmaxx.Session.Anchors.{clamped_line_anchor, line_count, has_character_range}
use planmaxx.Session.Locate.{validate_session_anchor}
use planmaxx.Session.Validate.{needs_repair, some_needs_repair, repair, repair_invalid_open_anchors}

-- An open thread has an anchor that is valid in the plan.
abbrev pub IsPlaced : Text → Thread → Type 0
IsPlaced plan t = t.status ≡ status_open → validate_session_anchor t.anchor plan ≡ none

stale-ne-open : status_stale ≢ status_open
stale-ne-open e = cc (lifecycle-stale, lifecycle-open, ap lifecycle_of e)

repair-IsPlaced : (plan : Text) (t : Thread) → IsPlaced plan (repair plan t)
unfolding repair needs_repair
repair-IsPlaced plan t =
    if-cases (IsPlaced plan) (needs_repair plan t) (record t { status = status_stale }) t
      (λ _ e. absurd (stale-ne-open e))
      (λ kept e. ground (arith, kept, e, text_eqb_iff t.status status_open))

min_le : (a b : ℤ) → min a b ≤ℤ b
min_le a b = ground arith

le-max : (a b : ℤ) → b ≤ℤ max a b
le-max a b = ground arith

le-min : (a b c : ℤ) → a ≤ℤ b → a ≤ℤ c → a ≤ℤ min b c
le-min a b c h k = ground arith

validate_line_range :
    (s e : ℤ) (plan : Text)
    → pos 1 ≤ℤ s
    → s ≤ℤ e
    → e ≤ℤ pos (length (split_lines plan))
    → validate_session_anchor
        (record { start_line = s; start_char = pos 0; end_line = e; end_char = pos 0 })
        plan
      ≡ none
unfolding validate_session_anchor has_character_range
validate_line_range s e plan lo mid hi = ground arith

max_line_le : (plan : Text) → max (pos 1) (pos (line_count plan)) ≤ℤ pos (length (split_lines plan))
unfolding line_count
max_line_le plan = let some_line = length-split plan in ground arith

-- Whatever the anchor, clampedLineAnchor yields one that is valid in the plan.
pub clamped_line_anchor-valid :
    (a : Anchor) (plan : Text) → validate_session_anchor (clamped_line_anchor a plan) plan ≡ none
unfolding clamped_line_anchor
clamped_line_anchor-valid a plan =
    let m = max (pos 1) (pos (line_count plan)) in
    let start = min (max a.start_line (pos 1)) m in
    let one : pos 1 ≤ℤ m = ground arith in
    let lo = le-min (pos 1) (max a.start_line (pos 1)) m (le-max a.start_line (pos 1)) one in
    let mid =
      le-min start (max a.end_line start) m (le-max a.end_line start)
        (min_le (max a.start_line (pos 1)) m) in
    let hi = min_le (max a.end_line start) m in
    let all = max_line_le plan in
    validate_line_range start (min (max a.end_line start) m) plan lo mid (omega arith)

some_needs_repair-none :
    (plan : Text) (ts : List Thread) → some_needs_repair plan ts ≡ false → map (repair plan) ts ≡ ts
unfolding some_needs_repair repair
some_needs_repair-none plan [] h = refl
some_needs_repair-none plan (t ∷ ts) h = ground (arith, some_needs_repair-none plan ts)

-- What a call on `s` comes to: every open thread is placed; where it reports no change, there is none;
-- where it does, an answer is included only if it was and its thread is active.
pub record Repaired (s : Session) (changed : Bool) (u : Session) : Type 0 where
  pub placed : All (IsPlaced s.plan) u.threads
  pub threads : u.threads ≡ map (repair s.plan) s.threads
  pub unchanged : changed ≡ false → u ≡ s
  pub delivered :
      changed ≡ true
      → All
          (λ (a : SideAnswer). a.promoted ≡ true → active_at false a.thread_id u.threads ≡ true)
          u.side_answers

normalize-delivered :
    (s : Session)
    → let u = normalize_answer_delivery s in
      All
        (λ (a : SideAnswer). a.promoted ≡ true → active_at false a.thread_id u.threads ≡ true)
        u.side_answers
unfolding normalize_answer_delivery
normalize-delivered s = All-of_map _ _ s.side_answers (λ a.
    if-cases (λ (b : SideAnswer). b.promoted ≡ true → active_at false b.thread_id s.threads ≡ true)
      (active_at false a.thread_id s.threads) a (make_private a) (λ live _. live) (λ _ e. cc))

normalize-threads : (s : Session) → (normalize_answer_delivery s).threads ≡ s.threads
unfolding normalize_answer_delivery
normalize-threads s = refl

-- RepairInvalidOpenAnchors leaves no open thread whose anchor is invalid in the plan. It returns false
-- only where the session is as it was; where it returns true, only answers of active threads are
-- included.
pub repair_invalid_open_anchors-Repaired :
    (s : Session) → let (changed, u) = repair_invalid_open_anchors s in Repaired s changed u
unfolding repair_invalid_open_anchors
repair_invalid_open_anchors-Repaired s =
    let v = record s { threads = map (repair s.plan) s.threads } in
    let placed = All-of_map (IsPlaced s.plan) (repair s.plan) s.threads (repair-IsPlaced s.plan) in
    if-cases (λ (r : Bool × Session). Repaired s r.0 r.1) (some_needs_repair s.plan s.threads)
      (true, normalize_answer_delivery v) (false, v)
      (λ _. record {
        placed = subst (All (IsPlaced s.plan)) (sym (normalize-threads v)) placed;
        threads = normalize-threads v;
        unchanged = λ e. cc;
        delivered = λ _. normalize-delivered v;
      })
      (λ clear. record {
        placed = placed;
        threads = refl;
        unchanged = λ _.
            ap (λ (ts : List Thread). record s { threads = ts })
              (some_needs_repair-none s.plan s.threads clear);
        delivered = λ e. cc;
      })
