-- ===== src/Review/Compare/Between.antt =====
-- The loop over the parents of a revision ends, and finds the revisions between two.
use mathlib.Core.List.{map-append}
use planmaxx.Base.{
  append-nil, append_assoc, ℕ, zero, suc, ◌≡◌, ◌≢◌, ◌⊎◌, inl, inr, refl, ap, sym, ◌∙◌, Bool, true,
  false, Option, none, some, List, [], ◌∷◌, ◌++◌, ◌==◌, arith, contains, length, length-append,
  if◌then◌else◌, Bool-cases,
}
use planmaxx.Base.Text.{Text, text_comparable, text_eqb_iff}
use planmaxx.Base.Keys.{contains-append}
use planmaxx.Session.Types.{Revision, RevisionFeedback, Session}
use planmaxx.Session.Validate.Spec.{IsHistory, root, grow, IsValid, revision_ids}
use planmaxx.Review.Compare.{
  by_id, later_or, Walk, lost, unfinished, arrived, passing, walk, feedback_of, feedback_of_walk,
  feedback_between,
}

later_or-if :
    (b : Bool) (r : Revision) (x y : Option Revision)
    → later_or (if b then some r else x) y ≡ (if b then some r else later_or x y)
later_or-if true r x y = refl
later_or-if false r x y = refl

by_id-snoc :
    (k : Text) (xs : List Revision) (r : Revision)
    → by_id k (xs ++ r ∷ []) ≡ (if r.id == k then some r else by_id k xs)
unfolding by_id
by_id-snoc k [] r = refl
by_id-snoc k (x ∷ xs) r =
    rw (by_id-snoc k xs r)
      (later_or-if (r.id == k) r (by_id k xs) (if x.id == k then some x else none))

by_id-none :
    (k : Text) (rs : List Revision) → contains k (revision_ids rs) ≡ false → by_id k rs ≡ none
unfolding by_id contains
by_id-none k [] h = refl
by_id-none k (r ∷ rs) h =
    let here : (r.id == k) ≡ false = ground (arith, h) in
    rw (by_id-none k rs (ground (arith, h)), here) refl

-- No revision of a history has an empty id.
by_id-root : (rs : List Revision) → IsHistory rs → by_id [] rs ≡ none
by_id-root _ (root r named orphan first) =
    by_id-none [] (r ∷ []) (unfold contains in ground (arith, text_eqb_iff r.id [], named))
by_id-root qs (grow {rs} r hist named fresh parent source e) =
    let other : (r.id == []) ≡ false = ground (arith, text_eqb_iff r.id [], named) in
    rw (e, by_id-snoc [] rs r, other) (by_id-root rs hist)

abbrev Ended : Walk → Type 0
Ended w = w ≢ unfinished

abbrev round : Bool → Revision → Walk → Walk
round at_from r rest = if at_from then arrived [] else passing r rest

round-Ended : (b : Bool) (r : Revision) (w : Walk) → (b ≡ false → Ended w) → Ended (round b r w)
round-Ended true r w h = λ q. cc
round-Ended false r lost h = λ q. cc
round-Ended false r unfinished h = absurd (h refl refl)
round-Ended false r (arrived rs) h = λ q. cc

rest-Ended : (b : Bool) (r : Revision) (w : Walk) → Ended (round b r w) → b ≡ false → Ended w
rest-Ended true r w h q = absurd (cc)
rest-Ended false r w h q = λ e. h (rw e refl)

-- More rounds do not keep a loop from its end.
walk-more :
    (n : ℕ) (rs : List Revision) (from : Text) (c : Option Revision)
    → Ended (walk n rs from c)
    → Ended (walk (suc n) rs from c)
unfolding walk
walk-more n rs from none h = h
walk-more zero rs from (some r) h = round-Ended (r.id == from) r _ (λ q. absurd (h (rw q refl)))
walk-more (suc n) rs from (some r) h =
    round-Ended (r.id == from) r (walk (suc n) rs from (by_id r.parent_id rs)) (λ q.
      walk-more n rs from (by_id r.parent_id rs)
        (rest-Ended (r.id == from) r (walk n rs from (by_id r.parent_id rs)) h q))

-- What the whole list finds under an id of a part that it begins with, the part finds.
abbrev Same : List Revision → List Revision → Type 0
Same rs part = (k : Text) → contains k (revision_ids part) ≡ true → by_id k rs ≡ by_id k part

-- A revision that is new to a part has another id than those of the part.
other_id :
    (k : Text) (part : List Revision) (r : Revision)
    → contains r.id (revision_ids part) ≡ false
    → contains k (revision_ids part) ≡ true
    → (r.id == k) ≡ false
other_id k part r fresh q = elim (Bool-cases (r.id == k)) [
  | inl t ↦ let same : r.id ≡ k = (text_eqb_iff r.id k).0 t in absurd (cc (fresh, q, same))
  | inr f ↦ f
]

Same-before :
    (rs part qs : List Revision) (r : Revision)
    → qs ≡ part ++ r ∷ []
    → contains r.id (revision_ids part) ≡ false
    → Same rs qs
    → Same rs part
Same-before rs part qs r e fresh h k q =
    h k (
      rw
        (
          e,
          map-append (λ (p : Revision). p.id) part (r ∷ []),
          contains-append k (revision_ids part) (r.id ∷ []),
          q,
        )
        refl)
    ∙ rw (e, by_id-snoc k part r, other_id k part r fresh q) refl

in_part :
    (k : Text) (part : List Revision) (r : Revision) (qs : List Revision)
    → qs ≡ part ++ r ∷ []
    → (r.id == k) ≡ false
    → contains k (revision_ids qs) ≡ true
    → contains k (revision_ids part) ≡ true
in_part k part r qs e f q =
    unfold contains in
    ground (
      arith,
      f,
      q,
      ap (λ ps. contains k (revision_ids ps)) e,
      map-append (λ (p : Revision). p.id) part (r ∷ []),
      contains-append k (revision_ids part) (r.id ∷ []),
    )

parent_id-Ended :
    (rs : List Revision) (from : Text) (r : Revision)
    → by_id [] rs ≡ none
    → r.parent_id ≡ []
    → Ended (walk 1 rs from (some r))
unfolding walk
parent_id-Ended rs from r orphan h = round-Ended (r.id == from) r _ (λ q. rw (h, orphan) (λ e. cc))

walk-Ended_part :
    (rs part : List Revision) (from : Text) (k : Text)
    → by_id [] rs ≡ none
    → IsHistory part
    → Same rs part
    → contains k (revision_ids part) ≡ true
    → Ended (walk (length part) rs from (by_id k rs))
unfolding by_id contains walk
walk-Ended_part rs _ from k no_root (root r named orphan first) same q =
    let here : (r.id == k) ≡ true = ground (arith, q) in
    rw (same k q, here) (parent_id-Ended rs from r no_root orphan)
walk-Ended_part rs qs from k no_root (grow {rs = part} r hist named fresh parent source e) same q =
    let size : length qs ≡ suc (length part) =
      omega (arith, ap length e, length-append part (r ∷ [])) in
    let before = Same-before rs part qs r e fresh same in
    let found : by_id k rs ≡ (if r.id == k then some r else by_id k part) =
      same k q ∙ ap (by_id k) e ∙ by_id-snoc k part r in
    rw size (elim (Bool-cases (r.id == k)) [
      | inl t ↦
          rw (found, t)
            (round-Ended (r.id == from) r (walk (length part) rs from (by_id r.parent_id rs))
              (λ _. walk-Ended_part rs part from r.parent_id no_root hist before parent))
      | inr f ↦
          walk-more (length part) rs from (by_id k rs)
            (walk-Ended_part rs part from k no_root hist before (in_part k part r qs e f q))
    ])

-- On a history the loop ends after a round for each revision.
walk-Ended :
    (rs : List Revision) (from to : Text)
    → IsHistory rs
    → Ended (walk (length rs) rs from (by_id to rs))
unfolding walk
walk-Ended rs from to hist = elim (Bool-cases (contains to (revision_ids rs))) [
  | inl there ↦ walk-Ended_part rs rs from to (by_id-root rs hist) hist (λ k _. refl) there
  | inr missing ↦ rw (by_id-none to rs missing) (λ e. cc)
]

-- The revisions behind one up to another, the last first, each the parent of the one before.
pub data Between (rs : List Revision) (from : Text) : Text → List Revision → Type 0 where
  here :
      {to : Text} (r : Revision)
      → by_id to rs ≡ some r
      → (r.id == from) ≡ true
      → Between rs from to []
  behind :
      {to : Text} {qs : List Revision} (r : Revision)
      → by_id to rs ≡ some r
      → (r.id == from) ≡ false
      → Between rs from r.parent_id qs
      → Between rs from to (r ∷ qs)

same_revision : (a b : Revision) → some a ≡ some b → a ≡ b
same_revision a b h = cc

passing-arrived :
    (r : Revision) (w : Walk) (qs : List Revision)
    → passing r w ≡ arrived qs
    → (ps : List Revision) × (w ≡ arrived ps) × (qs ≡ r ∷ ps)
passing-arrived r lost qs h = absurd (cc)
passing-arrived r unfinished qs h = absurd (cc)
passing-arrived r (arrived ps) qs h = (ps, refl, sym (cc))

arrived_if :
    (b : Bool) (w : Walk) (qs : List Revision)
    → (if b then arrived [] else w) ≡ arrived qs
    → ((b ≡ true) × (qs ≡ [])) ⊎ ((b ≡ false) × (w ≡ arrived qs))
arrived_if true w qs h = inl (refl, sym (cc))
arrived_if false w qs h = inr (refl, h)

walk-Between :
    (n : ℕ) (rs : List Revision) (from to : Text) (c : Option Revision) (qs : List Revision)
    → by_id to rs ≡ c
    → walk n rs from c ≡ arrived qs
    → Between rs from to qs
unfolding walk
walk-Between n rs from to none qs e h = absurd (cc)
walk-Between zero rs from to (some r) qs e h = elim (arrived_if (r.id == from) _ qs h) [
  | inl (q, none_left) ↦ rw none_left (here r e q)
  | inr (q, more) ↦ absurd (cc)
]
walk-Between (suc n) rs from to (some r) qs e h = elim (arrived_if (r.id == from) _ qs h) [
  | inl (q, none_left) ↦ rw none_left (here r e q)
  | inr (q, more) ↦
      let (ps, rest, split) = passing-arrived r (walk n rs from (by_id r.parent_id rs)) qs more in
      rw split
        (behind r e q (walk-Between n rs from r.parent_id (by_id r.parent_id rs) ps refl rest))
]

-- What runs behind a walk that ends agrees with the relation.
Between-walk :
    (n : ℕ) (rs : List Revision) (from to : Text) (qs : List Revision)
    → Between rs from to qs
    → Ended (walk n rs from (by_id to rs))
    → walk n rs from (by_id to rs) ≡ arrived qs
unfolding walk
Between-walk zero rs from to _ (here r e q) h = rw (e, q) refl
Between-walk (suc n) rs from to _ (here r e q) h = rw (e, q) refl
Between-walk zero rs from to _ (behind r e q b) h = absurd (h (rw (e, q) refl))
Between-walk (suc n) rs from to _ (behind {qs} r e q b) h =
    let rest : Ended (walk n rs from (by_id r.parent_id rs)) =
      rest-Ended (r.id == from) r (walk n rs from (by_id r.parent_id rs))
        (λ z. h (ap (λ c. walk (suc n) rs from c) e ∙ z)) q in
    rw (e, q, Between-walk n rs from r.parent_id qs b rest) refl

-- The feedback of revisions, those of each in its place.
pub in_order : List Revision → List RevisionFeedback
in_order [] = []
in_order (r ∷ rs) = r.feedback ++ in_order rs

in_order-append : (xs ys : List Revision) → in_order (xs ++ ys) ≡ in_order xs ++ in_order ys
unfolding in_order
in_order-append [] ys = refl
in_order-append (x ∷ xs) ys =
    rw (in_order-append xs ys) (sym (append_assoc x.feedback (in_order xs) (in_order ys)))

-- The revisions of a list, the last one first.
abbrev oldest_first : List Revision → List Revision
oldest_first [] = []
oldest_first (r ∷ rs) = oldest_first rs ++ r ∷ []

feedback_of-in_order : (qs : List Revision) → feedback_of qs ≡ in_order (oldest_first qs)
unfolding feedback_of in_order
feedback_of-in_order [] = refl
feedback_of-in_order (r ∷ rs) =
    rw (in_order-append (oldest_first rs) (r ∷ []), feedback_of-in_order rs)
      (ap (λ fs. in_order (oldest_first rs) ++ fs) (sym (append-nil r.feedback)))

-- What revisionFeedbackBetween returns for a walk.
abbrev pub FeedbackOutcome : List Revision → Text → Text → Option (List RevisionFeedback) → Type 0
FeedbackOutcome rs from to result =
    ((qs : List Revision) × Between rs from to qs × (result ≡ some (in_order (oldest_first qs))))
    ⊎ (((qs : List Revision) → Between rs from to qs → ⊥) × (result ≡ some []))

walk-FeedbackOutcome :
    (rs : List Revision) (from to : Text) (w : Walk)
    → walk (length rs) rs from (by_id to rs) ≡ w
    → Ended w
    → FeedbackOutcome rs from to (feedback_of_walk w)
walk-FeedbackOutcome rs from to lost e h =
    inr (λ qs b. absurd (cc (e, Between-walk (length rs) rs from to qs b (rw e h))), refl)
walk-FeedbackOutcome rs from to unfinished e h = absurd (h refl)
walk-FeedbackOutcome rs from to (arrived qs) e h = inl (
  qs,
  walk-Between (length rs) rs from to (by_id to rs) qs refl e,
  ap (λ fs. some fs) (feedback_of-in_order qs),
)

-- On a valid session revisionFeedbackBetween ends. Where a chain of parents leads from the later
-- revision to the earlier one it returns the feedback of the revisions behind that, in the order in
-- which they came; where none does, no feedback.
pub feedback_between-FeedbackOutcome :
    (s : Session) (from to : Text)
    → IsValid s
    → FeedbackOutcome s.revisions from to (feedback_between s from to)
unfolding feedback_between
feedback_between-FeedbackOutcome s from to valid =
    walk-FeedbackOutcome s.revisions from to _ refl (walk-Ended s.revisions from to valid.history)
