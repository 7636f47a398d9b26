-- ===== src/Session/Restore/Fresh.antt =====
-- The counters behind RestoreCounters bound the numbered ids, so that the next ids are new.
use planmaxx.Base.{
  ℕ, suc, ◌-◌, ◌^◌, ◌<◌, ◌≡◌, refl, sym, subst, inl, inr, false, Option, none, some, List, [], ◌∷◌,
  ◌++◌, ◌==◌, arith, All, contains, Bool-cases,
}
use planmaxx.Base.Int.{ℤ, pos, negsuc, ◌≤ℤ◌, ◌<ℤ◌, ◌+ℤ◌, to_int}
use planmaxx.Base.Text.{Text, text_comparable, text_eqb_iff, cut_prefix-append}
use planmaxx.Base.Decimal.{itoa, atoi-itoa}
use planmaxx.Session.Restore.{numbered_id, raise, max_numbered}

-- No id of a form has a number above the counter.
abbrev pub Bounded : Text → ℤ → List Text → Type 0
Bounded prefix counter = All (λ id. (n : ℤ) → numbered_id id prefix ≡ some n → n ≤ℤ counter)

pub Bounded-weaken :
    (prefix : Text) (a b : ℤ) (ids : List Text)
    → a ≤ℤ b
    → Bounded prefix a ids
    → Bounded prefix b ids
Bounded-weaken prefix a b [] le h = tt
Bounded-weaken prefix a b (id ∷ ids) le (h, hs) =
    (λ n at. let under = h n at in omega arith, Bounded-weaken prefix a b ids le hs)

pub raise_le : (m : ℤ) (o : Option ℤ) → m ≤ℤ raise m o
unfolding raise
raise_le m none = omega arith
raise_le m (some n) = ground arith

pub raise_some : (m n : ℤ) (o : Option ℤ) → o ≡ some n → n ≤ℤ raise m o
unfolding raise
raise_some m n o e = rw e (ground arith)

pub max_numbered-Bounded :
    (prefix : Text) (m : ℤ) (ids : List Text)
    → (m ≤ℤ max_numbered prefix m ids) × Bounded prefix (max_numbered prefix m ids) ids
unfolding max_numbered
max_numbered-Bounded prefix m [] = (omega arith, tt)
max_numbered-Bounded prefix m (id ∷ ids) =
    let o = numbered_id id prefix in
    let (le, rest) = max_numbered-Bounded prefix (raise m o) ids in
    let above = raise_le m o in
    (omega arith, ((λ n at. let under = raise_some m n o at in omega arith), rest))

pub numbered_id-itoa :
    (prefix : Text) (n : ℕ)
    → n < 2 ^ 63
    → numbered_id (prefix ++ itoa (pos n)) prefix ≡ some (pos n)
unfolding numbered_id
numbered_id-itoa prefix n h =
    rw (cut_prefix-append prefix (itoa (pos n)), numbered_id) (atoi-itoa n h)

pub next_pos : (c : ℕ) → c < 2 ^ 63 - 1 → pos c +ℤ pos 1 ≡ pos (suc c)
unfolding ◌+ℤ◌ to_int
next_pos c h = ground arith

numbered-new :
    (prefix : Text) (c : ℕ) (ids : List Text)
    → c < 2 ^ 63 - 1
    → Bounded prefix (pos c) ids
    → contains (prefix ++ itoa (pos (suc c))) ids ≡ false
unfolding contains
numbered-new prefix c [] hi h = refl
numbered-new prefix c (id ∷ ids) hi (h, hs) =
    let new = prefix ++ itoa (pos (suc c)) in
    elim (Bool-cases (id == new)) [
      | inl same ↦
          let is = sym ((text_eqb_iff id new).0 same) in
          let above = h (pos (suc c)) (
            subst (λ x. numbered_id x prefix ≡ some (pos (suc c))) is
              (numbered_id-itoa prefix (suc c) (omega arith))) in
          absurd (omega arith)
      | inr other ↦ ground (arith, other, numbered-new prefix c ids hi hs)
    ]

-- The id that is made from the counter and one is not among the ids that it bounds.
pub next_id-new :
    (prefix : Text) (counter : ℤ) (ids : List Text)
    → pos 0 ≤ℤ counter
    → counter <ℤ pos (2 ^ 63 - 1)
    → Bounded prefix counter ids
    → contains (prefix ++ itoa (counter +ℤ pos 1)) ids ≡ false
next_id-new prefix (negsuc c) ids lo hi h = absurd (omega arith)
next_id-new prefix (pos c) ids lo hi h =
    rw (next_pos c (omega arith)) (numbered-new prefix c ids (omega arith) h)
