-- ===== src/Session/Locate/Sound.antt =====
-- uniqueAnchorForText on full lines: the anchor selects the text, and no other full-line anchor
-- does.
use planmaxx.Base.{
  ℕ, zero, suc, ◌+◌, ◌-◌, ◌≤◌, ◌<◌, ◌≡◌, ◌≢◌, refl, sym, subst, ◌∙◌, ap, inl, inr, true, false,
  ◌||◌, Option, none, some, List, [], ◌∷◌, arith, length, take, drop, Bool-cases, All,
}
use planmaxx.Base.Int.{ℤ, pos, negsuc, ltb_ℤ, int_comparable}
use planmaxx.Base.Text.{
  Text, text_comparable, text_eqb_iff, split_lines, join_lines, count_newlines,
}
use planmaxx.Base.Lines.{
  IsLine, split-IsLine, length-split, count-join, count-before, All-take, length-take_le,
}
use planmaxx.Session.Types.{Anchor}
use planmaxx.Session.Locate.{
  slice, outside_lines, text_for_anchor, match_loop, unique_line_sequence_index, anchor_at,
  unique_anchor_for_text,
}
use planmaxx.Session.Locate.Unique.{match_loop-none}

abbrev pub IsFullLine : Anchor → Type 0
IsFullLine a = (a.start_char ≡ pos 0) × (a.end_char ≡ pos 0)

-- The search over the start lines.
abbrev search_lines : Text → Text → Option ℕ
search_lines plan selected =
    let lines = split_lines plan in
    let n = length (split_lines selected) in
    match_loop (suc (length lines) - n) 0 lines n selected none

-- The offset that is returned stands behind as many newlines as the start line says.
index_cases :
    (plan selected : Text) (i : ℕ)
    → unique_line_sequence_index plan selected ≡ some i
    → (at : ℕ) × (search_lines plan selected ≡ some at)
      × (i ≡ elim at [
        | zero ↦ 0
        | suc k ↦ length (join_lines (take (suc k) (split_lines plan))) + 1
      ])
unfolding unique_line_sequence_index
index_cases plan selected i e = ground arith

anchor_cases :
    (plan selected : Text) (original a : Anchor)
    → IsFullLine original
    → unique_anchor_for_text plan selected original ≡ some a
    → (selected ≢ [])
      × ((i : ℕ) × (unique_line_sequence_index plan selected ≡ some i)
          × (a ≡ record {
            start_line = pos (count_newlines (take i plan) + 1);
            start_char = pos 0;
            end_line = pos (count_newlines (take i plan) + 1 + count_newlines selected);
            end_char = pos 0;
          }))
unfolding unique_anchor_for_text anchor_at
anchor_cases plan selected original a (zs, ze) e = ground (arith, text_eqb_iff selected [], zs, ze)

abbrev line_range : ℕ → ℕ → Anchor
line_range p q = record {
  start_line = pos p;
  start_char = pos 0;
  end_line = pos q;
  end_char = pos 0;
}

suc-pred : (p : ℕ) → suc p - 1 ≡ p
suc-pred p = omega arith

-- What a full-line anchor selects inside the plan.
text_for_line_range :
    (plan : Text) (p q : ℕ)
    → suc p ≤ q
    → q ≤ length (split_lines plan)
    → text_for_anchor plan (line_range (suc p) q) ≡ join_lines (slice (split_lines plan) p q)
unfolding text_for_anchor
text_for_line_range plan p q lo hi = ground (arith, suc-pred p)

text_outside :
    (plan : Text) (p q : ℕ)
    → length (split_lines plan) < q
    → text_for_anchor plan (line_range p q) ≡ []
unfolding text_for_anchor
text_outside plan p q hi = ground arith

-- A match that the search finds: where it stands, and that no other run of lines matches.
search_cases :
    (plan selected : Text) (at : ℕ)
    → search_lines plan selected ≡ some at
    → (at + suc (count_newlines selected) ≤ length (split_lines plan))
      × (join_lines (slice (split_lines plan) at (at + suc (count_newlines selected))) ≡ selected)
      × ((p : ℕ)
          → p + suc (count_newlines selected) ≤ length (split_lines plan)
          → join_lines (slice (split_lines plan) p (p + suc (count_newlines selected))) ≡ selected
          → p ≡ at)
search_cases plan selected at e =
    let lines = split_lines plan in
    let n = length (split_lines selected) in
    let long = length-split selected in
    let (lo, hi, hit, others) = match_loop-none lines n selected (suc (length lines) - n) 0 at e in
    (
      omega arith,
      subst (λ m. join_lines (slice lines at (at + m)) ≡ selected) long
          ((text_eqb_iff (join_lines (slice lines at (at + n))) selected).0 hit),
      λ p inside same. others p (omega arith) (omega arith) (
          (text_eqb_iff (join_lines (slice lines p (p + n))) selected).1
            (subst (λ m. join_lines (slice lines p (p + m)) ≡ selected) (sym long) same)),
    )

count-nil : count_newlines [] ≡ 0
unfolding count_newlines
count-nil = refl

-- The offset of the line with a number stands behind as many newlines.
count-offset :
    (plan : Text) (at : ℕ)
    → at < length (split_lines plan)
    → count_newlines (
        take
          (elim at [ zero ↦ 0 | suc k ↦ length (join_lines (take (suc k) (split_lines plan))) + 1 ])
          plan)
      ≡ at
count-offset plan zero h = count-nil
count-offset plan (suc k) h = count-before k plan h

-- A line range that is not outside the lines.
inside_lines :
    (s e : ℤ) (n : ℕ)
    → (ltb_ℤ s (pos 1) || ltb_ℤ e s || ltb_ℤ (pos n) e) ≡ false
    → (p q : ℕ) × (s ≡ pos (suc p)) × (e ≡ pos q) × (suc p ≤ q) × (q ≤ n)
inside_lines (pos zero) e n h = ground arith
inside_lines (pos (suc p)) (pos q) n h = (p, q, refl, refl, ground arith, ground arith)
inside_lines (pos (suc p)) (negsuc q) n h = ground arith
inside_lines (negsuc p) e n h = ground arith

outside-nil :
    (plan : Text) (a : Anchor)
    → outside_lines a (split_lines plan) ≡ true
    → text_for_anchor plan a ≡ []
unfolding text_for_anchor
outside-nil plan a h = rw h refl

-- An anchor that selects something stands inside the plan.
inside_cases :
    (plan : Text) (a : Anchor)
    → IsFullLine a
    → text_for_anchor plan a ≢ []
    → (p q : ℕ) × (a ≡ line_range (suc p) q) × (suc p ≤ q) × (q ≤ length (split_lines plan))
inside_cases plan a (zs, ze) some_text = elim (Bool-cases (outside_lines a (split_lines plan))) [
  | inl out ↦ absurd (some_text (outside-nil plan a out))
  | inr h ↦
      let (p, q, es, ee, lo, hi) =
        inside_lines a.start_line a.end_line (length (split_lines plan)) h in
      (
        p,
        q,
        (λ i. record { start_line = es i; start_char = zs i; end_line = ee i; end_char = ze i }),
        lo,
        hi,
      )
]

-- A run of lines holds one newline less than it has lines.
count-slice :
    (p m : ℕ) (ls : List Text)
    → All IsLine ls
    → p + suc m ≤ length ls
    → count_newlines (join_lines (take (suc m) (drop p ls))) ≡ m
count-slice zero m [] v h = absurd (omega arith)
count-slice zero m (l ∷ ls) v h =
    count-join l (take m ls) (v.0, All-take IsLine m ls v.1) ∙ length-take_le m ls (omega arith)
count-slice (suc p) m [] v h = absurd (omega arith)
count-slice (suc p) m (l ∷ ls) v h = count-slice p m ls v.1 (omega arith)

-- An anchor on full lines that selects a text covers as many lines as the text has.
range-length :
    (plan selected : Text) (p q : ℕ)
    → suc p ≤ q
    → q ≤ length (split_lines plan)
    → join_lines (slice (split_lines plan) p q) ≡ selected
    → q ≡ p + suc (count_newlines selected)
range-length plan selected p q lo hi same =
    let m = q - suc p in
    let counted = count-slice p m (split_lines plan) (split-IsLine plan) (omega arith) in
    let width : q - p ≡ suc m = omega arith in
    let newlines : count_newlines selected ≡ m =
      subst (λ x. count_newlines x ≡ m) same
        (subst (λ k. count_newlines (join_lines (take k (drop p (split_lines plan)))) ≡ m)
          (sym width) counted) in
    omega arith

-- When uniqueAnchorForText relocates a selection of full lines, the anchor that it returns selects
-- exactly the text, and it is the only full-line anchor that does.
pub unique_anchor_for_text_unique :
    (plan selected : Text) (original a : Anchor)
    → IsFullLine original
    → unique_anchor_for_text plan selected original ≡ some a
    → (text_for_anchor plan a ≡ selected)
      × ((b : Anchor) → IsFullLine b → text_for_anchor plan b ≡ selected → b ≡ a)
unique_anchor_for_text_unique plan selected original a full e =
    let (some_text, (i, found, shape)) = anchor_cases plan selected original a full e in
    let (at, searched, offset) = index_cases plan selected i found in
    let (inside, spells, others) = search_cases plan selected at searched in
    let c = count_newlines selected in
    let start : count_newlines (take i plan) ≡ at =
      subst (λ k. count_newlines (take k plan) ≡ at) (sym offset)
        (count-offset plan at (omega arith)) in
    let first : count_newlines (take i plan) + 1 ≡ suc at = omega arith in
    let last : count_newlines (take i plan) + 1 + c ≡ at + suc c = omega arith in
    let placed : a ≡ line_range (suc at) (at + suc c) =
      shape ∙ (λ j. line_range (first j) (last j)) in
    (
      ap (text_for_anchor plan) placed
          ∙ text_for_line_range plan at (at + suc c) (omega arith) inside
          ∙ spells,
      λ b full_b same.
          let (p, q, shape_b, lo, hi) =
            inside_cases plan b full_b (λ z. some_text (sym same ∙ z)) in
          let text_b : join_lines (slice (split_lines plan) p q) ≡ selected =
            sym (text_for_line_range plan p q lo hi)
            ∙ ap (text_for_anchor plan) (sym shape_b)
            ∙ same in
          let wide = range-length plan selected p q lo hi text_b in
          let here =
            others p (omega arith)
              (subst (λ x. join_lines (slice (split_lines plan) p x) ≡ selected) wide text_b) in
          let end : q ≡ at + suc c = omega arith in
          shape_b ∙ (λ j. line_range (suc (here j)) (end j)) ∙ sym placed,
    )
