-- ===== src/Diff/Rows.antt =====
-- The rows of a diff hold both texts, line by line and with their numbers.
use planmaxx.Base.{
  map-append, ℕ, suc, ◌+◌, ◌≤◌, ◌≡◌, refl, sym, ◌∙◌, ap, some, List, [], ◌∷◌, ◌++◌, arith, length,
  map, keep, not, ◌==◌, All, Bool, Bool-cases, inl, inr, nat_comparable,
}
use planmaxx.Base.Text.{Text, text_comparable, text_eqb, join_lines}
use planmaxx.Base.Lines.{join-split}
use planmaxx.Diff.{
  Line, Operation, diff_equal, diff_delete, diff_insert, Change, kind_add, kind_remove, change_rows,
  all_rows, line_of, lookup, lines, line_tokens, diff_lines_of,
}
use planmaxx.Diff.Tokens.{IsRune, rune_count, Spells, line_tokens-Spells}

-- The tokens of a change that stand in the text before, and in the text after.
abbrev pub before_part : Operation → List ℕ → List ℕ
before_part diff_equal ns = ns
before_part diff_delete ns = ns
before_part diff_insert ns = []

abbrev pub after_part : Operation → List ℕ → List ℕ
after_part diff_equal ns = ns
after_part diff_delete ns = []
after_part diff_insert ns = ns

abbrev pub before_side : List Change → List ℕ
before_side [] = []
before_side (c ∷ cs) = before_part c.type c.tokens ++ before_side cs

abbrev pub after_side : List Change → List ℕ
after_side [] = []
after_side (c ∷ cs) = after_part c.type c.tokens ++ after_side cs

-- The lines of the text before that the rows show, with their numbers; those of the text after.
abbrev pub before_rows : List Line → List (ℕ × Text)
before_rows rows = map (λ r. (r.before, r.text)) (keep (λ r. not (r.kind == kind_add)) rows)

abbrev pub after_rows : List Line → List (ℕ × Text)
after_rows rows = map (λ r. (r.after, r.text)) (keep (λ r. not (r.kind == kind_remove)) rows)

-- Lines numbered from a number on.
abbrev pub numbered : ℕ → List Text → List (ℕ × Text)
numbered n [] = []
numbered n (l ∷ ls) = (n, l) ∷ numbered (n + 1) ls

-- The rows show lines of both sides from two numbers on.
abbrev Shows : List Line → ℕ → ℕ → List Text → List Text → Type 0
Shows rows b a old new = (before_rows rows ≡ numbered b old) × (after_rows rows ≡ numbered a new)

abbrev decode : List (ℕ × Text) → List ℕ → List Text
decode table ns = map (line_of table) ns

change_rows-Shows :
    (table : List (ℕ × Text)) (op : Operation) (ns : List ℕ) (b a : ℕ)
    → let (rows, b', a') = change_rows table op ns b a in
      Shows rows b a (decode table (before_part op ns)) (decode table (after_part op ns))
      × (b' ≡ b + length (before_part op ns))
      × (a' ≡ a + length (after_part op ns))
unfolding change_rows text_eqb
change_rows-Shows table diff_equal [] b a = ((refl, refl), omega arith, omega arith)
change_rows-Shows table diff_delete [] b a = ((refl, refl), omega arith, omega arith)
change_rows-Shows table diff_insert [] b a = ((refl, refl), omega arith, omega arith)
change_rows-Shows table diff_equal (n ∷ ns) b a =
    let ((shows_b, shows_a), eb, ea) = change_rows-Shows table diff_equal ns (b + 1) (a + 1) in
    (
      (ap (λ l. (b, line_of table n) ∷ l) shows_b, ap (λ l. (a, line_of table n) ∷ l) shows_a),
      omega arith,
      omega arith,
    )
change_rows-Shows table diff_delete (n ∷ ns) b a =
    let ((shows_b, shows_a), eb, ea) = change_rows-Shows table diff_delete ns (b + 1) (a + 0) in
    ((ap (λ l. (b, line_of table n) ∷ l) shows_b, shows_a), omega arith, omega arith)
change_rows-Shows table diff_insert (n ∷ ns) b a =
    let ((shows_b, shows_a), eb, ea) = change_rows-Shows table diff_insert ns (b + 0) (a + 1) in
    ((shows_b, ap (λ l. (a, line_of table n) ∷ l) shows_a), omega arith, omega arith)

numbered-append :
    (n : ℕ) (xs ys : List Text)
    → numbered n (xs ++ ys) ≡ numbered n xs ++ numbered (n + length xs) ys
numbered-append n [] ys = ap (λ k. numbered k ys) (omega arith)
numbered-append n (x ∷ xs) ys =
    let same : n + 1 + length xs ≡ n + suc (length xs) = omega arith in
    ap (λ l. (n, x) ∷ l)
      (numbered-append (n + 1) xs ys ∙ ap (λ k. numbered (n + 1) xs ++ numbered k ys) same)

keep-append {ℓ} :
    {A : Type ℓ} (p : A → Bool) (xs ys : List A) → keep p (xs ++ ys) ≡ keep p xs ++ keep p ys
keep-append p [] ys = refl
keep-append p (x ∷ xs) ys = elim (Bool-cases (p x)) [
  | inl e ↦ rw e (ap (λ l. x ∷ l) (keep-append p xs ys))
  | inr e ↦ rw e (keep-append p xs ys)
]

length-map {ℓ κ} :
    {A : Type ℓ} {B : Type κ} (f : A → B) (xs : List A) → length (map f xs) ≡ length xs
length-map f [] = refl
length-map f (x ∷ xs) = ap suc (length-map f xs)

-- One side of two runs of rows: the numbers go on.
side-append :
    (table : List (ℕ × Text)) (kept : Line → Bool) (number : Line → ℕ) (r s : List Line) (n m : ℕ)
    (xs ys : List ℕ)
    → (map (λ l. (number l, l.text)) (keep kept r) ≡ numbered n (decode table xs))
    → m ≡ n + length xs
    → (map (λ l. (number l, l.text)) (keep kept s) ≡ numbered m (decode table ys))
    → map (λ l. (number l, l.text)) (keep kept (r ++ s)) ≡ numbered n (decode table (xs ++ ys))
side-append table kept number r s n m xs ys hr same hs =
    let f : Line → ℕ × Text = λ l. (number l, l.text) in
    let count : m ≡ n + length (decode table xs) = same ∙ ap (λ k. n + k) (sym (length-map _ xs)) in
    ap (map f) (keep-append kept r s)
    ∙ map-append f (keep kept r) (keep kept s)
    ∙ (λ i. hr i ++ hs i)
    ∙ ap (λ k. numbered n (decode table xs) ++ numbered k (decode table ys)) count
    ∙ sym (numbered-append n (decode table xs) (decode table ys))
    ∙ ap (numbered n) (sym (map-append (line_of table) xs ys))

all_rows-Shows :
    (table : List (ℕ × Text)) (cs : List Change) (b a : ℕ)
    → Shows
        (all_rows table cs b a)
        b
        a
        (decode table (before_side cs))
        (decode table (after_side cs))
unfolding all_rows
all_rows-Shows table [] b a = (refl, refl)
all_rows-Shows table (c ∷ cs) b a =
    let (rows, b', a') = change_rows table c.type c.tokens b a in
    let ((shows_b, shows_a), eb, ea) = change_rows-Shows table c.type c.tokens b a in
    let (later_b, later_a) = all_rows-Shows table cs b' a' in
    (
      side-append table (λ r. not (r.kind == kind_add)) (λ r. r.before) rows
          (all_rows table cs b' a') b b' (before_part c.type c.tokens) (before_side cs) shows_b eb
          later_b,
      side-append table (λ r. not (r.kind == kind_remove)) (λ r. r.after) rows
          (all_rows table cs b' a') a a' (after_part c.type c.tokens) (after_side cs) shows_a ea
          later_a,
    )

line_of-found :
    (table : List (ℕ × Text)) (n : ℕ) (l : Text) → lookup n table ≡ some l → line_of table n ≡ l
unfolding line_of
line_of-found table n l at = rw (at, line_of) refl

Spells-decode :
    (table : List (ℕ × Text)) (ns : List ℕ) (ls : List Text)
    → Spells table ns ls
    → decode table ns ≡ ls
Spells-decode table [] [] h = refl
Spells-decode table [] (l ∷ ls) h = absurd h
Spells-decode table (n ∷ ns) [] h = absurd h
Spells-decode table (n ∷ ns) (l ∷ ls) (at, h) =
    λ i. line_of-found table n l at i ∷ Spells-decode table ns ls h i

-- What the package go-diff promises for texts of runes: its equal and deleted parts spell the first
-- text, its equal and inserted parts the second.
abbrev pub IsDiff : (List ℕ → List ℕ → List Change) → Type 0
IsDiff diff =
    (b a : List ℕ)
    → All IsRune b
    → All IsRune a
    → (before_side (diff b a) ≡ b) × (after_side (diff b a) ≡ a)

-- The rows that are not added show the lines of the text before, in order and with the numbers
-- from 1 on; the rows that are not removed show those of the text after; as long as there are no
-- more lines than runes.
pub lines-Shows :
    (diff : List ℕ → List ℕ → List Change) (before after : Text)
    → IsDiff diff
    → length (diff_lines_of before) + length (diff_lines_of after) ≤ rune_count
    → (before_rows (lines diff before after) ≡ numbered 1 (diff_lines_of before))
      × (after_rows (lines diff before after) ≡ numbered 1 (diff_lines_of after))
unfolding lines
lines-Shows diff before after is_diff h =
    let old = diff_lines_of before in
    let new = diff_lines_of after in
    let (b, a, table) = line_tokens old new in
    let (runes, runes', spells, spells') = line_tokens-Spells old new h in
    let (side_b, side_a) = is_diff b a runes runes' in
    let (shows_b, shows_a) = all_rows-Shows table (diff b a) 1 1 in
    (
      shows_b ∙ ap (numbered 1) (ap (decode table) side_b ∙ Spells-decode table b old spells),
      shows_a ∙ ap (numbered 1) (ap (decode table) side_a ∙ Spells-decode table a new spells'),
    )

texts_numbered : (n : ℕ) (ls : List Text) → map (λ e. e.1) (numbered n ls) ≡ ls
texts_numbered n [] = refl
texts_numbered n (l ∷ ls) = ap (λ m. l ∷ m) (texts_numbered (n + 1) ls)

join-lines_of : (s : Text) → join_lines (diff_lines_of s) ≡ s
unfolding diff_lines_of text_eqb join_lines
join-lines_of [] = refl
join-lines_of (c ∷ s) = join-split (c ∷ s)

-- Both texts can be read back from the rows: the lines of the rows that are not added, joined, are
-- the text before, and those of the rows that are not removed are the text after.
pub lines_restore :
    (diff : List ℕ → List ℕ → List Change) (before after : Text)
    → IsDiff diff
    → length (diff_lines_of before) + length (diff_lines_of after) ≤ rune_count
    → (join_lines (map (λ e. e.1) (before_rows (lines diff before after))) ≡ before)
      × (join_lines (map (λ e. e.1) (after_rows (lines diff before after))) ≡ after)
lines_restore diff before after is_diff h =
    let (shows_b, shows_a) = lines-Shows diff before after is_diff h in
    let texts : (s : Text) → join_lines (map (λ e. e.1) (numbered 1 (diff_lines_of s))) ≡ s =
      λ s. ap join_lines (texts_numbered 1 (diff_lines_of s)) ∙ join-lines_of s in
    (
      ap (λ r. join_lines (map (λ e. e.1) r)) shows_b ∙ texts before,
      ap (λ r. join_lines (map (λ e. e.1) r)) shows_a ∙ texts after,
    )
