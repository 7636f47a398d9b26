-- ===== src/Base/Text.antt =====
-- Go strings as sequences of bytes, with what the program uses of the package strings.
use Prim.Native.Char.{code}
use Prim.Native.String.{String}
use planmaxx.Base.Tests.{eqb, if◌then◌else◌, Comparable}
use Prim.Native.Nat.{ℕ, suc, ◌+◌}
use mathlib.Core.Path.{◌≡◌, refl}
use mathlib.Core.Logic.{◌↔◌}
use mathlib.Core.Bool.{Bool, true, false, ◌&&◌}
use mathlib.Core.Option.{Option, none, some}
use mathlib.Core.Option
use mathlib.Core.List.{List, [], ◌∷◌, ◌++◌}
use native.Mathlib.Omega.{arith}

abbrev pub Text : Type 0
Text = List ℕ

-- The bytes of a literal in ASCII.
abbrev pub codes : String → Text
codes String.[] = []
codes (String.◌∷◌ c s) = code c ∷ codes s

unfoldable pub text_eqb : Text → Text → Bool
text_eqb [] [] = true
text_eqb [] (y ∷ ys) = false
text_eqb (x ∷ xs) [] = false
text_eqb (x ∷ xs) (y ∷ ys) = eqb x y && text_eqb xs ys

text_eqb→eq : (xs ys : Text) → text_eqb xs ys ≡ true → xs ≡ ys
unfolding text_eqb
text_eqb→eq [] [] h = refl
text_eqb→eq [] (y ∷ ys) h = cc
text_eqb→eq (x ∷ xs) [] h = cc
text_eqb→eq (x ∷ xs) (y ∷ ys) h = ground (arith, text_eqb→eq xs ys)

pub text_eqb_refl : (xs : Text) → text_eqb xs xs ≡ true
unfolding text_eqb
text_eqb_refl [] = refl
text_eqb_refl (x ∷ xs) = ground (arith, text_eqb_refl xs)

pub text_eqb_iff : (xs ys : Text) → (text_eqb xs ys ≡ true) ↔ (xs ≡ ys)
text_eqb_iff xs ys = (text_eqb→eq xs ys, λ e. rw e (text_eqb_refl ys))

instance abbrev pub text_comparable : Comparable Text
text_comparable = record { same = text_eqb; same_iff = text_eqb_iff }

-- strings.HasPrefix and strings.CutPrefix
unfoldable pub cut_prefix : Text → Text → Option Text
cut_prefix s [] = some s
cut_prefix [] (p ∷ ps) = none
cut_prefix (c ∷ s) (p ∷ ps) = if eqb c p then cut_prefix s ps else none

unfoldable pub has_prefix : Text → Text → Bool
unfolding cut_prefix
has_prefix s p = elim (cut_prefix s p) [ none ↦ false | some _ ↦ true ]

pub cut_prefix-append : (p s : Text) → cut_prefix (p ++ s) p ≡ some s
unfolding cut_prefix
cut_prefix-append [] s = refl
cut_prefix-append (c ∷ p) s = ground (arith, cut_prefix-append p s)

-- strings.Index: the offset of the first occurrence.
unfoldable pub index : Text → Text → Option ℕ
unfolding has_prefix
index [] sub = if has_prefix [] sub then some 0 else none
index (c ∷ s) sub =
    let rest = Option.map suc (index s sub) in if has_prefix (c ∷ s) sub then some 0 else rest

abbrev pub newline : ℕ
newline = 10

-- strings.Split(s, "\n"): always at least one line.
abbrev pub add_to_first : ℕ → List Text → List Text
add_to_first c [] = (c ∷ []) ∷ []
add_to_first c (l ∷ ls) = (c ∷ l) ∷ ls

unfoldable pub split_lines : Text → List Text
split_lines [] = [] ∷ []
split_lines (c ∷ s) =
    let rest = split_lines s in if eqb c newline then [] ∷ rest else add_to_first c rest

-- strings.Join(lines, "\n")
unfoldable pub join_lines : List Text → Text
join_lines [] = []
join_lines (l ∷ []) = l
join_lines (l ∷ m ∷ ls) = l ++ newline ∷ join_lines (m ∷ ls)

-- strings.Count(s, "\n")
unfoldable pub count_newlines : Text → ℕ
count_newlines [] = 0
count_newlines (c ∷ s) = (if eqb c newline then 1 else 0) + count_newlines s

-- What stands behind the last newline: s[strings.LastIndex(s, "\n")+1:]
unfoldable pub after_last_newline : Text → Text
after_last_newline [] = []
after_last_newline (c ∷ s) =
    if eqb c newline
    then after_last_newline s
    else if eqb (count_newlines s) 0
    then c ∷ s
    else after_last_newline s
