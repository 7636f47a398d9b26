-- ===== src/Diff/Tokens.antt =====
-- lineTokens: the tokens of both texts are runes, and the table spells the lines from them.
use planmaxx.Base.{
  ℕ, suc, ◌+◌, ◌≤◌, ◌<◌, ◌≡◌, refl, sym, subst, ◌∙◌, ap, inl, inr, ◌⊎◌, some, none, List, [], ◌∷◌,
  arith, length, eqb, eqb_iff, All, Option-cases, Bool-cases, false, Comparable, nat_comparable,
}
use planmaxx.Base.Text.{Text, text_comparable}
use planmaxx.Diff.{Interned, lookup, intern, fresh_token, encode, nothing_interned, line_tokens}

-- A code point that a string can hold.
abbrev pub IsRune : ℕ → Type 0
IsRune t = (t < 0xD800) ⊎ ((0xE000 ≤ t) × (t < 0x110000))

-- How many there are.
abbrev pub rune_count : ℕ
rune_count = 1112063

-- The tokens that a number of lines can have used.
abbrev InRange : ℕ → ℕ → Type 0
InRange k next = ((next ≤ k + 1) × (next ≤ 0xD800)) ⊎ ((0xE000 ≤ next) × (next ≤ k + 0x801))

fresh_token-IsRune : (k next : ℕ) → InRange k next → k < rune_count → IsRune (fresh_token next)
unfolding fresh_token
fresh_token-IsRune k next r h = ground arith

fresh_token-InRange : (k next : ℕ) → InRange k next → InRange (suc k) (fresh_token next + 1)
unfolding fresh_token
fresh_token-InRange k next r = ground arith

fresh_token_le : (next : ℕ) → next ≤ fresh_token next
unfolding fresh_token
fresh_token_le next = ground arith

-- The two maps agree, and no token from `next` on is used.
abbrev Consistent : ℕ → Interned → Type 0
Consistent k t =
    ((l : Text) (n : ℕ) → lookup l t.by_line ≡ some n → (lookup n t.by_token ≡ some l) × IsRune n)
    × ((n : ℕ) → t.next ≤ n → lookup n t.by_token ≡ none)
    × InRange k t.next

abbrev Keeps : List (ℕ × Text) → List (ℕ × Text) → Type 0
Keeps table table' = (n : ℕ) (l : Text) → lookup n table ≡ some l → lookup n table' ≡ some l

intern-Keeps :
    (k : ℕ) (line : Text) (t : Interned)
    → Consistent k t
    → Keeps t.by_token (intern line (fresh_token t.next) t).by_token
intern-Keeps k line t (known, fresh, range) n l h = elim (Bool-cases (eqb n (fresh_token t.next))) [
  | inl same ↦
      let same' = (eqb_iff n (fresh_token t.next)).0 same in
      let absent = fresh n (omega (arith, same', fresh_token_le t.next)) in cc (absent, h)
  | inr other ↦ rw other h
]

-- The entry that is new, and the ones before it.
lookup-new :
    {K V : Type 0} ⦃c : Comparable K⦄ (k k' : K) (v w : V) (m : List (K × V))
    → lookup k ((k', v) ∷ m) ≡ some w
    → ((k ≡ k') × (v ≡ w)) ⊎ (lookup k m ≡ some w)
lookup-new ⦃c⦄ k k' v w m h = ground (arith, c.same_iff k k')

lookup-same : (n : ℕ) (l : Text) (m : List (ℕ × Text)) → lookup n ((n, l) ∷ m) ≡ some l
lookup-same n l m = rw ((eqb_iff n n).1 refl) refl

intern-Consistent :
    (k : ℕ) (line : Text) (t : Interned)
    → Consistent k t
    → k < rune_count
    → Consistent (suc k) (intern line (fresh_token t.next) t)
intern-Consistent k line t (known, fresh, range) h =
    let token = fresh_token t.next in
    (
      λ l n found. elim (lookup-new l line token n t.by_line found) [
        | inl (same, at) ↦
            subst (λ m. (lookup m ((token, line) ∷ t.by_token) ≡ some l) × IsRune m) at
              (
                lookup-same token line t.by_token ∙ ap some (sym same),
                fresh_token-IsRune k t.next range h,
              )
        | inr before ↦
            let (at, is_rune) = known l n before in
            (intern-Keeps k line t (known, fresh, range) n l at, is_rune)
      ],
      λ n le.
          let above = fresh_token_le t.next in
          let other : eqb n token ≡ false = ground arith in rw other (fresh n (omega arith)),
      fresh_token-InRange k t.next range,
    )

-- Tokens that a table spells as lines.
abbrev pub Spells : List (ℕ × Text) → List ℕ → List Text → Type 0
Spells table [] [] = Unit
Spells table [] (l ∷ ls) = ⊥
Spells table (n ∷ ns) [] = ⊥
Spells table (n ∷ ns) (l ∷ ls) = (lookup n table ≡ some l) × Spells table ns ls

Keeps-Spells :
    (table table' : List (ℕ × Text)) (ns : List ℕ) (ls : List Text)
    → Keeps table table'
    → Spells table ns ls
    → Spells table' ns ls
Keeps-Spells table table' [] [] keeps h = tt
Keeps-Spells table table' [] (l ∷ ls) keeps h = absurd h
Keeps-Spells table table' (n ∷ ns) [] keeps h = absurd h
Keeps-Spells table table' (n ∷ ns) (l ∷ ls) keeps (at, h) =
    (keeps n l at, Keeps-Spells table table' ns ls keeps h)

-- What encode leaves of the variables, and what it returns.
abbrev Encoded : ℕ → List Text → Interned → List ℕ × Interned → Type 0
Encoded k source t r =
    Consistent k r.1
    × Keeps t.by_token r.1.by_token
    × All IsRune r.0
    × Spells r.1.by_token r.0 source

encode-known :
    (line : Text) (source : List Text) (t : Interned) (n : ℕ)
    → lookup line t.by_line ≡ some n
    → encode (line ∷ source) t ≡ (n ∷ (encode source t).0, (encode source t).1)
unfolding encode
encode-known line source t n e = rw (e, encode) refl

encode-new :
    (line : Text) (source : List Text) (t : Interned)
    → lookup line t.by_line ≡ none
    → let new = encode source (intern line (fresh_token t.next) t) in
      encode (line ∷ source) t ≡ (fresh_token t.next ∷ new.0, new.1)
unfolding encode
encode-new line source t e = rw (e, encode) refl

-- More room for tokens.
Consistent-weaken : (k : ℕ) (t : Interned) → Consistent k t → Consistent (suc k) t
Consistent-weaken k t (known, fresh, range) = (known, fresh, ground arith)

pub encode-Encoded :
    (source : List Text) (k : ℕ) (t : Interned)
    → Consistent k t
    → k + length source ≤ rune_count
    → Encoded (k + length source) source t (encode source t)
encode-Encoded [] k t c h =
    unfold encode in (subst (λ n. Consistent n t) (omega arith) c, (λ n l e. e), tt, tt)
encode-Encoded (line ∷ source) k t c h =
    let count : suc k + length source ≡ k + length (line ∷ source) = omega arith in
    elim (Option-cases (lookup line t.by_line)) [
      | inr (n, e) ↦
          let (at, is_rune) = c.0 line n e in
          let (c', keeps, runes, spells) =
            encode-Encoded source (suc k) t (Consistent-weaken k t c) (omega arith) in
          rw (encode-known line source t n e) (
            subst (λ m. Consistent m (encode source t).1) count c',
            keeps,
            (is_rune, runes),
            (keeps n line at, spells),
          )
      | inl e ↦
          let token = fresh_token t.next in
          let u = intern line token t in
          let (c', keeps, runes, spells) =
            encode-Encoded source (suc k) u (intern-Consistent k line t c (omega arith))
              (omega arith) in
          let is_rune = fresh_token-IsRune k t.next c.2 (omega arith) in
          rw (encode-new line source t e) (
            subst (λ m. Consistent m (encode source u).1) count c',
            (λ n l at. keeps n l (intern-Keeps k line t c n l at)),
            (is_rune, runes),
            (keeps token line (lookup-same token line t.by_token), spells),
          )
    ]

nothing-Consistent : Consistent 0 nothing_interned
nothing-Consistent = ((λ l n e. cc), (λ n le. refl), ground arith)

-- The tokens of both texts are runes, and the table spells the lines of both.
pub line_tokens-Spells :
    (before after : List Text)
    → length before + length after ≤ rune_count
    → let (b, a, table) = line_tokens before after in
      All IsRune b × All IsRune a × Spells table b before × Spells table a after
unfolding line_tokens
line_tokens-Spells before after h =
    let (c, _, runes, spells) =
      encode-Encoded before 0 nothing_interned nothing-Consistent (omega arith) in
    let t = (encode before nothing_interned).1 in
    let (_, keeps, runes', spells') = encode-Encoded after (0 + length before) t c (omega arith) in
    (runes, runes', Keeps-Spells t.by_token _ _ before keeps spells, spells')
