-- ===== src/Diff.antt =====
-- The package internal/diff: the rows of a review diff. Lines are made into tokens, and the
-- package go-diff compares the token sequences; it is not part of the repository, and the model
-- takes its function diff_main_runes as a parameter. Tokens and Rows hold the proofs.
pub mod Tokens
pub mod Rows
mod Tests
use planmaxx.Base.{
  ℕ, ◌+◌, Option, none, some, List, [], ◌∷◌, ◌++◌, ◌==◌, Comparable, nat_comparable, if◌then◌else◌,
  eqb,
}
use planmaxx.Base.Text.{Text, codes, text_comparable, split_lines}

abbrev pub kind_context : Text
kind_context = codes "context"

abbrev pub kind_remove : Text
kind_remove = codes "remove"

abbrev pub kind_add : Text
kind_add = codes "add"

-- A number that is left out is 0.
pub record Line : Type 0 where
  pub kind : Text
  pub before : ℕ
  pub after : ℕ
  pub text : Text

-- The type and the text of a diff of go-diff; `for range` reads the runes of its text.
pub data Operation : Type 0 where
  diff_equal : Operation
  diff_delete : Operation
  diff_insert : Operation

pub record Change : Type 0 where
  pub type : Operation
  pub tokens : List ℕ

-- A map: the entry that was written last stands first.
abbrev pub lookup {ℓ} : {K V : Type ℓ} → ⦃c : Comparable K⦄ → K → List (K × V) → Option V
lookup k [] = none
lookup k (e ∷ m) = if k == e.0 then some e.1 else lookup k m

-- The variables of lineTokens that its function encode shares.
pub record Interned : Type 0 where
  pub by_line : List (Text × ℕ)
  pub by_token : List (ℕ × Text)
  pub next : ℕ

-- The token of a line that has none yet: surrogates are passed over.
unfoldable pub fresh_token : ℕ → ℕ
fresh_token next = if eqb next 0xD800 then 0xE000 else next

abbrev pub intern : Text → ℕ → Interned → Interned
intern line token t = record {
  by_line = (line, token) ∷ t.by_line;
  by_token = (token, line) ∷ t.by_token;
  next = token + 1;
}

-- encode: the tokens of some lines, and the variables behind the loop.
unfoldable pub encode : List Text → Interned → List ℕ × Interned
encode [] t = ([], t)
encode (line ∷ source) t =
    let token = fresh_token t.next in
    let known = encode source t in
    let new = encode source (intern line token t) in
    elim (lookup line t.by_line) [
      | some old ↦ (old ∷ known.0, known.1)
      | none ↦ (token ∷ new.0, new.1)
    ]

abbrev pub nothing_interned : Interned
nothing_interned = record { by_line = []; by_token = []; next = 1 }

-- lineTokens
unfoldable pub line_tokens : List Text → List Text → List ℕ × List ℕ × List (ℕ × Text)
line_tokens before after =
    let (before_tokens, t) = encode before nothing_interned in
    let (after_tokens, u) = encode after t in (before_tokens, after_tokens, u.by_token)

-- splitLines
unfoldable pub diff_lines_of : Text → List Text
diff_lines_of s = if s == [] then [] else split_lines s

-- lines[token], the empty text for a token that no line has
unfoldable pub line_of : List (ℕ × Text) → ℕ → Text
line_of table token = elim (lookup token table) [ none ↦ [] | some line ↦ line ]

-- The row of a token.
abbrev pub row_of : Operation → ℕ → ℕ → Text → Line
row_of diff_equal b a line = record { kind = kind_context; before = b; after = a; text = line }
row_of diff_delete b a line = record { kind = kind_remove; before = b; after = 0; text = line }
row_of diff_insert b a line = record { kind = kind_add; before = 0; after = a; text = line }

abbrev pub in_before : Operation → ℕ
in_before diff_equal = 1
in_before diff_delete = 1
in_before diff_insert = 0

abbrev pub in_after : Operation → ℕ
in_after diff_equal = 1
in_after diff_delete = 0
in_after diff_insert = 1

-- The inner loop of Lines, with beforeNumber and afterNumber.
unfoldable pub change_rows : List (ℕ × Text) → Operation → List ℕ → ℕ → ℕ → List Line × ℕ × ℕ
change_rows table op [] b a = ([], b, a)
change_rows table op (token ∷ tokens) b a =
    let (rows, b', a') = change_rows table op tokens (b + in_before op) (a + in_after op) in
    (row_of op b a (line_of table token) ∷ rows, b', a')

-- The outer loop of Lines.
unfoldable pub all_rows : List (ℕ × Text) → List Change → ℕ → ℕ → List Line
unfolding change_rows
all_rows table [] b a = []
all_rows table (c ∷ cs) b a =
    let (rows, b', a') = change_rows table c.type c.tokens b a in rows ++ all_rows table cs b' a'

-- Lines
unfoldable pub lines : (List ℕ → List ℕ → List Change) → Text → Text → List Line
lines diff_main_runes before after =
    let (before_tokens, after_tokens, table) =
      line_tokens (diff_lines_of before) (diff_lines_of after) in
    all_rows table (diff_main_runes before_tokens after_tokens) 1 1
