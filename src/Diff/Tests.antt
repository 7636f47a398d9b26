-- ===== src/Diff/Tests.antt =====
-- The rows of a small diff, with a comparison that deletes all and inserts all, and with one that
-- keeps a common first token; instances of the theorems.
use planmaxx.Base.{ℕ, ◌≡◌, refl, List, [], ◌∷◌, ◌++◌, append-nil, map, arith}
use planmaxx.Base.Text.{Text, codes, newline, text_eqb, join_lines, split_lines}
use planmaxx.Diff.{
  Change, diff_equal, diff_delete, diff_insert, kind_context, kind_remove, kind_add, lines,
  diff_lines_of, line_tokens, encode, fresh_token, all_rows, change_rows, line_of,
}
use planmaxx.Diff.Rows.{IsDiff, before_rows, after_rows, numbered, lines-Shows, lines_restore}

abbrev replace_all : List ℕ → List ℕ → List Change
replace_all b a =
    record { type = diff_delete; tokens = b } ∷ record { type = diff_insert; tokens = a } ∷ []

replace_all-IsDiff : IsDiff replace_all
replace_all-IsDiff b a _ _ = (append-nil b, append-nil a)

abbrev old_text : Text
old_text = codes "x" ++ newline ∷ codes "y"

abbrev new_text : Text
new_text = codes "x" ++ newline ∷ codes "z"

-- What go-diff returns for the tokens of these texts.
abbrev first_kept : List ℕ → List ℕ → List Change
first_kept b a =
    record { type = diff_equal; tokens = 1 ∷ [] }
    ∷ record { type = diff_delete; tokens = 2 ∷ [] }
    ∷ record { type = diff_insert; tokens = 3 ∷ [] }
    ∷ []

rows_of_two_lines :
    lines first_kept old_text new_text
    ≡ record { kind = kind_context; before = 1; after = 1; text = codes "x" }
      ∷ record { kind = kind_remove; before = 2; after = 0; text = codes "y" }
      ∷ record { kind = kind_add; before = 0; after = 2; text = codes "z" }
      ∷ []
unfolding lines diff_lines_of line_tokens encode fresh_token all_rows change_rows line_of text_eqb
    split_lines
rows_of_two_lines = refl

lines-Shows_example :
    (before_rows (lines replace_all old_text new_text) ≡ numbered 1 (diff_lines_of old_text))
    × (after_rows (lines replace_all old_text new_text) ≡ numbered 1 (diff_lines_of new_text))
unfolding diff_lines_of text_eqb split_lines
lines-Shows_example = lines-Shows replace_all old_text new_text replace_all-IsDiff (omega arith)

lines_restore_example :
    (join_lines (map (λ e. e.1) (before_rows (lines replace_all old_text new_text))) ≡ old_text)
    × (join_lines (map (λ e. e.1) (after_rows (lines replace_all old_text new_text))) ≡ new_text)
unfolding diff_lines_of text_eqb split_lines
lines_restore_example = lines_restore replace_all old_text new_text replace_all-IsDiff (omega arith)
