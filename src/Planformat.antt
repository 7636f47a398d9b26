-- ===== src/Planformat.antt =====
-- The format of a plan: internal/planformat/planformat.go.
use planmaxx.Base.{ℕ, ◌+◌, ◌||◌, ◌&&◌, [], ◌∷◌, map, ◌==◌, if◌then◌else◌, eqb, leb}
use planmaxx.Base.Text.{Text, codes, text_comparable}

abbrev pub markdown : Text
markdown = codes "markdown"

abbrev pub html : Text
html = codes "html"

-- filepath.Ext where the separator is a slash: the text from the last dot on behind the last slash.
ext_behind : Text → Text → Text
ext_behind found [] = found
ext_behind found (c ∷ s) =
    ext_behind (if eqb c b'/' then [] else if eqb c b'.' then c ∷ s else found) s

unfoldable pub ext : Text → Text
unfolding ext_behind
ext path = ext_behind [] path

-- strings.ToLower on ASCII; no other rune has a lower case among the letters of the extensions.
abbrev lower : ℕ → ℕ
lower c = if leb b'A' c && leb c b'Z' then c + 32 else c

unfoldable pub detect : Text → Text
unfolding ext
detect path =
    let e = map lower (ext path) in
    if e == codes ".html" || e == codes ".htm" then html else markdown

unfoldable pub normalize : Text → Text → Text
unfolding detect
normalize format path = if format == html || format == markdown then format else detect path
