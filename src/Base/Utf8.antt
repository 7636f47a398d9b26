-- ===== src/Base/Utf8.antt =====
-- Runes of a Go string: decoding UTF-8 as `range` and []rune do, the lengths that
-- unicode/utf16 gives, and strings.TrimSpace.
use planmaxx.Base.Tests.{ltb, leb, eqb, if◌then◌else◌}
use planmaxx.Base.Lists.{length, drop}
use planmaxx.Base.Text.{Text}
use Prim.Native.Nat.{ℕ, zero, suc, ◌+◌, ◌-◌, ◌*◌}
use mathlib.Core.Bool.{Bool, ◌&&◌, ◌||◌}
use mathlib.Core.List.{List, [], ◌∷◌, reverse}

-- A decoded rune with its width in bytes; an invalid byte is U+FFFD of width 1.
pub record Rune : Type 0 where
  pub value : ℕ
  pub width : ℕ

abbrev invalid : Rune
invalid = record { value = 0xfffd; width = 1 }

abbrev within : ℕ → ℕ → ℕ → Bool
within lo hi b = leb lo b && leb b hi

-- The least and the greatest second byte behind a lead byte of three or four bytes.
second_low : ℕ → ℕ
second_low b = if eqb b 0xe0 then 0xa0 else if eqb b 0xf0 then 0x90 else 0x80

second_high : ℕ → ℕ
second_high b = if eqb b 0xed then 0x9f else if eqb b 0xf4 then 0x8f else 0xbf

decode_two : ℕ → Text → Rune
decode_two b [] = invalid
decode_two b (c ∷ s) =
    if within 0x80 0xbf c
    then record { value = (b - 0xc0) * 64 + (c - 0x80); width = 2 }
    else invalid

decode_three : ℕ → Text → Rune
unfolding second_low second_high
decode_three b [] = invalid
decode_three b (c ∷ []) = invalid
decode_three b (c ∷ d ∷ s) =
    if within (second_low b) (second_high b) c && within 0x80 0xbf d
    then record { value = (b - 0xe0) * 4096 + (c - 0x80) * 64 + (d - 0x80); width = 3 }
    else invalid

decode_four : ℕ → Text → Rune
unfolding second_low second_high
decode_four b [] = invalid
decode_four b (c ∷ []) = invalid
decode_four b (c ∷ d ∷ []) = invalid
decode_four b (c ∷ d ∷ e ∷ s) =
    if within (second_low b) (second_high b) c && within 0x80 0xbf d && within 0x80 0xbf e
    then record {
      value = (b - 0xf0) * 262144 + (c - 0x80) * 4096 + (d - 0x80) * 64 + (e - 0x80);
      width = 4;
    }
    else invalid

-- utf8.DecodeRuneInString of a text that begins with `b`.
decode_rune : ℕ → Text → Rune
unfolding decode_two decode_three decode_four
decode_rune b s =
    if ltb b 0x80
    then record { value = b; width = 1 }
    else if within 0xc2 0xdf b
    then decode_two b s
    else if within 0xe0 0xef b
    then decode_three b s
    else if within 0xf0 0xf4 b
    then decode_four b s
    else invalid

-- The runes of a text in order. `skip` counts the bytes of the last rune that are still unread.
runes_from : ℕ → Text → List Rune
unfolding decode_rune
runes_from skip [] = []
runes_from (suc skip) (b ∷ s) = runes_from skip s
runes_from zero (b ∷ s) = let r = decode_rune b s in r ∷ runes_from (r.width - 1) s

unfoldable pub runes : Text → List Rune
unfolding runes_from
runes s = runes_from 0 s

-- len(utf16.Encode([]rune{r}))
unfoldable pub units : Rune → ℕ
units r = if leb 0x10000 r.value then 2 else 1

unfoldable pub sum_units : List Rune → ℕ
unfolding units
sum_units [] = 0
sum_units (r ∷ rs) = units r + sum_units rs

-- unicode.IsSpace
unfoldable pub is_space : ℕ → Bool
is_space r =
    within 9 13 r
    || eqb r 32
    || eqb r 0x85
    || eqb r 0xa0
    || eqb r 0x1680
    || within 0x2000 0x200a r
    || within 0x2028 0x2029 r
    || eqb r 0x202f
    || eqb r 0x205f
    || eqb r 0x3000

-- The bytes that leading spaces take.
leading_space : List Rune → ℕ
unfolding is_space
leading_space [] = 0
leading_space (r ∷ rs) = if is_space r.value then r.width + leading_space rs else 0

keep_bytes : ℕ → Text → Text
keep_bytes zero s = []
keep_bytes (suc n) [] = []
keep_bytes (suc n) (c ∷ s) = c ∷ keep_bytes n s

-- strings.TrimSpace
unfoldable pub trim_space : Text → Text
unfolding leading_space keep_bytes runes
trim_space s =
    let t = drop (leading_space (runes s)) s in
    keep_bytes (length t - leading_space (reverse (runes t))) t
