-- ===== src/Patches/Resolve.antt =====
-- Resolve, trimTerminalDeletionDelimiter, fullLineDeletionOffsets and Apply of
-- internal/patches/hunks.go. sort.Slice is an insertion sort by the offset; two hunks at one
-- offset end in the error of an overlap in every order.
use planmaxx.Base.{
  ℕ, zero, suc, ◌+◌, ◌-◌, Bool, false, ◌&&◌, ◌||◌, not, none, some, List, [], ◌∷◌, ◌++◌, ◌==◌, ◌⊎◌,
  inl, inr, if◌then◌else◌, length, get_elem?, set, take, drop, ltb, leb, eqb,
}
use planmaxx.Base.Text.{Text, codes, text_comparable, has_prefix}
use planmaxx.Patches.Hunks.{Hunk, Resolved, bytes, newline_at, newline_before, resolve_hunk}

abbrev pub crlf : Text
crlf = 13 ∷ 10 ∷ []

-- start >= 2 && base[start-2:start] == "\r\n"
unfoldable pub crlf_before : Text → ℕ → Bool
crlf_before base start = leb 2 start && bytes base (start - 2) start == crlf

unfoldable pub is_full_line_deletion : Resolved → Bool
is_full_line_deletion r = r.hunk.target == codes "lines" && r.hunk.content == []

-- lineDelimiterEnd of fullLineDeletionOffsets
unfoldable pub delimiter_end : Text → ℕ → ℕ
delimiter_end base end =
    if has_prefix (drop end base) crlf
    then end + 2
    else if newline_at base end
    then end + 1
    else end

unfoldable pub full_line_deletion_offsets : Text → ℕ → ℕ → ℕ → ℕ × ℕ
unfolding delimiter_end crlf_before
full_line_deletion_offsets base start end lower_bound =
    let starts_at_line_boundary = eqb start 0 || newline_before base start in
    let line_delimiter_end = delimiter_end base end in
    let ends_at_line_boundary = eqb end (length base) || ltb end line_delimiter_end in
    if not starts_at_line_boundary || not ends_at_line_boundary
    then (start, end)
    else if ltb end line_delimiter_end
    then (start, line_delimiter_end)
    else if crlf_before base start && leb lower_bound (start - 2)
    then (start - 2, end)
    else if newline_before base start && leb lower_bound (start - 1)
    then (start - 1, end)
    else (start, end)

abbrev pub with_offsets : Resolved → ℕ × ℕ → Resolved
with_offsets r o = record r { start_offset = o.0; end_offset = o.1 }

unfoldable pub extend_deletion : Text → ℕ → Resolved → Resolved
unfolding is_full_line_deletion
extend_deletion base bound r =
    if is_full_line_deletion r
    then with_offsets r (full_line_deletion_offsets base r.start_offset r.end_offset bound)
    else r

-- The loop behind the sort; `bound` is the end of the hunk before, 0 for the first, which no
-- offset is below.
unfoldable pub adjust_hunks : Text → ℕ → List Resolved → Text ⊎ List Resolved
adjust_hunks base bound [] = inr []
adjust_hunks base bound (r ∷ rs) =
    let r' = extend_deletion base bound r in
    let rest = adjust_hunks base r'.end_offset rs in
    if ltb r'.start_offset bound
    then inl (codes "patch hunks overlap")
    else elim rest [ inl e ↦ inl e | inr rs' ↦ inr (r' ∷ rs') ]

-- The loop of trimTerminalDeletionDelimiter that looks for the first hunk of the group.
unfoldable pub group_start : List Resolved → ℕ → ℕ
unfolding is_full_line_deletion
group_start rs zero = zero
group_start rs (suc k) =
    let earlier = group_start rs k in
    elim (get_elem? rs k) [
      | none ↦ suc k
      | some a ↦ elim (get_elem? rs (suc k)) [
        | none ↦ suc k
        | some b ↦
            if is_full_line_deletion a && eqb a.end_offset b.start_offset then earlier else suc k
      ]
    ]

abbrev pub has_suffix : Text → Text → Bool
has_suffix s p = leb (length p) (length s) && drop (length s - length p) s == p

-- delimiterStart
unfoldable pub delimiter_start : Text → ℕ → ℕ
unfolding crlf_before
delimiter_start base start =
    if crlf_before base start
    then start - 2
    else if newline_before base start
    then start - 1
    else start

-- first > 0 && delimiterStart < resolved[first-1].EndOffset
unfoldable pub overlaps_previous : List Resolved → ℕ → ℕ → Bool
overlaps_previous rs zero d = false
overlaps_previous rs (suc k) d = elim (get_elem? rs k) [
  | none ↦ false
  | some p ↦ ltb d p.end_offset
]

-- The write to resolved[first] at the end of trimTerminalDeletionDelimiter.
unfoldable pub move_start : Text → List Resolved → ℕ → List Resolved
unfolding delimiter_start overlaps_previous
move_start base rs first = elim (get_elem? rs first) [
  | none ↦ rs
  | some r ↦
      let d = delimiter_start base r.start_offset in
      if eqb d r.start_offset || overlaps_previous rs first d
      then rs
      else set rs first (record r { start_offset = d })
]

-- trimTerminalDeletionDelimiter
unfoldable pub trim_terminal_deletion_delimiter : Text → List Resolved → List Resolved
unfolding is_full_line_deletion
trim_terminal_deletion_delimiter base [] = []
trim_terminal_deletion_delimiter base (r ∷ rs) =
    let resolved = r ∷ rs in
    let last = length rs in
    let first = group_start resolved last in
    elim (get_elem? resolved last) [
      | none ↦ resolved
      | some l ↦
          if not (is_full_line_deletion l) || not (eqb l.end_offset (length base))
          then resolved
          else if eqb first last
              || has_suffix l.hunk.expected (10 ∷ [])
              || not (has_suffix (take l.end_offset base) l.hunk.expected)
          then resolved
          else move_start base resolved first
    ]

-- sort.Slice by StartOffset
abbrev pub insert_by_offset : Resolved → List Resolved → List Resolved
insert_by_offset r [] = r ∷ []
insert_by_offset r (x ∷ xs) =
    if ltb x.start_offset r.start_offset then x ∷ insert_by_offset r xs else r ∷ x ∷ xs

abbrev pub sort_by_offset : List Resolved → List Resolved
sort_by_offset [] = []
sort_by_offset (r ∷ rs) = insert_by_offset r (sort_by_offset rs)

-- The loop over the hunks; the first error ends it.
unfoldable pub resolve_each : Text → List Hunk → Text ⊎ List Resolved
resolve_each base [] = inr []
resolve_each base (h ∷ hs) = elim (resolve_hunk base h) [
  | inl e ↦ inl e
  | inr c ↦ elim (resolve_each base hs) [ inl e ↦ inl e | inr cs ↦ inr (c ∷ cs) ]
]

unfoldable pub resolve : Text → List Hunk → Text ⊎ List Resolved
resolve base [] = inl (codes "patch has no hunks")
resolve base (h ∷ hs) = elim (resolve_each base (h ∷ hs)) [
  | inl e ↦ inl e
  | inr out ↦ elim (adjust_hunks base 0 (sort_by_offset out)) [
    | inl e ↦ inl e
    | inr rs ↦ inr (trim_terminal_deletion_delimiter base rs)
  ]
]

-- One round of Apply.
unfoldable pub apply_hunk : Text → Resolved → Text
apply_hunk base r = take r.start_offset base ++ r.hunk.content ++ drop r.end_offset base

-- Apply: from the last hunk to the first.
unfoldable pub apply : Text → List Resolved → Text
unfolding apply_hunk
apply base [] = base
apply base (r ∷ rs) = apply_hunk (apply base rs) r
