-- ===== src/Reviewmodel/Cover.antt =====
-- The clusters cover the changed rows.
use planmaxx.Base.{
  ℕ, zero, suc, ◌+◌, ◌-◌, take, drop, ◌≤◌, ◌<◌, ◌≡◌, refl, sym, subst, ◌∙◌, ap, true, false, List,
  [], ◌∷◌, inl, inr, arith, length, ltb, leb, leb→le, Bool-cases, if-cases,
}
use native.Mathlib.Decide.{ℕ_discrete}
use planmaxx.Reviewmodel.Data.{ChangeRow, ChangeCluster}
use planmaxx.Reviewmodel.Clusters.{
  changed_at, blank_at, next_change, cluster_end, extend_range, extend_ranges, new_cluster,
  cluster_of, clusters_from, build_clusters,
}

changed_at-inside : (rows : List ChangeRow) (i : ℕ) → changed_at rows i ≡ true → i < length rows
unfolding changed_at
changed_at-inside [] i h = cc
changed_at-inside (r ∷ rows) zero h = omega arith
changed_at-inside (r ∷ rows) (suc i) h = let inside = changed_at-inside rows i h in omega arith

next_change-blank :
    (rounds : ℕ) (rows : List ChangeRow) (i : ℕ)
    → (i ≤ next_change rounds rows i)
      × ((j : ℕ) → i ≤ j → j < next_change rounds rows i → blank_at rows j ≡ true)
unfolding next_change
next_change-blank zero rows i = (omega arith, λ j lo hi. absurd (omega arith))
next_change-blank (suc rounds) rows i =
    let (le, blank) = next_change-blank rounds rows (i + 1) in
    if-cases (λ n. (i ≤ n) × ((j : ℕ) → i ≤ j → j < n → blank_at rows j ≡ true)) (blank_at rows i) _
      _
      (λ here. (
        omega arith,
        λ j lo hi. elim (ℕ_discrete j i) [
          | yes same ↦ subst (λ k. blank_at rows k ≡ true) (sym same) here
          | no other ↦ blank j (omega arith) hi
        ],
      ))
      (λ _. (omega arith, λ j lo hi. absurd (omega arith)))

-- A run of rows from one to another: both changed, and what is not changed between them is blank.
abbrev pub IsRun : List ChangeRow → ℕ → ℕ → Type 0
IsRun rows start end =
    (start ≤ end)
    × (changed_at rows end ≡ true)
    × ((i : ℕ) → start ≤ i → i ≤ end → changed_at rows i ≡ false → blank_at rows i ≡ true)

IsRun-one : (rows : List ChangeRow) (i : ℕ) → changed_at rows i ≡ true → IsRun rows i i
IsRun-one rows i h = (
  omega arith,
  h,
  λ j lo hi miss. let same : j ≡ i = omega arith in cc (miss, h, ap (changed_at rows) same),
)

-- A run goes on over blank rows.
IsRun-join :
    (rows : List ChangeRow) (start mid end : ℕ)
    → changed_at rows start ≡ true
    → start < mid
    → ((j : ℕ) → start < j → j < mid → blank_at rows j ≡ true)
    → IsRun rows mid end
    → IsRun rows start end
IsRun-join rows start mid end h lt gap (le, last, run) = (
  omega arith,
  last,
  λ i lo hi miss. elim (ℕ_discrete i start) [
    | yes same ↦ cc (miss, h, ap (changed_at rows) same)
    | no other ↦ elim (Bool-cases (ltb i mid)) [
      | inl before ↦ gap i (omega arith) (ground arith)
      | inr behind ↦ run i (ground arith) hi miss
    ]
  ],
)

cluster_end-IsRun :
    (rounds : ℕ) (rows : List ChangeRow) (start : ℕ)
    → changed_at rows start ≡ true
    → IsRun rows start (cluster_end rounds rows start)
unfolding cluster_end
cluster_end-IsRun zero rows start h = IsRun-one rows start h
cluster_end-IsRun (suc rounds) rows start h =
    let n = next_change (length rows) rows (start + 1) in
    let (le, blank) = next_change-blank (length rows) rows (start + 1) in
    if-cases (IsRun rows start) (changed_at rows (start + 1)) _ _
      (λ next.
        IsRun-join rows start (start + 1) _ h (omega arith) (λ j lo hi. absurd (omega arith))
          (cluster_end-IsRun rounds rows (start + 1) next))
      (λ _.
        if-cases (IsRun rows start) (changed_at rows n) _ _
          (λ next.
            IsRun-join rows start n _ h (omega arith) (λ j lo hi. blank j (omega arith) hi)
              (cluster_end-IsRun rounds rows n next))
          (λ _. IsRun-one rows start h))

-- From an index on, every changed row stands in one of the clusters, which are runs of rows, one
-- behind the other.
abbrev pub Covers : List ChangeRow → ℕ → List ChangeCluster → Type 0
Covers rows from [] = (i : ℕ) → from ≤ i → changed_at rows i ≡ false
Covers rows from (c ∷ cs) =
    (from ≤ c.first_row)
    × ((i : ℕ) → from ≤ i → i < c.first_row → changed_at rows i ≡ false)
    × (changed_at rows c.first_row ≡ true)
    × IsRun rows c.first_row c.last_row
    × Covers rows (c.last_row + 1) cs

Covers-skip :
    (rows : List ChangeRow) (i : ℕ) (cs : List ChangeCluster)
    → changed_at rows i ≡ false
    → Covers rows (i + 1) cs
    → Covers rows i cs
Covers-skip rows i [] miss h = λ j lo. elim (ℕ_discrete j i) [
  | yes same ↦ ap (changed_at rows) same ∙ miss
  | no other ↦ h j (omega arith)
]
Covers-skip rows i (c ∷ cs) miss (lo, gap, first, run, rest) = (
  omega arith,
  (λ j from hi. elim (ℕ_discrete j i) [
    | yes same ↦ ap (changed_at rows) same ∙ miss
    | no other ↦ gap j (omega arith) hi
  ]),
  first,
  run,
  rest,
)

extend_range-rows :
    (c : ChangeCluster) (r : ChangeRow)
    → ((extend_range c r).first_row ≡ c.first_row) × ((extend_range c r).last_row ≡ c.last_row)
unfolding extend_range
extend_range-rows c r = ground arith

extend-rows :
    (rs : List ChangeRow) (c : ChangeCluster)
    → ((extend_ranges c rs).first_row ≡ c.first_row) × ((extend_ranges c rs).last_row ≡ c.last_row)
unfolding extend_ranges
extend-rows [] c = (refl, refl)
extend-rows (r ∷ rs) c =
    let (first, last) = extend-rows rs (extend_range c r) in
    let both = extend_range-rows c r in (first ∙ both.0, last ∙ both.1)

cluster_of-rows :
    (rows : List ChangeRow) (number start end : ℕ)
    → ((cluster_of rows number start end).first_row ≡ start)
      × ((cluster_of rows number start end).last_row ≡ end)
unfolding cluster_of
cluster_of-rows rows number start end =
    extend-rows (take (end + 1 - start) (drop start rows)) (new_cluster number start end)

Covers-cluster :
    (rows : List ChangeRow) (number start end : ℕ) (cs : List ChangeCluster)
    → changed_at rows start ≡ true
    → IsRun rows start end
    → Covers rows (end + 1) cs
    → Covers rows start (cluster_of rows number start end ∷ cs)
Covers-cluster rows number start end cs h run rest =
    let (first, last) = cluster_of-rows rows number start end in
    (
      omega arith,
      (λ i lo hi. absurd (omega arith)),
      subst (λ i. changed_at rows i ≡ true) (sym first) h,
      subst (λ i. IsRun rows i (cluster_of rows number start end).last_row) (sym first)
          (subst (IsRun rows start) (sym last) run),
      subst (λ i. Covers rows (i + 1) cs) (sym last) rest,
    )

clusters_from-Covers :
    (rounds : ℕ) (rows : List ChangeRow) (index number : ℕ)
    → length rows ≤ index + rounds
    → Covers rows index (clusters_from rounds rows index number)
unfolding clusters_from
clusters_from-Covers zero rows index number enough = λ i lo. elim (Bool-cases (changed_at rows i)) [
  | inr miss ↦ miss
  | inl h ↦ absurd (omega (arith, changed_at-inside rows i h))
]
clusters_from-Covers (suc rounds) rows index number enough =
    let end = cluster_end (length rows) rows index in
    if-cases (Covers rows index) (leb (length rows) index) _ _
      (λ out i lo. elim (Bool-cases (changed_at rows i)) [
        | inr miss ↦ miss
        | inl h ↦ absurd (omega (arith, changed_at-inside rows i h, leb→le (length rows) index out))
      ])
      (λ _.
        if-cases (Covers rows index) (changed_at rows index) _ _
          (λ h.
            let run = cluster_end-IsRun (length rows) rows index h in
            Covers-cluster rows number index end _ h run
              (clusters_from-Covers rounds rows (end + 1) (number + 1) (omega arith)))
          (λ miss.
            Covers-skip rows index _ miss
              (clusters_from-Covers rounds rows (index + 1) number (omega arith))))

-- The clusters of buildClusters are runs of rows, one behind the other; each begins and ends with a
-- changed row, a row inside one that is not changed is blank, and every changed row stands in one.
pub build_clusters-Covers : (rows : List ChangeRow) → Covers rows 0 (build_clusters rows)
unfolding build_clusters
build_clusters-Covers rows = clusters_from-Covers (length rows) rows 0 1 (omega arith)
