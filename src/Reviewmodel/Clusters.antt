-- ===== src/Reviewmodel/Clusters.antt =====
-- Rows and clusters of internal/reviewmodel/change.go: snapshot, normalizeNewlines, buildClusters,
-- and the loops of Build over rows and clusters.
use planmaxx.Base.{
  ℕ, zero, suc, ◌+◌, ◌-◌, Bool, true, false, ◌&&◌, ◌||◌, not, none, some, List, [], ◌∷◌, ◌++◌, ◌==◌,
  if◌then◌else◌, length, get_elem?, take, drop, ltb, leb, eqb,
}
use planmaxx.Base.Int.{pos}
use planmaxx.Base.Text.{Text, codes, text_comparable, newline, split_lines}
use planmaxx.Base.Utf8.{trim_space}
use planmaxx.Base.Decimal.{itoa}
use planmaxx.Diff.{Line, kind_context}
use planmaxx.Reviewmodel.Data.{DocumentSnapshot, ChangeRow, ChangeCluster}

starts_line : Text → Bool
starts_line [] = false
starts_line (c ∷ s) = eqb c newline

-- normalizeNewlines: the CR of every CR LF goes.
unfoldable pub normalize_newlines : Text → Text
unfolding starts_line
normalize_newlines [] = []
normalize_newlines (c ∷ s) =
    let rest = normalize_newlines s in if eqb c 13 && starts_line s then rest else c ∷ rest

-- strings.TrimSuffix(s, "\n"), with whether there is one
unfoldable pub cut_newline : Text → Bool × Text
cut_newline [] = (false, [])
cut_newline (c ∷ s) =
    let (terminal, logical) = cut_newline s in
    if s == []
    then if eqb c newline then (true, []) else (false, c ∷ [])
    else (terminal, c ∷ logical)

unfoldable pub snapshot : Text → Text → DocumentSnapshot
unfolding normalize_newlines cut_newline
snapshot format text =
    let (terminal, logical) = cut_newline (normalize_newlines text) in
    record {
      format = format;
      text = text;
      lines = if logical == [] then [] else split_lines logical;
      terminal_newline = terminal;
    }

-- The rows of Build, from an index on.
unfoldable pub rows_of : ℕ → List Line → List ChangeRow
rows_of index [] = []
rows_of index (l ∷ ls) =
    record {
      id = codes "row-" ++ itoa (pos (index + 1));
      index = index;
      kind = l.kind;
      before = l.before;
      after = l.after;
      text = l.text;
      cluster_id = [];
    }
    ∷ rows_of (index + 1) ls

abbrev pub is_context : ChangeRow → Bool
is_context r = r.kind == kind_context

-- i < len(rows) && rows[i].Kind != KindContext
unfoldable pub changed_at : List ChangeRow → ℕ → Bool
changed_at rows i = elim (get_elem? rows i) [ none ↦ false | some r ↦ not (is_context r) ]

-- i < len(rows) && rows[i] is a context row without text
unfoldable pub blank_at : List ChangeRow → ℕ → Bool
blank_at rows i = elim (get_elem? rows i) [
  | none ↦ false
  | some r ↦ is_context r && trim_space r.text == []
]

-- The loop that passes over blank context rows; no more rounds than rows.
unfoldable pub next_change : ℕ → List ChangeRow → ℕ → ℕ
unfolding blank_at
next_change zero rows i = i
next_change (suc rounds) rows i =
    let next = next_change rounds rows (i + 1) in if blank_at rows i then next else i

-- The loop that extends a cluster from its last row.
unfoldable pub cluster_end : ℕ → List ChangeRow → ℕ → ℕ
unfolding next_change changed_at
cluster_end zero rows end = end
cluster_end (suc rounds) rows end =
    let n = next_change (length rows) rows (end + 1) in
    let extended = cluster_end rounds rows (end + 1) in
    let bridged = cluster_end rounds rows n in
    if changed_at rows (end + 1) then extended else if changed_at rows n then bridged else end

unfoldable pub first_positive : ℕ → ℕ → ℕ
first_positive current candidate =
    if eqb current 0 || ltb candidate current then candidate else current

abbrev pub max_ℕ : ℕ → ℕ → ℕ
max_ℕ a b = if leb a b then b else a

-- One row of a cluster.
unfoldable pub extend_range : ChangeCluster → ChangeRow → ChangeCluster
unfolding first_positive
extend_range c r =
    let c' : ChangeCluster =
      if ltb 0 r.before
      then record c {
        before_start = first_positive c.before_start r.before;
        before_end = max_ℕ c.before_end r.before;
      }
      else c in
    if ltb 0 r.after
    then record c' {
      after_start = first_positive c'.after_start r.after;
      after_end = max_ℕ c'.after_end r.after;
    }
    else c'

-- The loop over the rows of a cluster.
unfoldable pub extend_ranges : ChangeCluster → List ChangeRow → ChangeCluster
extend_ranges c [] = c
extend_ranges c (r ∷ rs) = extend_ranges (extend_range c r) rs

abbrev pub new_cluster : ℕ → ℕ → ℕ → ChangeCluster
new_cluster number start end = record {
  id = codes "cluster-" ++ itoa (pos number);
  first_row = start;
  last_row = end;
  before_start = 0;
  before_end = 0;
  after_start = 0;
  after_end = 0;
}

unfoldable pub cluster_of : List ChangeRow → ℕ → ℕ → ℕ → ChangeCluster
cluster_of rows number start end =
    extend_ranges (new_cluster number start end) (take (end + 1 - start) (drop start rows))

-- The outer loop of buildClusters, from an index and with the number of the next cluster.
unfoldable pub clusters_from : ℕ → List ChangeRow → ℕ → ℕ → List ChangeCluster
clusters_from zero rows index number = []
clusters_from (suc rounds) rows index number =
    let end = cluster_end (length rows) rows index in
    let skipped = clusters_from rounds rows (index + 1) number in
    let later = clusters_from rounds rows (end + 1) (number + 1) in
    if leb (length rows) index
    then []
    else if changed_at rows index
    then cluster_of rows number index end ∷ later
    else skipped

-- buildClusters: every round moves the index forward.
unfoldable pub build_clusters : List ChangeRow → List ChangeCluster
unfolding clusters_from
build_clusters rows = clusters_from (length rows) rows 0 1

-- view.Rows[index].ClusterID = cluster.ID, from a position on
unfoldable pub mark_rows : ℕ → ChangeCluster → List ChangeRow → List ChangeRow
mark_rows i c [] = []
mark_rows i c (r ∷ rs) =
    (if leb c.first_row i && leb i c.last_row then record r { cluster_id = c.id } else r)
    ∷ mark_rows (i + 1) c rs

unfoldable pub mark_clusters : List ChangeCluster → List ChangeRow → List ChangeRow
unfolding mark_rows
mark_clusters [] rows = rows
mark_clusters (c ∷ cs) rows = mark_clusters cs (mark_rows 0 c rows)
