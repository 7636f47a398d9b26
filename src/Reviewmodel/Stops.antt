-- ===== src/Reviewmodel/Stops.antt =====
-- Placements, review stops and Build of internal/reviewmodel/change.go. A row index that starts at
-- -1 is an option; cloneFeedback copies values and is left out.
use planmaxx.Base.{
  ℕ, ◌+◌, Bool, ◌&&◌, ◌||◌, not, Option, none, some, List, [], ◌∷◌, ◌==◌, if◌then◌else◌, get_elem?,
  ltb,
}
use planmaxx.Base.Int.{ℤ, pos, ltb_ℤ, leb_ℤ, int_comparable}
use planmaxx.Base.Text.{Text, text_comparable}
use planmaxx.Session.Types.{Thread, RevisionFeedback}
use planmaxx.Diff.{kind_add, kind_remove}
use planmaxx.Reviewmodel.Data.{
  mode_proposal, mode_revision, ChangeRow, ChangeCluster, ThreadPlacement, FeedbackPlacement,
  ReviewStop,
}
use planmaxx.Reviewmodel.Clusters.{max_ℕ}

unfoldable pub overlaps : ℤ → ℤ → ℤ → ℤ → Bool
overlaps start end other_start other_end =
    ltb_ℤ (pos 0) start
    && leb_ℤ start end
    && ltb_ℤ (pos 0) other_start
    && leb_ℤ other_start other_end
    && leb_ℤ start other_end
    && leb_ℤ other_start end

-- rowIndex = max(rowIndex, n)
abbrev pub max_row : Option ℕ → ℕ → Option ℕ
max_row none n = some n
max_row (some m) n = some (max_ℕ m n)

-- The last row of the last cluster that a test finds.
unfoldable pub cluster_row : (ChangeCluster → Bool) → Option ℕ → List ChangeCluster → Option ℕ
cluster_row test found [] = found
cluster_row test found (c ∷ cs) =
    cluster_row test (if test c then max_row found c.last_row else found) cs

-- The index of the last row that a test finds, from an index on.
unfoldable pub last_row_of : (ChangeRow → Bool) → ℕ → Option ℕ → List ChangeRow → Option ℕ
last_row_of test i found [] = found
last_row_of test i found (r ∷ rs) = last_row_of test (i + 1) (if test r then some i else found) rs

abbrev or_else : Option ℕ → Option ℕ → Option ℕ
or_else none o = o
or_else (some n) o = some n

abbrev pub row_id_at : List ChangeRow → ℕ → Text
row_id_at rows i = elim (get_elem? rows i) [ none ↦ [] | some r ↦ r.id ]

-- mode == ModeRevision || (mode == ModeProposal && thread.RevisionID == targetID)
on_after : Text → Text → Thread → Bool
on_after mode target_id t =
    mode == mode_revision || (mode == mode_proposal && t.revision_id == target_id)

-- The test of a thread on a cluster, and on a row.
touches_thread : Bool → Thread → ChangeCluster → Bool
touches_thread after t c =
    let a = t.anchor in
    if after
    then overlaps a.start_line a.end_line (pos c.after_start) (pos c.after_end)
    else overlaps a.start_line a.end_line (pos c.before_start) (pos c.before_end)

shows_thread : Bool → Thread → ChangeRow → Bool
shows_thread after t r =
    if after
    then not (r.kind == kind_remove) && pos r.after == t.anchor.end_line
    else not (r.kind == kind_add) && pos r.before == t.anchor.end_line

unfoldable pub thread_row : Text → Text → List ChangeRow → List ChangeCluster → Thread → Option ℕ
unfolding on_after touches_thread shows_thread
thread_row mode target_id rows clusters t =
    let after = on_after mode target_id t in
    or_else (cluster_row (touches_thread after t) none clusters)
      (last_row_of (shows_thread after t) 0 none rows)

-- placeThreads
unfoldable pub place_threads :
    Text → Text → List Thread → List ChangeRow → List ChangeCluster → List ThreadPlacement
unfolding thread_row
place_threads mode target_id [] rows clusters = []
place_threads mode target_id (t ∷ ts) rows clusters =
    let rest = place_threads mode target_id ts rows clusters in
    elim (thread_row mode target_id rows clusters t) [
      | none ↦ rest
      | some i ↦ record { thread_id = t.id; row_id = row_id_at rows i; row_index = i } ∷ rest
    ]

touches_feedback : RevisionFeedback → ChangeCluster → Bool
touches_feedback f c =
    overlaps f.anchor.start_line f.anchor.end_line (pos c.before_start) (pos c.before_end)
    || overlaps f.result_anchor.start_line f.result_anchor.end_line (pos c.after_start)
        (pos c.after_end)

unfoldable pub feedback_row : List ChangeRow → List ChangeCluster → RevisionFeedback → Option ℕ
unfolding touches_feedback
feedback_row rows clusters f = or_else (cluster_row (touches_feedback f) none clusters) (
    if ltb_ℤ (pos 0) f.result_anchor.end_line
    then last_row_of (λ r. pos r.after == f.result_anchor.end_line) 0 none rows
    else none)

-- placeFeedback
unfoldable pub place_feedback :
    List RevisionFeedback → List ChangeRow → List ChangeCluster → List FeedbackPlacement
unfolding feedback_row
place_feedback [] rows clusters = []
place_feedback (f ∷ fs) rows clusters =
    let rest = place_feedback fs rows clusters in
    elim (feedback_row rows clusters f) [
      | none ↦ rest
      | some i ↦
          record {
            revision_id = f.revision_id;
            thread_id = f.thread_id;
            row_id = row_id_at rows i;
            row_index = i;
          }
          ∷ rest
    ]

-- A map that a loop fills: the last entry with a key.
unfoldable pub last_with {ℓ} : {A : Type ℓ} → (A → Text) → Text → Option A → List A → Option A
last_with key k found [] = found
last_with key k found (x ∷ xs) = last_with key k (if key x == k then some x else found) xs

unfoldable pub cluster_with : Text → List ChangeCluster → Option ChangeCluster
cluster_with id [] = none
cluster_with id (c ∷ cs) = if c.id == id then some c else cluster_with id cs

abbrev pub empty_stop : Text → Text → ReviewStop
empty_stop id kind = record {
  id = id;
  kind = kind;
  row_id = [];
  row_index = 0;
  thread_id = [];
  revision_id = [];
  cluster_id = [];
  before_start = pos 0;
  before_end = pos 0;
  after_start = pos 0;
  after_end = pos 0;
}

-- The ranges of a row that stands in no cluster.
row_ranges : ChangeRow → ReviewStop → ReviewStop
row_ranges r stop =
    let s : ReviewStop =
      if ltb 0 r.before
      then record stop { before_start = pos r.before; before_end = pos r.before }
      else stop in
    if ltb 0 r.after then record s { after_start = pos r.after; after_end = pos r.after } else s

-- stopAtRow
unfoldable pub stop_at_row : ReviewStop → ℕ → List ChangeRow → List ChangeCluster → ReviewStop
unfolding cluster_with row_ranges
stop_at_row stop i rows clusters = elim (get_elem? rows i) [
  | none ↦ stop
  | some r ↦
      let s = record stop { row_id = r.id; row_index = i; cluster_id = r.cluster_id } in
      if r.cluster_id == [] then row_ranges r s else elim (cluster_with r.cluster_id clusters) [
        | none ↦ row_ranges r s
        | some c ↦ record s {
          before_start = pos c.before_start;
          before_end = pos c.before_end;
          after_start = pos c.after_start;
          after_end = pos c.after_end;
        }
      ]
]
