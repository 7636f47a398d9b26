-- ===== src/Reviewmodel/Build.antt =====
-- buildReviewStops, WithThreadPlacements and Build of internal/reviewmodel/change.go. The stable sort
-- of the stops is an insertion sort.
use planmaxx.Base.{
  ℕ, ◌+◌, Bool, ◌||◌, not, none, some, List, [], ◌∷◌, ◌++◌, ◌==◌, if◌then◌else◌, map, ltb, eqb,
}
use planmaxx.Base.Int.{pos}
use planmaxx.Base.Text.{Text, codes, text_comparable}
use planmaxx.Session.Types.{Thread, RevisionFeedback}
use planmaxx.Diff.{Change, lines}
use planmaxx.Reviewmodel.Data.{
  mode_revision, stop_comment, stop_feedback, stop_change, ChangeCluster, ThreadPlacement,
  FeedbackPlacement, ReviewStop, ChangeView, BuildInput,
}
use planmaxx.Reviewmodel.Clusters.{
  normalize_newlines, snapshot, rows_of, build_clusters, mark_clusters,
}
use planmaxx.Reviewmodel.Stops.{
  place_threads, place_feedback, last_with, cluster_with, empty_stop, stop_at_row, row_id_at,
}

-- reviewOrderRow
unfoldable pub review_order_row : ReviewStop → ChangeView → ℕ
review_order_row stop view =
    if stop.cluster_id == [] || stop.kind == stop_change
    then stop.row_index
    else elim (cluster_with stop.cluster_id view.clusters) [
      | none ↦ stop.row_index
      | some c ↦ c.first_row
    ]

-- The stop of a comment under review.
comment_stop : BuildInput → ChangeView → Text → ThreadPlacement → ReviewStop
comment_stop input view id placement =
    let stop =
      stop_at_row (record (empty_stop (codes "comment:" ++ id) stop_comment) { thread_id = id })
        placement.row_index view.rows view.clusters in
    elim (last_with (λ (t : Thread). t.id) id none input.threads) [
      | none ↦ stop
      | some t ↦ record stop {
        before_start = t.anchor.start_line;
        before_end = t.anchor.end_line;
        after_start = pos 0;
        after_end = pos 0;
      }
    ]

-- The loop over input.ReviewThreadIDs.
unfoldable pub comment_stops : BuildInput → ChangeView → List Text → List ReviewStop
unfolding comment_stop
comment_stops input view [] = []
comment_stops input view (id ∷ ids) =
    let rest = comment_stops input view ids in
    elim (last_with (λ (p : ThreadPlacement). p.thread_id) id none view.thread_placements) [
      | none ↦ rest
      | some p ↦ comment_stop input view id p ∷ rest
    ]

abbrev feedback_key : Text → Text → Text
feedback_key revision_id thread_id = revision_id ++ codes ":" ++ thread_id

feedback_stop : ChangeView → RevisionFeedback → FeedbackPlacement → ReviewStop
feedback_stop view f placement =
    let key = feedback_key f.revision_id f.thread_id in
    record (stop_at_row
      (record (empty_stop (codes "feedback:" ++ key) stop_feedback) {
        thread_id = f.thread_id;
        revision_id = f.revision_id;
      })
      placement.row_index view.rows view.clusters) {
        before_start = f.anchor.start_line;
        before_end = f.anchor.end_line;
        after_start = f.result_anchor.start_line;
        after_end = f.result_anchor.end_line;
      }

-- The loop over view.Feedback.
unfoldable pub feedback_stops : ChangeView → List RevisionFeedback → List ReviewStop
unfolding feedback_stop
feedback_stops view [] = []
feedback_stops view (f ∷ fs) =
    let rest = feedback_stops view fs in
    elim (last_with (λ (p : FeedbackPlacement). feedback_key p.revision_id p.thread_id)
      (feedback_key f.revision_id f.thread_id) none view.feedback_placements) [
        | none ↦ rest
        | some p ↦ feedback_stop view f p ∷ rest
      ]

-- The stop of a cluster.
unfoldable pub change_stop : ChangeView → ChangeCluster → ReviewStop
change_stop view c = record (empty_stop (codes "change:" ++ c.id) stop_change) {
  row_id = row_id_at view.rows c.first_row;
  row_index = c.first_row;
  cluster_id = c.id;
  before_start = pos c.before_start;
  before_end = pos c.before_end;
  after_start = pos c.after_start;
  after_end = pos c.after_end;
}

pub record OrderedStop : Type 0 where
  pub stop : ReviewStop
  pub sequence : ℕ
  pub order_row : ℕ

-- appendStop, from a sequence number on
unfoldable pub number_stops : ChangeView → ℕ → List ReviewStop → List OrderedStop
number_stops view n [] = []
number_stops view n (s ∷ ss) =
    record { stop = s; sequence = n; order_row = review_order_row s view }
    ∷ number_stops view (n + 1) ss

-- The comparison of the sort.
unfoldable pub comes_before : OrderedStop → OrderedStop → Bool
comes_before l r =
    if eqb l.order_row r.order_row then ltb l.sequence r.sequence else ltb l.order_row r.order_row

-- sort.SliceStable
unfoldable pub insert_stop : OrderedStop → List OrderedStop → List OrderedStop
insert_stop s [] = s ∷ []
insert_stop s (x ∷ xs) = if comes_before x s then x ∷ insert_stop s xs else s ∷ x ∷ xs

unfoldable pub sort_stops : List OrderedStop → List OrderedStop
unfolding insert_stop
sort_stops [] = []
sort_stops (s ∷ ss) = insert_stop s (sort_stops ss)

-- All stops in the order in which they are appended.
unfoldable pub appended_stops : BuildInput → ChangeView → List ReviewStop
appended_stops input view =
    comment_stops input view input.review_thread_ids
    ++ feedback_stops view view.feedback
    ++ map (change_stop view) view.clusters

-- buildReviewStops
unfoldable pub build_review_stops : BuildInput → ChangeView → List ReviewStop
unfolding sort_stops number_stops
build_review_stops input view =
    map (λ (o : OrderedStop). o.stop) (sort_stops (number_stops view 0 (appended_stops input view)))

-- WithThreadPlacements
unfoldable pub with_thread_placements : ChangeView → List Thread → ChangeView
with_thread_placements view threads = record view {
  thread_placements = place_threads view.mode view.target_id threads view.rows view.clusters;
}

-- The view of Build without its stops.
unfoldable pub build_view : (List ℕ → List ℕ → List Change) → BuildInput → ChangeView
build_view diff_main_runes input =
    let plain =
      rows_of 0 (
        lines diff_main_runes (normalize_newlines input.before) (normalize_newlines input.after)) in
    let clusters = build_clusters plain in
    let rows = mark_clusters clusters plain in
    record {
      mode = input.mode;
      is_direct = input.is_direct;
      base_id = input.base_id;
      target_id = input.target_id;
      before = snapshot input.format input.before;
      after = snapshot input.format input.after;
      rows = rows;
      clusters = clusters;
      thread_placements = place_threads input.mode input.target_id input.threads rows clusters;
      feedback = input.feedback;
      feedback_placements =
          if not (input.mode == mode_revision) || input.is_direct
          then place_feedback input.feedback rows clusters
          else [];
      review_stops = [];
    }

unfoldable pub build : (List ℕ → List ℕ → List Change) → BuildInput → ChangeView
unfolding build_view build_review_stops
build diff_main_runes input =
    let view = build_view diff_main_runes input in
    record view { review_stops = build_review_stops input view }
