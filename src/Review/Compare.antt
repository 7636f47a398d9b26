-- ===== src/Review/Compare.antt =====
-- The comparison of two revisions: handleRevisionAction of internal/review/server.go at a path that
-- ends in no restore, with revisionFeedbackBetween and comparisonThreads.
pub mod Between
use planmaxx.Base.{
  ℕ, zero, suc, Bool, true, false, ◌&&◌, ◌||◌, not, Option, none, some, List, [], ◌∷◌, ◌++◌, ◌==◌,
  contains, map, length, if◌then◌else◌,
}
use planmaxx.Base.Text.{Text, codes, text_comparable}
use planmaxx.Session.Types.{Thread, Revision, RevisionFeedback, Session}
use planmaxx.Session.Feedback.{find_revision}
use planmaxx.Diff.{Change}
use planmaxx.Reviewmodel.Data.{ChangeView, mode_revision}
use planmaxx.Reviewmodel.Build.{build, with_thread_placements}
use planmaxx.Review.Types.{Server}
use planmaxx.Review.Mutate.{World}
use planmaxx.Review.Paths.{split_slashes, trim_prefix}

-- The map byID: of the revisions with an id the last.
abbrev pub later_or : Option Revision → Option Revision → Option Revision
later_or (some q) found = some q
later_or none found = found

unfoldable pub by_id : Text → List Revision → Option Revision
by_id k [] = none
by_id k (r ∷ rs) = later_or (by_id k rs) (if r.id == k then some r else none)

-- What becomes of the loop over the parents: it runs out of the map, or arrives with the slice
-- `reverse`, or has not ended yet.
pub data Walk : Type 0 where
  lost unfinished : Walk
  arrived : List Revision → Walk

abbrev pub passing : Revision → Walk → Walk
passing r lost = lost
passing r unfinished = unfinished
passing r (arrived rs) = arrived (r ∷ rs)

-- The loop, for a number of rounds; the last argument is `current, ok`.
unfoldable pub walk : ℕ → List Revision → Text → Option Revision → Walk
unfolding by_id
walk rounds rs from none = lost
walk zero rs from (some r) = if r.id == from then arrived [] else unfinished
walk (suc rounds) rs from (some r) =
    let rest = walk rounds rs from (by_id r.parent_id rs) in
    if r.id == from then arrived [] else passing r rest

-- The feedback of a slice from its end to its begin.
unfoldable pub feedback_of : List Revision → List RevisionFeedback
feedback_of [] = []
feedback_of (r ∷ rs) = feedback_of rs ++ r.feedback

abbrev pub feedback_of_walk : Walk → Option (List RevisionFeedback)
feedback_of_walk lost = some []
feedback_of_walk unfinished = none
feedback_of_walk (arrived rs) = some (feedback_of rs)

-- revisionFeedbackBetween; none where the loop has not ended after a round for each revision.
unfoldable pub feedback_between : Session → Text → Text → Option (List RevisionFeedback)
unfolding walk feedback_of
feedback_between s from to =
    feedback_of_walk (walk (length s.revisions) s.revisions from (by_id to s.revisions))

-- comparisonThreads
unfoldable pub comparison_threads : List Thread → List RevisionFeedback → List Thread
comparison_threads [] feedback = []
comparison_threads (t ∷ ts) feedback =
    let rest = comparison_threads ts feedback in
    if contains t.id (map (λ (f : RevisionFeedback). f.thread_id) feedback) then rest else t ∷ rest

diff_parts : List Text → Option (Text × Text)
diff_parts [] = none
diff_parts (a ∷ []) = none
diff_parts (a ∷ b ∷ []) = none
diff_parts (a ∷ b ∷ c ∷ []) =
    if a == [] || not (b == codes "diff") || c == [] then none else some (a, c)
diff_parts (a ∷ b ∷ c ∷ d ∷ rest) = none

-- parseRevisionDiffPath
unfoldable pub parse_revision_diff_path : Text → Option (Text × Text)
unfolding split_slashes diff_parts
parse_revision_diff_path path =
    diff_parts (split_slashes (trim_prefix path (codes "/api/revisions/")))

-- revisionComparisonCacheKey
unfoldable pub cache_key : Revision → Revision → Option Text
cache_key from to =
    if from.commit_id == [] || to.commit_id == []
    then none
    else some
        (from.id ++ codes ":" ++ from.commit_id ++ codes ":" ++ to.id ++ codes ":" ++ to.commit_id)

-- comparisonCache
abbrev pub Cache : Type 0
Cache = List (Text × ChangeView)

unfoldable pub cached : Text → Cache → Option ChangeView
cached k [] = none
cached k ((l, view) ∷ cache) = if l == k then some view else cached k cache

-- What the handler writes.
pub data Comparison : Type 0 where
  compared : ChangeView → Comparison
  refused : ℕ → Text → Comparison

-- Both plans: of the archive where both revisions have a commit, else those in the session.
unfoldable pub stored_plans : World → Revision → Revision → Option (Text × Text)
stored_plans w from to =
    if from.commit_id == [] || to.commit_id == []
    then some (from.plan, to.plan)
    else elim (w.read_revision from.commit_id) [
      | none ↦ none
      | some before ↦ elim (w.read_revision to.commit_id) [
        | none ↦ none
        | some after ↦ some (before, after)
      ]
    ]

unfoldable pub store_cached : Option Text → ChangeView → Cache → ChangeView × Cache
unfolding cached
store_cached none view cache = (view, cache)
store_cached (some key) view cache = elim (cached key cache) [
  | some old ↦ (old, cache)
  | none ↦ (view, (key, view) ∷ cache)
]

abbrev pub look_up : Option Text → Cache → Option ChangeView
unfolding cached
look_up none cache = none
look_up (some key) cache = cached key cache

-- The handler behind its checks, over a bundle. A feedback that never comes is none.
unfoldable pub compare_found :
    (List ℕ → List ℕ → List Change)
    → World
    → Session
    → Revision
    → Revision
    → List RevisionFeedback
    → Cache
    → Comparison × Cache
unfolding cache_key stored_plans store_cached comparison_threads with_thread_placements build
compare_found diff w s from to feedback cache =
    let threads : List Thread =
      if to.id == s.current_revision_id then comparison_threads s.threads feedback else [] in
    let key = cache_key from to in
    elim (look_up key cache) [
      | some view ↦ (compared (with_thread_placements view threads), cache)
      | none ↦ elim (stored_plans w from to) [
        | none ↦ (refused 500 (codes "read revision"), cache)
        | some (before, after) ↦
            let view = build diff (record {
              mode = mode_revision;
              is_direct = to.parent_id == from.id;
              base_id = from.id;
              target_id = to.id;
              format = s.plan_format;
              before = before;
              after = after;
              threads = [];
              review_thread_ids = [];
              feedback = feedback;
            }) in
            let (kept, cache') = store_cached key view cache in
            (compared (with_thread_placements kept threads), cache')
      ]
    ]

-- handleRevisionAction at a path of a comparison; none where it does not end.
unfoldable pub handle_comparison :
    (List ℕ → List ℕ → List Change)
    → World
    → Text
    → Text
    → Session
    → Cache
    → Option (Comparison × Cache)
unfolding feedback_between compare_found
handle_comparison diff w from to s cache = elim (feedback_between s from to) [
  | none ↦ none
  | some feedback ↦ elim (find_revision from s.revisions) [
    | none ↦ some (refused 404 (codes "revision not found"), cache)
    | some base ↦ elim (find_revision to s.revisions) [
      | none ↦ some (refused 404 (codes "revision not found"), cache)
      | some target ↦ some (compare_found diff w s base target feedback cache)
    ]
  ]
]
