-- ===== src/Reviewmodel/Tests.antt =====
-- A small change: its clusters, and instances of the theorems.
use planmaxx.Base.{ℕ, ◌≡◌, refl, false, List, [], ◌∷◌, ◌++◌, map}
use planmaxx.Base.Text.{codes, newline, text_eqb}
use planmaxx.Base.Utf8.{trim_space}
use planmaxx.Diff.{
  Change, diff_equal, diff_delete, diff_insert, kind_context, kind_remove, kind_add,
}
use planmaxx.Reviewmodel.Data.{mode_proposal, BuildInput, ChangeRow, ChangeCluster}
use planmaxx.Reviewmodel.Clusters.{
  cluster_of, extend_ranges, extend_range, rows_of, build_clusters, changed_at, cluster_end,
}
use planmaxx.Reviewmodel.Cover.{Covers, build_clusters-Covers}

-- A kept line, a change over a blank line, and a change of its own.
abbrev rows : List ChangeRow
rows = rows_of 0 (
    record { kind = kind_context; before = 1; after = 1; text = codes "a" }
    ∷ record { kind = kind_remove; before = 2; after = 0; text = codes "b" }
    ∷ record { kind = kind_context; before = 3; after = 2; text = [] }
    ∷ record { kind = kind_add; before = 0; after = 3; text = codes "c" }
    ∷ record { kind = kind_context; before = 4; after = 4; text = codes "d" }
    ∷ record { kind = kind_add; before = 0; after = 5; text = codes "e" }
    ∷ [])

abbrev span : ChangeCluster → List ℕ
span c = c.first_row ∷ c.last_row ∷ c.before_start ∷ c.before_end ∷ c.after_start ∷ c.after_end ∷ []

two_clusters :
    map span (build_clusters rows)
    ≡ (1 ∷ 3 ∷ 2 ∷ 3 ∷ 2 ∷ 3 ∷ []) ∷ (5 ∷ 5 ∷ 0 ∷ 0 ∷ 5 ∷ 5 ∷ []) ∷ []
unfolding build_clusters rows_of changed_at text_eqb cluster_of cluster_end extend_ranges trim_space
    extend_range
two_clusters = refl

build_clusters-Covers_example : Covers rows 0 (build_clusters rows)
build_clusters-Covers_example = build_clusters-Covers rows

-- What go-diff returns for the tokens of the two texts.
abbrev first_kept : List ℕ → List ℕ → List Change
first_kept b a =
    record { type = diff_equal; tokens = 1 ∷ [] }
    ∷ record { type = diff_delete; tokens = 2 ∷ [] }
    ∷ record { type = diff_insert; tokens = 3 ∷ [] }
    ∷ []

abbrev input : BuildInput
input = record {
  mode = mode_proposal;
  is_direct = false;
  base_id = codes "rev-1";
  target_id = codes "proposal-1";
  format = codes "text";
  before = codes "x" ++ newline ∷ codes "y";
  after = codes "x" ++ newline ∷ codes "z";
  threads = [];
  review_thread_ids = [];
  feedback = [];
}
