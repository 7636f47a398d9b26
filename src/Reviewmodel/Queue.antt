-- ===== src/Reviewmodel/Queue.antt =====
-- The queue of review stops holds every stop once, by row and then by the order of appending.
use mathlib.Core.List.{Perm}
use mathlib.Core.List.Perm
use planmaxx.Base.{◌≡◌, ◌⊎◌, ◌<◌, ◌≤◌, List, [], ◌∷◌}
use planmaxx.Reviewmodel.Data.{ReviewStop}
use planmaxx.Reviewmodel.Build.{OrderedStop}

abbrev pub stop_of : OrderedStop → ReviewStop
stop_of o = o.stop

-- A stop lies on an earlier row than another, or on the same row and was appended no later.
abbrev NotAfter : OrderedStop → OrderedStop → Type 0
NotAfter l r = l.order_row < r.order_row ⊎ (l.order_row ≡ r.order_row × l.sequence ≤ r.sequence)

-- A stop is not after the first of a list.
abbrev HeadAfter : OrderedStop → List OrderedStop → Type 0
HeadAfter s [] = Unit
HeadAfter s (x ∷ xs) = NotAfter s x

-- Each stop is not after the next.
abbrev pub IsQueue : List OrderedStop → Type 0
IsQueue [] = Unit
IsQueue (s ∷ ss) = HeadAfter s ss × IsQueue ss
