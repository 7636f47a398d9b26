-- ===== src/Session/Proposals/Retarget.antt =====
-- The threads of a proposal that another one replaces (RetargetProposalThreads).
use planmaxx.Base.{
  ◌≡◌, ◌≢◌, refl, Bool, not, Option, none, some, List, [], ◌∷◌, ◌==◌, map, arith, if-cases,
  if◌then◌else◌,
}
use planmaxx.Base.Text.{Text, text_comparable, text_eqb_iff}
use planmaxx.Session.Types.{Anchor, Thread}
use planmaxx.Session.State.Loops.{ids}
use planmaxx.Session.Anchors.{clamped_line_anchor, resolve_thread_after_proposal}
use planmaxx.Session.Locate.{reanchor_thread_in_plan}
use planmaxx.Session.Proposals.{retarget_thread}

-- A thread keeps its id and its messages. One of the base belongs to the next proposal; any other
-- one stays as it is.
pub record Moved (base next : Text) (t u : Thread) : Type 0 where
  pub id : u.id ≡ t.id
  pub messages : u.messages ≡ t.messages
  pub follows : t.revision_id ≡ base → u.revision_id ≡ next
  pub stays : t.revision_id ≢ base → u ≡ t

-- Two lists of threads, one by one.
abbrev pub Moves : Text → Text → List Thread → List Thread → Type 0
Moves base next [] [] = Unit
Moves base next [] (u ∷ us) = ⊥
Moves base next (t ∷ ts) [] = ⊥
Moves base next (t ∷ ts) (u ∷ us) = Moved base next t u × Moves base next ts us

-- What a thread of the base becomes.
record Taken (next : Text) (t u : Thread) : Type 0 where
  id : u.id ≡ t.id
  messages : u.messages ≡ t.messages
  revision : u.revision_id ≡ next

resolved-Taken :
    (next : Text) (t u : Thread) (b : Bool)
    → Taken next t u
    → Taken next t (if b then resolve_thread_after_proposal u.anchor u else u)
unfolding resolve_thread_after_proposal
resolved-Taken next t u b h =
    if-cases (Taken next t) b _ _
      (λ _. record { id = h.id; messages = h.messages; revision = h.revision }) (λ _. h)

placed-Taken :
    (next next_plan : Text) (t : Thread) (c : Option Anchor)
    → Taken next t (elim c [
      | some a ↦ record t { anchor = a; revision_id = next }
      | none ↦ record t {
        anchor = clamped_line_anchor t.anchor next_plan;
        selected_text = [];
        revision_id = next;
      }
    ])
placed-Taken next next_plan t none = record { id = refl; messages = refl; revision = refl }
placed-Taken next next_plan t (some a) = record { id = refl; messages = refl; revision = refl }

Taken-Moved :
    (base next : Text) (t u : Thread) → t.revision_id ≡ base → Taken next t u → Moved base next t u
Taken-Moved base next t u same h = record {
  id = h.id;
  messages = h.messages;
  follows = λ _. h.revision;
  stays = λ other. absurd (other same);
}

retarget_thread-Moved :
    (base next previous_plan next_plan : Text) (t : Thread)
    → Moved base next t (retarget_thread base next previous_plan next_plan t)
unfolding retarget_thread
retarget_thread-Moved base next previous_plan next_plan t =
    if-cases (Moved base next t) (not (t.revision_id == base)) _ _
      (λ other. record {
        id = refl;
        messages = refl;
        follows = λ e. absurd (ground (arith, other, text_eqb_iff t.revision_id base, e));
        stays = λ _. refl;
      })
      (λ same.
        Taken-Moved base next t _ ((text_eqb_iff t.revision_id base).0 (ground (arith, same))) (
          resolved-Taken next t _ _
            (placed-Taken next next_plan t (reanchor_thread_in_plan t previous_plan next_plan))))

pub retarget-Moves :
    (base next previous_plan next_plan : Text) (ts : List Thread)
    → Moves base next ts (map (retarget_thread base next previous_plan next_plan) ts)
retarget-Moves base next previous_plan next_plan [] = tt
retarget-Moves base next previous_plan next_plan (t ∷ ts) = (
  retarget_thread-Moved base next previous_plan next_plan t,
  retarget-Moves base next previous_plan next_plan ts,
)

pub Moves-ids : (base next : Text) (ts us : List Thread) → Moves base next ts us → ids us ≡ ids ts
Moves-ids base next [] [] h = refl
Moves-ids base next [] (u ∷ us) h = absurd h
Moves-ids base next (t ∷ ts) [] h = absurd h
Moves-ids base next (t ∷ ts) (u ∷ us) (moved, rest) =
    rw (moved.id, Moves-ids base next ts us rest) refl
