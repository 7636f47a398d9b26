-- ===== src/Session/Types/Words.antt =====
-- The constants of session.go and comment_state.go, the reviewer-facing words that stand for them,
-- and the errors of transitions.go.
use planmaxx.Base.{◌≡◌, refl, Bool, true, false, ◌||◌, Option, none, some, [], ◌==◌, if◌then◌else◌}
use planmaxx.Base.Int.{pos}
use planmaxx.Base.Text.{Text, codes, text_comparable, text_eqb, has_prefix}
use planmaxx.Session.Types.Records.{Anchor, Digest, Thread, SectionProposal}

-- Anchor{} and Digest{}
abbrev pub zero_anchor : Anchor
zero_anchor = record { start_line = pos 0; start_char = pos 0; end_line = pos 0; end_char = pos 0 }

abbrev pub empty_digest : Digest
empty_digest = record { summary = []; reviewer_decisions = []; promoted_side_answers = [] }

abbrev pub kind_decision : Text
kind_decision = codes "decision"

abbrev pub kind_note : Text
kind_note = codes "note"

abbrev pub status_open : Text
status_open = codes "open"

abbrev pub status_resolved : Text
status_resolved = codes "resolved"

abbrev pub status_stale : Text
status_stale = codes "stale"

abbrev pub source_initial : Text
source_initial = codes "initial"

abbrev pub source_turn : Text
source_turn = codes "turn"

abbrev pub source_immediate : Text
source_immediate = codes "immediate"

abbrev pub source_iteration : Text
source_iteration = codes "iteration"

abbrev pub source_external : Text
source_external = codes "external"

abbrev pub kind_review : Text
kind_review = codes "review"

-- The reviewer-facing words. An intent is a string type and may hold any other text.
abbrev pub intent_instruction : Text
intent_instruction = codes "instruction"

abbrev pub intent_private : Text
intent_private = codes "private"

pub data Lifecycle : Type 0 where
  active addressed detached : Lifecycle

abbrev pub is_active : Lifecycle → Bool
is_active Lifecycle.active = true
is_active _ = false

abbrev pub is_addressed : Lifecycle → Bool
is_addressed Lifecycle.addressed = true
is_addressed _ = false

abbrev pub is_detached : Lifecycle → Bool
is_detached Lifecycle.detached = true
is_detached _ = false

unfoldable pub lifecycle_of : Text → Lifecycle
lifecycle_of status =
    if status == status_resolved
    then Lifecycle.addressed
    else if status == status_stale
    then Lifecycle.detached
    else Lifecycle.active

-- Thread.Lifecycle
abbrev pub lifecycle : Thread → Lifecycle
lifecycle t = lifecycle_of t.status

-- Thread.Intent
unfoldable pub intent : Thread → Text
intent t = if t.kind == kind_note then intent_private else intent_instruction

unfoldable pub kind_for_intent : Text → Option Text
kind_for_intent i =
    if i == intent_instruction
    then some kind_decision
    else if i == intent_private
    then some kind_note
    else none

unfoldable pub intent_for_legacy_kind : Text → Option Text
intent_for_legacy_kind kind =
    if kind == [] || kind == kind_decision
    then some intent_instruction
    else if kind == kind_note
    then some intent_private
    else none

unfoldable pub is_review_proposal : SectionProposal → Bool
is_review_proposal p =
    p.kind == kind_review
    || has_prefix p.instruction
        (codes "Use the final-review feedback below as the authoritative instruction.")

pub data TransitionKind : Type 0 where
  missing stale blocked invariant : TransitionKind

pub record TransitionError : Type 0 where
  pub kind : TransitionKind
  pub message : Text

pub data Result (A : Type 0) : Type 0 where
  ok : A → Result A
  err : TransitionError → Result A

-- blocked(message) and invariant(message)
abbrev pub blocked_error : Text → TransitionError
blocked_error m = record { kind = TransitionKind.blocked; message = m }

abbrev pub invariant_error : Text → TransitionError
invariant_error m = record { kind = TransitionKind.invariant; message = m }

abbrev pub missing_error : Text → TransitionError
missing_error m = record { kind = TransitionKind.missing; message = m }

abbrev pub stale_error : Text → TransitionError
stale_error m = record { kind = TransitionKind.stale; message = m }

pub lifecycle-open : lifecycle_of status_open ≡ Lifecycle.active
unfolding lifecycle_of text_eqb
lifecycle-open = refl

pub lifecycle-resolved : lifecycle_of status_resolved ≡ Lifecycle.addressed
unfolding lifecycle_of text_eqb
lifecycle-resolved = refl

pub lifecycle-stale : lifecycle_of status_stale ≡ Lifecycle.detached
unfolding lifecycle_of text_eqb
lifecycle-stale = refl
