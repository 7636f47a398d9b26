-- ===== src/Review/Migrations/Rebuilt.antt =====
-- A pending proposal is rebuilt once: the proof on rebuildPendingProposal.
use planmaxx.Base.{
  ◌≡◌, refl, sym, ap, ◌∙◌, ◌⊎◌, inl, inr, Bool, true, false, not, Option, none, some, List, [],
  ◌==◌, if◌then◌else◌, if-cases, Bool-cases, arith,
}
use planmaxx.Base.Text.{Text, text_comparable, text_eqb_iff}
use planmaxx.Patches.Hunks.{Resolved}
use planmaxx.Patches.Resolve.{resolve, apply}
use planmaxx.Session.Types.{SectionProposal, SectionProposalInput, Session}
use planmaxx.Sectioniter.Protocol.{Xml, ParsedResponse, parse_response}
use planmaxx.Sectioniter.Proposal.Built.{BuiltFrom, build-Source}
use planmaxx.Sectioniter.Proposal.{IterationRequest, build_proposal, reply_input, patch_input}
use planmaxx.Review.Migrations.{
  is_rebuildable, rebuild_request, with_rebuilt, replace_proposal, rebuild_parsed, rebuild_proposal,
  rebuild_pending_proposal,
}

-- The plan that a response proposes on a plan.
plan_of_hunks : Text → Text ⊎ List Resolved → Text
plan_of_hunks plan (inl e) = []
plan_of_hunks plan (inr rs) = apply plan rs

plan_of : Text → ParsedResponse → Text
plan_of plan p =
    if not (p.thread_reply == []) then [] else plan_of_hunks plan (resolve plan p.hunks)

-- An input keeps the response and proposes that plan.
abbrev Proposes : Text → Text → ParsedResponse → SectionProposalInput → Type 0
Proposes plan raw p i = (i.raw_response ≡ raw) × (i.proposed_plan ≡ plan_of plan p)

abbrev parsed_as : ParsedResponse → Text ⊎ ParsedResponse
parsed_as = inr

same_response : (a b : ParsedResponse) → parsed_as a ≡ parsed_as b → a ≡ b
same_response a b h = cc

-- What the input is built from proposes the plan of the response.
from-Proposes :
    (q : IterationRequest) (raw selected : Text) (p : ParsedResponse) (i : SectionProposalInput)
    → BuiltFrom q raw selected p i
    → Proposes q.plan raw p i
unfolding plan_of plan_of_hunks patch_input reply_input
from-Proposes q raw selected p i (inl (given, e)) = (
  ap (λ (j : SectionProposalInput). j.raw_response) e,
  ap (λ (j : SectionProposalInput). j.proposed_plan) e ∙ rw given refl,
)
from-Proposes q raw selected p i (inr (r, rs, plain, found, e)) = (
  ap (λ (j : SectionProposalInput). j.raw_response) e,
  ap (λ (j : SectionProposalInput). j.proposed_plan) e ∙ rw (plain, found) refl,
)

build-Proposes :
    (x : Xml) (q : IterationRequest) (raw : Text) (i : SectionProposalInput)
    → build_proposal x q raw ≡ inr i
    → (p : ParsedResponse) × (parse_response x raw ≡ inr p) × Proposes q.plan raw p i
build-Proposes x q raw i h =
    let (selected, p, parsed, from) = build-Source x q raw i h in
    (p, parsed, from-Proposes q raw selected p i from)

settled_at :
    (x : Xml) (s : Session) (p : SectionProposal) (parsed : ParsedResponse)
    → parse_response x p.raw_response ≡ inr parsed
    → p.proposed_plan ≡ plan_of s.plan parsed
    → (r : Text ⊎ SectionProposalInput)
    → build_proposal x (rebuild_request s p parsed) p.raw_response ≡ r
    → (replace_proposal p r).0 ≡ false
unfolding replace_proposal rebuild_request
settled_at x s p parsed e same (inl failed) h = refl
settled_at x s p parsed e same (inr i) h =
    let (again, f, proposes) = build-Proposes x (rebuild_request s p parsed) p.raw_response i h in
    let one : again ≡ parsed = same_response again parsed (sym f ∙ e) in
    let equal : i.proposed_plan ≡ p.proposed_plan =
      proposes.1 ∙ ap (plan_of s.plan) one ∙ sym same in
    if-cases (λ (b : Bool × SectionProposal). b.0 ≡ false) (i.proposed_plan == p.proposed_plan) _ _
      (λ _. refl)
      (λ other. absurd (ground (arith, other, text_eqb_iff i.proposed_plan p.proposed_plan, equal)))

-- A proposal that has the plan of its response on the plan of the session is not rebuilt.
settled :
    (x : Xml) (s : Session) (p : SectionProposal) (parsed : ParsedResponse)
    → parse_response x p.raw_response ≡ inr parsed
    → p.proposed_plan ≡ plan_of s.plan parsed
    → (rebuild_proposal x s p).0 ≡ false
unfolding rebuild_proposal rebuild_parsed
settled x s p parsed e same =
    if-cases (λ (r : Bool × SectionProposal). r.0 ≡ false) (is_rebuildable s p) _ _
      (λ _. rw e (
        settled_at x s p parsed e same
          (build_proposal x (rebuild_request s p parsed) p.raw_response) refl))
      (λ _. refl)

-- The proposal behind a rebuild, and whether it was replaced.
replaced-settled :
    (x : Xml) (s : Session) (p : SectionProposal) (parsed : ParsedResponse)
    → parse_response x p.raw_response ≡ inr parsed
    → (r : Text ⊎ SectionProposalInput)
    → build_proposal x (rebuild_request s p parsed) p.raw_response ≡ r
    → ((rebuild_proposal x s (replace_proposal p r).1).0 ≡ false)
      ⊎ (replace_proposal p r ≡ (false, p))
unfolding replace_proposal with_rebuilt rebuild_request
replaced-settled x s p parsed e (inl failed) h = inr refl
replaced-settled x s p parsed e (inr i) h =
    let (again, f, proposes) = build-Proposes x (rebuild_request s p parsed) p.raw_response i h in
    if-cases
      (λ (r : Bool × SectionProposal). ((rebuild_proposal x s r.1).0 ≡ false) ⊎ (r ≡ (false, p)))
      (i.proposed_plan == p.proposed_plan) _ _ (λ _. inr refl)
      (λ _.
        inl
          (settled x s (with_rebuilt p i) again (ap (parse_response x) proposes.0 ∙ f) proposes.1))

-- What a first rebuild leaves, a second one keeps.
Kept : Xml → Session → Bool × SectionProposal → Type 0
Kept x s r = (rebuild_proposal x s r.1).0 ≡ false

unchanged-Kept :
    (x : Xml) (s : Session) (p : SectionProposal)
    → rebuild_proposal x s p ≡ (false, p)
    → Kept x s (rebuild_proposal x s p)
unfolding Kept
unchanged-Kept x s p e =
    ap (λ (r : Bool × SectionProposal). (rebuild_proposal x s r.1).0) e
    ∙ ap (λ (r : Bool × SectionProposal). r.0) e

parsed-Kept :
    (x : Xml) (s : Session) (p : SectionProposal) (r : Text ⊎ ParsedResponse)
    → is_rebuildable s p ≡ true
    → parse_response x p.raw_response ≡ r
    → Kept x s (rebuild_proposal x s p)
unfolding Kept rebuild_proposal rebuild_parsed
parsed-Kept x s p (inl failed) able e = unfold Kept in unchanged-Kept x s p (rw (able, e) refl)
parsed-Kept x s p (inr parsed) able e =
    let result = build_proposal x (rebuild_request s p parsed) p.raw_response in
    let made : rebuild_proposal x s p ≡ replace_proposal p result = rw (able, e) refl in
    elim (replaced-settled x s p parsed e result refl) [
      | inl done ↦ ap (λ (r : Bool × SectionProposal). (rebuild_proposal x s r.1).0) made ∙ done
      | inr same ↦ unchanged-Kept x s p (made ∙ same)
    ]

rebuild_proposal-Kept :
    (x : Xml) (s : Session) (p : SectionProposal) → Kept x s (rebuild_proposal x s p)
unfolding rebuild_proposal
rebuild_proposal-Kept x s p = elim (Bool-cases (is_rebuildable s p)) [
  | inl able ↦ parsed-Kept x s p (parse_response x p.raw_response) able refl
  | inr not_able ↦ unchanged-Kept x s p (rw not_able refl)
]

-- A rebuild that does not replace the proposal leaves it as it is.
replace-Left :
    (p : SectionProposal) (r : Text ⊎ SectionProposalInput)
    → (replace_proposal p r).0 ≡ false
    → (replace_proposal p r).1 ≡ p
unfolding replace_proposal
replace-Left p (inl e) h = refl
replace-Left p (inr i) h =
    if-cases (λ (b : Bool × SectionProposal). b.0 ≡ false → b.1 ≡ p)
      (i.proposed_plan == p.proposed_plan) _ _ (λ _ _. refl) (λ _ q. absurd (cc)) h

parsed-Left :
    (x : Xml) (s : Session) (p : SectionProposal) (r : Text ⊎ ParsedResponse)
    → (rebuild_parsed x s p r).0 ≡ false
    → (rebuild_parsed x s p r).1 ≡ p
unfolding rebuild_parsed
parsed-Left x s p (inl e) h = refl
parsed-Left x s p (inr parsed) h =
    replace-Left p (build_proposal x (rebuild_request s p parsed) p.raw_response) h

rebuild_proposal-Left :
    (x : Xml) (s : Session) (p : SectionProposal)
    → (rebuild_proposal x s p).0 ≡ false
    → (rebuild_proposal x s p).1 ≡ p
unfolding rebuild_proposal
rebuild_proposal-Left x s p =
    if-cases (λ (b : Bool × SectionProposal). b.0 ≡ false → b.1 ≡ p) (is_rebuildable s p) _ _
      (λ _. parsed-Left x s p (parse_response x p.raw_response)) (λ _ _. refl)

abbrev Settled : Xml → Session → Type 0
Settled x s =
    let first = (rebuild_pending_proposal x s).1 in
    ((rebuild_pending_proposal x first).0 ≡ false) × ((rebuild_pending_proposal x first).1 ≡ first)

pending-Settled :
    (x : Xml) (s : Session) (c : Option SectionProposal)
    → Settled x (record s { pending_proposal = c })
unfolding rebuild_pending_proposal Kept rebuild_proposal is_rebuildable rebuild_parsed
    rebuild_request
pending-Settled x s none = (refl, refl)
pending-Settled x s (some p) =
    let t : Session = record s { pending_proposal = some p } in
    let kept = rebuild_proposal-Kept x t p in
    (
      kept,
      ap (λ q. record s { pending_proposal = some q })
          (rebuild_proposal-Left x t (rebuild_proposal x t p).1 kept),
    )

-- rebuildPendingProposal is idempotent: a second call behind a first rebuilds nothing, and leaves the
-- session just as the first call left it.
pub rebuild_pending_proposal_twice :
    (x : Xml) (s : Session)
    → ((rebuild_pending_proposal x (rebuild_pending_proposal x s).1).0 ≡ false)
      × ((rebuild_pending_proposal x (rebuild_pending_proposal x s).1).1
          ≡ (rebuild_pending_proposal x s).1)
rebuild_pending_proposal_twice x s = pending-Settled x s s.pending_proposal
