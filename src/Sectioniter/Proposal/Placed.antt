-- ===== src/Sectioniter/Proposal/Placed.antt =====
-- The result anchors of BuildProposal span the contents of the hunks in the proposed plan.
use planmaxx.Base.{◌≢◌, ◌⊎◌, true, false, ℕ, ◌+◌, ◌≡◌, inr, List, [], ◌∷◌, ◌++◌, length}
use planmaxx.Base.Int.{pos, ltb_ℤ}
use planmaxx.Base.Text.{Text, codes, text_comparable}
use planmaxx.Patches.Hunks.{Resolved, bytes, position_at}
use planmaxx.Session.Types.{Anchor, AppliedHunk, SectionProposalInput}
use planmaxx.Sectioniter.Protocol.{Xml, ParsedResponse, parse_response}
use planmaxx.Patches.Resolve.{resolve, apply}
use planmaxx.Sectioniter.Proposal.{IterationRequest}

-- An anchor spans the bytes of a text between two offsets; of whole lines it has no characters.
pub record Spans (text target : Text) (start end : ℕ) (a : Anchor) : Type 0 where
  pub start_line : a.start_line ≡ pos (position_at text start).0
  pub end_line : a.end_line ≡ pos (position_at text end).0
  pub whole : target ≡ codes "lines" → (a.start_char ≡ pos 0) × (a.end_char ≡ pos 0)
  pub part :
      target ≢ codes "lines"
      → (a.start_char ≡ pos (position_at text start).1)
        × (a.end_char ≡ pos (position_at text end).1)

-- Each applied hunk spans the content of its hunk in the proposed plan. The content stands behind what
-- the proposed plan has before it: the `before` of the earlier hunks, and the bytes of the plan from
-- their end to the start of this one.
abbrev pub Placed : Text → Text → Text → ℕ → List Resolved → List AppliedHunk → Type 0
Placed plan proposed before from [] [] = Unit {0}
Placed plan proposed before from [] (h ∷ hs) = ⊥
Placed plan proposed before from (r ∷ rs) [] = ⊥
Placed plan proposed before from (r ∷ rs) (h ∷ hs) =
    let head = before ++ bytes plan from r.start_offset in
    let stop = length head + length r.hunk.content in
    (bytes proposed (length head) stop ≡ r.hunk.content)
    × Spans proposed r.hunk.target (length head) stop h.result
    × Placed plan proposed (head ++ r.hunk.content) r.end_offset rs hs

-- An input of a reply proposes no plan and no hunks. Any other one proposes the plan that the resolved
-- hunks of the response make, and applied hunks that are placed in that; it has none where the request
-- refines another proposal.
abbrev pub ProposalOutcome : Xml → IterationRequest → Text → SectionProposalInput → Type 0
ProposalOutcome x q raw i =
    ((i.agent_reply ≢ []) × (i.proposed_plan ≡ []) × (i.applied_hunks ≡ []))
    ⊎ ((p : ParsedResponse) × (resolved : List Resolved) × (parse_response x raw ≡ inr p)
        × (resolve q.plan p.hunks ≡ inr resolved)
        × (i.proposed_plan ≡ apply q.plan resolved)
        × (((ltb_ℤ (pos 0) q.root_applied_anchor.start_line ≡ true) × (i.applied_hunks ≡ []))
            ⊎ ((ltb_ℤ (pos 0) q.root_applied_anchor.start_line ≡ false)
                × Placed q.plan i.proposed_plan [] 0 resolved i.applied_hunks)))
