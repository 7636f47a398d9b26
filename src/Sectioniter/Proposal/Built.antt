-- ===== src/Sectioniter/Proposal/Built.antt =====
-- What BuildProposal makes its input of: the reply of the agent, or its resolved hunks.
use planmaxx.Base.{
  ◌≡◌, refl, ◌⊎◌, inl, inr, true, false, not, arith, List, [], ◌∷◌, ◌==◌, length, ltb, if-cases,
}
use planmaxx.Base.Text.{Text, text_comparable}
use planmaxx.Base.Utf8.{trim_space}
use planmaxx.Patches.Hunks.{Resolved}
use planmaxx.Patches.Resolve.{resolve}
use planmaxx.Session.Types.{SectionProposalInput}
use planmaxx.Sectioniter.Section.{◌>>=◌}
use planmaxx.Sectioniter.Protocol.{Xml, ParsedResponse, parse_response}
use planmaxx.Sectioniter.Proposal.{
  IterationRequest, selected_text, input_of_hunks, input_of_response, build_proposal, reply_input,
  patch_input,
}

abbrev built : SectionProposalInput → Text ⊎ SectionProposalInput
built = inr

same_input : (a b : SectionProposalInput) → built a ≡ built b → b ≡ a
same_input a b h = cc

-- The input of a reply that is not empty, or of hunks that Resolve finds in the plan.
abbrev pub BuiltFrom :
    IterationRequest → Text → Text → ParsedResponse → SectionProposalInput → Type 0
BuiltFrom q raw selected p i =
    (((p.thread_reply == []) ≡ false) × (i ≡ reply_input q raw p.thread_reply))
    ⊎ ((r : Resolved) × (rs : List Resolved) × ((p.thread_reply == []) ≡ true)
        × (resolve q.plan p.hunks ≡ inr (r ∷ rs))
        × (i ≡ patch_input q raw p.summary selected r (r ∷ rs)))

hunks-BuiltFrom :
    (q : IterationRequest) (raw selected : Text) (p : ParsedResponse) (c : Text ⊎ List Resolved)
    (i : SectionProposalInput)
    → (p.thread_reply == []) ≡ true
    → resolve q.plan p.hunks ≡ c
    → input_of_hunks q raw p.summary selected c ≡ inr i
    → BuiltFrom q raw selected p i
unfolding input_of_hunks
hunks-BuiltFrom q raw selected p (inl e) i plain f h = absurd (cc)
hunks-BuiltFrom q raw selected p (inr []) i plain f h = absurd (cc)
hunks-BuiltFrom q raw selected p (inr (r ∷ rs)) i plain f h =
    inr (r, rs, plain, f, same_input (patch_input q raw p.summary selected r (r ∷ rs)) i h)

response-BuiltFrom :
    (q : IterationRequest) (raw selected : Text) (p : ParsedResponse) (i : SectionProposalInput)
    → input_of_response q raw selected p ≡ inr i
    → BuiltFrom q raw selected p i
unfolding input_of_response
response-BuiltFrom q raw selected p i =
    if-cases (λ c. c ≡ inr i → BuiltFrom q raw selected p i) (not (p.revision_id == q.revision_id))
      _ _ (λ _ h. absurd (cc))
      (λ _.
        if-cases (λ c. c ≡ inr i → BuiltFrom q raw selected p i) (not (p.thread_reply == [])) _ _
          (λ reply.
            if-cases (λ c. c ≡ inr i → BuiltFrom q raw selected p i) (q.thread_id == []) _ _
              (λ _ h. absurd (cc))
              (λ _ h.
                inl (ground (arith, reply), same_input (reply_input q raw p.thread_reply) i h)))
          (λ plain.
            if-cases (λ c. c ≡ inr i → BuiltFrom q raw selected p i) (ltb 0 (length p.hunks)) _ _
              (λ _ h.
                hunks-BuiltFrom q raw selected p (resolve q.plan p.hunks) i (ground (arith, plain))
                  refl h)
              (λ _ h. absurd (cc))))

-- The response that an input is built from.
abbrev pub Source : Xml → IterationRequest → Text → SectionProposalInput → Type 0
Source x q raw i =
    (selected : Text) × (p : ParsedResponse) × (parse_response x raw ≡ inr p)
    × BuiltFrom q raw selected p i

parsed-Source :
    (x : Xml) (q : IterationRequest) (raw selected : Text) (c : Text ⊎ ParsedResponse)
    (i : SectionProposalInput)
    → parse_response x raw ≡ c
    → (c >>= λ p. input_of_response q raw selected p) ≡ inr i
    → Source x q raw i
parsed-Source x q raw selected (inl e) i f h = absurd (cc)
parsed-Source x q raw selected (inr p) i f h =
    (selected, p, f, response-BuiltFrom q raw selected p i h)

selected-Source :
    (x : Xml) (q : IterationRequest) (raw : Text) (c : Text ⊎ Text) (i : SectionProposalInput)
    → (c >>= λ selected. parse_response x raw >>= λ p. input_of_response q raw selected p) ≡ inr i
    → Source x q raw i
selected-Source x q raw (inl e) i h = absurd (cc)
selected-Source x q raw (inr selected) i h =
    parsed-Source x q raw selected (parse_response x raw) i refl h

pub build-Source :
    (x : Xml) (q : IterationRequest) (raw : Text) (i : SectionProposalInput)
    → build_proposal x q raw ≡ inr i
    → Source x q raw i
unfolding build_proposal
build-Source x q raw i =
    if-cases (λ c. c ≡ inr i → Source x q raw i) (trim_space q.reviewer_instruction == []) _ _
      (λ _ h. absurd (cc)) (λ _ h. selected-Source x q raw (selected_text q) i h)
