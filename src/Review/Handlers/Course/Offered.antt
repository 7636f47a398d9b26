-- ===== src/Review/Handlers/Course/Offered.antt =====
-- What the browser is offered, and what the handlers do with it: the capabilities of
-- internal/review/client_state.go beside the guards of internal/review/server.go.
use planmaxx.Base.{
  ℕ, ◌≡◌, refl, ◌∙◌, inl, inr, true, false, Option, none, some, [], ◌==◌, if◌then◌else◌, if-cases,
  Bool-cases, arith,
}
use planmaxx.Base.Text.{Text, codes, text_comparable, text_eqb_refl}
use planmaxx.Session.Types.{Digest, SectionProposal, TransitionError, stale_error, err}
use planmaxx.Session.Proposals.{apply_pending, apply_proposal_checked, commit}
use planmaxx.Review.Types.{IterationOperation, OperationView, Server}
use planmaxx.Review.Operations.{iteration_running, operation_running}
use planmaxx.Review.ClientState.{
  ClientCapabilities, client_capabilities, has_proposal, view_running,
}
use planmaxx.Review.Mutate.{World, sync_external_source}
use planmaxx.Review.Handlers.Course

-- snapshotIterationOperation
abbrev pub operation_snapshot : Option IterationOperation → Option OperationView
operation_snapshot none = none
operation_snapshot (some o) = some (o.view)

-- The capabilities that handleState writes.
abbrev pub offered : Server → ClientCapabilities
offered s =
    client_capabilities s.session s.finished s.agent.available
      (operation_snapshot s.iteration_operation)

snapshot-running :
    (o : Option IterationOperation) → view_running (operation_snapshot o) ≡ operation_running o
snapshot-running none = refl
snapshot-running (some o) = refl

module _ (w : World) (s : Server) (in_step : sync_external_source w s ≡ (none, s)) where
  abbrev RefusedEnd : Course.Ended × Server → Type 0
  RefusedEnd r = (text : Text) × (r ≡ (Course.refused text, s))

  idle-finalize :
      (submitted : Digest)
      → s.finished ≡ false
      → Course.finalize w submitted s ≡ Course.finalize_when_idle w submitted s
  unfolding Course.finalize
  idle-finalize submitted active =
      if-cases (λ r. r ≡ Course.finalize_when_idle w submitted s) s.finished _ _
        (λ ended. absurd (cc)) (λ _. rw in_step refl)

  finalize-offered :
      (submitted : Digest)
      → (offered s).can_finalize ≡ true
      → Course.finalize w submitted s ≡ Course.store_final w submitted s
  unfolding client_capabilities Course.finalize_when_idle
  finalize-offered submitted h =
      let busy = snapshot-running s.iteration_operation in
      let active : s.finished ≡ false = ground (arith, h) in
      let free : has_proposal s.session ≡ false = ground (arith, h) in
      let idle : iteration_running s ≡ false = ground (arith, h, busy) in
      idle-finalize submitted active ∙ (rw (free, idle) refl)

  finalize-withheld :
      (submitted : Digest)
      → (offered s).can_finalize ≡ false
      → RefusedEnd (Course.finalize w submitted s)
  unfolding client_capabilities Course.finalize Course.finalize_when_idle
  finalize-withheld submitted h =
      if-cases RefusedEnd s.finished _ _ (λ _. (_, refl))
        λ active. rw in_step (
          if-cases RefusedEnd (has_proposal s.session) _ _ (λ _. (_, refl))
            λ free.
              if-cases RefusedEnd (iteration_running s) _ _ (λ _. (_, refl))
                λ idle.
                  absurd
                    (ground (arith, h, active, free, idle, snapshot-running s.iteration_operation)))

  -- On a review that is in step with its source file, the browser is offered to finalize just where
  -- finalize goes on to store the digest; else finalize is refused and nothing is changed.
  pub finalize-Offered :
      (submitted : Digest)
      → (text : Text) × (Course.finalize w submitted s ≡ (
          if (offered s).can_finalize
          then Course.store_final w submitted s
          else (Course.refused text, s)))
  finalize-Offered submitted = elim (Bool-cases (offered s).can_finalize) [
    | inl on ↦ ([], finalize-offered submitted on ∙ rw on refl)
    | inr off ↦ let (text, e) = finalize-withheld submitted off in (text, e ∙ rw off refl)
  ]

abbrev pub stale_proposal : TransitionError
stale_proposal = stale_error (codes "proposal is obsolete or based on another revision")

-- On an active review with a pending proposal, the browser is offered to apply it just where
-- ApplyProposalChecked goes on to apply and validate it; else that is rejected as stale and changes
-- nothing.
pub apply-Offered :
    (s : Server) (p : SectionProposal) (now : ℕ)
    → s.session.pending_proposal ≡ some p
    → s.finished ≡ false
    → apply_proposal_checked p.id now s.session ≡ (
        if (offered s).can_apply_proposal
        then commit s.session (apply_pending p now s.session)
        else (err stale_proposal, s.session))
unfolding client_capabilities apply_proposal_checked
apply-Offered s p now pending active = elim (Bool-cases p.obsolete) [
  | inl old ↦ rw (pending, active, text_eqb_refl p.id, old) refl
  | inr fresh ↦ elim (Bool-cases (p.parent_id == s.session.current_revision_id)) [
    | inl based ↦ rw (pending, active, text_eqb_refl p.id, fresh, based) refl
    | inr moved ↦ rw (pending, active, text_eqb_refl p.id, fresh, moved) refl
  ]
]
