-- ===== src/Review/Iteration/Prepare.antt =====
-- prepareProposalLocked: internal/review/server.go.
use planmaxx.Base.{
  ℕ, Bool, true, false, not, none, some, [], ◌==◌, if◌then◌else◌, ◌⊎◌, inl, inr, length, eqb,
}
use planmaxx.Base.Int.{int_comparable}
use planmaxx.Base.Text.{Text, codes, text_comparable}
use planmaxx.Base.Utf8.{trim_space}
use planmaxx.Session.Types.{Anchor, Session, kind_review, lifecycle, is_active}
use planmaxx.Session.State.{find_thread}
use planmaxx.Session.Context.{select_context}
use planmaxx.Digest.{draft_from_state, no_options}
use planmaxx.Review.Types.{Server}
use planmaxx.Review.ClientState.{has_proposal}
use planmaxx.Review.Paths.{validate_anchor}
use planmaxx.Review.Mutate.{World, Failure, response, is_obsolete, after_sync, sync_external_source}
use planmaxx.Review.Iteration.Request.{
  Outside, ProposeRequest, ProposalLifecycle, Prepared, anchors_equal, whole_plan_anchor,
  pending_proposal_id, review_iteration_instruction, refined_proposal, section_iteration_request,
}

infixl 5 ◌>>=◌ ◌>>◌
abbrev pub ◌>>=◌ : {A B : Type 0} → Failure ⊎ A → (A → Failure ⊎ B) → Failure ⊎ B
inl e >>= f = inl e
inr a >>= f = f a

abbrev pub ◌>>◌ : {A B : Type 0} → Failure ⊎ A → Failure ⊎ B → Failure ⊎ B
m >> n = m >>= λ _. n

abbrev pub reject_if : Bool → ℕ → Text → Failure ⊎ Unit {0}
reject_if true code text = inl (response code text)
reject_if false code text = inr tt

-- The request and the lifecycle of a review, with the digest as the session has it now.
unfoldable pub review_request :
    Outside → Session → ProposeRequest → ProposalLifecycle → ProposeRequest × ProposalLifecycle
unfolding whole_plan_anchor review_iteration_instruction
review_request o s r l =
    let draft = draft_from_state s in
    let summary : Text = elim l.review_digest [
      | none ↦ draft.summary
      | some d ↦ if trim_space d.summary == [] then draft.summary else trim_space d.summary
    ] in
    let digest = record draft { summary = summary } in
    (
      record r {
        anchor = whole_plan_anchor s.plan;
        instruction = review_iteration_instruction o (some digest) [];
      },
      record l {
        review_digest = some digest;
        consumed_side_answer_ids = (select_context s no_options).answer_ids;
      },
    )

-- A section request that refines the pending proposal of a review carries that on.
unfoldable pub section_request :
    Outside → Session → ProposeRequest → ProposalLifecycle → ProposeRequest × ProposalLifecycle
unfolding refined_proposal review_iteration_instruction
section_request o s r l = elim (refined_proposal s r.anchor) [
  | none ↦ (r, l)
  | some p ↦
      if p.kind == kind_review
      then (
        record r { instruction = review_iteration_instruction o p.review_digest r.instruction },
        record {
          kind = p.kind;
          review_digest = p.review_digest;
          consumed_side_answer_ids = p.consumed_side_answer_ids;
        },
      )
      else (r, l)
]

check_thread : Session → Text → Failure ⊎ Unit {0}
check_thread s id = if id == [] then inr tt else elim (find_thread id s.threads) [
  | none ↦ inl (response 404 (codes "thread not found"))
  | some t ↦
      reject_if (not (is_active (lifecycle t))) 409
        (codes "reactivate feedback before iterating it")
]

abbrev check_anchor : Anchor → Text → Failure ⊎ Unit {0}
check_anchor a plan = elim (validate_anchor a plan) [
  | none ↦ inr tt
  | some _ ↦ inl (response 400 (codes "invalid section proposal json"))
]

abbrev other_section : Session → Anchor → Bool
other_section s a = elim s.pending_proposal [
  | none ↦ false
  | some p ↦ not (anchors_equal p.anchor a)
]

abbrev with_answers : Session → ProposeRequest → ProposalLifecycle → ProposalLifecycle
with_answers s r l =
    if eqb (length l.consumed_side_answer_ids) 0
    then record l {
      consumed_side_answer_ids =
          (select_context s (record {
            anchor = some r.anchor;
            explicit_thread_id = r.thread_id;
            revision_id = [];
          })).answer_ids;
    }
    else l

-- prepareProposalLocked behind the choice of the request.
unfoldable pub prepare_checked :
    Outside → Session → ProposeRequest → ProposalLifecycle → Failure ⊎ Prepared
unfolding check_thread anchors_equal section_iteration_request pending_proposal_id
prepare_checked o s r l = do
  reject_if (r.instruction == []) 400 (codes "invalid section proposal json")
  check_anchor r.anchor s.plan
  check_thread s r.thread_id
  reject_if (is_obsolete s) 409 (codes "discard the stale section proposal before iterating again")
  reject_if (other_section s r.anchor) 409
      (codes "apply or discard the pending proposal before iterating a different section")
  inr (record {
    request = section_iteration_request s r;
    lifecycle = with_answers s r l;
    base_revision_id = s.current_revision_id;
    base_pending_proposal_id = pending_proposal_id s;
    base_feedback = o.fingerprint s.threads s.side_answers;
    previous_proposed_plan = elim s.pending_proposal [ none ↦ [] | some p ↦ p.proposed_plan ];
  })

-- prepareProposalLocked behind syncExternalSourceLocked
unfoldable pub prepare_session :
    Outside → Session → ProposeRequest → ProposalLifecycle → Failure ⊎ Prepared
unfolding review_request section_request prepare_checked
prepare_session o s r l =
    if l.kind == kind_review
    then (if has_proposal s
        then inl (
            response 409
              (codes "apply or discard the pending proposal before iterating the final review"))
        else let (r', l') = review_request o s r l in prepare_checked o s r' l')
    else let (r', l') = section_request o s r l in prepare_checked o s r' l'

unfoldable pub prepare_proposal :
    World → Outside → ProposeRequest → ProposalLifecycle → Server → (Failure ⊎ Prepared) × Server
unfolding sync_external_source prepare_session
prepare_proposal w o r l s =
    if s.finished
    then (inl (response 409 (codes "review already completed")), s)
    else after_sync (λ e t. (inl e, t))
        (λ t.
          (prepare_session o t.session (record r { instruction = trim_space r.instruction }) l, t))
        (sync_external_source w s)
