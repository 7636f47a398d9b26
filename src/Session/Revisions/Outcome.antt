-- ===== src/Session/Revisions/Outcome.antt =====
-- What restoring a revision and an external edit of the plan file come to.
use planmaxx.Base.{
  ℕ, ◌≡◌, refl, sym, subst, ◌∙◌, ap, true, none, some, [], ◌∷◌, ◌++◌, inl, inr, ◌⊎◌, arith,
  Option-cases, get_elem?,
}
use planmaxx.Base.Text.{Text, codes, text_comparable}
use planmaxx.Session.Types.{
  Thread, Revision, SectionProposal, Session, Result, ok, err, source_turn, source_external,
}
use planmaxx.Session.State.{add_revision}
use planmaxx.Session.State.Loops.{Frame, Frame-refl, set_thread-Frame, detach_thread-Frame, ids}
use planmaxx.Session.Feedback.{find_revision}
use planmaxx.Session.Validate.Spec.{IsValid}
use planmaxx.Session.Validate.Sound.{validate_sound}
use planmaxx.Session.Proposals.Commit.{commit_cases}
use planmaxx.Session.Proposals.{commit, apply_proposal_checked}
use planmaxx.Session.Proposals.Frame.{for_threads-Frame}
use planmaxx.Session.Revisions.{
  reconcile_body, reconcile_active_thread_anchors, add_turn_revision, add_external_revision,
  mark_obsolete, reconcile_external_plan, restore_revision,
}

reconcile_body-Frame :
    (previous next : Text) (i : ℕ) (t : Thread) (s : Session)
    → get_elem? s.threads i ≡ some t
    → Frame s (reconcile_body previous next i t s)
unfolding reconcile_body
reconcile_body-Frame previous next i t s at =
    grind (arith, Frame-refl, set_thread-Frame, detach_thread-Frame)

pub reconcile-Frame :
    (previous next : Text) (s : Session) → Frame s (reconcile_active_thread_anchors previous next s)
unfolding reconcile_active_thread_anchors
reconcile-Frame previous next s =
    for_threads-Frame (reconcile_body previous next) s (reconcile_body-Frame previous next)

-- A new revision `r` on top of the one that was checked out; no comment is lost.
pub record Grown (s : Session) (text from : Text) (r : Revision) (u : Session) : Type 0 where
  pub plan : u.plan ≡ text
  pub content : r.plan ≡ text
  pub origin : r.source ≡ from
  pub parent : r.parent_id ≡ s.current_revision_id
  pub current : u.current_revision_id ≡ r.id
  pub history : u.revisions ≡ s.revisions ++ r ∷ []
  pub threads : ids u.threads ≡ ids s.threads

add_turn_revision-Grown :
    (plan summary : Text) (now : ℕ) (s : Session)
    → let (r, u) = add_turn_revision plan summary now s in
      Grown s plan source_turn r u × (u.pending_proposal ≡ none)
unfolding add_turn_revision add_revision
add_turn_revision-Grown plan summary now s =
    let f = reconcile-Frame s.plan plan (record s { pending_proposal = none }) in
    (
      record {
        plan = refl;
        content = refl;
        origin = refl;
        parent = f.current;
        current = refl;
        history = ground (arith, f);
        threads = f.threads;
      },
      f.pending,
    )

abbrev pub RestoreOutcome : Session → Text → Text → Result Revision × Session → Type 0
RestoreOutcome s id content (ok r, u) =
    (s.pending_proposal ≡ none)
    × ((q : Revision) × (find_revision id s.revisions ≡ some q))
    × Grown s content source_turn r u
    × (u.pending_proposal ≡ none)
    × IsValid u
RestoreOutcome s id content (err e, u) = u ≡ s

commit-RestoreOutcome :
    (s : Session) (id content : Text) (q r : Revision) (u : Session)
    → s.pending_proposal ≡ none
    → find_revision id s.revisions ≡ some q
    → Grown s content source_turn r u × (u.pending_proposal ≡ none)
    → RestoreOutcome s id content (commit s (r, u))
commit-RestoreOutcome s id content q r u none_pending found (grown, cleared) =
    commit_cases (RestoreOutcome s id content) s u r
      (λ v. (none_pending, (q, found), grown, cleared, validate_sound u v)) (λ e. refl)

restore_found :
    (s : Session) (id content : Text) (now : ℕ) (q : Revision)
    → s.pending_proposal ≡ none
    → find_revision id s.revisions ≡ some q
    → restore_revision id content now s
      ≡ commit s (add_turn_revision content (codes "Restored revision " ++ id) now s)
unfolding restore_revision
restore_found s id content now q e found = ground (arith, e, found)

restore_missing :
    (s : Session) (id content : Text) (now : ℕ)
    → s.pending_proposal ≡ none
    → find_revision id s.revisions ≡ none
    → RestoreOutcome s id content (restore_revision id content now s)
unfolding restore_revision
restore_missing s id content now e missing = ground (arith, e, missing)

restore_pending :
    (s : Session) (id content : Text) (now : ℕ) (p : SectionProposal)
    → s.pending_proposal ≡ some p
    → RestoreOutcome s id content (restore_revision id content now s)
unfolding restore_revision
restore_pending s id content now p e = ground (arith, e)

-- RestoreRevision either returns an error and the session as it was, or nothing was pending and the
-- revision exists; then the session is valid, one turn revision with the given content and under the
-- checked-out one is appended and checked out, and the threads have the same ids.
pub restore_revision-RestoreOutcome :
    (s : Session) (id content : Text) (now : ℕ)
    → RestoreOutcome s id content (restore_revision id content now s)
restore_revision-RestoreOutcome s id content now = elim (Option-cases s.pending_proposal) [
  | inr (p, e) ↦ restore_pending s id content now p e
  | inl e ↦ elim (Option-cases (find_revision id s.revisions)) [
    | inl missing ↦ restore_missing s id content now e missing
    | inr (q, found) ↦
        let summary = codes "Restored revision " ++ id in
        let (r, u) = add_turn_revision content summary now s in
        subst (RestoreOutcome s id content) (sym (restore_found s id content now q e found)) (
          commit-RestoreOutcome s id content q r u e found
            (add_turn_revision-Grown content summary now s))
  ]
]

-- A proposal that was pending is kept and marked.
pub record External (s : Session) (next : Text) (u : Session) : Type 0 where
  pub revision : (r : Revision) × Grown s next source_external r u
  pub kept :
      (p : SectionProposal)
      → s.pending_proposal ≡ some p
      → u.pending_proposal ≡ some (record p { obsolete = true })
  pub missing : s.pending_proposal ≡ none → u.pending_proposal ≡ none

-- ReconcileExternalPlan appends one external revision with the new source under the checked-out one
-- and checks it out, keeps the ids of the threads, and marks a pending proposal obsolete without
-- changing anything else of it.
pub reconcile_external_plan-External :
    (previous next : Text) (now : ℕ) (s : Session)
    → External s next (reconcile_external_plan previous next now s)
unfolding reconcile_external_plan add_revision
reconcile_external_plan-External previous next now s =
    let s1 = reconcile_active_thread_anchors previous next s in
    let f = reconcile-Frame previous next s in
    record {
      revision = (
        (add_external_revision next (codes "Plan file changed outside PlanMaxx") now
            (record s1 { pending_proposal = mark_obsolete s1.pending_proposal })).0,
        record {
          plan = refl;
          content = refl;
          origin = refl;
          parent = f.current;
          current = refl;
          history = ground (arith, f);
          threads = f.threads;
        },
      );
      kept = λ p e. ap mark_obsolete (f.pending ∙ e);
      missing = λ e. ap mark_obsolete (f.pending ∙ e);
    }

-- An error, with the session as it was.
abbrev pub IsRejected : {A : Type 0} → Session → Result A × Session → Type 0
IsRejected s (ok _, u) = ⊥
IsRejected s (err _, u) = u ≡ s

apply_obsolete :
    (u : Session) (id : Text) (now : ℕ)
    → ((u.pending_proposal ≡ none)
        ⊎ ((p : SectionProposal) × (u.pending_proposal ≡ some p) × (p.obsolete ≡ true)))
    → IsRejected u (apply_proposal_checked id now u)
unfolding apply_proposal_checked
apply_obsolete u id now (inl e) = ground (arith, e)
apply_obsolete u id now (inr (p, e, old)) = ground (arith, e, old)

-- Behind ReconcileExternalPlan every call of ApplyProposalChecked returns an error and leaves the
-- session as it was.
pub apply_after_external :
    (previous next id : Text) (now later : ℕ) (s : Session)
    → let u = reconcile_external_plan previous next now s in
      IsRejected u (apply_proposal_checked id later u)
apply_after_external previous next id now later s =
    let x = reconcile_external_plan-External previous next now s in
    apply_obsolete (reconcile_external_plan previous next now s) id later
      (elim (Option-cases s.pending_proposal) [
        | inl e ↦ inl (x.missing e)
        | inr (p, e) ↦ inr (record p { obsolete = true }, x.kept p e, refl)
      ])
