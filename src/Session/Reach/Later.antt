-- ===== src/Session/Reach/Later.antt =====
-- No sequence of these steps takes a revision or a comment away.
use planmaxx.Base.{
  map-append, ℕ, ◌≡◌, refl, sym, subst, ap, ◌∙◌, List, [], ◌∷◌, ◌++◌, map, arith, append-nil,
  append_assoc,
}
use planmaxx.Base.Text.{Text, text_comparable}
use planmaxx.Session.Types.{Thread, Revision, SectionProposalInput, Session, Result, ok, err}
use planmaxx.Session.State.{
  update_thread, thread_pointer, mutable_active_thread, detach_thread, add_thread, new_message,
  make_answers_private, add_side_answer,
}
use planmaxx.Session.State.Loops.{ids, ids-update}
use planmaxx.Session.Anchors.{resolve_thread_after_proposal}
use planmaxx.Session.Feedback.{update_revision}
use planmaxx.Session.Feedback.Ops.{Op, apply}
use planmaxx.Session.Proposals.{create_section_proposal, retarget_proposal_threads}
use planmaxx.Session.Proposals.Retarget.{retarget-Moves, Moves-ids}
use planmaxx.Session.Proposals.Apply.{ApplyOutcome, apply_proposal_checked-ApplyOutcome}
use planmaxx.Session.Revisions.Outcome.{
  RestoreOutcome, restore_revision-RestoreOutcome, reconcile_external_plan-External,
}
use planmaxx.Session.Reach.{
  Step, feedback, propose, retarget, apply_proposal, restore, external, Reach, done, next,
}

abbrev pub Extends {ℓ} : {A : Type ℓ} → List A → List A → Type ℓ
Extends {A = A} xs ys = (rest : List A) × (ys ≡ xs ++ rest)

Extends-trans {ℓ} : {A : Type ℓ} (xs ys zs : List A) → Extends xs ys → Extends ys zs → Extends xs zs
Extends-trans xs ys zs (r, e) (q, f) = (r ++ q, f ∙ ap (λ l. l ++ q) e ∙ append_assoc xs r q)

-- The ids and the plans of the revisions.
abbrev pub contents : List Revision → List (Text × Text)
contents = map λ (r : Revision). (r.id, r.plan)

-- The revisions of one session behind those of another, and its comments.
unfoldable pub LaterRevisions : List Revision → List Revision → Type 0
LaterRevisions rs qs = Extends (contents rs) (contents qs)

unfoldable pub LaterThreads : List Thread → List Thread → Type 0
LaterThreads ts us = Extends (ids ts) (ids us)

LaterRevisions-refl : (rs : List Revision) → LaterRevisions rs rs
unfolding LaterRevisions
LaterRevisions-refl rs = ([], sym (append-nil (contents rs)))

LaterRevisions-append : (rs : List Revision) (r : Revision) → LaterRevisions rs (rs ++ r ∷ [])
unfolding LaterRevisions
LaterRevisions-append rs r = ((r.id, r.plan) ∷ [], map-append _ rs (r ∷ []))

contents-update :
    (id : Text) (f : Revision → Revision) (rs : List Revision)
    → ((r : Revision) → (f r).id ≡ r.id)
    → ((r : Revision) → (f r).plan ≡ r.plan)
    → contents (update_revision id f rs) ≡ contents rs
unfolding update_revision
contents-update id f [] same same' = refl
contents-update id f (r ∷ rs) same same' =
    ground (arith, same r, same' r, contents-update id f rs same same')

LaterRevisions-update :
    (id : Text) (f : Revision → Revision) (rs : List Revision)
    → ((r : Revision) → (f r).id ≡ r.id)
    → ((r : Revision) → (f r).plan ≡ r.plan)
    → LaterRevisions rs (update_revision id f rs)
unfolding LaterRevisions
LaterRevisions-update id f rs same same' =
    ([], contents-update id f rs same same' ∙ sym (append-nil (contents rs)))

LaterThreads-refl : (ts : List Thread) → LaterThreads ts ts
unfolding LaterThreads
LaterThreads-refl ts = ([], sym (append-nil (ids ts)))

LaterThreads-append : (ts : List Thread) (t : Thread) → LaterThreads ts (ts ++ t ∷ [])
unfolding LaterThreads
LaterThreads-append ts t = (t.id ∷ [], map-append _ ts (t ∷ []))

LaterThreads-same : (ts us : List Thread) → ids us ≡ ids ts → LaterThreads ts us
unfolding LaterThreads
LaterThreads-same ts us e = ([], e ∙ sym (append-nil (ids ts)))

LaterThreads-update :
    (id : Text) (f : Thread → Thread) (ts : List Thread)
    → ((u : Thread) → (f u).id ≡ u.id)
    → LaterThreads ts (update_thread id f ts)
LaterThreads-update id f ts same =
    LaterThreads-same ts (update_thread id f ts) (ids-update id f ts same)

module _ (now : ℕ) (s : Session) where
  apply-LaterThreads : (o : Op) → LaterThreads s.threads (apply o now s).1.threads
  unfolding apply thread_pointer mutable_active_thread detach_thread add_thread new_message
      make_answers_private add_side_answer resolve_thread_after_proposal
  apply-LaterThreads (Op.add_thread _ _ _ _ _) =
      grind (arith, LaterThreads-refl, LaterThreads-append)
  apply-LaterThreads (Op.set_intent _ _) = grind (arith, LaterThreads-refl, LaterThreads-update)
  apply-LaterThreads (Op.reply _ _) = grind (arith, LaterThreads-refl, LaterThreads-update)
  apply-LaterThreads (Op.agent_reply _ _) = grind (arith, LaterThreads-refl, LaterThreads-update)
  apply-LaterThreads (Op.reanchor _ _) = grind (arith, LaterThreads-refl, LaterThreads-update)
  apply-LaterThreads (Op.edit _ _ _ _) = grind (arith, LaterThreads-refl, LaterThreads-update)
  apply-LaterThreads (Op.address _ _) = grind (arith, LaterThreads-refl, LaterThreads-update)
  apply-LaterThreads (Op.record_addressed _ _) =
      grind (arith, LaterThreads-refl, LaterThreads-update)
  apply-LaterThreads (Op.detach _) = grind (arith, LaterThreads-refl, LaterThreads-update)
  apply-LaterThreads (Op.include_answer _) = grind (arith, LaterThreads-refl)
  apply-LaterThreads (Op.keep_private _) = grind (arith, LaterThreads-refl)
  apply-LaterThreads (Op.ask _ _ _) = grind (arith, LaterThreads-refl)
  apply-LaterThreads (Op.follow_up _) = grind (arith, LaterThreads-refl, LaterThreads-append)

  apply-LaterRevisions : (o : Op) → LaterRevisions s.revisions (apply o now s).1.revisions
  unfolding apply thread_pointer mutable_active_thread detach_thread add_thread new_message
      make_answers_private add_side_answer resolve_thread_after_proposal
  apply-LaterRevisions (Op.record_addressed _ _) =
      grind (arith, LaterRevisions-refl, LaterRevisions-update)
  apply-LaterRevisions (Op.add_thread _ _ _ _ _) = grind (arith, LaterRevisions-refl)
  apply-LaterRevisions (Op.set_intent _ _) = grind (arith, LaterRevisions-refl)
  apply-LaterRevisions (Op.reply _ _) = grind (arith, LaterRevisions-refl)
  apply-LaterRevisions (Op.agent_reply _ _) = grind (arith, LaterRevisions-refl)
  apply-LaterRevisions (Op.reanchor _ _) = grind (arith, LaterRevisions-refl)
  apply-LaterRevisions (Op.edit _ _ _ _) = grind (arith, LaterRevisions-refl)
  apply-LaterRevisions (Op.address _ _) = grind (arith, LaterRevisions-refl)
  apply-LaterRevisions (Op.detach _) = grind (arith, LaterRevisions-refl)
  apply-LaterRevisions (Op.include_answer _) = grind (arith, LaterRevisions-refl)
  apply-LaterRevisions (Op.keep_private _) = grind (arith, LaterRevisions-refl)
  apply-LaterRevisions (Op.ask _ _ _) = grind (arith, LaterRevisions-refl)
  apply-LaterRevisions (Op.follow_up _) = grind (arith, LaterRevisions-refl)

-- What the steps never take away.
pub record Later (s u : Session) : Type 0 where
  pub revisions : LaterRevisions s.revisions u.revisions
  pub threads : LaterThreads s.threads u.threads

Later-refl : (s : Session) → Later s s
Later-refl s = record {
  revisions = LaterRevisions-refl s.revisions;
  threads = LaterThreads-refl s.threads;
}

Later-trans : {s u v : Session} → Later s u → Later u v → Later s v
unfolding LaterRevisions LaterThreads
Later-trans f g = record {
  revisions = Extends-trans _ _ _ f.revisions g.revisions;
  threads = Extends-trans _ _ _ f.threads g.threads;
}

-- A revision at the end, and threads with the same ids.
grown-Later :
    (s u : Session) (r : Revision)
    → u.revisions ≡ s.revisions ++ r ∷ []
    → ids u.threads ≡ ids s.threads
    → Later s u
grown-Later s u r history same = record {
  revisions =
      subst (LaterRevisions s.revisions) (sym history) (LaterRevisions-append s.revisions r);
  threads = LaterThreads-same s.threads u.threads same;
}

same-Later : (s u : Session) → u ≡ s → Later s u
same-Later s u e = subst (Later s) (sym e) (Later-refl s)

applied-Later :
    (s : Session) (id : Text) (out : Result Revision × Session)
    → ApplyOutcome s id out
    → Later s out.1
applied-Later s id (ok r, u) (p, pending, named, fresh, based, applied, valid) =
    grown-Later s u r applied.history applied.threads
applied-Later s id (err e, u) same = same-Later s u same

restored-Later :
    (s : Session) (id content : Text) (out : Result Revision × Session)
    → RestoreOutcome s id content out
    → Later s out.1
restored-Later s id content (ok r, u) (pending, found, grown, cleared, valid) =
    grown-Later s u r grown.history grown.threads
restored-Later s id content (err e, u) same = same-Later s u same

proposed-Later :
    (s : Session) (input : SectionProposalInput) (now : ℕ)
    → Later s (create_section_proposal input now s).1
unfolding create_section_proposal
proposed-Later s input now = record {
  revisions = LaterRevisions-refl s.revisions;
  threads = LaterThreads-refl s.threads;
}

retargeted-Later :
    (s : Session) (previous_id next_id previous_plan next_plan : Text)
    → Later s (retarget_proposal_threads previous_id next_id previous_plan next_plan s)
unfolding retarget_proposal_threads
retargeted-Later s previous_id next_id previous_plan next_plan = record {
  revisions = LaterRevisions-refl s.revisions;
  threads = LaterThreads-same s.threads _ (
      Moves-ids previous_id next_id s.threads _
        (retarget-Moves previous_id next_id previous_plan next_plan s.threads));
}

Step-Later : {s u : Session} → Step s u → Later s u
Step-Later (feedback {s} o now) = record {
  revisions = apply-LaterRevisions now s o;
  threads = apply-LaterThreads now s o;
}
Step-Later (propose {s} input now) = proposed-Later s input now
Step-Later (retarget {s} previous_id next_id previous_plan next_plan) =
    retargeted-Later s previous_id next_id previous_plan next_plan
Step-Later (apply_proposal {s} id now) =
    applied-Later s id _ (apply_proposal_checked-ApplyOutcome s id now)
Step-Later (restore {s} id content now) =
    restored-Later s id content _ (restore_revision-RestoreOutcome s id content now)
Step-Later (external {s} previous edited now) =
    let x = reconcile_external_plan-External previous edited now s in
    grown-Later s _ x.revision.0 x.revision.1.history x.revision.1.threads

-- Through any sequence of checked feedback operations (Op), created proposals, threads moved to a
-- proposal, applied proposals, restored revisions and external edits, the ids and plans of the
-- revisions and the ids of the comments stay, in their order, and new ones only come behind them.
-- DeleteThread and DiscardProposal are not among these steps.
pub Reach-Later : {s u : Session} → Reach s u → Later s u
Reach-Later (done {s}) = Later-refl s
Reach-Later (next step rest) = Later-trans (Step-Later step) (Reach-Later rest)
