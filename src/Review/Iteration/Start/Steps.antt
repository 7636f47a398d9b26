-- ===== src/Review/Iteration/Start/Steps.antt =====
-- Starting an iteration is a step of the system of the server and its goroutines.
use planmaxx.Base.{
  ℕ, ◌≡◌, refl, ap, ◌∙◌, false, Option, none, some, List, ◌∷◌, ◌⊎◌, inl, inr, if-cases, Bool-cases,
}
use planmaxx.Base.Text.{Text}
use planmaxx.Review.Types.{IterationOperation, Server}
use planmaxx.Review.Operations.{iteration_running, operation_running}
use planmaxx.Review.Operations.Tasks.{Task, waiting, Reach, later, start, other}
use planmaxx.Review.Mutate.{World, Failure, after_sync, sync_external_source}
use planmaxx.Review.Mutate.Outcome.{SyncOutcome, sync_external_source-SyncOutcome}
use planmaxx.Review.Iteration.Request.{Outside, ProposeRequest, ProposalLifecycle, Prepared}
use planmaxx.Review.Iteration.Prepare.{prepare_proposal}
use planmaxx.Review.Iteration.Execute.{
  Started, accepted, queue_prepared, start_iteration, running_operation,
}

-- No goroutine is started, or the one of the operation that is accepted.
pub data StartOutcome (initial : Server) (ts : List Task) : Started × Server → Type 0 where
  stays :
      {x : Started} {t : Server}
      → Reach initial (record { server = t; tasks = ts })
      → StartOutcome initial ts (x, t)
  begins :
      {o : IterationOperation} {t : Server}
      → Reach initial (record { server = t; tasks = waiting (o.view.id) ∷ ts })
      → StartOutcome initial ts (accepted o, t)

synced-operation :
    {A : Type 0} (w : World) (s : Server) (fail : Failure → Server → A × Server)
    (next : Server → A × Server) (x : Option Failure × Server)
    → ((e : Failure) (t : Server) → (fail e t).1 ≡ t)
    → ((t : Server) → (next t).1 ≡ t)
    → SyncOutcome w s x
    → (after_sync fail next x).1.iteration_operation ≡ s.iteration_operation
synced-operation w s fail next (none, t) f n e =
    ap (λ (u : Server). u.iteration_operation) (n t ∙ e)
synced-operation w s fail next (some e, t) f n (inl same) =
    ap (λ (u : Server). u.iteration_operation) (f e t) ∙ same.operation
synced-operation w s fail next (some e, t) f n (inr (inl undone)) =
    ap (λ (u : Server). u.iteration_operation) (f e t) ∙ undone.operation
synced-operation w s fail next (some e, t) f n (inr (inr loaded)) =
    ap (λ (u : Server). u.iteration_operation) (f e t) ∙ loaded.saved.operation

prepare-operation :
    (w : World) (o : Outside) (r : ProposeRequest) (l : ProposalLifecycle) (s : Server)
    → (prepare_proposal w o r l s).1.iteration_operation ≡ s.iteration_operation
unfolding prepare_proposal
prepare-operation w o r l s =
    if-cases
      (λ (x : (Failure ⊎ Prepared) × Server). x.1.iteration_operation ≡ s.iteration_operation)
      s.finished _ _ (λ _. refl)
      (λ _.
        synced-operation w s _ _ (sync_external_source w s) (λ e t. refl) (λ t. refl)
          (sync_external_source-SyncOutcome w s))

running-cases :
    (c : Option IterationOperation)
    → ((running_operation c ≡ none) × (operation_running c ≡ false))
      ⊎ ((o : IterationOperation) × (running_operation c ≡ some o))
running-cases none = inl (refl, refl)
running-cases (some o) = elim (Bool-cases (operation_running (some o))) [
  | inl on ↦ inr (o, rw on refl)
  | inr off ↦ inl (rw off refl, off)
]

module _ (initial : Server) (ts : List Task) where
  queue-StartOutcome :
      (kind key : Text) (now : ℕ) (p : Failure ⊎ Prepared) (t : Server)
      → Reach initial (record { server = t; tasks = ts })
      → iteration_running t ≡ false
      → StartOutcome initial ts (queue_prepared kind key now p t)
  unfolding queue_prepared
  queue-StartOutcome kind key now (inl e) t reached idle = stays reached
  queue-StartOutcome kind key now (inr p) t reached idle =
      begins (later reached (start kind key p.base_revision_id now idle))

  -- startIteration takes the server and its goroutines to a state that the steps reach, with one more
  -- goroutine only for the operation that it accepts.
  pub start_iteration-StartOutcome :
      (w : World) (o : Outside) (kind key : Text) (r : ProposeRequest) (l : ProposalLifecycle)
      (s : Server)
      → Reach initial (record { server = s; tasks = ts })
      → StartOutcome initial ts (start_iteration w o kind key r l s)
  unfolding start_iteration
  start_iteration-StartOutcome w o kind key r l s reached =
      elim (running-cases s.iteration_operation) [
        | inl (e, idle) ↦
            let (prepared, t) = prepare_proposal w o r l s in
            rw (start_iteration, e)
              (queue-StartOutcome kind key w.now prepared t
                (later reached (other (prepare-operation w o r l s)))
                (ap operation_running (prepare-operation w o r l s) ∙ idle))
        | inr (running, e) ↦ rw (start_iteration, e) (stays reached)
      ]
