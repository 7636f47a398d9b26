-- ===== src/Session/Proposals/Commit.antt =====
-- The check with rollback that ends ApplyProposalChecked and RestoreRevision.
use planmaxx.Base.{◌≡◌, refl, sym, subst}
use planmaxx.Session.Types.{Session, Result, ok, err, TransitionError}
use planmaxx.Session.Validate.{validate}
use planmaxx.Session.Proposals.{commit}

commit_ok : {A : Type 0} (s u : Session) (a : A) → validate u ≡ ok tt → commit s (a, u) ≡ (ok a, u)
unfolding commit
commit_ok s u a v = rw (v, commit)

commit_err :
    {A : Type 0} (s u : Session) (a : A) (e : TransitionError)
    → validate u ≡ err e
    → commit s (a, u) ≡ (err e, s)
unfolding commit
commit_err s u a e v = rw (v, commit)

-- What holds of an accepted session, and of the old one with an error, holds of the result.
pub commit_cases {ℓ} :
    {A : Type 0} (P : Result A × Session → Type ℓ) (s u : Session) (a : A)
    → (validate u ≡ ok tt → P (ok a, u))
    → ((e : TransitionError) → P (err e, s))
    → P (commit s (a, u))
commit_cases {A} P s u a accepted rejected = go (validate u) refl
  where
    go : (v : Result (Unit {0})) → validate u ≡ v → P (commit s (a, u))
    go (ok _) v = subst P (sym (commit_ok s u a v)) (accepted v)
    go (err e) v = subst P (sym (commit_err s u a e v)) (rejected e)
