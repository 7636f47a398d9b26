-- ===== src/Session/State/MapLoop.antt =====
-- A loop over the threads whose rounds only rewrite their own thread is a map over the threads.
use planmaxx.Base.{
  ℕ, zero, suc, ◌≡◌, refl, sym, ◌∙◌, ap, some, List, [], ◌∷◌, ◌++◌, map, arith, length, get_elem?,
  set, append_assoc,
}
use planmaxx.Session.Types.{Thread, Session}
use planmaxx.Session.State.{at_thread, loop_threads, for_threads}

get_at {ℓ} :
    {A : Type ℓ} (done rest : List A) (x : A) → get_elem? (done ++ x ∷ rest) (length done) ≡ some x
get_at [] rest x = refl
get_at (y ∷ done) rest x = get_at done rest x

set_at {ℓ} :
    {A : Type ℓ} (done rest : List A) (x y : A)
    → set (done ++ x ∷ rest) (length done) y ≡ done ++ y ∷ rest
set_at [] rest x y = refl
set_at (z ∷ done) rest x y = ap (λ l. z ∷ l) (set_at done rest x y)

pub set_same {ℓ} :
    {A : Type ℓ} (xs : List A) (i : ℕ) (x : A) → get_elem? xs i ≡ some x → set xs i x ≡ xs
set_same [] i x h = refl
set_same (y ∷ xs) zero x h = ground arith
set_same (y ∷ xs) (suc i) x h = ap (λ l. y ∷ l) (set_same xs i x h)

length-snoc {ℓ} : {A : Type ℓ} (xs : List A) (x : A) → length (xs ++ x ∷ []) ≡ suc (length xs)
length-snoc [] x = refl
length-snoc (y ∷ xs) x = ap suc (length-snoc xs x)

module _ (g : Thread → Thread) (body : ℕ → Thread → Session → Session)
    (step : (i : ℕ) (t : Thread) (s : Session)
      → get_elem? s.threads i ≡ some t
      → (body i t s).threads ≡ set s.threads i (g t)) where
  at_thread-set :
      (done rest : List Thread) (t : Thread) (s : Session)
      → s.threads ≡ done ++ t ∷ rest
      → (at_thread body (length done) s).threads ≡ done ++ g t ∷ rest
  at_thread-set done rest t s e =
      let at : get_elem? s.threads (length done) ≡ some t =
        ap (λ l. get_elem? l (length done)) e ∙ get_at done rest t in
      rw (at, at_thread)
        (step (length done) t s at
          ∙ ap (λ l. set l (length done) (g t)) e
          ∙ set_at done rest t (g t))

  loop_threads-map :
      (done rest : List Thread) (s : Session)
      → s.threads ≡ done ++ rest
      → (loop_threads body (length done) (length rest) s).threads ≡ done ++ map g rest
  unfolding loop_threads
  loop_threads-map done [] s e = e
  loop_threads-map done (t ∷ rest) s e =
      let u = at_thread body (length done) s in
      let next = at_thread-set done rest t s e ∙ sym (append_assoc done (g t ∷ []) rest) in
      ap (λ n. (loop_threads body n (length rest) u).threads) (sym (length-snoc done (g t)))
      ∙ loop_threads-map (done ++ g t ∷ []) rest u next
      ∙ append_assoc done (g t ∷ []) (map g rest)

  pub for_threads-map : (s : Session) → (for_threads body s).threads ≡ map g s.threads
  unfolding for_threads
  for_threads-map s = loop_threads-map [] s.threads s refl
