-- ===== src/Session/State/Threads.antt =====
-- Looking a thread up after the thread slice was written to.
use planmaxx.Base.{
  ◌≡◌, ◌≢◌, refl, ◌∙◌, some, List, [], ◌∷◌, ◌++◌, inl, inr, ◌==◌, arith, Bool-cases,
}
use planmaxx.Base.Text.{Text, text_comparable, text_eqb_iff}
use planmaxx.Session.Types.{Thread, lifecycle}
use planmaxx.Session.State.{find_thread, update_thread}

-- What is found has the id that was asked for.
pub find_thread-id :
    (k : Text) (ts : List Thread) {t : Thread} → find_thread k ts ≡ some t → t.id ≡ k
unfolding find_thread
find_thread-id k [] h = cc
find_thread-id k (u ∷ ts) {t} h = ground (arith, text_eqb_iff u.id k, find_thread-id k ts {t = t})

pub find-update_ne :
    (k id : Text) (f : Thread → Thread) (ts : List Thread)
    → ((u : Thread) → (f u).id ≡ u.id)
    → id ≢ k
    → find_thread k (update_thread id f ts) ≡ find_thread k ts
unfolding find_thread update_thread
find-update_ne k id f [] same ne = refl
find-update_ne k id f (u ∷ ts) same ne =
    ground
      (arith, same u, text_eqb_iff u.id k, text_eqb_iff u.id id, find-update_ne k id f ts same ne)

pub find-update_self :
    (id : Text) (f : Thread → Thread) (ts : List Thread) {t : Thread}
    → ((u : Thread) → (f u).id ≡ u.id)
    → find_thread id ts ≡ some t
    → find_thread id (update_thread id f ts) ≡ some (f t)
unfolding find_thread update_thread
find-update_self id f [] same h = cc
find-update_self id f (u ∷ ts) {t} same h =
    ground (arith, same u, text_eqb_iff u.id id, find-update_self id f ts {t = t} same)

pub find-append :
    (k : Text) (ts : List Thread) (n : Thread) {t : Thread}
    → find_thread k ts ≡ some t
    → find_thread k (ts ++ n ∷ []) ≡ some t
unfolding find_thread
find-append k [] n h = cc
find-append k (u ∷ ts) n {t} h = ground (arith, find-append k ts n {t = t})

-- A write through a pointer to a thread leaves every thread in another lifecycle state alone.
pub find-update_other :
    (k id : Text) (f : Thread → Thread) (ts : List Thread) {t u : Thread}
    → ((v : Thread) → (f v).id ≡ v.id)
    → find_thread k ts ≡ some t
    → find_thread id ts ≡ some u
    → lifecycle u ≢ lifecycle t
    → find_thread k (update_thread id f ts) ≡ some t
find-update_other k id f ts {t} {u} same ht hu ne = elim (Bool-cases (id == k)) [
  | inl e ↦ absurd (ne (cc (ht, hu, (text_eqb_iff id k).0 e)))
  | inr d ↦ find-update_ne k id f ts same (λ e. cc (d, (text_eqb_iff id k).1 e)) ∙ ht
]
