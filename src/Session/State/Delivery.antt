-- ===== src/Session/State/Delivery.antt =====
-- Which answers are delivered to the model: an included answer belongs to an active thread. The
-- lemmas say how writes to threads and answers keep that.
use planmaxx.Base.{
  ◌≡◌, ◌≢◌, sym, ap, ◌∙◌, Bool, true, false, none, some, List, [], ◌∷◌, ◌++◌, map, inl, inr, ◌==◌,
  if◌then◌else◌, arith, Bool-cases, Option-cases, All, All-append,
}
use planmaxx.Base.Text.{Text, text_comparable, text_eqb_iff}
use planmaxx.Session.Types.{Thread, SideAnswer, Lifecycle, lifecycle, is_active}
use planmaxx.Session.State.{find_thread, update_thread, make_private}
use planmaxx.Session.State.Threads.{find-update_ne, find-update_self, find-append}

-- The thread that a pointer to this id reaches is active.
abbrev pub active_first : Text → List Thread → Bool
active_first id ts = elim (find_thread id ts) [ none ↦ false | some t ↦ is_active (lifecycle t) ]

-- No answer is included that hangs on a missing, addressed or detached thread.
unfoldable pub OnlyActive : List Thread → List SideAnswer → Type 0
OnlyActive ts = All λ a. a.promoted ≡ true → active_first a.thread_id ts ≡ true

pub OnlyActive-mono :
    (ts us : List Thread) (as' : List SideAnswer)
    → ((k : Text) → active_first k ts ≡ true → active_first k us ≡ true)
    → OnlyActive ts as'
    → OnlyActive us as'
unfolding OnlyActive
OnlyActive-mono ts us [] up h = tt
OnlyActive-mono ts us (a ∷ as') up (ha, h) =
    (λ p. up a.thread_id (ha p), OnlyActive-mono ts us as' up h)

active_first-update_ne :
    (k id : Text) (f : Thread → Thread) (ts : List Thread)
    → ((u : Thread) → (f u).id ≡ u.id)
    → id ≢ k
    → active_first k (update_thread id f ts) ≡ active_first k ts
active_first-update_ne k id f ts same ne = rw (find-update_ne k id f ts same ne, active_first)

active_first-update_up :
    (k id : Text) (f : Thread → Thread) (ts : List Thread)
    → ((u : Thread) → (f u).id ≡ u.id)
    → ((u : Thread) → lifecycle u ≡ Lifecycle.active → lifecycle (f u) ≡ Lifecycle.active)
    → active_first k ts ≡ true
    → active_first k (update_thread id f ts) ≡ true
active_first-update_up k id f ts same up h = elim (Bool-cases (id == k)) [
  | inr d ↦ active_first-update_ne k id f ts same (λ e. cc (d, (text_eqb_iff id k).1 e)) ∙ h
  | inl e ↦ elim (Option-cases (find_thread k ts)) [
    | inl missing ↦ cc (
      h,
      ap (λ o. elim o as (λ _. Bool) [ none ↦ false | some t ↦ is_active (lifecycle t) ]) missing,
    )
    | inr (t, found) ↦
        let found' : find_thread k (update_thread id f ts) ≡ some (f t) =
          rw ((text_eqb_iff id k).0 e) (find-update_self k f ts same found) in
        ground (arith, found, found', up t)
  ]
]

-- A write that keeps an active thread active.
pub OnlyActive-update :
    (id : Text) (f : Thread → Thread) (ts : List Thread) (as' : List SideAnswer)
    → ((u : Thread) → (f u).id ≡ u.id)
    → ((u : Thread) → lifecycle u ≡ Lifecycle.active → lifecycle (f u) ≡ Lifecycle.active)
    → OnlyActive ts as'
    → OnlyActive (update_thread id f ts) as'
OnlyActive-update id f ts as' same up =
    OnlyActive-mono ts (update_thread id f ts) as' (λ k. active_first-update_up k id f ts same up)

-- Any write, if the thread's answers are made private with it.
pub OnlyActive-update_private :
    (id : Text) (f : Thread → Thread) (ts : List Thread) (as' : List SideAnswer)
    → ((u : Thread) → (f u).id ≡ u.id)
    → OnlyActive ts as'
    → OnlyActive
        (update_thread id f ts)
        (map (λ a. if a.thread_id == id then make_private a else a) as')
unfolding OnlyActive
OnlyActive-update_private id f ts [] same h = tt
OnlyActive-update_private id f ts (a ∷ as') same (ha, h) = (
  elim (Bool-cases (a.thread_id == id)) [
    | inl e ↦ rw e (λ p. cc)
    | inr d ↦ rw d (λ p.
        active_first-update_ne a.thread_id id f ts same
          (λ e. cc (d, (text_eqb_iff a.thread_id id).1 (sym e)))
        ∙ ha p)
  ],
  OnlyActive-update_private id f ts as' same h,
)

pub OnlyActive-append_thread :
    (ts : List Thread) (n : Thread) (as' : List SideAnswer)
    → OnlyActive ts as'
    → OnlyActive (ts ++ n ∷ []) as'
OnlyActive-append_thread ts n as' = OnlyActive-mono ts (ts ++ n ∷ []) as' λ k h.
    elim (Option-cases (find_thread k ts)) [
      | inl missing ↦ ground (arith, missing)
      | inr (t, found) ↦ ground (arith, found, find-append k ts n found)
    ]

pub OnlyActive-append_answer :
    (ts : List Thread) (as' : List SideAnswer) (a : SideAnswer)
    → a.promoted ≡ false
    → OnlyActive ts as'
    → OnlyActive ts (as' ++ a ∷ [])
unfolding OnlyActive
OnlyActive-append_answer ts as' a off h = All-append _ as' (a ∷ []) h (λ p. cc (off, p), tt)
