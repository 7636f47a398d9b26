-- ===== src/Digest/Silent.antt =====
-- Feedback that is not active is silent in the digest.
use planmaxx.Base.{
  ◌≡◌, refl, Bool, false, Option, none, some, List, [], ◌∷◌, ◌==◌, if◌then◌else◌, arith, keep, All,
  Option-cases, inl, inr,
}
use planmaxx.Base.Text.{Text, codes, text_comparable}
use planmaxx.Session.Types.{Thread, SideAnswer, Session, lifecycle, is_active}
use planmaxx.Session.Context.{
  ContextOptions, is_instruction, is_included, thread_by_id, select_context, instruction_messages,
  messages_of,
}
use planmaxx.Digest.{no_options, selected_answers, draft_from_state}

abbrev pub IsInactive : Thread → Type 0
IsInactive t = is_active (lifecycle t) ≡ false

keep-none {ℓ} :
    {A : Type ℓ} (p : A → Bool) (xs : List A) → All (λ x. p x ≡ false) xs → keep p xs ≡ []
keep-none p [] h = refl
keep-none p (x ∷ xs) (h, hs) = rw h (keep-none p xs hs)

instruction-none :
    (s : Session) (o : ContextOptions) (ts : List Thread)
    → All IsInactive ts
    → All (λ t. is_instruction s o t ≡ false) ts
unfolding is_instruction
instruction-none s o [] h = tt
instruction-none s o (t ∷ ts) (h, hs) = (ground (arith, h), instruction-none s o ts hs)

by_id-IsInactive :
    (found : Option Thread) (id : Text) (ts : List Thread) (t : Thread)
    → ((u : Thread) → found ≡ some u → IsInactive u)
    → All IsInactive ts
    → thread_by_id found id ts ≡ some t
    → IsInactive t
unfolding thread_by_id
by_id-IsInactive found id [] t old h e = old t e
by_id-IsInactive found id (u ∷ ts) t old (h, hs) e =
    by_id-IsInactive (if u.id == id then some u else found) id ts t
      (λ v at. ground (arith, h, old v, at)) hs e

answers-none :
    (s : Session) (o : ContextOptions) (answers : List SideAnswer)
    → All IsInactive s.threads
    → All (λ a. is_included s o a ≡ false) answers
unfolding is_included
answers-none s o [] h = tt
answers-none s o (a ∷ answers) h = (
  elim (Option-cases (thread_by_id none a.thread_id s.threads)) [
    | inl e ↦ rw (e, is_included) refl
    | inr (t, e) ↦
        rw (e, is_included)
          (ground
            (arith, by_id-IsInactive none a.thread_id s.threads t (λ u q. ground (arith, q)) h e))
  ],
  answers-none s o answers h,
)

-- If no thread's Lifecycle is active, DraftFromState makes the summary "Approved without comments." with
-- no decisions and no answers, whatever the side answers and the messages are.
pub draft_from_state_silent :
    (s : Session)
    → All IsInactive s.threads
    → draft_from_state s ≡ record {
      summary = codes "Approved without comments.";
      reviewer_decisions = [];
      promoted_side_answers = [];
    }
unfolding draft_from_state select_context selected_answers instruction_messages messages_of
draft_from_state_silent s h =
    rw
      (
        keep-none (is_instruction s no_options) s.threads
            (instruction-none s no_options s.threads h),
        keep-none (is_included s no_options) s.side_answers
            (answers-none s no_options s.side_answers h),
      )
      refl
