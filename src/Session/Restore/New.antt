-- ===== src/Session/Restore/New.antt =====
-- New ids: threads, side answers, revisions and messages that are added to a session whose
-- counters count get ids that no other has.
use planmaxx.Base.{
  ℕ, suc, ◌∙◌, ◌-◌, ◌^◌, ◌≡◌, sym, subst, List, [], ◌∷◌, ◌++◌, false, some, arith, contains,
  Distinct,
}
use planmaxx.Base.Int.{ℤ, pos, negsuc, ◌≤ℤ◌, ◌<ℤ◌, ◌+ℤ◌}
use planmaxx.Base.Text.{Text, codes, text_comparable}
use planmaxx.Base.Decimal.{itoa}
use planmaxx.Base.Keys.{Distinct-snoc}
use planmaxx.Session.Types.{Anchor, Session}
use planmaxx.Session.State.{
  add_thread, new_message, add_side_answer, add_revision, add_revision_with_feedback,
}
use planmaxx.Session.Restore.{numbered_id}
use planmaxx.Session.Restore.Fresh.{
  Bounded, Bounded-weaken, next_id-new, numbered_id-itoa, next_pos,
}
use planmaxx.Session.Restore.Counted.{
  same_number, thread_ids, answer_ids, revision_ids, Counts, Counted,
}

-- The largest int.
abbrev pub max_int : ℤ
max_int = pos (2 ^ 63 - 1)

module _ (s : Session) (h : Counted s) where
  -- Where the counters count and are below the largest int, a new thread, side answer or revision
  -- gets an id that no other of its kind has.
  pub Counted-new :
      s.next_thread_id <ℤ max_int
      → s.next_side_answer_id <ℤ max_int
      → s.next_revision <ℤ max_int
      → (a b c d : Text) (anchor : Anchor) (now : ℕ)
      → (contains (add_thread a anchor b c d now s).0.id (thread_ids s.threads) ≡ false)
        × (contains (add_side_answer a b c now s).0.id (answer_ids s.side_answers) ≡ false)
        × (contains (add_revision a b c anchor d now s).0.id (revision_ids s.revisions) ≡ false)
  unfolding add_thread new_message add_side_answer add_revision add_revision_with_feedback
  Counted-new lt la lr a b c d anchor now =
      let (threads, answers, revisions, _, _, _) = h in
      (
        next_id-new (codes "thread-") s.next_thread_id _ threads.0 lt threads.1,
        next_id-new (codes "side-") s.next_side_answer_id _ answers.0 la answers.1,
        next_id-new (codes "rev-") s.next_revision _ revisions.0 lr revisions.1,
      )

-- Ids that differ, and a counter that counts them.
abbrev pub Numbered : Text → ℤ → List Text → Type 0
Numbered prefix n ids = Distinct ids × Counts prefix n ids

Bounded-snoc :
    (prefix : Text) (n : ℤ) (ids : List Text) (id : Text)
    → Bounded prefix n ids
    → ((k : ℤ) → numbered_id id prefix ≡ some k → k ≤ℤ n)
    → Bounded prefix n (ids ++ id ∷ [])
Bounded-snoc prefix n [] id h last = (last, tt)
Bounded-snoc prefix n (x ∷ ids) id (h, hs) last = (h, Bounded-snoc prefix n ids id hs last)

-- The next id keeps ids numbered.
pub Numbered-snoc :
    (prefix : Text) (n : ℤ) (ids : List Text)
    → n <ℤ max_int
    → Numbered prefix n ids
    → Numbered prefix (n +ℤ pos 1) (ids ++ (prefix ++ itoa (n +ℤ pos 1)) ∷ [])
Numbered-snoc prefix (negsuc n) ids hi (distinct, (lo, h)) = absurd (omega arith)
Numbered-snoc prefix (pos n) ids hi (distinct, (lo, h)) =
    let new = next_id-new prefix (pos n) ids lo hi h in
    (
      Distinct-snoc ids _ distinct new,
      subst (λ m. Counts prefix m (ids ++ (prefix ++ itoa m) ∷ [])) (sym (next_pos n (omega arith)))
          (
            omega arith,
            Bounded-snoc prefix (pos (suc n)) ids (prefix ++ itoa (pos (suc n)))
                (Bounded-weaken prefix (pos n) (pos (suc n)) ids (omega arith) h)
                (λ k at.
                  subst (λ m. m ≤ℤ pos (suc n))
                    (same_number (pos (suc n)) k
                      (sym (numbered_id-itoa prefix (suc n) (omega arith)) ∙ at))
                    (omega arith)),
          ),
    )
