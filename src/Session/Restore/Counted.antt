-- ===== src/Session/Restore/Counted.antt =====
-- RestoreCounters leaves every counter at or above the numbers of its kind.
use planmaxx.Base.{
  ℕ, ◌≡◌, refl, sym, subst, ◌∙◌, ap, false, Option, none, some, List, [], ◌∷◌, length, ◌++◌, ◌==◌,
  arith, All, map, if-cases,
}
use planmaxx.Base.Int.{ℤ, pos, ◌≤ℤ◌, eqb_ℤ_iff, int_comparable, to_int, ◌+ℤ◌, to_int, max}
use planmaxx.Base.Text.{Text, codes, text_comparable}
use planmaxx.Base.Decimal.{itoa}
use planmaxx.Session.Restore.{numbered_id, max_numbered, max_thread_message}
use planmaxx.Session.Types.{Thread, Revision}
use planmaxx.Session.Types.{SideAnswer, SectionProposal, Session}
use planmaxx.Session.State.{
  normalize_answer_delivery, active_at, make_private, add_revision, add_revision_with_feedback,
}
use planmaxx.Session.Restore.{
  max_numbered, max_proposal, thread_defaults, restore_thread_defaults, restore_revision_defaults,
  revision_defaults_of, count_ids, restore_counters,
}
use planmaxx.Session.Restore.Fresh.{
  numbered_id-itoa, Bounded, Bounded-weaken, raise_le, raise_some, max_numbered-Bounded,
}
use planmaxx.Session.Restore.Messages.{
  MessagesBounded, max-right, max_thread_message-Bounded, max_revision_message_le,
}

abbrev pub thread_ids : List Thread → List Text
thread_ids ts = map (λ t. t.id) ts

abbrev pub answer_ids : List SideAnswer → List Text
answer_ids xs = map (λ a. a.id) xs

abbrev pub revision_ids : List Revision → List Text
revision_ids rs = map (λ r. r.id) rs

abbrev pub proposal_ids : Option SectionProposal → List Text
proposal_ids none = []
proposal_ids (some p) = p.id ∷ []

-- A counter is not negative, and no id of its form has a number above it.
abbrev pub Counts : Text → ℤ → List Text → Type 0
Counts prefix counter ids = (pos 0 ≤ℤ counter) × Bounded prefix counter ids

abbrev pub AllMessagesBounded : ℤ → List Thread → Type 0
AllMessagesBounded m = All (λ (t : Thread). MessagesBounded m t.messages)

-- Every counter of the session counts the ids of its form.
abbrev pub Counted : Session → Type 0
Counted s =
    Counts (codes "thread-") s.next_thread_id (thread_ids s.threads)
    × Counts (codes "side-") s.next_side_answer_id (answer_ids s.side_answers)
    × Counts (codes "rev-") s.next_revision (revision_ids s.revisions)
    × Counts (codes "proposal-") s.next_proposal_id (proposal_ids s.pending_proposal)
    × (pos 0 ≤ℤ s.next_message)
    × AllMessagesBounded s.next_message s.threads

MessagesBounded-weaken :
    (a b : ℤ) (ts : List Thread) → a ≤ℤ b → AllMessagesBounded a ts → AllMessagesBounded b ts
MessagesBounded-weaken a b [] le h = tt
MessagesBounded-weaken a b (t ∷ ts) le (h, hs) =
    (Bounded-weaken (codes "msg-") a b _ le h, MessagesBounded-weaken a b ts le hs)

-- A counter that is raised to the largest number counts.
raised-Counts :
    (prefix : Text) (old m : ℤ) (ids : List Text)
    → Counts prefix m ids
    → Counts prefix (max old m) ids
raised-Counts prefix old m ids (lo, h) =
    let le = max-right old m in (omega arith, Bounded-weaken prefix m (max old m) ids le h)

max_proposal-Counts :
    (p : Option SectionProposal) → Counts (codes "proposal-") (max_proposal p) (proposal_ids p)
unfolding max_proposal
max_proposal-Counts none = (omega arith, tt)
max_proposal-Counts (some p) =
    let o = numbered_id p.id (codes "proposal-") in
    (raise_le (pos 0) o, ((λ n at. raise_some (pos 0) n o at), tt))

count_ids-Counted : (s : Session) → Counted (count_ids s)
unfolding count_ids
count_ids-Counted s =
    let m = max_thread_message (pos 0) s.threads in
    let (lo, bounded) = max_thread_message-Bounded (pos 0) s.threads in
    let le = max_revision_message_le m s.revisions in
    (
      raised-Counts (codes "thread-") s.next_thread_id _ _
          (max_numbered-Bounded (codes "thread-") (pos 0) (thread_ids s.threads)),
      raised-Counts (codes "side-") s.next_side_answer_id _ _
          (max_numbered-Bounded (codes "side-") (pos 0) (answer_ids s.side_answers)),
      max_numbered-Bounded (codes "rev-") (pos 0) (revision_ids s.revisions),
      raised-Counts (codes "proposal-") s.next_proposal_id _ _
          (max_proposal-Counts s.pending_proposal),
      omega arith,
      MessagesBounded-weaken m _ s.threads le bounded,
    )

answer_ids-map :
    (f : SideAnswer → SideAnswer) (xs : List SideAnswer)
    → ((a : SideAnswer) → (f a).id ≡ a.id)
    → answer_ids (map f xs) ≡ answer_ids xs
answer_ids-map f [] h = refl
answer_ids-map f (a ∷ xs) h = λ i. h a i ∷ answer_ids-map f xs h i

defaults-ids : (ts : List Thread) → thread_ids (map thread_defaults ts) ≡ thread_ids ts
unfolding thread_defaults
defaults-ids [] = refl
defaults-ids (t ∷ ts) = ap (λ l. t.id ∷ l) (defaults-ids ts)

defaults-MessagesBounded :
    (m : ℤ) (ts : List Thread)
    → AllMessagesBounded m ts
    → AllMessagesBounded m (map thread_defaults ts)
unfolding thread_defaults
defaults-MessagesBounded m [] h = tt
defaults-MessagesBounded m (t ∷ ts) (h, hs) = (h, defaults-MessagesBounded m ts hs)

restore_thread_defaults-Counted : (s : Session) → Counted s → Counted (restore_thread_defaults s)
unfolding restore_thread_defaults normalize_answer_delivery
restore_thread_defaults-Counted s (threads, answers, revisions, proposal, lo, messages) =
    let ts = map thread_defaults s.threads in
    (
      subst (Counts (codes "thread-") s.next_thread_id) (sym (defaults-ids s.threads)) threads,
      subst (Counts (codes "side-") s.next_side_answer_id)
          (sym (
            answer_ids-map _ s.side_answers (λ a.
              if-cases (λ b. b.id ≡ a.id) (active_at false a.thread_id ts) a (make_private a)
                (λ _. refl) (λ _. refl))))
          answers,
      revisions,
      proposal,
      lo,
      defaults-MessagesBounded s.next_message s.threads messages,
    )

pub same_number : (m k : ℤ) → some m ≡ some k → m ≡ k
same_number m k e = cc

-- The only revision has the number 1.
first-Counts :
    (n : ℤ) (rs : List Revision) (r : Revision)
    → n ≡ pos 1
    → rs ≡ []
    → r.id ≡ codes "rev-" ++ itoa n
    → Counts (codes "rev-") n (revision_ids (rs ++ r ∷ []))
first-Counts n rs r one none_yet named =
    let number : numbered_id r.id (codes "rev-") ≡ some (pos 1) =
      ap (λ x. numbered_id x (codes "rev-")) (named ∙ ap (λ m. codes "rev-" ++ itoa m) one)
      ∙ numbered_id-itoa (codes "rev-") 1 (omega arith) in
    rw none_yet (
      subst (λ m. pos 0 ≤ℤ m) (sym one) (omega arith),
      (
        (λ k at.
            subst (λ m. k ≤ℤ m) (sym one)
              (subst (λ m. m ≤ℤ pos 1) (same_number (pos 1) k (sym number ∙ at)) (omega arith))),
        tt,
      ),
    )

after_zero : (n : ℤ) → n ≡ pos 0 → n +ℤ pos 1 ≡ pos 1
unfolding ◌+ℤ◌ to_int
after_zero n e = rw e refl

revision_defaults-Counted :
    (now : ℕ) (s : Session) (rs : List Revision)
    → s.revisions ≡ rs
    → (rs ≡ [] → s.next_revision ≡ pos 0)
    → Counted s
    → Counted (revision_defaults_of now s rs)
unfolding revision_defaults_of add_revision add_revision_with_feedback
revision_defaults-Counted now s [] e z (threads, answers, revisions, proposal, lo, messages) =
    let added =
      first-Counts (s.next_revision +ℤ pos 1) s.revisions _ (after_zero s.next_revision (z refl)) e
        refl in
    (threads, answers, added, proposal, lo, messages)
revision_defaults-Counted now s (r ∷ rs) e z (threads, answers, revisions, proposal, lo, messages) =
    let counts =
      if-cases (λ n. Counts (codes "rev-") n (revision_ids s.revisions)) (s.next_revision == pos 0)
        (pos (length (r ∷ rs))) s.next_revision
        (λ zero.
          let none_yet = (eqb_ℤ_iff s.next_revision (pos 0)).0 zero in
          let le : s.next_revision ≤ℤ pos (length (r ∷ rs)) =
            subst (λ n. n ≤ℤ pos (length (r ∷ rs))) (sym none_yet) (omega arith) in
          (omega arith, Bounded-weaken (codes "rev-") _ (pos (length (r ∷ rs))) _ le revisions.1))
        (λ _. revisions) in
    (threads, answers, counts, proposal, lo, messages)

count_ids-none : (s : Session) → (count_ids s).revisions ≡ [] → (count_ids s).next_revision ≡ pos 0
unfolding count_ids
count_ids-none s e = rw e (unfold max_numbered in refl)

-- After RestoreCounters every counter is at or above the numbers of the ids of its form: threads,
-- side answers, revisions, the pending proposal, and the messages of all threads.
pub restore_counters-Counted : (now : ℕ) (s : Session) → Counted (restore_counters now s)
unfolding restore_counters restore_revision_defaults restore_thread_defaults
    normalize_answer_delivery
restore_counters-Counted now s =
    let u = restore_thread_defaults (count_ids s) in
    revision_defaults-Counted now u u.revisions refl (count_ids-none s)
      (restore_thread_defaults-Counted (count_ids s) (count_ids-Counted s))
