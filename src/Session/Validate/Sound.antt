-- ===== src/Session/Validate/Sound.antt =====
-- Validate accepts only valid sessions: one lemma for each of its loops.
use mathlib.Core.List.{map-append}
use planmaxx.Base.{
  ℕ, zero, suc, ◌≡◌, ◌≢◌, inl, inr, refl, sym, ◌∙◌, subst, true, false, Option, none, some, List,
  [], ◌∷◌, ◌++◌, map, append-nil, append_assoc, ◌==◌, arith, All, contains, Option-cases,
}
use planmaxx.Base.Text.{codes, Text, text_comparable, text_eqb_iff}
use planmaxx.Base.Keys.{contains-append, FreshIn, Distinct-of-FreshIn, named-of-FreshIn}
use planmaxx.Session.Types.{
  Message, Thread, Revision, SideAnswer, SectionProposal, Session, kind_decision, kind_note,
  kind_review, status_open, status_resolved, status_stale, source_initial, ok,
}
use planmaxx.Session.Validate.{
  allowed_source, check_revisions, find_current, check_current, check_messages, check_threads,
  thread_ids, answer_ids, check_answers, check_known, check_proposal, validate,
}
use planmaxx.Session.Validate.Spec.{
  revision_ids, IsHistory, root, grow, IsCheckedOut, IsValidThread, message_ids, IsValidAnswer,
  IsValidPending, IsValid,
}

ne-of-false : (a b : Text) → (a == b) ≡ false → a ≢ b
ne-of-false a b d e = cc (d, (text_eqb_iff a b).1 e)

revision_parts :
    (i : ℕ) (seen : List Text) (r : Revision) (rs : List Revision)
    → check_revisions (suc i) seen (r ∷ rs) ≡ ok tt
    → ((r.id == []) ≡ false)
      × (contains r.id seen ≡ false)
      × (allowed_source r.source ≡ true)
      × (contains r.parent_id seen ≡ true)
      × (check_revisions (suc (suc i)) (r.id ∷ seen) rs ≡ ok tt)
unfolding check_revisions
revision_parts i seen r rs h = ground arith

grow_sound :
    (i : ℕ) (seen : List Text) (pre rs : List Revision)
    → IsHistory pre
    → ((k : Text) → contains k seen ≡ contains k (revision_ids pre))
    → check_revisions (suc i) seen rs ≡ ok tt
    → IsHistory (pre ++ rs)
grow_sound i seen pre [] hist same h = rw append-nil hist
grow_sound i seen pre (r ∷ rs) hist same h =
    let (named, fresh, source, parent, rest) = revision_parts i seen r rs h in
    subst IsHistory (append_assoc pre (r ∷ []) rs) (
      grow_sound (suc i) (r.id ∷ seen) (pre ++ r ∷ []) rs
        (grow r hist (ne-of-false r.id [] named) (sym (same r.id) ∙ fresh)
          (sym (same r.parent_id) ∙ parent) source refl)
        (λ k.
          unfold contains in
          ground (
            arith,
            same k,
            map-append (λ (q : Revision). q.id) pre (r ∷ []),
            contains-append k (revision_ids pre) (r.id ∷ []),
          ))
        rest)

root_parts :
    (r : Revision) (rs : List Revision)
    → check_revisions zero [] (r ∷ rs) ≡ ok tt
    → ((r.id == []) ≡ false)
      × ((r.parent_id == []) ≡ true)
      × ((r.source == source_initial) ≡ true)
      × (check_revisions 1 (r.id ∷ []) rs ≡ ok tt)
unfolding check_revisions
root_parts r rs h = ground arith

revisions_sound : (rs : List Revision) → rs ≢ [] → check_revisions zero [] rs ≡ ok tt → IsHistory rs
revisions_sound [] ne h = absurd (ne refl)
revisions_sound (r ∷ rs) ne h =
    let (named, parent, source, rest) = root_parts r rs h in
    grow_sound 0 (r.id ∷ []) (r ∷ []) rs
      (root r (ne-of-false r.id [] named) ((text_eqb_iff r.parent_id []).0 parent)
        ((text_eqb_iff r.source source_initial).0 source))
      (λ k. refl) rest

current_sound : (s : Session) → check_current s ≡ ok tt → IsCheckedOut s
unfolding check_current
current_sound s h = elim (Option-cases (find_current s.current_revision_id s.revisions)) [
  | inl e ↦ ground arith
  | inr (r, e) ↦ (r, e, ground (arith, text_eqb_iff r.plan [], text_eqb_iff r.plan s.plan))
]

messages_sound :
    (seen seen' : List Text) (ms : List Message) (rest : List Text)
    → check_messages seen ms ≡ ok seen'
    → FreshIn seen' rest
    → FreshIn seen (map (λ (m : Message). m.id) ms ++ rest)
unfolding check_messages
messages_sound seen seen' [] rest h f = subst (λ u. FreshIn u rest) (ground arith) f
messages_sound seen seen' (m ∷ ms) rest h f = (
  ground (arith, text_eqb_iff m.id []),
  ground arith,
  messages_sound (m.id ∷ seen) seen' ms rest (ground arith) f,
)

-- The checks of one thread before its messages.
thread_sound :
    (plan : Text) (seen messages : List Text) (t : Thread) (ts : List Thread)
    → check_threads plan seen messages (t ∷ ts) ≡ ok tt
    → IsValidThread plan t × (contains t.id seen ≡ false)
unfolding check_threads
thread_sound plan seen messages t ts h = (
  record {
    named = ground (arith, text_eqb_iff t.id []);
    kinds = ground (arith, text_eqb_iff t.kind kind_decision, text_eqb_iff t.kind kind_note);
    statuses = ground (
      arith,
      text_eqb_iff t.status status_open,
      text_eqb_iff t.status status_resolved,
      text_eqb_iff t.status status_stale,
    );
    placed = λ e. ground (arith, text_eqb_iff t.status status_open);
  },
  ground arith,
)

threads_rest :
    (plan : Text) (seen messages : List Text) (t : Thread) (ts : List Thread)
    → check_threads plan seen messages (t ∷ ts) ≡ ok tt
    → (messages' : List Text) × (check_messages messages t.messages ≡ ok messages')
      × (check_threads plan (t.id ∷ seen) messages' ts ≡ ok tt)
unfolding check_threads
threads_rest plan seen messages t ts h = ground arith

threads_sound :
    (plan : Text) (seen messages : List Text) (ts : List Thread)
    → check_threads plan seen messages ts ≡ ok tt
    → All (IsValidThread plan) ts × FreshIn seen (thread_ids ts) × FreshIn messages (message_ids ts)
threads_sound plan seen messages [] h = (tt, tt, tt)
threads_sound plan seen messages (t ∷ ts) h =
    let (valid, fresh) = thread_sound plan seen messages t ts h in
    let (messages', e, rest) = threads_rest plan seen messages t ts h in
    let (valids, ids, ms) = threads_sound plan (t.id ∷ seen) messages' ts rest in
    (
      (valid, valids),
      (valid.named, fresh, ids),
      messages_sound messages messages' t.messages (message_ids ts) e ms,
    )

answers_sound :
    (threads : List Thread) (seen : List Text) (as' : List SideAnswer)
    → check_answers threads seen as' ≡ ok tt
    → All (IsValidAnswer threads) as' × FreshIn seen (answer_ids as')
unfolding check_answers
answers_sound threads seen [] h = (tt, tt)
answers_sound threads seen (a ∷ as') h =
    let (valids, ids) = answers_sound threads (a.id ∷ seen) as' (ground arith) in
    let named : a.id ≢ [] = ground (arith, text_eqb_iff a.id []) in
    (
      (record { named = named; attached = ground arith; delivered = λ p. ground arith }, valids),
      (named, ground arith, ids),
    )

known_sound :
    (known : List Text) (message : Text) (ids : List Text)
    → check_known known message ids ≡ ok tt
    → All (λ id. contains id known ≡ true) ids
unfolding check_known
known_sound known message [] h = tt
known_sound known message (id ∷ ids) h =
    (ground arith, known_sound known message ids (ground arith))

proposal_sound :
    (s : Session) (p : Option SectionProposal) → check_proposal s p ≡ ok tt → IsValidPending s p
unfolding check_proposal
proposal_sound s none h = tt
proposal_sound s (some p) h = record {
  named = ground (arith, text_eqb_iff p.id []);
  based = λ e. ground (arith, text_eqb_iff p.parent_id s.current_revision_id);
  kinds = ground (arith, text_eqb_iff p.kind [], text_eqb_iff p.kind kind_review);
  threads =
      known_sound (thread_ids s.threads) (codes "pending proposal references missing thread")
        p.included_thread_ids (ground arith);
  answers =
      known_sound (answer_ids s.side_answers)
        (codes "pending proposal references missing side answer") p.consumed_side_answer_ids
        (ground arith);
}

-- What each check of `validate` has returned.
validate_parts :
    (s : Session)
    → validate s ≡ ok tt
    → (s.id ≢ [])
      × (s.revisions ≢ [])
      × (check_revisions zero [] s.revisions ≡ ok tt)
      × (check_current s ≡ ok tt)
      × (check_threads s.plan [] [] s.threads ≡ ok tt)
      × (check_answers s.threads [] s.side_answers ≡ ok tt)
      × (check_proposal s s.pending_proposal ≡ ok tt)
unfolding validate
validate_parts s h = ground (arith, text_eqb_iff s.id [])

pub validate_sound : (s : Session) → validate s ≡ ok tt → IsValid s
validate_sound s h =
    let (named, some_revision, revisions, current, threads, answers, proposal) =
      validate_parts s h in
    let (valid, ids, messages) = threads_sound s.plan [] [] s.threads threads in
    let (valid_answers, fresh_answers) = answers_sound s.threads [] s.side_answers answers in
    record {
      named = named;
      history = revisions_sound s.revisions some_revision revisions;
      checked_out = current_sound s current;
      threads = valid;
      distinct_threads = Distinct-of-FreshIn [] (thread_ids s.threads) ids;
      named_messages = named-of-FreshIn [] (message_ids s.threads) messages;
      distinct_messages = Distinct-of-FreshIn [] (message_ids s.threads) messages;
      answers = valid_answers;
      distinct_answers = Distinct-of-FreshIn [] (answer_ids s.side_answers) fresh_answers;
      proposal = proposal_sound s s.pending_proposal proposal;
    }
