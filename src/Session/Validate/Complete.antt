-- ===== src/Session/Validate/Complete.antt =====
-- Validate accepts every valid session, so that none is refused that could be loaded.
use planmaxx.Base.{
  ℕ, zero, suc, ◌≡◌, ◌≢◌, ◌↔◌, refl, sym, ◌∙◌, ap, subst, true, false, ◌||◌, Option, none, some,
  List, [], ◌∷◌, ◌++◌, map, arith, All, contains,
}
use planmaxx.Base.Text.{codes, Text, text_comparable, text_eqb_iff}
use planmaxx.Base.Keys.{Apart-nil, FreshIn, FreshIn-of-parts}
use planmaxx.Session.Types.{
  Message, Thread, Revision, SideAnswer, SectionProposal, Session, kind_decision, kind_note,
  kind_review, status_open, status_resolved, status_stale, source_initial, ok,
}
use planmaxx.Session.Validate.{
  allowed_source, check_revisions, check_current, check_messages, check_threads, thread_ids,
  answer_ids, check_answers, check_known, check_proposal, validate,
}
use planmaxx.Session.Validate.Spec.{
  revision_ids, IsHistory, root, grow, IsCheckedOut, IsValidThread, message_ids, IsValidAnswer,
  IsValidPending, IsValid,
}
use planmaxx.Session.Validate.Sound.{validate_sound}

-- The index and the keys with which the loop over the revisions goes on behind some of them.
abbrev index_after : ℕ → List Revision → ℕ
index_after i [] = i
index_after i (r ∷ rs) = suc (index_after i rs)

seen_after : List Text → List Revision → List Text
seen_after seen [] = seen
seen_after seen (r ∷ rs) = seen_after (r.id ∷ seen) rs

contains-seen_after :
    (k : Text) (seen : List Text) (rs : List Revision)
    → contains k (seen_after seen rs) ≡ (contains k (revision_ids rs) || contains k seen)
unfolding seen_after contains
contains-seen_after k seen [] = refl
contains-seen_after k seen (r ∷ rs) = ground (arith, contains-seen_after k (r.id ∷ seen) rs)

index_after-suc : (i : ℕ) (rs : List Revision) → index_after (suc i) rs ≡ suc (index_after i rs)
index_after-suc i [] = refl
index_after-suc i (r ∷ rs) = ap suc (index_after-suc i rs)

check_revisions-snoc :
    (i : ℕ) (seen : List Text) (rs : List Revision) (r : Revision)
    → check_revisions i seen rs ≡ ok tt
    → check_revisions (index_after i rs) (seen_after seen rs) (r ∷ []) ≡ ok tt
    → check_revisions i seen (rs ++ r ∷ []) ≡ ok tt
unfolding seen_after check_revisions
check_revisions-snoc i seen [] r h last = last
check_revisions-snoc i seen (q ∷ rs) r h last =
    let ih = check_revisions-snoc (suc i) (q.id ∷ seen) rs r in
    let last' : check_revisions (index_after (suc i) rs) (seen_after (q.id ∷ seen) rs) (r ∷ [])
        ≡ ok tt =
      rw (index_after-suc i rs) last in
    ground (arith, ih (ground arith) last')

check_last :
    (i : ℕ) (seen : List Text) (r : Revision)
    → r.id ≢ []
    → contains r.id seen ≡ false
    → contains r.parent_id seen ≡ true
    → allowed_source r.source ≡ true
    → check_revisions (suc i) seen (r ∷ []) ≡ ok tt
unfolding check_revisions
check_last i seen r ne fresh parent source = ground (arith, text_eqb_iff r.id [])

allowed-initial : allowed_source source_initial ≡ true
unfolding allowed_source
allowed-initial = ground (arith, text_eqb_iff source_initial source_initial)

check_root :
    (r : Revision)
    → r.id ≢ []
    → r.parent_id ≡ []
    → r.source ≡ source_initial
    → check_revisions zero [] (r ∷ []) ≡ ok tt
unfolding check_revisions contains
check_root r ne parent source = ground (
  arith,
  text_eqb_iff r.id [],
  text_eqb_iff r.parent_id [],
  text_eqb_iff r.source source_initial,
  allowed-initial,
)

-- A history is not empty.
history_head :
    {rs : List Revision} → IsHistory rs → (r : Revision) × (qs : List Revision) × (rs ≡ r ∷ qs)
history_head (root r _ _ _) = (r, [], refl)
history_head (grow r h _ _ _ _ e) =
    let (q, qs, e') = history_head h in (q, qs ++ r ∷ [], e ∙ ap (λ x. x ++ r ∷ []) e')

history_complete : {rs : List Revision} → IsHistory rs → check_revisions zero [] rs ≡ ok tt
history_complete (root r ne parent source) = check_root r ne parent source
history_complete (grow {rs} {qs} r h ne fresh parent source e) =
    let (q, ps, e') = history_head h in
    let seen : (k : Text) → contains k (seen_after [] rs) ≡ contains k (revision_ids rs) =
      λ k. contains-seen_after k [] rs ∙ unfold contains in ground arith in
    subst (λ x. check_revisions zero [] x ≡ ok tt) (sym e)
      (check_revisions-snoc zero [] rs r (history_complete h) (
        subst (λ n. check_revisions n (seen_after [] rs) (r ∷ []) ≡ ok tt)
          (sym (ap (index_after zero) e'))
          (check_last (index_after zero ps) (seen_after [] rs) r ne (seen r.id ∙ fresh)
            (seen r.parent_id ∙ parent) source)))

current_complete : (s : Session) → IsCheckedOut s → check_current s ≡ ok tt
unfolding check_current
current_complete s (r, e, plan) =
    ground (arith, e, text_eqb_iff r.plan [], text_eqb_iff r.plan s.plan)

messages_complete :
    (seen : List Text) (ms : List Message) (rest : List Text)
    → FreshIn seen (map (λ (m : Message). m.id) ms ++ rest)
    → (seen' : List Text) × (check_messages seen ms ≡ ok seen') × FreshIn seen' rest
unfolding check_messages
messages_complete seen [] rest f = (seen, refl, f)
messages_complete seen (m ∷ ms) rest (ne, fresh, f) =
    let (seen', e, f') = messages_complete (m.id ∷ seen) ms rest f in
    (seen', ground (arith, text_eqb_iff m.id []), f')

threads_complete :
    (plan : Text) (seen messages : List Text) (ts : List Thread)
    → All (IsValidThread plan) ts
    → FreshIn seen (thread_ids ts)
    → FreshIn messages (message_ids ts)
    → check_threads plan seen messages ts ≡ ok tt
unfolding check_threads
threads_complete plan seen messages [] v ids ms = refl
threads_complete plan seen messages (t ∷ ts) (v, vs) (ne, fresh, ids) ms =
    let (messages', e, ms') = messages_complete messages t.messages (message_ids ts) ms in
    ground (
      arith,
      text_eqb_iff t.id [],
      text_eqb_iff t.kind kind_decision,
      text_eqb_iff t.kind kind_note,
      text_eqb_iff t.status status_open,
      text_eqb_iff t.status status_resolved,
      text_eqb_iff t.status status_stale,
      v.placed,
      e,
      threads_complete plan (t.id ∷ seen) messages' ts vs ids ms',
    )

answers_complete :
    (threads : List Thread) (seen : List Text) (as' : List SideAnswer)
    → All (IsValidAnswer threads) as'
    → FreshIn seen (answer_ids as')
    → check_answers threads seen as' ≡ ok tt
unfolding check_answers
answers_complete threads seen [] v f = refl
answers_complete threads seen (a ∷ as') (v, vs) (ne, fresh, f) =
    ground
      (arith, text_eqb_iff a.id [], v.delivered, answers_complete threads (a.id ∷ seen) as' vs f)

known_complete :
    (known : List Text) (message : Text) (ids : List Text)
    → All (λ id. contains id known ≡ true) ids
    → check_known known message ids ≡ ok tt
unfolding check_known
known_complete known message [] h = refl
known_complete known message (id ∷ ids) (h, hs) =
    ground (arith, known_complete known message ids hs)

proposal_complete :
    (s : Session) (p : Option SectionProposal) → IsValidPending s p → check_proposal s p ≡ ok tt
unfolding check_proposal
proposal_complete s none v = refl
proposal_complete s (some p) v = ground (
  arith,
  text_eqb_iff p.id [],
  text_eqb_iff p.parent_id s.current_revision_id,
  text_eqb_iff p.kind [],
  text_eqb_iff p.kind kind_review,
  v.based,
  known_complete (thread_ids s.threads) (codes "pending proposal references missing thread")
      p.included_thread_ids v.threads,
  known_complete (answer_ids s.side_answers)
      (codes "pending proposal references missing side answer") p.consumed_side_answer_ids
      v.answers,
)

threads_named :
    (plan : Text) (ts : List Thread)
    → All (IsValidThread plan) ts
    → All (λ id. id ≢ []) (thread_ids ts)
threads_named plan [] v = tt
threads_named plan (t ∷ ts) (v, vs) = (v.named, threads_named plan ts vs)

answers_named :
    (threads : List Thread) (as' : List SideAnswer)
    → All (IsValidAnswer threads) as'
    → All (λ id. id ≢ []) (answer_ids as')
answers_named threads [] v = tt
answers_named threads (a ∷ as') (v, vs) = (v.named, answers_named threads as' vs)

validate_complete : (s : Session) → IsValid s → validate s ≡ ok tt
unfolding validate
validate_complete s v =
    let (r, rs, e) = history_head v.history in
    ground (
      arith,
      e,
      text_eqb_iff s.id [],
      history_complete v.history,
      current_complete s v.checked_out,
      threads_complete s.plan [] [] s.threads v.threads
          (FreshIn-of-parts [] (thread_ids s.threads) (threads_named s.plan s.threads v.threads)
            (Apart-nil (thread_ids s.threads)) v.distinct_threads)
          (FreshIn-of-parts [] (message_ids s.threads) v.named_messages
            (Apart-nil (message_ids s.threads)) v.distinct_messages),
      answers_complete s.threads [] s.side_answers v.answers (
          FreshIn-of-parts [] (answer_ids s.side_answers)
            (answers_named s.threads s.side_answers v.answers)
            (Apart-nil (answer_ids s.side_answers)) v.distinct_answers),
      proposal_complete s s.pending_proposal v.proposal,
    )

-- Validate returns no error exactly on the sessions that satisfy the predicate IsValid.
pub validate_iff : (s : Session) → (validate s ≡ ok tt) ↔ IsValid s
validate_iff s = (validate_sound s, validate_complete s)
