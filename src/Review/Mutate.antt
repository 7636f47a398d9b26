-- ===== src/Review/Mutate.antt =====
-- A change of the review under the lock: persistLocked over a bundle, syncExternalSourceLocked and
-- mutateSession of internal/review/server.go.
pub mod Outcome
pub mod Change
pub mod Overflow
use planmaxx.Base.{
  ℕ, zero, suc, Bool, true, false, ◌&&◌, ◌||◌, not, Option, none, some, List, [], ◌++◌, ◌==◌, eqb,
  if◌then◌else◌,
}
use planmaxx.Base.Text.{Text, codes, text_comparable}
use planmaxx.Planformat.{detect}
use planmaxx.Session.Types.{
  Session, Thread, Revision, TransitionKind, missing, stale, blocked, invariant, TransitionError,
  Result, ok, err,
}
use planmaxx.Session.State.{Action, find_thread}
use planmaxx.Session.Validate.{validate}
use planmaxx.Session.Restore.{restore_counters}
use planmaxx.Session.Revisions.{reconcile_external_plan}
use planmaxx.Review.Types.{Document, IterationOperation, OperationView, Server}
use planmaxx.Review.Operations.{iteration_running, clear_terminal_iteration}
use planmaxx.Review.ClientState.{ThreadView, SideAnswerView}

-- The errors that a handler meets: a responseError; ErrAutosaveConflict or ErrBundleConflict; an
-- autosaveCommittedError, whose write went through; any other.
pub data Failure : Type 0 where
  response : ℕ → Text → Failure
  conflict : Failure
  committed other : Text → Failure

-- What BundleStore.Save returns.
pub record Saved : Type 0 where
  pub working : Session
  pub generation : ℕ
  pub error : Option Failure

-- What the server calls and this library does not model: BundleStore.Save and ReadRevision on the
-- archive, os.ReadFile, filepath (canonicalPath), sha256 (sourceHash) and the clock; `json_copy` is a
-- session that encoding/json writes and reads again (it loses the counters nextMessage and
-- nextRevision, which are not exported); and how many frames the stack holds.
pub record World : Type 0 where
  pub save : Text → Document → Session → Saved
  pub read_file : Text → Option Text
  pub read_revision : Text → Option Text
  pub canonical_path : Text → Text
  pub source_hash : Text → Text
  pub json_copy : Session → Session
  pub now : ℕ
  pub frames : ℕ

-- What a handler writes behind the status code.
pub data Body : Type 0 where
  message status : Text → Body
  thread : Option ThreadView → Body
  side_answer : Option SideAnswerView → Body
  revision : Revision → Body
  nothing : Body

-- A handler answers, or the process ends because the stack overflows.
pub data Reply : Type 0 where
  answered : ℕ → Body → Reply
  overflowed : Reply

abbrev pub reply_error : ℕ → Text → Reply
reply_error code text = answered code (message text)

abbrev pub is_success : Reply → Bool
is_success (answered code body) = eqb code 200
is_success overflowed = false

-- The calls that mutate makes: as an Action, with the overflow as one more outcome.
pub data Mutated (A : Type 0) : Type 0 where
  returned : A → Mutated A
  failed_with : Failure → Mutated A
  overflow : Mutated A

abbrev pub Mutation : Type 0 → Type 0
Mutation A = Session → Mutated A × Session

abbrev pub and_then : {A B : Type 0} → (A → Mutation B) → Mutated A × Session → Mutated B × Session
and_then next (returned a, s) = next a s
and_then next (failed_with e, s) = (failed_with e, s)
and_then next (overflow, s) = (overflow, s)

infixl 5 ◌>>=◌ ◌>>◌
abbrev pub ◌>>=◌ : {A B : Type 0} → Mutation A → (A → Mutation B) → Mutation B
◌>>=◌ call next s = and_then next (call s)

abbrev pub ◌>>◌ : {A B : Type 0} → Mutation A → Mutation B → Mutation B
◌>>◌ call next = call >>= λ _. next

abbrev pub pure : {A : Type 0} → A → Mutation A
pure a = λ s. (returned a, s)

abbrev pub fail_with : {A : Type 0} → Failure → Mutation A
fail_with e = λ s. (failed_with e, s)

-- `if test { return nil, e }`
abbrev pub fail_when : Bool → Failure → Mutation (Unit {0})
fail_when test e = if test then fail_with e else pure tt

abbrev pub reading : {A : Type 0} → (Session → A) → Mutation A
reading f = λ s. (returned (f s), s)

-- transitionResponseError
unfoldable pub transition_response_error : TransitionError → Failure
transition_response_error e = elim e.kind [
  | missing ↦ response 404 e.message
  | stale ↦ response 409 e.message
  | blocked ↦ response 409 e.message
  | invariant ↦ response 400 e.message
]

-- A checked method of the session, with its error as transitionResponseError makes it.
abbrev pub as_mutated : {A : Type 0} → Result A × Session → Mutated A × Session
as_mutated (ok a, s) = (returned a, s)
as_mutated (err e, s) = (failed_with (transition_response_error e), s)

abbrev pub checked : {A : Type 0} → Action A → Mutation A
checked call s = as_mutated (call s)

abbrev pub is_obsolete : Session → Bool
is_obsolete s = elim s.pending_proposal [ none ↦ false | some p ↦ p.obsolete ]

abbrev pub is_pending : Session → Bool
is_pending s = elim s.pending_proposal [ none ↦ false | some _ ↦ true ]

-- rejectPendingFeedbackMutation calls itself where the proposal is obsolete; each call takes a
-- frame.
unfoldable pub reject_pending_feedback_mutation : ℕ → Mutation (Unit {0})
reject_pending_feedback_mutation zero s = (overflow, s)
reject_pending_feedback_mutation (suc frames) s =
    let again = reject_pending_feedback_mutation frames s in
    if not (is_pending s) then (returned tt, s) else if is_obsolete s then again else (
      failed_with (
          response 409
            (codes "apply or discard the pending proposal before changing review feedback")),
      s,
    )

-- `ok && thread.RevisionID == s.PendingProposal.ID`
unfoldable pub belongs_to_proposal : Text → Session → Bool
belongs_to_proposal thread_id s = elim s.pending_proposal [
  | none ↦ false
  | some p ↦ elim (find_thread thread_id s.threads) [
    | none ↦ false
    | some t ↦ t.revision_id == p.id
  ]
]

unfoldable pub reject_locked_thread_mutation : ℕ → Text → Mutation (Unit {0})
unfolding belongs_to_proposal reject_pending_feedback_mutation
reject_locked_thread_mutation frames thread_id s =
    if not (is_pending s) || belongs_to_proposal thread_id s
    then (returned tt, s)
    else reject_pending_feedback_mutation frames s

abbrev pub is_committed : Failure → Bool
is_committed (committed _) = true
is_committed (response _ _) = false
is_committed conflict = false
is_committed (other _) = false

-- `err != nil && !autosaveWasCommitted(err)`
abbrev pub is_lost : Option Failure → Bool
is_lost none = false
is_lost (some e) = not (is_committed e)

abbrev pub autosave_word : Server → Text
autosave_word s = if s.autosave_status == [] then codes "active" else s.autosave_status

abbrev pub save_of : World → Server → Saved
save_of w s = w.save (autosave_word s) s.autosave_document s.session

-- What persistTransactionLocked does behind Validate.
unfoldable pub persist_checked : World → Server → Result (Unit {0}) → Option Failure × Server
persist_checked w s (err e) = (some (other (codes "validate review session: " ++ e.message)), s)
persist_checked w s (ok _) = (
  (save_of w s).error,
  record s {
    autosave_status = autosave_word s;
    autosave_generation = (save_of w s).generation;
    session = if is_lost (save_of w s).error then s.session else (save_of w s).working;
  },
)

-- persistLocked and persistTransactionLocked over a bundle
unfoldable pub persist : World → Server → Option Failure × Server
unfolding persist_checked
persist w s = persist_checked w s (validate s.session)

-- cloneSession: the copy that is put back where a change is not kept.
unfoldable pub clone_session : World → Session → Session
unfolding restore_counters
clone_session w s = restore_counters w.now (w.json_copy s)

abbrev pub new_document : World → Text → Text → Document
new_document w path source = record {
  canonical_path = w.canonical_path path;
  source_hash = w.source_hash source;
  source_text = source;
  plan_format = detect path;
}

-- Document.SourceMatches
unfoldable pub source_matches : World → Document → Text → Bool
source_matches w d source = not (d.source_hash == []) && d.source_hash == w.source_hash source

abbrev source_changed : Failure
source_changed =
    response 409 (codes "source plan changed outside PlanMaxx; reload the review before continuing")

-- The server with the source that was read, before it is saved.
abbrev pub adopted : World → Text → Server → Server
adopted w source s = record s {
  session = reconcile_external_plan s.autosave_document.source_text source w.now s.session;
  autosave_document = new_document w s.autosave_document.canonical_path source;
}

-- The rest of syncExternalSourceLocked behind its last early return.
unfoldable pub adopt_source : World → Text → Server → Option Failure × Server
unfolding persist clone_session
adopt_source w source s =
    let (e, t) = persist w (adopted w source s) in
    if is_lost e
    then (
      e,
      record t { session = clone_session w s.session; autosave_document = s.autosave_document },
    )
    else (some source_changed, t)

-- What is done with the bytes that os.ReadFile returns.
unfoldable pub compare_source : World → Option Text → Server → Option Failure × Server
unfolding adopt_source source_matches
compare_source w none s = (some (other (codes "read source plan")), s)
compare_source w (some source) s =
    if source_matches w s.autosave_document source then (none, s) else adopt_source w source s

unfoldable pub sync_external_source : World → Server → Option Failure × Server
unfolding compare_source
sync_external_source w s =
    if s.autosave_document.canonical_path == []
    then (none, s)
    else compare_source w (w.read_file s.autosave_document.canonical_path) s

abbrev pub in_other_session : Reply
in_other_session =
    reply_error 409 (
      codes "review state changed in another PlanMaxx session; reload the review before continuing")

-- writeSourceSyncError
unfoldable pub source_sync_reply : Failure → Reply
source_sync_reply conflict = in_other_session
source_sync_reply (response code text) = reply_error code text
source_sync_reply (committed text) = reply_error 500 text
source_sync_reply (other text) = reply_error 500 text

-- writePersistenceError; ErrHeadChanged comes from the store that a bundle replaces.
unfoldable pub persistence_reply : Failure → Reply
persistence_reply conflict = in_other_session
persistence_reply (response code text) = reply_error 500 text
persistence_reply (committed text) = reply_error 500 text
persistence_reply (other text) = reply_error 500 text

-- The reply to an error of mutate.
unfoldable pub mutation_reply : Failure → Reply
mutation_reply (response code text) = reply_error code text
mutation_reply conflict = reply_error 500 (codes "review state changed in another PlanMaxx session")
mutation_reply (committed text) = reply_error 500 text
mutation_reply (other text) = reply_error 500 text

-- What follows a call of syncExternalSourceLocked, and of persistLocked.
abbrev pub after_sync :
    {A : Type 0} → (Failure → Server → A) → (Server → A) → Option Failure × Server → A
after_sync fail next (none, s) = next s
after_sync fail next (some e, s) = fail e s

abbrev pub after_persist :
    {A : Type 0} → (Failure → Server → A) → (Server → A) → Option Failure × Server → A
after_persist lost written (none, s) = written s
after_persist lost written (some e, s) = if is_committed e then written s else lost e s

-- The end of a change: the terminal operation is cleared and the review is saved; where the save
-- is lost, a copy of the session and the operation are put back.
unfoldable pub conclude : World → Server → Body → Server → Reply × Server
unfolding persist clear_terminal_iteration persistence_reply clone_session
conclude w before body s =
    after_persist
      (λ e t. (
        persistence_reply e,
        record t {
          session = clone_session w before.session;
          iteration_operation = before.iteration_operation;
        },
      ))
      (λ t. (answered 200 body, t)) (persist w (clear_terminal_iteration s))

-- What mutateSession does with the result of mutate.
unfoldable pub after_mutation : World → Server → Mutated Body × Session → Reply × Server
unfolding conclude mutation_reply clone_session
after_mutation w s (returned body, changed) = conclude w s body (record s { session = changed })
after_mutation w s (failed_with e, changed) =
    (mutation_reply e, record s { session = clone_session w s.session })
after_mutation w s (overflow, changed) = (overflowed, record s { session = changed })

-- mutateSession
unfoldable pub mutate_session : World → Mutation Body → Server → Reply × Server
unfolding sync_external_source source_sync_reply after_mutation
mutate_session w mutate s =
    if s.finished
    then (reply_error 409 (codes "review already completed"), s)
    else if iteration_running s
    then (
      reply_error 409 (codes "wait for or stop the active iteration before changing the review"),
      s,
    )
    else after_sync (λ e t. (source_sync_reply e, t)) (λ t. after_mutation w t (mutate t.session))
        (sync_external_source w s)
