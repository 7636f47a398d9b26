-- ===== src/Review/Mutate/Outcome.antt =====
-- What mutateSession and its parts leave behind, on every branch.
use planmaxx.Base.{◌≡◌, refl, ◌⊎◌, inl, inr, true, false, Option, none, some, [], Bool-cases, ◌==◌}
use planmaxx.Base.Text.{Text, text_comparable}
use planmaxx.Session.Types.{Result, ok, err}
use planmaxx.Session.Validate.{validate}
use planmaxx.Review.Types.{Server}
use planmaxx.Review.Mutate.{
  World, clone_session, Failure, is_lost, persist, persist_checked, save_of, adopted,
  compare_source, source_matches, adopt_source, sync_external_source,
}

-- The review as its reader knows it: two servers that differ at most in the bookkeeping of saves.
pub record SameReview (s t : Server) : Type 0 where
  pub session : t.session ≡ s.session
  pub finished : t.finished ≡ s.finished
  pub operation : t.iteration_operation ≡ s.iteration_operation
  pub sequence : t.iteration_sequence ≡ s.iteration_sequence
  pub document : t.autosave_document ≡ s.autosave_document
  pub done : t.done ≡ s.done

-- A change of the review was not kept, and a copy of its session (cloneSession) is put back.
pub record TakenBack (w : World) (s t : Server) : Type 0 where
  pub session : t.session ≡ clone_session w s.session
  pub finished : t.finished ≡ s.finished
  pub operation : t.iteration_operation ≡ s.iteration_operation
  pub sequence : t.iteration_sequence ≡ s.iteration_sequence
  pub document : t.autosave_document ≡ s.autosave_document
  pub done : t.done ≡ s.done

-- The review was valid and was written; the server holds what was written.
pub record IsSaved (w : World) (s t : Server) : Type 0 where
  pub valid : validate s.session ≡ ok tt
  pub written : is_lost (save_of w s).error ≡ false
  pub session : t.session ≡ (save_of w s).working
  pub finished : t.finished ≡ s.finished
  pub operation : t.iteration_operation ≡ s.iteration_operation
  pub sequence : t.iteration_sequence ≡ s.iteration_sequence
  pub document : t.autosave_document ≡ s.autosave_document
  pub done : t.done ≡ s.done

pub SameReview-refl : (s : Server) → SameReview s s
SameReview-refl s = record {
  session = refl;
  finished = refl;
  operation = refl;
  sequence = refl;
  document = refl;
  done = refl;
}

abbrev pub PersistOutcome : World → Server → Option Failure × Server → Type 0
PersistOutcome w s (e, t) =
    ((is_lost e ≡ true) × SameReview s t) ⊎ ((is_lost e ≡ false) × IsSaved w s t)

persist_checked-Saved :
    (w : World) (s : Server) (r : Result (Unit {0}))
    → validate s.session ≡ r
    → PersistOutcome w s (persist_checked w s r)
unfolding persist_checked
persist_checked-Saved w s (err e) q = inl (refl, SameReview-refl s)
persist_checked-Saved w s (ok _) q = elim (Bool-cases (is_lost (save_of w s).error)) [
  | inl lost ↦ inl (
    lost,
    record {
      session = rw lost;
      finished = refl;
      operation = refl;
      sequence = refl;
      document = refl;
      done = refl;
    },
  )
  | inr kept ↦ inr (
    kept,
    record {
      valid = q;
      written = kept;
      session = rw kept;
      finished = refl;
      operation = refl;
      sequence = refl;
      document = refl;
      done = refl;
    },
  )
]

-- persistLocked: the write is lost and the review is as it was, or it is written.
pub persist-Saved : (w : World) (s : Server) → PersistOutcome w s (persist w s)
unfolding persist
persist-Saved w s = persist_checked-Saved w s (validate s.session) refl

-- The source file was changed by another program, and the review that was adjusted to it is saved.
pub record Reloaded (w : World) (s t : Server) : Type 0 where
  pub source : Text
  pub read : w.read_file s.autosave_document.canonical_path ≡ some source
  pub differs : source_matches w s.autosave_document source ≡ false
  pub saved : IsSaved w (adopted w source s) t

-- syncExternalSourceLocked returns nil and does nothing, or an error.
abbrev pub SyncOutcome : World → Server → Option Failure × Server → Type 0
SyncOutcome w s (none, t) = t ≡ s
SyncOutcome w s (some e, t) = SameReview s t ⊎ TakenBack w s t ⊎ Reloaded w s t

adopt_source-SyncOutcome :
    (w : World) (source : Text) (s : Server)
    → w.read_file s.autosave_document.canonical_path ≡ some source
    → source_matches w s.autosave_document source ≡ false
    → (r : Option Failure × Server) → PersistOutcome w (adopted w source s) r
    → persist w (adopted w source s) ≡ r
    → SyncOutcome w s (adopt_source w source s)
unfolding adopt_source
adopt_source-SyncOutcome w source s read differs (none, t) (inl (lost, same)) e = cc
adopt_source-SyncOutcome w source s read differs (some f, t) (inl (lost, same)) e =
    rw (e, lost)
      (inr (
        inl (record {
          session = refl;
          finished = same.finished;
          operation = same.operation;
          sequence = same.sequence;
          document = refl;
          done = same.done;
        })))
adopt_source-SyncOutcome w source s read differs (f, t) (inr (kept, saved)) e =
    rw (e, kept)
      (inr (inr (record { source = source; read = read; differs = differs; saved = saved })))

compare_source-SyncOutcome :
    (w : World) (s : Server) (found : Option Text)
    → w.read_file s.autosave_document.canonical_path ≡ found
    → SyncOutcome w s (compare_source w found s)
unfolding compare_source
compare_source-SyncOutcome w s none e = inl (SameReview-refl s)
compare_source-SyncOutcome w s (some source) e =
    elim (Bool-cases (source_matches w s.autosave_document source)) [
      | inl same ↦ rw same refl
      | inr differs ↦ rw differs (
          adopt_source-SyncOutcome w source s e differs (persist w (adopted w source s))
            (persist-Saved w (adopted w source s)) refl)
    ]

pub sync_external_source-SyncOutcome :
    (w : World) (s : Server) → SyncOutcome w s (sync_external_source w s)
unfolding sync_external_source
sync_external_source-SyncOutcome w s =
    elim (Bool-cases (s.autosave_document.canonical_path == [])) [
      | inl absent ↦ rw absent refl
      | inr present ↦
          rw present
            (compare_source-SyncOutcome w s (w.read_file s.autosave_document.canonical_path) refl)
    ]
