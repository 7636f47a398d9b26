-- ===== src/Review/Loading.antt =====
-- Opening and reloading a review over a bundle: EnableBundle, reloadAutosaveLocked and what they call
-- of internal/review/server.go.
use planmaxx.Base.{
  ℕ, Bool, true, false, ◌&&◌, ◌||◌, not, Option, none, some, List, [], ◌∷◌, ◌++◌, ◌==◌, leb,
  if◌then◌else◌, ◌⊎◌, inl, inr,
}
use planmaxx.Base.Text.{Text, codes, text_comparable}
use planmaxx.Session.Types.{Revision, Session, ok, err}
use planmaxx.Session.Validate.{validate}
use planmaxx.Session.Revisions.{reconcile_external_plan}
use planmaxx.Sectioniter.Protocol.{Xml}
use planmaxx.Review.Types.{Document, Server}
use planmaxx.Review.Mutate.{World, Failure, other, new_document, source_matches, persist, is_lost}
use planmaxx.Review.Migrations.{is_terminal_status, migrate_loaded_session}

-- What the archive holds: Autosave without its version.
pub record Stored : Type 0 where
  pub session : Session
  pub status : Text
  pub document : Document
  pub generation : ℕ

-- EnableBundle behind the migration of a review that was stored.
unfoldable pub open_migrated :
    World → Document → Stored → Bool → Bool → Server → Option Failure × Server
unfolding source_matches persist
open_migrated w requested stored migrated requires_save s =
    if not (requested.source_hash == [])
      && not (source_matches w stored.document requested.source_text)
    then persist w (record s {
      session =
          reconcile_external_plan stored.document.source_text requested.source_text w.now s.session;
      autosave_document = requested;
    })
    else elim (validate s.session) [
      | err e ↦ (some (other (codes "validate bundled review: " ++ e.message)), s)
      | ok _ ↦ if migrated || requires_save then persist w s else (none, s)
    ]

unfoldable pub open_stored :
    World → Xml → (Session → Text) → Document → Stored → Bool → Server → Option Failure × Server
unfolding migrate_loaded_session open_migrated
open_stored w x encode requested stored requires_save s =
    let (status, migrated, session) =
      migrate_loaded_session w.now x encode stored.status true stored.session in
    open_migrated w requested stored migrated requires_save (record s {
      session = session;
      autosave_status = status;
      autosave_document = stored.document;
      autosave_generation = stored.generation;
    })

unfoldable pub open_new : World → Server → Option Failure × Server
unfolding persist
open_new w s = elim (validate s.session) [
  | err e ↦ (some (other (codes "validate review session: " ++ e.message)), s)
  | ok _ ↦ persist w s
]

-- The document that EnableBundle compares: of the server, or of the plan that it was started with.
unfoldable pub requested_document : World → Server → Document
requested_document w s =
    if s.autosave_document.source_hash == [] && not (s.session.plan_path == [])
    then new_document w s.session.plan_path s.session.plan
    else s.autosave_document

-- EnableBundle with a store, given what its Load and requiresSave return.
unfoldable pub enable_bundle :
    World → Xml → (Session → Text) → Option Stored → Bool → Server → Option Failure × Server
unfolding requested_document open_stored open_new
enable_bundle w x encode loaded requires_save s =
    let requested = requested_document w s in
    let s' = record s { autosave_status = codes "active"; autosave_document = requested } in
    elim loaded [
      | none ↦ open_new w s'
      | some stored ↦ open_stored w x encode requested stored requires_save s'
    ]

-- hydrateRevisionBodiesLocked: the loop over the revisions, with the plan of the session.
unfoldable pub hydrate : World → Text → Text → List Revision → Text ⊎ (List Revision × Text)
hydrate w current plan [] = inr ([], plan)
hydrate w current plan (r ∷ rs) =
    if not (r.id == current) || not (r.plan == []) || r.commit_id == []
    then elim (hydrate w current plan rs) [
      | inl e ↦ inl e
      | inr (rs', plan') ↦ inr (r ∷ rs', plan')
    ]
    else elim (w.read_revision r.commit_id) [
      | none ↦ inl (codes "load revision")
      | some content ↦ elim (hydrate w current content rs) [
        | inl e ↦ inl e
        | inr (rs', plan') ↦ inr (record r { plan = content } ∷ rs', plan')
      ]
    ]

unfoldable pub hydrated : World → Session → Text ⊎ Session
unfolding hydrate
hydrated w s = elim (hydrate w s.current_revision_id s.plan s.revisions) [
  | inl e ↦ inl e
  | inr (rs, plan) ↦ inr (record s { revisions = rs; plan = plan })
]

-- installReloadedAutosaveLocked
unfoldable pub install_reloaded :
    World → Xml → (Session → Text) → Stored → Server → Option Failure × Server
unfolding migrate_loaded_session hydrated is_terminal_status
install_reloaded w x encode stored s =
    let (status, migrated, session) =
      migrate_loaded_session w.now x encode stored.status false stored.session in
    elim (hydrated w session) [
      | inl e ↦ (some (other e), s)
      | inr next ↦ elim (validate next) [
        | err e ↦ (some (other (codes "validate reloaded autosave: " ++ e.message)), s)
        | ok _ ↦ (
          none,
          record s {
            session = next;
            autosave_status = status;
            autosave_document = stored.document;
            autosave_generation = stored.generation;
            finished = is_terminal_status status;
          },
        )
      ]
    ]

-- reloadAutosaveLocked, given what Refresh of the bundle returns: an error, or a review that was
-- saved since, if there is one.
unfoldable pub reload_autosave :
    World → Xml → (Session → Text) → Failure ⊎ Option Stored → Server → Option Failure × Server
unfolding install_reloaded
reload_autosave w x encode (inl e) s = (some e, s)
reload_autosave w x encode (inr none) s = (none, s)
reload_autosave w x encode (inr (some stored)) s =
    if leb stored.generation s.autosave_generation
    then (none, s)
    else install_reloaded w x encode stored s

-- RecordSourceSave
unfoldable pub record_source_save : World → Text → Server → Option Failure × Server
unfolding persist
record_source_save w content s =
    if s.autosave_document.canonical_path == []
    then (none, s)
    else let (e, t) = persist w (record s {
      autosave_document = new_document w s.autosave_document.canonical_path content;
    }) in
      (e, if is_lost e then record t { autosave_document = s.autosave_document } else t)
