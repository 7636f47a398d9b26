-- ===== src/Review/Operations/Actions.antt =====
-- The requests on the operation: handleOperationAction of internal/review/operations.go.
use planmaxx.Base.{
  ℕ, ◌≡◌, refl, ◌&&◌, not, Option, none, some, List, [], ◌∷◌, ◌==◌, eqb, if-cases, if◌then◌else◌,
}
use planmaxx.Base.Text.{Text, codes, text_comparable}
use planmaxx.Review.Types.{OperationView, Server}
use planmaxx.Review.Operations.{iteration_running, cancel_iteration}
use planmaxx.Review.Operations.Tasks.{Task, Reach, later, cancel}
use planmaxx.Review.Paths.{split_slashes, trim_prefix}

-- strings.Trim of slashes
unfoldable pub trim_left : Text → Text
trim_left [] = []
trim_left (c ∷ s) = if eqb c b'/' then trim_left s else c ∷ s

unfoldable pub trim_right : Text → Text
trim_right [] = []
trim_right (c ∷ s) = let rest = trim_right s in if eqb c b'/' && rest == [] then [] else c ∷ rest

-- What the handler writes.
pub data OperationReply : Type 0 where
  shown : OperationView → OperationReply
  refused : ℕ → Text → OperationReply

abbrev no_operation : OperationReply
no_operation = refused 404 (codes "operation not found")

-- The operation of the server, if it has the id.
unfoldable pub operation_with : Text → Server → Option OperationView
operation_with id s = elim s.iteration_operation [
  | none ↦ none
  | some o ↦ if o.view.id == id then some (o.view) else none
]

unfoldable pub show_operation : Text → Server → OperationReply
unfolding operation_with
show_operation id s = elim (operation_with id s) [ none ↦ no_operation | some v ↦ shown v ]

unfoldable pub cancel_shown : Text → Server → OperationReply × Server
unfolding cancel_iteration show_operation
cancel_shown id s = elim (operation_with id s) [
  | none ↦ (no_operation, s)
  | some v ↦
      let t = if iteration_running s then cancel_iteration s else s in (show_operation id t, t)
]

abbrev no_action : Text → Server → OperationReply × Server
no_action method s =
    if not (method == codes "GET") && not (method == codes "POST")
    then (refused 405 (codes "method not allowed"), s)
    else (no_operation, s)

-- The switch over the method and the parts of the path.
unfoldable pub operation_action : Text → List Text → Server → OperationReply × Server
unfolding show_operation cancel_shown
operation_action method [] s = no_action method s
operation_action method (id ∷ []) s =
    if method == codes "GET" then (show_operation id s, s) else no_action method s
operation_action method (id ∷ action ∷ []) s =
    if method == codes "POST" && action == codes "cancel"
    then cancel_shown id s
    else no_action method s
operation_action method (id ∷ action ∷ more ∷ rest) s = no_action method s

unfoldable pub handle_operation_action : Text → Text → Server → OperationReply × Server
unfolding trim_left trim_right split_slashes operation_action
handle_operation_action method path s =
    let trimmed = trim_right (trim_left (trim_prefix path (codes "/api/operations/"))) in
    if trimmed == [] then (no_operation, s) else operation_action method (split_slashes trimmed) s

module _ (initial s : Server) (ts : List Task)
    (reached : Reach initial (record { server = s; tasks = ts })) where
  Behind : OperationReply × Server → Type 0
  Behind (reply, t) = Reach initial (record { server = t; tasks = ts })

  cancel_shown-Behind :
      (id : Text) (v : Option OperationView) → operation_with id s ≡ v → Behind (cancel_shown id s)
  unfolding Behind cancel_shown
  cancel_shown-Behind id none e = rw (cancel_shown, e) reached
  cancel_shown-Behind id (some v) e =
      rw (cancel_shown, e)
        (if-cases (λ t. Reach initial (record { server = t; tasks = ts })) (iteration_running s) _ _
          (λ _. later reached cancel) (λ _. reached))

  no_action-Behind : (method : Text) → Behind (no_action method s)
  unfolding Behind
  no_action-Behind method =
      if-cases Behind (not (method == codes "GET") && not (method == codes "POST")) _ _
        (λ _. reached) (λ _. reached)

  operation_action-Behind :
      (method : Text) (parts : List Text) → Behind (operation_action method parts s)
  unfolding Behind operation_action
  operation_action-Behind method [] = no_action-Behind method
  operation_action-Behind method (id ∷ []) =
      if-cases Behind (method == codes "GET") _ _ (λ _. reached) (λ _. no_action-Behind method)
  operation_action-Behind method (id ∷ action ∷ []) =
      if-cases Behind (method == codes "POST" && action == codes "cancel") _ _
        (λ _. cancel_shown-Behind id (operation_with id s) refl) (λ _. no_action-Behind method)
  operation_action-Behind method (id ∷ action ∷ more ∷ rest) = no_action-Behind method

  -- A request on the operation takes the server and its goroutines to a state that the steps reach.
  pub handle_operation_action-Reach :
      (method path : Text)
      → Reach initial (record { server = (handle_operation_action method path s).1; tasks = ts })
  unfolding Behind handle_operation_action
  handle_operation_action-Reach method path =
      let trimmed = trim_right (trim_left (trim_prefix path (codes "/api/operations/"))) in
      if-cases Behind (trimmed == []) _ _ (λ _. reached)
        (λ _. operation_action-Behind method (split_slashes trimmed))
