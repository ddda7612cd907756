-- ===== src/Rest.antt =====
-- rest/rest.go: the middleware that authorizes a request and tells the handlers what it may see,
-- and rest/volumes.go: the handlers of the volumes behind it. A response is its status code.
pub mod Middleware
pub mod Paging
pub mod Requests
pub mod Components
pub mod Workflows
pub mod Jobs
pub mod Volumes
use flowify_workflows_server.Common.{
  ℕ, String, Bool, true, false, not, ◌||◌, List, [], ◌∷◌, ◌==◌, string_eq, nat_eq, Option, none,
  some, if◌then◌else◌,
}
use flowify_workflows_server.Common.Result.{Result, ok, err, not_found}
use flowify_workflows_server.User.{User}
use flowify_workflows_server.Workspace.{Workspace, user_has_access}
use flowify_workflows_server.Auth.{Subject, Action, authorize, workspace_name}
use flowify_workflows_server.Models.Versions.{ComponentReference, is_zero}
use flowify_workflows_server.Storage.Access.{Context}
use flowify_workflows_server.Storage.Volumes.{
  FlowifyVolume, VolumeDriver, get_volume, put_volume, delete_volume,
}

-- The loop of `NewAuthorizationContext`.
visible : List Workspace → User → List Workspace
unfolding user_has_access
visible [] usr = []
visible (ws ∷ wss) usr =
    let aws = visible wss usr in
    if user_has_access ws usr || not ws.hide_for_unauthorized then ws ∷ aws else aws

unfoldable pub authorization_context : List Workspace → User → Context
unfolding visible
authorization_context wss usr = record { user = usr; workspaces = some (visible wss usr) }

-- `AuthorizationDenied` for all but a grant. `S` is the state that the handler works on, and
-- `path_variable` the variable of the path, if the route has it.
unfoldable pub path_authorization :
    {S : Type 0}
    → List Workspace
    → Subject
    → Action
    → User
    → (path_variable : Option String) → (S → ℕ × S)
    → S
    → ℕ × S
unfolding authorize
path_authorization wss subject action usr none next s = (401, s)
path_authorization wss subject action usr (some ws) next s =
    elim (authorize wss subject action usr (workspace_name ws)) [
      | ok true ↦ next s
      | ok false ↦ (401, s)
      | err _ ↦ (401, s)
    ]

-- The handlers: `ws` is the workspace of the path, `id` what the UUID library parses from the path,
-- and `body` what is decoded from the body of the request.
module _ (driver : VolumeDriver) (ctx : Context) (ws : String) where
  get_response : Result FlowifyVolume → ℕ × Option FlowifyVolume
  get_response (ok vol) = if vol.workspace == ws then (200, some vol) else (500, none)
  get_response (err not_found) = (404, none)
  get_response (err _) = (500, none)

  unfoldable pub volume_get_handler :
      Option ComponentReference → List FlowifyVolume → ℕ × Option FlowifyVolume
  unfolding get_volume get_response
  volume_get_handler none vs = (400, none)
  volume_get_handler (some id) vs = get_response (get_volume driver ctx id vs)

  -- The status for a volume that is stored, or 400.
  abbrev pub put_response :
      ℕ → List FlowifyVolume → Result (List FlowifyVolume) → ℕ × List FlowifyVolume
  put_response status vs (ok vs') = (status, vs')
  put_response status vs (err _) = (400, vs)

  unfoldable pub volume_put_handler :
      Option ComponentReference → Result FlowifyVolume → List FlowifyVolume → ℕ × List FlowifyVolume
  unfolding put_volume
  volume_put_handler none body vs = (400, vs)
  volume_put_handler (some id) (err _) vs = (400, vs)
  volume_put_handler (some id) (ok request) vs =
      if not (request.workspace == ws)
      then (400, vs)
      else if not (request.uid == id)
      then (400, vs)
      else put_response 204 vs (put_volume driver ctx request vs)

  -- The UUID library makes the new identifier.
  unfoldable pub volume_post_handler :
      (new_uid : ComponentReference)
      → Result FlowifyVolume
      → List FlowifyVolume
      → ℕ × List FlowifyVolume
  unfolding put_volume
  volume_post_handler new_uid (err _) vs = (400, vs)
  volume_post_handler new_uid (ok request) vs =
      if not (is_zero request.uid)
      then (400, vs)
      else if not (request.workspace == ws)
      then (400, vs)
      else put_response 201 vs (put_volume driver ctx (record request { uid = new_uid }) vs)

  abbrev pub delete_response : Result (Unit {0}) × List FlowifyVolume → ℕ × List FlowifyVolume
  delete_response (ok _, vs) = (200, vs)
  delete_response (err _, vs) = (500, vs)

  unfoldable pub volume_delete_handler :
      Option ComponentReference → List FlowifyVolume → ℕ × List FlowifyVolume
  unfolding delete_volume
  volume_delete_handler none vs = (400, vs)
  volume_delete_handler (some id) vs = delete_response (delete_volume driver ctx id vs)
