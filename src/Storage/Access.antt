-- ===== src/Storage/Access.antt =====
-- storage/mongo.go: what a request may see, by the workspaces in its context.
use flowify_workflows_server.Common.{
  String, Bool, false, List, [], ◌∷◌, ◌==◌, string_eq, Option, none, some, if◌then◌else◌,
}
use flowify_workflows_server.User.{User}
use flowify_workflows_server.Workspace.{Workspace, user_has_access}

-- The values that the middleware puts into the context of a request.
pub record Context : Type 0 where
  pub user : User
  pub workspaces : Option (List Workspace)

unfoldable pub workspaces_or_empty : Option (List Workspace) → List Workspace
workspaces_or_empty none = []
workspaces_or_empty (some wss) = wss

unfoldable pub get_workspaces_from_context : Context → List Workspace
unfolding workspaces_or_empty
get_workspaces_from_context ctx = workspaces_or_empty ctx.workspaces

-- The loop of `CheckWorkspaceAccess`.
unfoldable pub check_from : User → String → List Workspace → Bool
check_from u ns [] = false
check_from u ns (w ∷ wss) = if w.name == ns then user_has_access w u else check_from u ns wss

unfoldable pub check_workspace_access : Context → String → Bool
unfolding check_from get_workspaces_from_context
check_workspace_access ctx ns = check_from ctx.user ns (get_workspaces_from_context ctx)
