-- ===== src/Auth.antt =====
-- auth/auth.go: the permissions of a user on the secrets and volumes of a workspace.
pub mod Permissions
pub mod Token
use flowify_workflows_server.Common.{
  String, Bool, true, false, ◌||◌, List, [], ◌∷◌, ◌==◌, string_eq, if◌then◌else◌, Option, none,
  some,
}
use flowify_workflows_server.Common.Result.{Result, ok, err, message, wrap, ◌>>=◌, ◌>>◌}
use flowify_workflows_server.User.{User}
use flowify_workflows_server.Workspace.{Workspace, user_has_access, user_has_admin_access}

abbrev pub Action : Type 0
Action = String

abbrev pub read : Action
read = "read"

abbrev pub write : Action
write = "write"

abbrev pub delete : Action
delete = "delete"

abbrev pub list : Action
list = "list"

abbrev pub Subject : Type 0
Subject = String

abbrev pub secrets : Subject
secrets = "secrets"

abbrev pub volumes : Subject
volumes = "volumes"

pub record AccessLevel : Type 0 where
  pub user : Bool
  pub admin : Bool

-- The `any` value that a permission is asked for: a string is the name of a workspace.
pub data Object : Type 0 where
  workspace_name : String → Object
  other : Object

-- The workspaces that the client of the authorizer lists are the first argument.
unfoldable pub get_workspace_permissions : List Workspace → String → User → AccessLevel
get_workspace_permissions [] wsp usr = record { user = false; admin = false }
get_workspace_permissions (ws ∷ wss) wsp usr =
    if ws.name == wsp
    then record { user = user_has_access ws usr; admin = user_has_admin_access ws usr }
    else get_workspace_permissions wss wsp usr

abbrev Rules : Type 0
Rules = List (Action × Bool)

find_rule : Rules → Action → Option Bool
find_rule [] action = none
find_rule ((a, p) ∷ rules) action = if a == action then some p else find_rule rules action

decode_workspace : Object → Result String
decode_workspace (workspace_name name) = ok name
decode_workspace other = err (message "could not decode the workspace variable")

get_secret_permissions : List Workspace → User → Object → Result Rules
unfolding decode_workspace
get_secret_permissions wss usr object = do
  workspace ← decode_workspace object
  let al = get_workspace_permissions wss workspace usr
  ok (
      (read, al.user || al.admin)
      ∷ (list, al.user || al.admin)
      ∷ (write, al.admin)
      ∷ (delete, al.admin)
      ∷ [])

get_volume_permissions : List Workspace → User → Object → Result Rules
unfolding decode_workspace
get_volume_permissions wss usr object = do
  workspace ← decode_workspace object
  let al = get_workspace_permissions wss workspace usr
  ok (
      (read, al.user || al.admin)
      ∷ (list, al.admin || al.user)
      ∷ (write, al.admin)
      ∷ (delete, al.admin)
      ∷ [])

rule_or_error : Option Bool → Result Bool
rule_or_error (some p) = ok p
rule_or_error none = err (message "Rule not found")

unfoldable pub get_permissions : List Workspace → Subject → Action → User → Object → Result Bool
unfolding get_secret_permissions get_volume_permissions find_rule rule_or_error
get_permissions wss subject action usr object =
    if subject == secrets
    then (get_secret_permissions wss usr object >>= λ perms. rule_or_error (find_rule perms action))
    else if subject == volumes
    then (get_volume_permissions wss usr object >>= λ perms. rule_or_error (find_rule perms action))
    else err (message "no such subject")

unfoldable pub authorize : List Workspace → Subject → Action → User → Object → Result Bool
unfolding get_permissions
authorize wss subject action usr object =
    wrap "could not authorize request" (get_permissions wss subject action usr object)
