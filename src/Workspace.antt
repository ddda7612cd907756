-- ===== src/Workspace.antt =====
-- pkg/workspace/workspace.go: workspaces, the roles that they require, and who has access.
pub mod Access
pub mod Configs
use Prim.Native.String.{◌++◌}
use mathlib.Core.List
use flowify_workflows_server.Common.{
  String, Bool, true, false, List, [], ◌∷◌, ◌==◌, string_eq, if◌then◌else◌,
}
use flowify_workflows_server.Common.Text.{has_substring}
use flowify_workflows_server.User.{
  Role, User, custom_role_pattern, has_ownership, user_has_role, can_see_custom_roles,
}

pub record Workspace : Type 0 where
  pub name : String
  pub description : String
  pub hide_for_unauthorized : Bool
  -- the lists of roles, each of which gives access
  pub roles : List (List Role)

-- The inner loop of `UserHasAccess` and `UserHasAdminAccess`, which stops at the first role that
-- is missing: the last value of `userHasRole`.
has_every : User → (Role → Role) → Bool → List Role → Bool
unfolding user_has_role
has_every user required user_has [] = user_has
has_every user required user_has (r ∷ rs) =
    let rest = has_every user required true rs in
    if user_has_role user (required r) then rest else false

-- The outer loop, over the lists of roles.
passes : User → (Role → Role) → List (List Role) → Bool
passes user required [] = false
passes user required (rs ∷ roles) =
    let rest = passes user required roles in
    if has_ownership user rs then true else if has_every user required false rs then true else rest

unfoldable pub user_has_access : Workspace → User → Bool
unfolding passes has_every has_ownership
user_has_access ws user = passes user (λ r. r) ws.roles

abbrev pub admin_role : Role → Role
admin_role userrole = userrole ++ "-admin"

unfoldable pub user_has_admin_access : Workspace → User → Bool
unfolding passes has_every has_ownership
user_has_admin_access ws user = passes user admin_role ws.roles

-- The loops of `UserCanSeeCustomRoles`.
custom_roles_among : List Role → List Role
unfolding has_substring
custom_roles_among [] = []
custom_roles_among (r ∷ rs) =
    let rest = custom_roles_among rs in
    if has_substring r custom_role_pattern then r ∷ rest else rest

custom_roles : List (List Role) → List Role
custom_roles [] = []
custom_roles (rs ∷ roles) = List.◌++◌ (custom_roles_among rs) (custom_roles roles)

pub user_can_see_custom_roles : Workspace → User → List Role × Bool
unfolding custom_roles custom_roles_among can_see_custom_roles
user_can_see_custom_roles ws user = (custom_roles ws.roles, can_see_custom_roles user)
