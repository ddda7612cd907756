-- ===== src/User.antt =====
-- user/user.go: the user of a request and the roles that it may act in. The interface `User` is a
-- record of what its four methods return.
pub mod Ownership
use Prim.Native.String.{◌++◌}
use flowify_workflows_server.Common.{
  String, Bool, true, false, ◌||◌, List, [], ◌∷◌, ◌==◌, string_eq, contains, if◌then◌else◌,
}
use flowify_workflows_server.Common.Text.{has_substring}

abbrev pub Role : Type 0
Role = String

pub record User : Type 0 where
  pub uid : String
  pub name : String
  pub email : String
  pub roles : List Role

abbrev pub custom_role_pattern : String
custom_role_pattern = "--$"

abbrev pub list_groups_can_create_workspaces : List String
list_groups_can_create_workspaces = "admin" ∷ "developer-admin" ∷ "sandbox-developer" ∷ []

abbrev pub list_groups_can_see_custom_roles : List String
list_groups_can_see_custom_roles = "admin" ∷ "developer-admin" ∷ "sandbox-developer" ∷ []

-- The outer loop of `CanCreateWorkspaces` and `CanSeeCustomRoles`, over the roles of the user.
some_role_listed : List String → List Role → Bool
some_role_listed groups [] = false
some_role_listed groups (role ∷ roles) = contains groups role || some_role_listed groups roles

pub can_create_workspaces : User → Bool
unfolding some_role_listed
can_create_workspaces user = some_role_listed list_groups_can_create_workspaces user.roles

unfoldable pub can_see_custom_roles : User → Bool
unfolding some_role_listed
can_see_custom_roles user = some_role_listed list_groups_can_see_custom_roles user.roles

-- The role that names its owner: `u.GetEmail() + CustomRolePattern + "owner"`.
abbrev pub owner_role : User → Role
owner_role u = u.email ++ (custom_role_pattern ++ "owner")

-- The body of the loop of `HasOwnership`: the new value of `hasOwnership`.
note_ownership : User → Role → Bool → Bool
unfolding has_substring
note_ownership u r found =
    if has_substring r custom_role_pattern
    then (if r == owner_role u then true else found)
    else found

ownership_from : User → Bool → List Role → Bool
ownership_from u found [] = found
ownership_from u found (r ∷ roles) = ownership_from u (note_ownership u r found) roles

unfoldable pub has_ownership : User → List Role → Bool
unfolding ownership_from note_ownership
has_ownership u roles = ownership_from u false roles

unfoldable pub user_has_role : User → Role → Bool
user_has_role u entry = contains u.roles entry
