-- ===== src/Examples.antt =====
-- The theorems at concrete users, workspaces, versions and documents.
pub mod Database
pub mod Updates
pub mod Patches
pub mod Documents
pub mod Listing
mod References
pub mod Transpiler
pub mod Submission
mod Requests
mod Volumes
use flowify_workflows_server.Common.{
  contains, String, true, [], ◌∷◌, In, Any, ◌≡◌, ◌↔◌, ◌⊎◌, ◌||◌, refl, inl, inr,
}
use flowify_workflows_server.Common.Int.{pos}
use flowify_workflows_server.Common.Result.{ok}
use flowify_workflows_server.User.{
  User, owner_role, has_ownership, can_create_workspaces, list_groups_can_create_workspaces,
}
use flowify_workflows_server.User.Ownership.{has_ownership_iff, can_create_workspaces_iff}
use flowify_workflows_server.Workspace.{
  Workspace, user_has_access, admin_role, user_has_admin_access,
}
use flowify_workflows_server.Workspace.Access.{
  Grants, user_has_access_iff, user_has_admin_access_iff, owner_has_access,
}
use flowify_workflows_server.Auth.{
  read, write, secrets, volumes, workspace_name, get_workspace_permissions, authorize,
}
use flowify_workflows_server.Auth.Permissions.{
  IsKnown, Reads, Changes, FirstNamed, IsUserOf, IsAdminOf, Decides, authorize_reading,
  authorize_changing, authorize_granted,
}
use flowify_workflows_server.Models.Versions.{
  Version, version_init, version_tag_latest, no_version, initialize_new, initialize_new_sound,
  initialize_new_total,
}

abbrev pub ada : User
ada = record {
  uid = "1";
  name = "Ada";
  email = "ada@example.com";
  roles = "developer-admin" ∷ "reader" ∷ "reader-admin" ∷ [];
}

abbrev pub lab : Workspace
lab = record {
  name = "lab";
  description = "";
  hide_for_unauthorized = true;
  roles = ("reader" ∷ []) ∷ (owner_role ada ∷ []) ∷ [];
}

user_has_access_iff_example : (user_has_access lab ada ≡ true) ↔ Any (Grants ada (λ r. r)) lab.roles
user_has_access_iff_example = user_has_access_iff lab ada

user_has_admin_access_iff_example :
    (user_has_admin_access lab ada ≡ true) ↔ Any (Grants ada admin_role) lab.roles
user_has_admin_access_iff_example = user_has_admin_access_iff lab ada

owner_has_access_example : (user_has_access lab ada ≡ true) × (user_has_admin_access lab ada ≡ true)
owner_has_access_example = owner_has_access lab ada (inr (inl (inl refl)))

authorize_changing_example :
    Decides
      (authorize (lab ∷ []) secrets write ada (workspace_name "lab"))
      (FirstNamed "lab" (IsAdminOf ada) (lab ∷ []))
authorize_changing_example =
    authorize_changing (lab ∷ []) secrets write ada "lab" (inl refl) (inl refl)

authorize_reading_example :
    Decides
      (authorize (lab ∷ []) volumes read ada (workspace_name "lab"))
      (FirstNamed "lab" (λ w. IsUserOf ada w ⊎ IsAdminOf ada w) (lab ∷ []))
authorize_reading_example =
    authorize_reading (lab ∷ []) volumes read ada "lab" (inr refl) (inl refl)

ada_may_write : authorize (lab ∷ []) secrets write ada (workspace_name "lab") ≡ ok true
unfolding authorize get_workspace_permissions user_has_admin_access contains
ada_may_write = refl

can_create_workspaces_iff_example :
    (can_create_workspaces ada ≡ true) ↔ Any (λ r. In r list_groups_can_create_workspaces) ada.roles
can_create_workspaces_iff_example = can_create_workspaces_iff ada

abbrev first : Version
first = record no_version { current = pos 1; tags = version_tag_latest ∷ [] }

no_version-initialized : initialize_new no_version ≡ ok first
unfolding initialize_new contains
no_version-initialized = refl

initialize_new_total_example : (v' : Version) × (initialize_new no_version ≡ ok v')
initialize_new_total_example = initialize_new_total no_version (inl refl)
