-- ===== src/User/Ownership.antt =====
-- Who owns a workspace, and who may create one.
use Prim.Native.String.{◌++◌}
use mathlib.Core.Path.{subst}
use mathlib.Core.Bool.{false≢true}
use flowify_workflows_server.Common.{
  String, Bool, true, false, List, [], ◌∷◌, ◌==◌, string_eq, contains, if◌then◌else◌, In, Any,
  In-of_contains, contains_of_In, ◌≡◌, refl, sym, ◌↔◌, inl, inr, arith, eq_iff, Bool-cases, ◌||◌,
  ◌∙◌,
}
use flowify_workflows_server.Common.Text.{has_substring, has_substring-append}
use flowify_workflows_server.User.{
  Role, User, custom_role_pattern, owner_role, note_ownership, ownership_from, has_ownership,
  user_has_role, some_role_listed, can_create_workspaces, list_groups_can_create_workspaces,
}

-- The owner's role always holds the pattern that the code looks for first.
owner_role-has_pattern : (u : User) → has_substring (owner_role u) custom_role_pattern ≡ true
owner_role-has_pattern u =
    has_substring-append u.email (custom_role_pattern ++ "owner") custom_role_pattern literal
  where
    literal : has_substring (custom_role_pattern ++ "owner") custom_role_pattern ≡ true
    literal = unfold has_substring in refl

note_ownership_lem :
    (u : User) (r : Role) (found : Bool)
    → note_ownership u r found ≡ (if r == owner_role u then true else found)
unfolding note_ownership
note_ownership_lem u r found = elim (Bool-cases (r == owner_role u)) [
  | inl same ↦
      let e : r ≡ owner_role u = (eq_iff r (owner_role u)).0 same in
      rw same (
        rw
          (subst (λ x. has_substring x custom_role_pattern ≡ true) (sym e)
            (owner_role-has_pattern u))
          refl)
  | inr other ↦ rw other (ground arith)
]

ownership_from-eq-contains :
    (u : User) (found : Bool) (roles : List Role)
    → ownership_from u found roles ≡ (found || contains roles (owner_role u))
unfolding ownership_from contains
ownership_from-eq-contains u found [] = ground arith
ownership_from-eq-contains u found (r ∷ roles) = ground (
  arith,
  note_ownership_lem u r found,
  ownership_from-eq-contains u (note_ownership u r found) roles,
)

-- A user owns what lists the role `<email>--$owner`, and nothing else: looking for the pattern
-- first excludes no such role.
pub has_ownership_iff :
    (u : User) (roles : List Role) → (has_ownership u roles ≡ true) ↔ In (owner_role u) roles
unfolding has_ownership
has_ownership_iff u roles = (
  λ e. In-of_contains roles (owner_role u) (sym (ownership_from-eq-contains u false roles) ∙ e),
  λ m. ownership_from-eq-contains u false roles ∙ contains_of_In roles (owner_role u) m,
)

pub user_has_role_iff : (u : User) (r : Role) → (user_has_role u r ≡ true) ↔ In r u.roles
unfolding user_has_role
user_has_role_iff u r = (In-of_contains u.roles r, contains_of_In u.roles r)

some_role_listed_iff :
    (groups roles : List String)
    → (some_role_listed groups roles ≡ true) ↔ Any (λ r. In r groups) roles
unfolding some_role_listed
some_role_listed_iff groups [] = (λ e. false≢true e, λ m. elim m [ ])
some_role_listed_iff groups (r ∷ roles) = elim (Bool-cases (contains groups r)) [
  | inl here ↦ (λ _. inl (In-of_contains groups r here), λ _. rw here)
  | inr missing ↦ (
    λ e. inr ((some_role_listed_iff groups roles).0 (rw missing at e)),
    λ m. rw missing (
        (some_role_listed_iff groups roles).1 (elim m [
          | inl now ↦ absurd (false≢true (sym missing ∙ contains_of_In groups r now))
          | inr later ↦ later
        ])),
  )
]

-- A user may create workspaces exactly when one of the roles is among the three listed groups.
pub can_create_workspaces_iff :
    (u : User)
    → (can_create_workspaces u ≡ true) ↔ Any (λ r. In r list_groups_can_create_workspaces) u.roles
unfolding can_create_workspaces
can_create_workspaces_iff u = some_role_listed_iff list_groups_can_create_workspaces u.roles
