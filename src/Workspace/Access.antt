-- ===== src/Workspace/Access.antt =====
-- The access checks against a description of who has access.
use mathlib.Core.Bool.{false≢true}
use flowify_workflows_server.Common.{
  true, false, List, [], ◌∷◌, In, Any, Any-map, All, ◌≡◌, ◌≢◌, refl, sym, ◌∙◌, ◌↔◌, ◌⊎◌, inl, inr,
  Bool-cases,
}
use flowify_workflows_server.User.{Role, User, owner_role, has_ownership, user_has_role}
use flowify_workflows_server.User.Ownership.{has_ownership_iff, user_has_role_iff}
use flowify_workflows_server.Workspace.{
  Workspace, has_every, passes, user_has_access, admin_role, user_has_admin_access,
}

-- A list of roles gives access to its owner, and to a user who has every role that it requires,
-- at least one.
abbrev pub Grants : User → (Role → Role) → List Role → Type 0
Grants u required rs = In (owner_role u) rs ⊎ ((rs ≢ []) × All (λ r. In (required r) u.roles) rs)

module _ (u : User) (required : Role → Role) where
  has_every-true_iff :
      (rs : List Role)
      → (has_every u required true rs ≡ true) ↔ All (λ r. In (required r) u.roles) rs
  unfolding has_every
  has_every-true_iff [] = (λ _. tt, λ _. refl)
  has_every-true_iff (r ∷ rs) = elim (Bool-cases (user_has_role u (required r))) [
    | inl has ↦ (
      λ e. ((user_has_role_iff u (required r)).0 has, (has_every-true_iff rs).0 (rw has at e)),
      λ h. rw has ((has_every-true_iff rs).1 h.1),
    )
    | inr lacks ↦ (
      λ e. absurd (false≢true (rw lacks at e)),
      λ h. absurd (false≢true (sym lacks ∙ (user_has_role_iff u (required r)).1 h.0)),
    )
  ]

  has_every-false_iff :
      (rs : List Role)
      → (has_every u required false rs ≡ true) ↔ ((rs ≢ []) × All (λ r. In (required r) u.roles) rs)
  has_every-false_iff [] = (unfold has_every in λ e. absurd (false≢true e), λ h. absurd (h.0 refl))
  has_every-false_iff (r ∷ rs) = (
    λ e. (λ nil. cc, (has_every-true_iff (r ∷ rs)).0 (unfold has_every in e)),
    λ h. unfold has_every in (has_every-true_iff (r ∷ rs)).1 h.1,
  )

  passes_iff :
      (roles : List (List Role)) → (passes u required roles ≡ true) ↔ Any (Grants u required) roles
  unfolding passes
  passes_iff [] = (λ e. false≢true e, λ m. elim m [ ])
  passes_iff (rs ∷ roles) = elim (Bool-cases (has_ownership u rs)) [
    | inl owns ↦ (λ _. inl (inl ((has_ownership_iff u rs).0 owns)), λ _. rw owns)
    | inr stranger ↦ elim (Bool-cases (has_every u required false rs)) [
      | inl every ↦ (λ _. inl (inr ((has_every-false_iff rs).0 every)), λ _. rw (stranger, every))
      | inr lacks ↦ (
        λ e. inr ((passes_iff roles).0 (rw (stranger, lacks) at e)),
        λ m.
            rw (stranger, lacks)
              ((passes_iff roles).1 (elim m [
                | inl (inl owner) ↦
                    absurd (false≢true (sym stranger ∙ (has_ownership_iff u rs).1 owner))
                | inl (inr all) ↦ absurd (false≢true (sym lacks ∙ (has_every-false_iff rs).1 all))
                | inr later ↦ later
              ])),
      )
    ]
  ]

-- A user has access to a workspace exactly when one of its lists of roles is not empty and the
-- user has every role on it, or the list names the user as the owner.
pub user_has_access_iff :
    (ws : Workspace) (u : User) → (user_has_access ws u ≡ true) ↔ Any (Grants u (λ r. r)) ws.roles
unfolding user_has_access
user_has_access_iff ws u = passes_iff u (λ r. r) ws.roles

-- The same of admin access, where for each role `r` of the list the user needs `r-admin`, and
-- the owner needs no more than the owner's role.
pub user_has_admin_access_iff :
    (ws : Workspace) (u : User)
    → (user_has_admin_access ws u ≡ true) ↔ Any (Grants u admin_role) ws.roles
unfolding user_has_admin_access
user_has_admin_access_iff ws u = passes_iff u admin_role ws.roles

-- Whoever owns one of the lists of roles of a workspace has access to it, and admin access.
pub owner_has_access :
    (ws : Workspace) (u : User)
    → Any (λ rs. In (owner_role u) rs) ws.roles
    → (user_has_access ws u ≡ true) × (user_has_admin_access ws u ≡ true)
owner_has_access ws u m = (
  (user_has_access_iff ws u).1 (Any-map (λ rs. inl) ws.roles m),
  (user_has_admin_access_iff ws u).1 (Any-map (λ rs. inl) ws.roles m),
)
