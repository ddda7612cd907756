-- ===== src/Rest/Middleware.antt =====
-- rest/rest.go: the context of a request against the authorizer, and what the path check grants.
use mathlib.Core.Path.{subst}
use flowify_workflows_server.Common.{
  ℕ, String, true, false, List, [], ◌∷◌, ◌==◌, string_eq, some, All, ◌≡◌, refl, sym, ap, inl, inr,
  Bool-cases, eq_iff,
}
use flowify_workflows_server.Common.Result.{ok, Result-cases}
use flowify_workflows_server.User.{User}
use flowify_workflows_server.Workspace.{Workspace, user_has_access}
use flowify_workflows_server.Auth.{
  Subject, Action, authorize, workspace_name, get_workspace_permissions,
}
use flowify_workflows_server.Storage.Access.{
  check_from, get_workspaces_from_context, check_workspace_access, workspaces_or_empty,
}
use flowify_workflows_server.Rest.{visible, authorization_context, path_authorization}

abbrev OtherName : String → Workspace → Type 0
OtherName ns w = ¬ (w.name ≡ ns)

-- No two workspaces have the same name.
abbrev pub HasDistinctNames : List Workspace → Type 0
HasDistinctNames [] = Unit
HasDistinctNames (w ∷ wss) = All (OtherName w.name) wss × HasDistinctNames wss

module _ (u : User) (ns : String) where
  unnamed :
      (wss : List Workspace) → All (OtherName ns) wss → check_from u ns (visible wss u) ≡ false
  unfolding check_from visible
  unnamed [] h = refl
  unnamed (w ∷ wss) (other, h) =
      let rest = unnamed wss h in
      elim (Bool-cases (w.name == ns)) [
        | inl same ↦ absurd (other ((eq_iff w.name ns).0 same))
        | inr differs ↦ elim (Bool-cases (user_has_access w u)) [
          | inl may ↦ rw (may, differs) rest
          | inr no_access ↦ elim (Bool-cases w.hide_for_unauthorized) [
            | inl hidden ↦ rw (no_access, hidden) rest
            | inr shown ↦ rw (no_access, shown, differs) rest
          ]
        ]
      ]

  visible-check :
      (wss : List Workspace)
      → HasDistinctNames wss
      → check_from u ns (visible wss u) ≡ (get_workspace_permissions wss ns u).user
  unfolding check_from visible get_workspace_permissions
  visible-check [] h = refl
  visible-check (w ∷ wss) (apart, h) =
      let rest = visible-check wss h in
      elim (Bool-cases (w.name == ns)) [
        | inl same ↦
            let none_named : check_from u ns (visible wss u) ≡ false =
              unnamed wss (subst (λ x. All (OtherName x) wss) ((eq_iff w.name ns).0 same) apart) in
            elim (Bool-cases (user_has_access w u)) [
              | inl may ↦ rw (may, same, may) refl
              | inr no_access ↦ elim (Bool-cases w.hide_for_unauthorized) [
                | inl hidden ↦ rw (no_access, hidden, same) none_named
                | inr shown ↦ rw (no_access, shown, same, no_access) refl
              ]
            ]
        | inr differs ↦ elim (Bool-cases (user_has_access w u)) [
          | inl may ↦ rw (may, differs) rest
          | inr no_access ↦ elim (Bool-cases w.hide_for_unauthorized) [
            | inl hidden ↦ rw (no_access, hidden, differs) rest
            | inr shown ↦ rw (no_access, shown, differs) rest
          ]
        ]
      ]

-- The check of the storage on the context that the middleware makes finds access exactly where
-- the authorizer finds a user of the workspace, where no two workspaces have the same name.
pub authorization_context-check :
    (wss : List Workspace) (u : User) (ns : String)
    → HasDistinctNames wss
    → check_workspace_access (authorization_context wss u) ns
      ≡ (get_workspace_permissions wss ns u).user
unfolding check_workspace_access authorization_context get_workspaces_from_context
    workspaces_or_empty
authorization_context-check wss u ns distinct = visible-check u ns wss distinct

-- A response through the path check other than 401 is that of the handler, and the request was
-- granted.
pub path_authorization-cases :
    {S : Type 0} (wss : List Workspace) (subject : Subject) (action : Action) (u : User)
    (ws : String) (next : S → ℕ × S) (s : S) (status : ℕ) (s' : S)
    → path_authorization wss subject action u (some ws) next s ≡ (status, s')
    → ¬ (status ≡ 401)
    → (authorize wss subject action u (workspace_name ws) ≡ ok true) × (next s ≡ (status, s'))
unfolding path_authorization
path_authorization-cases wss subject action u ws next s status s' e other =
    elim (Result-cases (authorize wss subject action u (workspace_name ws))) [
      | inl (true, granted) ↦ (granted, rw (path_authorization, granted) at e)
      | inl (false, denied) ↦
          absurd (other (sym (ap (λ r. r.0) (rw (path_authorization, denied) at e))))
      | inr (x, failed) ↦
          absurd (other (sym (ap (λ r. r.0) (rw (path_authorization, failed) at e))))
    ]
