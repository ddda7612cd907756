-- ===== src/Auth/Permissions.antt =====
-- What the authorizer grants.
use mathlib.Core.Bool.{false≢true}
use flowify_workflows_server.Workspace.Access.{
  user_has_access_iff, user_has_admin_access_iff, Grants,
}
use flowify_workflows_server.Common.{
  [], ◌∙◌, false, sym, ◌==◌, Bool-cases, ◌↔◌, Bool, ◌∷◌, Any, String, true, ◌||◌, List, string_eq,
  ◌≡◌, ◌⊎◌, inl, inr, refl, arith, eq_iff,
}
use flowify_workflows_server.Common.Result.{Result, ok}
use flowify_workflows_server.User.{User}
use flowify_workflows_server.Workspace.{admin_role, Workspace}
use flowify_workflows_server.Auth.{
  Action, read, write, delete, list, Subject, secrets, volumes, Object, workspace_name, other,
  get_workspace_permissions, authorize, decode_workspace,
}

abbrev pub IsKnown : Subject → Type 0
IsKnown subject = (subject ≡ secrets) ⊎ (subject ≡ volumes)

abbrev pub Reads : Action → Type 0
Reads action = (action ≡ read) ⊎ (action ≡ list)

abbrev pub Changes : Action → Type 0
Changes action = (action ≡ write) ⊎ (action ≡ delete)

-- Of the workspaces of a list, the first with the name has the property.
abbrev pub FirstNamed : String → (Workspace → Type 0) → List Workspace → Type 0
FirstNamed name P [] = ⊥
FirstNamed name P (ws ∷ wss) =
    ((ws.name ≡ name) × P ws) ⊎ (¬ (ws.name ≡ name) × FirstNamed name P wss)

-- Who has access to a workspace: by its plain roles, and by those of its admins.
abbrev pub IsUserOf : User → Workspace → Type 0
IsUserOf u ws = Any (Grants u (λ r. r)) ws.roles

abbrev pub IsAdminOf : User → Workspace → Type 0
IsAdminOf u ws = Any (Grants u admin_role) ws.roles

-- A result that is no error, and true exactly under the condition.
abbrev pub Decides : Result Bool → Type 0 → Type 0
Decides r P = (b : Bool) × (r ≡ ok b) × ((b ≡ true) ↔ P)

module _ (u : User) (name : String) where
  permissions-user_iff :
      (wss : List Workspace)
      → ((get_workspace_permissions wss name u).user ≡ true) ↔ FirstNamed name (IsUserOf u) wss
  unfolding get_workspace_permissions
  permissions-user_iff [] = (λ e. false≢true e, λ m. elim m [ ])
  permissions-user_iff (ws ∷ wss) = elim (Bool-cases (ws.name == name)) [
    | inl same ↦
        let is = (eq_iff ws.name name).0 same in
        (
          λ e. inl (is, (user_has_access_iff ws u).0 (rw same at e)),
          λ m. rw same (elim m [
            | inl here ↦ (user_has_access_iff ws u).1 here.1
            | inr later ↦ absurd (later.0 is)
          ]),
        )
    | inr apart ↦ (
      λ e. inr (
        λ is. false≢true (sym apart ∙ (eq_iff ws.name name).1 is),
        (permissions-user_iff wss).0 (rw apart at e),
      ),
      λ m. rw apart (elim m [
        | inl here ↦ absurd (false≢true (sym apart ∙ (eq_iff ws.name name).1 here.0))
        | inr later ↦ (permissions-user_iff wss).1 later.1
      ]),
    )
  ]

  permissions-admin_iff :
      (wss : List Workspace)
      → ((get_workspace_permissions wss name u).admin ≡ true) ↔ FirstNamed name (IsAdminOf u) wss
  unfolding get_workspace_permissions
  permissions-admin_iff [] = (λ e. false≢true e, λ m. elim m [ ])
  permissions-admin_iff (ws ∷ wss) = elim (Bool-cases (ws.name == name)) [
    | inl same ↦
        let is = (eq_iff ws.name name).0 same in
        (
          λ e. inl (is, (user_has_admin_access_iff ws u).0 (rw same at e)),
          λ m. rw same (elim m [
            | inl here ↦ (user_has_admin_access_iff ws u).1 here.1
            | inr later ↦ absurd (later.0 is)
          ]),
        )
    | inr apart ↦ (
      λ e. inr (
        λ is. false≢true (sym apart ∙ (eq_iff ws.name name).1 is),
        (permissions-admin_iff wss).0 (rw apart at e),
      ),
      λ m. rw apart (elim m [
        | inl here ↦ absurd (false≢true (sym apart ∙ (eq_iff ws.name name).1 here.0))
        | inr later ↦ (permissions-admin_iff wss).1 later.1
      ]),
    )
  ]

or-true_iff : (a b : Bool) → (a || b ≡ true) ↔ ((a ≡ true) ⊎ (b ≡ true))
or-true_iff true b = (λ _. inl refl, λ _. refl)
or-true_iff false b = (λ e. inr e, λ m. elim m [ inl e ↦ absurd (false≢true e) | inr e ↦ e ])

-- One workspace is the first with the name, for the two conditions.
FirstNamed-⊎ :
    (name : String) (P Q : Workspace → Type 0) (wss : List Workspace)
    → (FirstNamed name P wss ⊎ FirstNamed name Q wss) ↔ FirstNamed name (λ w. P w ⊎ Q w) wss
FirstNamed-⊎ name P Q [] = (λ m. elim m [ inl e ↦ e | inr e ↦ e ], λ e. inl e)
FirstNamed-⊎ name P Q (ws ∷ wss) = (
  λ m. elim m [
    | inl (inl (is, p)) ↦ inl (is, inl p)
    | inl (inr (apart, p)) ↦ inr (apart, (FirstNamed-⊎ name P Q wss).0 (inl p))
    | inr (inl (is, q)) ↦ inl (is, inr q)
    | inr (inr (apart, q)) ↦ inr (apart, (FirstNamed-⊎ name P Q wss).0 (inr q))
  ],
  λ m. elim m [
    | inl (is, inl p) ↦ inl (inl (is, p))
    | inl (is, inr q) ↦ inr (inl (is, q))
    | inr (apart, h) ↦ elim ((FirstNamed-⊎ name P Q wss).1 h) [
      | inl p ↦ inl (inr (apart, p))
      | inr q ↦ inr (inr (apart, q))
    ]
  ],
)

module _ (wss : List Workspace) (subject : Subject) (action : Action) (u : User) (ws : String) where
  reading_rule :
      IsKnown subject
      → Reads action
      → authorize wss subject action u (workspace_name ws)
        ≡ ok (
            (get_workspace_permissions wss ws u).user || (get_workspace_permissions wss ws u).admin)
  unfolding authorize
  reading_rule known reads = elim known [
    | inl e ↦ elim reads [ inl f ↦ rw (e, f) | inr f ↦ rw (e, f) ]
    | inr e ↦ elim reads [ inl f ↦ rw (e, f) | inr f ↦ rw (e, f) (ground arith) ]
  ]

  changing_rule :
      IsKnown subject
      → Changes action
      → authorize wss subject action u (workspace_name ws)
        ≡ ok (get_workspace_permissions wss ws u).admin
  unfolding authorize
  changing_rule known changes = elim known [
    | inl e ↦ elim changes [ inl f ↦ rw (e, f) | inr f ↦ rw (e, f) ]
    | inr e ↦ elim changes [ inl f ↦ rw (e, f) | inr f ↦ rw (e, f) ]
  ]

  -- On secrets and on volumes, reading and listing is granted exactly to those whom one of the
  -- lists of roles of the workspace names as its owner, or who have all the roles of such a list,
  -- or all its admin roles. The workspace is the first one with the name, and no other counts.
  pub authorize_reading :
      IsKnown subject
      → Reads action
      → Decides
          (authorize wss subject action u (workspace_name ws))
          (FirstNamed ws (λ w. IsUserOf u w ⊎ IsAdminOf u w) wss)
  authorize_reading known reads =
      let p = get_workspace_permissions wss ws u in
      let either = or-true_iff p.user p.admin in
      let both = FirstNamed-⊎ ws (IsUserOf u) (IsAdminOf u) wss in
      (
        (p.user || p.admin),
        reading_rule known reads,
        (
          λ e. both.0 (elim (either.0 e) [
            | inl h ↦ inl ((permissions-user_iff u ws wss).0 h)
            | inr h ↦ inr ((permissions-admin_iff u ws wss).0 h)
          ]),
          λ m. either.1 (elim (both.1 m) [
            | inl h ↦ inl ((permissions-user_iff u ws wss).1 h)
            | inr h ↦ inr ((permissions-admin_iff u ws wss).1 h)
          ]),
        ),
      )

  -- Writing and deleting is granted exactly to the admins of the workspace, the first one with the
  -- name: those whom one of its lists of roles names as its owner, and those who have the admin
  -- role of every role of such a list, at least one.
  pub authorize_changing :
      IsKnown subject
      → Changes action
      → Decides
          (authorize wss subject action u (workspace_name ws))
          (FirstNamed ws (IsAdminOf u) wss)
  authorize_changing known changes = (
    (get_workspace_permissions wss ws u).admin,
    changing_rule known changes,
    permissions-admin_iff u ws wss,
  )

-- No other subject, action or object is granted anything.
pub authorize_granted :
    (wss : List Workspace) (subject : Subject) (action : Action) (u : User) (object : Object)
    → authorize wss subject action u object ≡ ok true
    → IsKnown subject
      × (Reads action ⊎ Changes action)
      × ((name : String) × (object ≡ workspace_name name))
unfolding authorize decode_workspace
authorize_granted wss subject action u (workspace_name name) e = (
  ground (arith, eq_iff subject secrets, eq_iff subject volumes),
  ground (arith, eq_iff read action, eq_iff list action, eq_iff write action, eq_iff delete action),
  (name, refl),
)
authorize_granted wss subject action u other e =
    ground (arith, eq_iff subject secrets, eq_iff subject volumes)
