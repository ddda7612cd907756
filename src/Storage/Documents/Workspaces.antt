-- ===== src/Storage/Documents/Workspaces.antt =====
-- `PutWorkflow`: updates stay in the workspace of the workflow.
use flowify_workflows_server.Storage.Versioned.Tags.{latest_only}
use flowify_workflows_server.Storage.Versioned.Transactions.{
  with_transaction-ok, with_transaction-err,
}
use mathlib.Core.Path.{subst}
use flowify_workflows_server.Storage.Versioned.Newest.{next-uid}
use flowify_workflows_server.Common.{
  In-left, In-right, List, [], ◌∷◌, ◌++◌, ◌==◌, nat_eq, string_eq, eq_iff, true, In, In-append, ◌≡◌,
  refl, sym, ◌∙◌, ap, ◌⊎◌, inl, inr, Bool-cases,
}
use flowify_workflows_server.Common.Result.{ok, err, Error, Result-cases, ok≢err}
use flowify_workflows_server.Models.{Document, Workflow, workflow_document}
use flowify_workflows_server.Models.Versions.{Version, is_zero}
use flowify_workflows_server.Storage.Access.{Context, check_workspace_access}
use flowify_workflows_server.Storage.Driver.{Filter, IsMongo, matches, pull, update_if}
use flowify_workflows_server.Storage.Versioned.{
  by_reference, next_version, update_callback, latest_filter,
}
use flowify_workflows_server.Storage.Versioned.Found.{get_document-In}
use flowify_workflows_server.Storage.Versioned.Put.{Updated, update_callback-Updated}
use flowify_workflows_server.Storage.Documents.{
  Drivers, get_workflow, put_workflow, update_in_workspace,
}
use flowify_workflows_server.Storage.Documents.Checks.{get_workflow-eq-ok}

-- The versions of a workflow are in one workspace.
abbrev pub OneWorkspace : List Workflow → Type 0
OneWorkspace ds = (a b : Workflow) → In a ds → In b ds → a.uid ≡ b.uid → a.workspace ≡ b.workspace

-- A document after an update of those that a filter selects comes from one before it.
update_if-origin :
    {D : Type 0} ⦃doc : Document D⦄ (f : Filter) (g : D → D) (ds : List D) (e : D)
    → In e (update_if f g ds)
    → (x : D) × In x ds × ((e ≡ x) ⊎ (e ≡ g x))
update_if-origin f g [] e m = elim m [ ]
update_if-origin ⦃doc⦄ f g (d ∷ ds) e (inl same) = elim (Bool-cases (matches f (doc.metadata d))) [
  | inl hit ↦ (d, inl refl, inr (sym (rw hit at same)))
  | inr miss ↦ (d, inl refl, inl (sym (rw miss at same)))
]
update_if-origin f g (d ∷ ds) e (inr m) =
    let (x, m', from) = update_if-origin f g ds e m in (x, inr m', from)

next-workspace :
    (node : Workflow) (latest : Version) → (next_version node latest).workspace ≡ node.workspace
unfolding next_version
next-workspace node latest = refl

module _ (drivers : Drivers) (mongo : IsMongo drivers.workflows) where
  -- The facts of a successful update.
  pub record Kept (ctx : Context) (node : Workflow) (seen ds : List Workflow) (n : Workflow)
      (ds' : List Workflow) : Type 0 where
    pub stored : Workflow
    pub was_stored : In stored seen
    pub same_uid : stored.uid ≡ node.uid
    pub same_workspace : stored.workspace ≡ node.workspace
    pub may : check_workspace_access ctx node.workspace ≡ true
    pub updated : Updated drivers.workflows mongo node ds n ds'

  pub put_workflow-Kept :
      (ctx : Context) (node : Workflow) (seen ds ds' : List Workflow) (n : Workflow)
      → put_workflow drivers ctx node seen ds ≡ (ok n, ds')
      → Kept ctx node seen ds n ds'
  unfolding put_workflow update_in_workspace
  put_workflow-Kept ctx node seen ds ds' n e = elim (Bool-cases (is_zero node.uid)) [
    | inl nil ↦ absurd (ok≢err (sym (ap (λ x. x.0) (rw nil at e))))
    | inr some_uid ↦ elim (Result-cases (get_workflow drivers ctx (by_reference node.uid) seen)) [
      | inr (e', failed) ↦ absurd (ok≢err (sym (ap (λ x. x.0) (rw (some_uid, failed) at e))))
      | inl (wf, read) ↦ elim (Bool-cases (wf.workspace == node.workspace)) [
        | inr moved ↦ absurd (ok≢err (sym (ap (λ x. x.0) (rw (some_uid, read, moved) at e))))
        | inl stays ↦
            let (found, may) =
              get_workflow-eq-ok drivers ctx (by_reference node.uid) seen wf read in
            let (m, named) =
              get_document-In drivers.workflows mongo (by_reference node.uid) seen wf found in
            let same = (eq_iff wf.workspace node.workspace).0 stays in
            record {
              stored = wf;
              was_stored = m;
              same_uid = cc;
              same_workspace = same;
              may = subst (λ ws. check_workspace_access ctx ws ≡ true) same may;
              updated = update_callback-Updated drivers.workflows mongo node ds n ds' (
                  with_transaction-ok drivers.workflows "update document transaction fail"
                    (update_callback drivers.workflows node) ds ds' n
                    (rw (some_uid, read, stays) at e));
            }
      ]
    ]
  ]

  -- An update of a workflow needs a version of it that is stored when the code reads it, in the same
  -- workspace, one that the user has access to.
  pub put_workflow-access :
      (ctx : Context) (node : Workflow) (seen ds ds' : List Workflow) (n : Workflow)
      → put_workflow drivers ctx node seen ds ≡ (ok n, ds')
      → (check_workspace_access ctx node.workspace ≡ true)
        × ((stored : Workflow) × In stored seen
            × (stored.uid ≡ node.uid)
            × (stored.workspace ≡ node.workspace))
  put_workflow-access ctx node seen ds ds' n e =
      let k = put_workflow-Kept ctx node seen ds ds' n e in
      (k.may, (k.stored, k.was_stored, k.same_uid, k.same_workspace))

  -- Each workflow after an update has a workflow at the read or before the update with the same uid
  -- in the same workspace.
  pub put_workflow-origin :
      (ctx : Context) (node : Workflow) (seen ds ds' : List Workflow) (n e : Workflow)
      → put_workflow drivers ctx node seen ds ≡ (ok n, ds')
      → In e ds'
      → (x : Workflow) × In x (seen ++ ds) × (x.uid ≡ e.uid) × (x.workspace ≡ e.workspace)
  put_workflow-origin ctx node seen ds ds' n e put m =
      let k = put_workflow-Kept ctx node seen ds ds' n put in
      let (x, m', from) =
        update_if-origin (latest_filter node.uid n.version.current) (pull latest_only)
          (ds ++ n ∷ []) e (subst (In e) k.updated.after m) in
      let same : (e.uid ≡ x.uid) × (e.workspace ≡ x.workspace) = elim from [
        | inl p ↦ (ap (λ y. y.uid) p, ap (λ y. y.workspace) p)
        | inr p ↦ (ap (λ y. y.uid) p, ap (λ y. y.workspace) p)
      ] in
      elim (In-append ds (n ∷ []) x m') [
        | inl before ↦ (x, In-right seen ds x before, sym same.0, sym same.1)
        | inr (inl is_n) ↦ (
          k.stored,
          In-left seen ds k.stored k.was_stored,
          k.same_uid ∙ new_uid k is_n same.0,
          k.same_workspace ∙ new_workspace k is_n same.1,
        )
        | inr (inr m'') ↦ elim m'' [ ]
      ]
    where
      new_uid :
          (k : Kept ctx node seen ds n ds') {x : Workflow}
          → n ≡ x
          → e.uid ≡ x.uid
          → node.uid ≡ e.uid
      new_uid k is_n same =
          sym (next-uid node k.updated.latest)
          ∙ ap (λ y. y.uid) (sym k.updated.stored ∙ is_n)
          ∙ sym same

      new_workspace :
          (k : Kept ctx node seen ds n ds') {x : Workflow}
          → n ≡ x
          → e.workspace ≡ x.workspace
          → node.workspace ≡ e.workspace
      new_workspace k is_n same =
          sym (next-workspace node k.updated.latest)
          ∙ ap (λ y. y.workspace) (sym k.updated.stored ∙ is_n)
          ∙ sym same

  -- An update keeps that all the versions of a workflow are in one workspace: those stored when the
  -- code reads the workflow, and those that the transaction then finds.
  pub put_workflow-OneWorkspace :
      (ctx : Context) (node : Workflow) (seen ds ds' : List Workflow) (n : Workflow)
      → OneWorkspace (seen ++ ds)
      → put_workflow drivers ctx node seen ds ≡ (ok n, ds')
      → OneWorkspace (seen ++ ds')
  put_workflow-OneWorkspace ctx node seen ds ds' n h put a b ma mb same =
      let (x, mx, ux, wx) = from a ma in
      let (y, my, uy, wy) = from b mb in sym wx ∙ h x y mx my (ux ∙ same ∙ sym uy) ∙ wy
    where
      from :
          (e : Workflow)
          → In e (seen ++ ds')
          → (x : Workflow) × In x (seen ++ ds) × (x.uid ≡ e.uid) × (x.workspace ≡ e.workspace)
      from e m = elim (In-append seen ds' e m) [
        | inl at_read ↦ (e, In-left seen ds e at_read, refl, refl)
        | inr after ↦ put_workflow-origin ctx node seen ds ds' n e put after
      ]

  -- An update that fails leaves the collection as it was.
  pub put_workflow-err :
      (ctx : Context) (node : Workflow) (seen ds ds' : List Workflow) (x : Error)
      → put_workflow drivers ctx node seen ds ≡ (err x, ds')
      → ds' ≡ ds
  unfolding put_workflow update_in_workspace
  put_workflow-err ctx node seen ds ds' x e = elim (Bool-cases (is_zero node.uid)) [
    | inl nil ↦ sym (ap (λ r. r.1) (rw nil at e))
    | inr some_uid ↦ elim (Result-cases (get_workflow drivers ctx (by_reference node.uid) seen)) [
      | inr (e', failed) ↦ sym (ap (λ r. r.1) (rw (some_uid, failed) at e))
      | inl (wf, read) ↦ elim (Bool-cases (wf.workspace == node.workspace)) [
        | inr moved ↦ sym (ap (λ r. r.1) (rw (some_uid, read, moved) at e))
        | inl stays ↦
            with_transaction-err drivers.workflows "update document transaction fail"
              (update_callback drivers.workflows node) ds ds' x (rw (some_uid, read, stays) at e)
      ]
    ]
  ]
