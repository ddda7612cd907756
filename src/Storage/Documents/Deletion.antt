-- ===== src/Storage/Documents/Deletion.antt =====
-- `DeleteDocument`: what a deletion removes, and that a failed one removes nothing.
use flowify_workflows_server.Storage.Versioned.Found.{get_document-In}
use flowify_workflows_server.Storage.Documents.Checks.{get_workflow-eq-ok}
use flowify_workflows_server.Storage.Versioned.{by_version, with_transaction}
use mathlib.Core.Path.{subst}
use flowify_workflows_server.Common.{
  All-right, All-left, All-append, ℕ, List, [], ◌∷◌, ◌++◌, ◌==◌, nat_eq, nat_beq_iff, true, In, ◌≡◌,
  refl, sym, ◌∙◌, ap, inl, inr, Bool-cases, arith,
}
use flowify_workflows_server.Common.Result.{
  wrap-eq-ok, wrap, >>=-eq-ok, Result, ok, err, Error, Result-cases, ok≢err, ok-injective,
}
use flowify_workflows_server.Models.{
  component_document, workflow_document, job_document, Document, Workflow,
}
use flowify_workflows_server.Models.Versions.{CRefVersion}
use flowify_workflows_server.Storage.Access.{Context, check_workspace_access}
use flowify_workflows_server.Storage.Driver.{uid_is, Filter, Driver, IsMongo, Selects}
use flowify_workflows_server.Storage.Versioned.Keys.{HasDistinctKeys, SameKey}
use flowify_workflows_server.Storage.Versioned.Transactions.{
  with_transaction-ok, with_transaction-err,
}
use flowify_workflows_server.Storage.Documents.{
  other_kind, job_kind, component_kind, get_workflow, version_filter, DocumentKind, check_readable,
  workflow_kind, Drivers, Database, delete_in, deleted_or_error, delete_by_kind, delete_document,
}

module _ {D : Type 0} ⦃doc : Document D⦄ where
  -- One selected document is not there any more.
  pub record Removed (f : Filter) (ds ds' : List D) : Type 0 where
    pub before : List D
    pub gone : D
    pub after : List D
    pub was : ds ≡ before ++ gone ∷ after
    pub selected : Selects f gone
    pub is : ds' ≡ before ++ after

module _ {D : Type 0} ⦃doc : Document D⦄ (driver : Driver D) where
  deleted_or_error-ok :
      (id r : CRefVersion) (m : Result ℕ) → deleted_or_error id m ≡ ok r → (m ≡ ok 1) × (id ≡ r)
  unfolding deleted_or_error
  deleted_or_error-ok id r (err e) h = absurd (ok≢err (sym h))
  deleted_or_error-ok id r (ok n) h = elim (Bool-cases (n == 0)) [
    | inl none ↦ absurd (ok≢err (sym (rw none at h)))
    | inr some ↦ elim (Bool-cases (n == 1)) [
      | inl one ↦ (ap ok ((nat_beq_iff n 1).0 one), ok-injective (rw (some, one) at h))
      | inr more ↦ absurd (ok≢err (sym (rw (some, more) at h)))
    ]
  ]

  deleted_or_error-one : (id : CRefVersion) → deleted_or_error id (ok 1) ≡ ok id
  unfolding deleted_or_error
  deleted_or_error-one id = refl

  pub delete_in-ok :
      IsMongo driver
      → (id r : CRefVersion) (f : Filter) (ds ds' : List D) → delete_in driver id f ds ≡ (ok r, ds')
      → (id ≡ r) × Removed f ds ds'
  unfolding delete_in
  delete_in-ok mongo id r f ds ds' h =
      let t = with_transaction driver "delete document transaction fail" (driver.delete_one f) ds in
      let (one, same) = deleted_or_error-ok id r t.0 (ap (λ x. x.0) h) in
      let run : t ≡ (ok 1, ds') = ap (λ x. (x, t.1)) one ∙ ap (λ x. (ok 1, x)) (ap (λ x. x.1) h) in
      let deleted =
        with_transaction-ok driver "delete document transaction fail" (driver.delete_one f) ds ds' 1
          run in
      elim (mongo.deleted f ds ds' 1 deleted) [
        | inl nothing ↦ absurd (omega (arith, nothing.0))
        | inr (_, (before, d, after, was, selected, is)) ↦ (
          same,
          record {
            before = before;
            gone = d;
            after = after;
            was = was;
            selected = selected;
            is = is;
          },
        )
      ]

  -- A deletion that fails leaves the collection as it was.
  pub delete_in-err :
      IsMongo driver
      → (id : CRefVersion) (f : Filter) (ds ds' : List D) (e : Error)
      → delete_in driver id f ds ≡ (err e, ds')
      → ds' ≡ ds
  unfolding delete_in
  delete_in-err mongo id f ds ds' e h =
      let t = with_transaction driver "delete document transaction fail" (driver.delete_one f) ds in
      let is_after : t.1 ≡ ds' = ap (λ x. x.1) h in
      let refused : deleted_or_error id t.0 ≡ err e = ap (λ x. x.0) h in
      elim (Result-cases t.0) [
        | inr (e', failed) ↦
            sym is_after
            ∙ with_transaction-err driver "delete document transaction fail" (driver.delete_one f)
                ds t.1 e' (ap (λ x. (x, t.1)) failed)
        | inl (n, done) ↦
            let deleted =
              with_transaction-ok driver "delete document transaction fail" (driver.delete_one f) ds
                t.1 n (ap (λ x. (x, t.1)) done) in
            elim (mongo.deleted f ds t.1 n deleted) [
              | inl nothing ↦ sym is_after ∙ nothing.1
              | inr (one, _) ↦ absurd (
                  ok≢err (
                    sym (deleted_or_error-one id)
                    ∙ ap (λ k. deleted_or_error id (ok k)) (sym one)
                    ∙ ap (deleted_or_error id) (sym done)
                    ∙ refused))
            ]
      ]

  Removed-HasDistinctKeys :
      (before after : List D) (d : D)
      → HasDistinctKeys (before ++ d ∷ after)
      → HasDistinctKeys (before ++ after)
  Removed-HasDistinctKeys [] after d h = h.1
  Removed-HasDistinctKeys (x ∷ before) after d (apart, h) = (
    All-append (λ e. ¬ SameKey x e) before after (All-left _ before (d ∷ after) apart)
        ((All-right _ before (d ∷ after) apart).1),
    Removed-HasDistinctKeys before after d h,
  )

  pub delete_in-HasDistinctKeys :
      IsMongo driver
      → (id r : CRefVersion) (f : Filter) (ds ds' : List D) → HasDistinctKeys ds
      → delete_in driver id f ds ≡ (ok r, ds')
      → HasDistinctKeys ds'
  delete_in-HasDistinctKeys mongo id r f ds ds' h e =
      let removed = (delete_in-ok mongo id r f ds ds' e).1 in
      subst HasDistinctKeys (sym removed.is) (
        Removed-HasDistinctKeys removed.before removed.after removed.gone
          (subst HasDistinctKeys removed.was h))

module _ (drivers : Drivers) where
  check_readable_workflow :
      (ctx : Context) (id : CRefVersion) (db : Database)
      → check_readable drivers ctx workflow_kind id db ≡ ok tt
      → (w : Workflow) × (get_workflow drivers ctx (by_version id) db.workflows ≡ ok w)
  unfolding check_readable
  check_readable_workflow ctx id db e =
      let (w, read, _) =
        >>=-eq-ok
          (wrap "could not access workflow from storage or document not found"
            (get_workflow drivers ctx (by_version id) db.workflows))
          _ e in
      (w, wrap-eq-ok _ _ read)

  -- A deletion of a workflow that succeeds has removed one version with the given uid and number,
  -- and no more. It took access to the workspace of a version of that uid: the one that a read
  -- of the identifier gives.
  pub delete_document-workflow :
      (ctx : Context) (id r : CRefVersion) (db db' : Database)
      → IsMongo drivers.workflows
      → delete_document drivers ctx workflow_kind id db ≡ (ok r, db')
      → ((w : Workflow) × In w db.workflows
          × (w.uid ≡ id.uid)
          × (check_workspace_access ctx w.workspace ≡ true))
        × Removed (version_filter id) db.workflows db'.workflows
        × (db'.components ≡ db.components)
        × (db'.jobs ≡ db.jobs)
  unfolding delete_document delete_by_kind
  delete_document-workflow ctx id r db db' mongo e =
      elim (Result-cases (check_readable drivers ctx workflow_kind id db)) [
        | inr (e', refused) ↦
            absurd (ok≢err (sym (ap (λ x. x.0) (rw (delete_document, refused) at e))))
        | inl (_, readable) ↦
            let (w, read) = check_readable_workflow ctx id db readable in
            let (found, may) = get_workflow-eq-ok drivers ctx (by_version id) db.workflows w read in
            let (m, named) =
              get_document-In drivers.workflows mongo (by_version id) db.workflows w found in
            let t = delete_in drivers.workflows id (version_filter id) db.workflows in
            let e' : (t.0, record db { workflows = t.1 }) ≡ (ok r, db') =
              rw (delete_document, readable) at e in
            let (_, removed) =
              delete_in-ok drivers.workflows mongo id r (version_filter id) db.workflows
                db'.workflows (ap (λ x. (x.0, x.1.workflows)) e') in
            (
              (w, m, cc, may),
              removed,
              ap (λ x. x.1.components) (sym e'),
              ap (λ x. x.1.jobs) (sym e'),
            )
      ]

  -- A deletion of any kind of document that fails leaves the three collections as they were.
  pub delete_document-err :
      (ctx : Context) (kind : DocumentKind) (id : CRefVersion) (db db' : Database) (x : Error)
      → IsMongo drivers.components
      → IsMongo drivers.workflows
      → IsMongo drivers.jobs
      → delete_document drivers ctx kind id db ≡ (err x, db')
      → db' ≡ db
  unfolding delete_document delete_by_kind
  delete_document-err ctx kind id db db' x mc mw mj e =
      elim (Result-cases (check_readable drivers ctx kind id db)) [
        | inr (e', refused) ↦ sym (ap (λ y. y.1) (rw (delete_document, refused) at e))
        | inl (_, readable) ↦ by_kind kind (rw (delete_document, readable) at e)
      ]
    where
      by_kind : (k : DocumentKind) → delete_by_kind drivers k id db ≡ (err x, db') → db' ≡ db
      by_kind component_kind h =
          let t = delete_in drivers.components id (version_filter id) db.components in
          sym (ap (λ y. y.1) h)
          ∙ ap (λ ds. record db { components = ds })
              (delete_in-err drivers.components mc id (version_filter id) db.components t.1 x
                (ap (λ y. (y.0, t.1)) h))
      by_kind workflow_kind h =
          let t = delete_in drivers.workflows id (version_filter id) db.workflows in
          sym (ap (λ y. y.1) h)
          ∙ ap (λ ds. record db { workflows = ds })
              (delete_in-err drivers.workflows mw id (version_filter id) db.workflows t.1 x
                (ap (λ y. (y.0, t.1)) h))
      by_kind job_kind h =
          let t = delete_in drivers.jobs id (uid_is id.uid ∷ []) db.jobs in
          sym (ap (λ y. y.1) h)
          ∙ ap (λ ds. record db { jobs = ds })
              (delete_in-err drivers.jobs mj id (uid_is id.uid ∷ []) db.jobs t.1 x
                (ap (λ y. (y.0, t.1)) h))
      by_kind (other_kind t) h = sym (ap (λ y. y.1) h)
