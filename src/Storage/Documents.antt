-- ===== src/Storage/Documents.antt =====
-- storage/mongo.go: the operations on workflows, on jobs, and the deletion of documents, with the
-- checks of the workspaces of the request.
pub mod Checks
pub mod Workspaces
pub mod Deletion
pub mod JobDeletion
use flowify_workflows_server.Common.{
  ℕ, String, Bool, true, false, not, List, [], ◌∷◌, ◌==◌, nat_eq, string_eq, Option, none, some,
  if◌then◌else◌, ◌≡◌,
}
use flowify_workflows_server.Common.Int.{pos}
use flowify_workflows_server.Common.Result.{
  Result, ok, err, message, wrapped, wrap, not_found, fail_if, ◌>>=◌, ◌>>◌,
}
use flowify_workflows_server.Models.{
  Component, Workflow, Job, Document, Time, component_document, workflow_document, job_document,
}
use flowify_workflows_server.Models.Versions.{ComponentReference, CRefVersion, is_zero}
use flowify_workflows_server.Storage.Access.{Context, check_workspace_access}
use flowify_workflows_server.Storage.Driver.{Filter, uid_is, current_is, Driver}
use flowify_workflows_server.Storage.Versioned.{
  Identifier, by_reference, by_version, get_document, insert_new, update_callback, patch_document,
  with_transaction,
}

-- The kinds of documents; `DocumentKind` is a string, so another text is possible.
pub data DocumentKind : Type 0 where
  component_kind workflow_kind job_kind : DocumentKind
  other_kind : String → DocumentKind

-- The three collections.
pub record Database : Type 0 where
  pub components : List Component
  pub workflows : List Workflow
  pub jobs : List Job

-- The calls on the collections. `set_events` is `UpdateOne` with `$set` of "events".
pub record Drivers : Type 0 where
  pub components : Driver Component
  pub workflows : Driver Workflow
  pub jobs : Driver Job
  pub set_events : Filter → List String → List Job → Result (List Job)

-- `if !hasWsAccess { return fmt.Errorf(...) }`
abbrev pub need_access : Context → String → Result (Unit {0})
need_access ctx ws =
    fail_if (not (check_workspace_access ctx ws)) (message "user has no access to workspace")

module _ (drivers : Drivers) where
  unfoldable pub create_workflow : Context → Workflow → List Workflow → Result (List Workflow)
  create_workflow ctx node ds =
      need_access ctx node.workspace >> insert_new drivers.workflows node ds

  unfoldable pub get_workflow : Context → Identifier → List Workflow → Result Workflow
  get_workflow ctx id ds = do
    result ← get_document drivers.workflows id ds
    need_access ctx result.workspace >> ok result

  -- The part of `PutWorkflow` after the stored workflow is read.
  update_in_workspace : Workflow → Workflow → List Workflow → Result Workflow × List Workflow
  update_in_workspace wf node ds =
      if wf.workspace == node.workspace
      then with_transaction drivers.workflows "update document transaction fail"
          (update_callback drivers.workflows node) ds
      else (err (message "cannot move workflows from workspace"), ds)

  -- The stored workflow is read before the transaction begins: `seen` is the collection at the
  -- read, and `ds` the one of the transaction, which other requests may have changed.
  unfoldable pub put_workflow :
      Context → Workflow → (seen ds : List Workflow) → Result Workflow × List Workflow
  unfolding update_in_workspace
  put_workflow ctx node seen ds =
      if is_zero node.uid
      then (err (message "cannot store workflow with zero Uid"), ds)
      else elim (get_workflow ctx (by_reference node.uid) seen) [
        | err e ↦ (err (wrapped "could not access workflow for storage" e), ds)
        | ok wf ↦ update_in_workspace wf node ds
      ]

  -- `PatchWorkflow` looks at no workspace.
  unfoldable pub patch_workflow : Workflow → Time → List Workflow → Result Workflow × List Workflow
  patch_workflow node old_timestamp ds = patch_document drivers.workflows node old_timestamp ds

  unfoldable pub job_or_error : Result (Option Job) → Result Job
  job_or_error (ok none) = err not_found
  job_or_error (ok (some d)) = ok d
  job_or_error (err e) = err (wrapped "Error getting job from storage" e)

  unfoldable pub get_job : Context → ComponentReference → List Job → Result Job
  unfolding job_or_error
  get_job ctx id ds = do
    result ← job_or_error (drivers.jobs.find_one (uid_is id ∷ []) ds)
    need_access ctx result.workflow.workspace >> ok result

  unfoldable pub create_job : Context → Job → List Job → Result (List Job)
  create_job ctx node ds =
      need_access ctx node.workflow.workspace
      >> wrap "cannot insert node" (drivers.jobs.insert_one node ds)

  unfoldable pub add_job_events : ComponentReference → List String → List Job → Result (List Job)
  add_job_events id events ds = drivers.set_events (uid_is id ∷ []) events ds

-- What `DeleteDocument` makes of the count that the transaction gives.
unfoldable pub deleted_or_error : CRefVersion → Result ℕ → Result CRefVersion
deleted_or_error id (err e) = err e
deleted_or_error id (ok n) =
    if n == 0
    then err (message "document not found")
    else if n == 1
    then ok id
    else err (message "unexpected delete count")

module _ {D : Type 0} ⦃doc : Document D⦄ (driver : Driver D) where
  -- The transaction around `deleteCallback`, with the filter that the callback makes.
  unfoldable pub delete_in : CRefVersion → Filter → List D → Result CRefVersion × List D
  unfolding with_transaction deleted_or_error
  delete_in id filter ds =
      let (result, ds') =
        with_transaction driver "delete document transaction fail" (driver.delete_one filter) ds in
      (deleted_or_error id result, ds')

-- The filter of `deleteCallback` for components and workflows; jobs are not versioned.
abbrev pub version_filter : CRefVersion → Filter
version_filter id = uid_is id.uid ∷ current_is id.version ∷ []

module _ (drivers : Drivers) where
  -- The check that `DeleteDocument` begins with.
  unfoldable pub check_readable :
      Context → DocumentKind → CRefVersion → Database → Result (Unit {0})
  check_readable ctx workflow_kind id db =
      wrap "could not access workflow from storage or document not found"
        (get_workflow drivers ctx (by_version id) db.workflows)
      >>= λ _. ok tt
  check_readable ctx job_kind id db =
      wrap "could not access job from storage or document not found"
        (get_job drivers ctx id.uid db.jobs)
      >>= λ _. ok tt
  check_readable ctx component_kind id db = ok tt
  check_readable ctx (other_kind _) id db = ok tt

  -- The deletion, by kind: a kind without a collection fails in the callback.
  unfoldable pub delete_by_kind :
      DocumentKind → CRefVersion → Database → Result CRefVersion × Database
  delete_by_kind component_kind id db =
      let (result, ds) = delete_in drivers.components id (version_filter id) db.components in
      (result, record db { components = ds })
  delete_by_kind workflow_kind id db =
      let (result, ds) = delete_in drivers.workflows id (version_filter id) db.workflows in
      (result, record db { workflows = ds })
  delete_by_kind job_kind id db =
      let (result, ds) = delete_in drivers.jobs id (uid_is id.uid ∷ []) db.jobs in
      (result, record db { jobs = ds })
  delete_by_kind (other_kind _) id db =
      (err (message "cannot delete document, unknown document kind"), db)

  unfoldable pub delete_document :
      Context → DocumentKind → CRefVersion → Database → Result CRefVersion × Database
  delete_document ctx kind id db = elim (check_readable ctx kind id db) [
    | err e ↦ (err e, db)
    | ok _ ↦ delete_by_kind kind id db
  ]
