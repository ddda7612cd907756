-- ===== src/Storage/Documents/Checks.antt =====
-- Reads and writes of workflows and jobs against the workspaces that the user has access to.
use mathlib.Core.Path.{subst}
use flowify_workflows_server.Storage.Versioned.Found.{get_document-In}
use flowify_workflows_server.Common.{
  nat_beq_iff, arith, ◌∙◌, sym, String, List, true, Option, none, some, In, ◌≡◌, refl, inl, inr,
  Bool-cases, ◌∷◌, [], ◌++◌,
}
use flowify_workflows_server.Common.Result.{
  wrap, Result, ok, err, ◌>>◌, >>=-eq-ok, wrap-eq-ok, ok-injective, ok≢err,
}
use flowify_workflows_server.Models.{Workflow, Job, workflow_document, job_document}
use flowify_workflows_server.Models.Versions.{
  initialize_new_sound, initialize_new, version_tag_latest, version_init, ComponentReference,
}
use flowify_workflows_server.Storage.Access.{Context, check_workspace_access}
use flowify_workflows_server.Storage.Driver.{uid_is, IsMongo}
use flowify_workflows_server.Storage.Versioned.{insert_new, get_document, Identifier}
use flowify_workflows_server.Storage.Documents.{
  job_or_error, Drivers, need_access, create_workflow, get_workflow, get_job, create_job,
}

pub need_access-eq-ok :
    {A : Type 0} (ctx : Context) (ws : String) (rest : Result A) {a : A}
    → (need_access ctx ws >> rest) ≡ ok a
    → (check_workspace_access ctx ws ≡ true) × (rest ≡ ok a)
need_access-eq-ok ctx ws rest e = elim (Bool-cases (check_workspace_access ctx ws)) [
  | inl may ↦ (may, rw may at e)
  | inr no_access ↦ absurd (ok≢err (sym (rw no_access at e)))
]

module _ (drivers : Drivers) where
  pub get_workflow-eq-ok :
      (ctx : Context) (id : Identifier) (ds : List Workflow) (w : Workflow)
      → get_workflow drivers ctx id ds ≡ ok w
      → (get_document drivers.workflows id ds ≡ ok w)
        × (check_workspace_access ctx w.workspace ≡ true)
  unfolding get_workflow
  get_workflow-eq-ok ctx id ds w e =
      let (x, read, rest) = >>=-eq-ok (get_document drivers.workflows id ds) _ e in
      let (may, same) = need_access-eq-ok ctx x.workspace (ok x) rest in
      (
        read ∙ same,
        subst (λ y. check_workspace_access ctx y.workspace ≡ true) (ok-injective same) may,
      )

  -- A workflow that is read stands in the collection, and in a workspace that the user has
  -- access to.
  pub get_workflow-access :
      (ctx : Context) (id : Identifier) (ds : List Workflow) (w : Workflow)
      → IsMongo drivers.workflows
      → get_workflow drivers ctx id ds ≡ ok w
      → In w ds × (check_workspace_access ctx w.workspace ≡ true)
  get_workflow-access ctx id ds w mongo e =
      let (read, may) = get_workflow-eq-ok ctx id ds w e in
      ((get_document-In drivers.workflows mongo id ds w read).0, may)

  job_or_error-eq-ok :
      (r : Result (Option Job)) (j : Job) → job_or_error drivers r ≡ ok j → r ≡ ok (some j)
  unfolding job_or_error
  job_or_error-eq-ok (ok none) d e = cc
  job_or_error-eq-ok (ok (some x)) d e = cc
  job_or_error-eq-ok (err x) d e = cc

  -- A job that is read has the uid that was asked for, stands in the collection, and is of a
  -- workflow in a workspace that the user has access to.
  pub get_job-access :
      (ctx : Context) (id : ComponentReference) (ds : List Job) (j : Job)
      → IsMongo drivers.jobs
      → get_job drivers ctx id ds ≡ ok j
      → In j ds × (j.uid ≡ id) × (check_workspace_access ctx j.workflow.workspace ≡ true)
  unfolding get_job
  get_job-access ctx id ds j mongo e =
      let (x, read, rest) =
        >>=-eq-ok (job_or_error drivers (drivers.jobs.find_one (uid_is id ∷ []) ds)) _ e in
      let (may, same) = need_access-eq-ok ctx x.workflow.workspace (ok x) rest in
      let (m, selected) = mongo.found (uid_is id ∷ []) ds x (job_or_error-eq-ok _ x read) in
      subst (λ y. In y ds × (y.uid ≡ id) × (check_workspace_access ctx y.workflow.workspace ≡ true))
        (ok-injective same) (m, ground (arith, nat_beq_iff x.uid id), may)

  -- Storing a job takes access to the workspace of its workflow, and adds the job to the
  -- collection as it was given, at its end.
  pub create_job-access :
      (ctx : Context) (j : Job) (ds ds' : List Job)
      → IsMongo drivers.jobs
      → create_job drivers ctx j ds ≡ ok ds'
      → (check_workspace_access ctx j.workflow.workspace ≡ true) × (ds' ≡ ds ++ j ∷ [])
  unfolding create_job
  create_job-access ctx j ds ds' mongo e =
      let (may, rest) = need_access-eq-ok ctx j.workflow.workspace _ e in
      (may, mongo.inserted j ds ds' (wrap-eq-ok _ _ rest))

  -- A workflow that is created is stored as version 1, with the tag `latest`, under its uid and in
  -- a workspace that the user has access to. The workflow was given with the number 0 or 1.
  pub create_workflow-first :
      (ctx : Context) (w : Workflow) (ds ds' : List Workflow)
      → IsMongo drivers.workflows
      → create_workflow drivers ctx w ds ≡ ok ds'
      → (check_workspace_access ctx w.workspace ≡ true)
        × ((stored : Workflow) × (ds' ≡ ds ++ stored ∷ [])
            × (stored.uid ≡ w.uid)
            × (stored.workspace ≡ w.workspace)
            × (stored.version.current ≡ version_init)
            × In version_tag_latest stored.version.tags)
  unfolding create_workflow insert_new
  create_workflow-first ctx w ds ds' mongo e =
      let (may, rest) = need_access-eq-ok ctx w.workspace _ e in
      let (v, initialized, inserted) =
        >>=-eq-ok (wrap "cannot create document" (initialize_new w.version)) _ rest in
      let (_, one, tagged, _) = initialize_new_sound w.version v (wrap-eq-ok _ _ initialized) in
      (
        may,
        (
          record w { metadata = record w.metadata { version = v } },
          mongo.inserted _ ds ds' (wrap-eq-ok _ _ inserted),
          refl,
          refl,
          one,
          tagged,
        ),
      )
