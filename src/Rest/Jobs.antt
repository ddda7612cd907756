-- ===== src/Rest/Jobs.antt =====
-- rest/jobs.go: the handlers of jobs. `A` is the state of Argo in the cluster, which the calls of
-- its client read and change.
pub mod Events
pub mod Submission
pub mod Deletion
use flowify_workflows_server.Common.{
  ℕ, String, Bool, true, false, not, List, [], ◌∷◌, ◌++◌, ◌==◌, nat_eq, Option, none, some,
  if◌then◌else◌,
}
use flowify_workflows_server.Common.Int.{ℤ, pos}
use flowify_workflows_server.Common.Result.{
  Result, ok, err, Error, message, wrap, wrapped, not_found, fail_if, ◌>>=◌, ◌>>◌, Run,
}
use flowify_workflows_server.Models.{
  Component, inline, Job, Workflow, Time, component_document, job_document,
}
use flowify_workflows_server.Models.Versions.{ComponentReference, CRefVersion, is_zero}
use flowify_workflows_server.Storage.Access.{Context}
use flowify_workflows_server.Storage.Versioned.{get_document, by_version}
use flowify_workflows_server.Storage.Documents.{
  Database, Drivers, job_kind, get_job, create_job, delete_document,
}
use flowify_workflows_server.Storage.References.{dereference_component}
use flowify_workflows_server.Transpiler.Argo.{Library, ArgoWorkflow}
use flowify_workflows_server.Transpiler.Submission.{get_argo_workflow}
use flowify_workflows_server.Rest.Requests.{
  Response, answer, answer_with, Route, Parsers, get_id_from_muxer_path, initialize_metadata,
}

-- What the handlers read of a workflow in Argo: its namespace, whether `Status.FinishedAt` is set,
-- and its phase.
pub record RunningJob : Type 0 where
  pub namespace : String
  pub finished : Bool
  pub phase : String

-- The result of a creation; an error may be a `StatusError` of the API server.
pub data ClientResult (A : Type 0) : Type 0 where
  done : A → ClientResult A
  status_error other_error : Error → ClientResult A

-- The calls of Argo's client; a job has its uid as its name. A deletion is a dry run or not.
pub record ArgoClient (A V : Type 0) : Type 0 where
  pub list_workflows : ComponentReference → A → Result (List RunningJob)
  pub get : (namespace : String) → ComponentReference → A → Result RunningJob
  pub create : (namespace : String) → ArgoWorkflow V → A → ClientResult A
  pub delete : (dry_run : Bool) → (namespace : String) → ComponentReference → A → Result A
  pub terminate : (namespace : String) → ComponentReference → A → Result A

unfoldable pub initialize_job : Context → ComponentReference → Time → Job → Result Job
unfolding initialize_metadata
initialize_job ctx new_uid now job =
    wrap "cannot initialize job" (initialize_metadata ctx new_uid now job.metadata) >>= λ meta.
    ok (record job { metadata = meta })

unfoldable pub store_job :
    Drivers → Context → Job → List Job → Result (ComponentReference × List Job)
unfolding create_job
store_job drivers ctx job ds =
    if is_zero job.uid
    then err (message "cannot store a job without uid set")
    else (create_job drivers ctx job ds >>= λ ds'. ok (job.uid, ds'))

-- The namespace of the only job that is listed.
abbrev pub only_namespace : List RunningJob → Result String
only_namespace [] = err (message "no such job")
only_namespace (job ∷ []) = ok job.namespace
only_namespace (job ∷ other ∷ jobs) = err (message "more than one job found")

module _ {A V : Type 0} (argo : ArgoClient A V) where
  unfoldable pub get_workspace_by_job_uid : ComponentReference → A → Result String
  get_workspace_by_job_uid id cluster = elim (argo.list_workflows id cluster) [
    | err e ↦ err (message "error finding job")
    | ok jobs ↦ only_namespace jobs
  ]

  unfoldable pub terminate_job : ComponentReference → (workspace : String) → A → Result A
  terminate_job uid workspace cluster =
      wrap "cannot stop job" (argo.get workspace uid cluster) >>= λ wf.
      fail_if wf.finished (message "job already stopped") >> argo.terminate workspace uid cluster

  -- The second part of `DeleteJob`, after the dry run: the database, and then Argo.
  unfoldable pub delete_from_argo :
      ComponentReference
      → String
      → CRefVersion
      → Database
      → A
      → Result ComponentReference × (Database × A)
  delete_from_argo uid workspace result db cluster =
      elim (wrap "cannot delete job" (argo.delete false workspace uid cluster)) [
        | err e ↦ (err e, (db, cluster))
        | ok cluster' ↦ (ok result.uid, (db, cluster'))
      ]

  unfoldable pub delete_job :
      Drivers
      → Context
      → ComponentReference
      → (workspace : String) → Database
      → A
      → Result ComponentReference × (Database × A)
  unfolding delete_document delete_from_argo
  delete_job drivers ctx uid workspace db cluster =
      elim (wrap "cannot delete job" (argo.delete true workspace uid cluster)) [
        | err e ↦ (err e, (db, cluster))
        | ok cluster₁ ↦
            let (result, db') =
              delete_document drivers ctx job_kind (record { uid = uid; version = pos 0 }) db in
            elim (wrap "cannot delete job" result) [
              | err e ↦ (err e, (db', cluster₁))
              | ok crefver ↦ delete_from_argo uid workspace crefver db' cluster₁
            ]
      ]

  module _ (parsers : Parsers) where
    unfoldable pub job_status_handler : Route → A → Response (ComponentReference × String)
    unfolding get_id_from_muxer_path get_workspace_by_job_uid
    job_status_handler route cluster = elim (get_id_from_muxer_path parsers route) [
      | err e ↦ answer 400
      | ok id ↦ elim (get_workspace_by_job_uid id cluster) [
        | err e ↦ answer 404
        | ok workspace ↦ elim (argo.get workspace id cluster) [
          | err e ↦ answer 404
          | ok job ↦ answer_with 200 (id, job.phase)
        ]
      ]
    ]

    unfoldable pub job_terminate_handler : Route → A → Response ComponentReference × A
    unfolding get_id_from_muxer_path get_workspace_by_job_uid terminate_job
    job_terminate_handler route cluster = elim (get_id_from_muxer_path parsers route) [
      | err e ↦ (answer 400, cluster)
      | ok id ↦ elim (get_workspace_by_job_uid id cluster) [
        | err e ↦ (answer 404, cluster)
        | ok workspace ↦ elim (terminate_job id workspace cluster) [
          | err e ↦ (answer 500, cluster)
          | ok cluster' ↦ (answer_with 202 id, cluster')
        ]
      ]
    ]

    abbrev pub deleted_answer :
        Result ComponentReference × (Database × A) → Response ComponentReference × (Database × A)
    deleted_answer (ok uid, s) = (answer_with 200 uid, s)
    deleted_answer (err e, s) = (answer 500, s)

    unfoldable pub job_delete_handler :
        Drivers → Context → Route → Database → A → Response ComponentReference × (Database × A)
    unfolding get_id_from_muxer_path get_workspace_by_job_uid delete_job
    job_delete_handler drivers ctx route db cluster = elim (get_id_from_muxer_path parsers route) [
      | err e ↦ (answer 400, (db, cluster))
      | ok id ↦ elim (get_workspace_by_job_uid id cluster) [
        | err e ↦ (answer 404, (db, cluster))
        | ok workspace ↦ elim (argo.get workspace id cluster) [
          | err e ↦ (answer 404, (db, cluster))
          | ok job ↦
              if not job.finished
              then (answer 423, (db, cluster))
              else deleted_answer (delete_job drivers ctx id workspace db cluster)
        ]
      ]
    ]

    unfoldable pub job_get_handler : Drivers → Context → Route → List Job → Response Job
    unfolding get_id_from_muxer_path get_job
    job_get_handler drivers ctx route ds = elim (get_id_from_muxer_path parsers route) [
      | err e ↦ answer 400
      | ok id ↦ elim (get_job drivers ctx id ds) [
        | err e ↦ answer 500
        | ok job ↦ answer_with 200 job
      ]
    ]

  -- `SubmitOptions.Tags` only sets an annotation. Starting `EventSaver` is left out here: it runs
  -- on its own. The fuel is that of the resolution of references and that of the transpiler.
  module _ (drivers : Drivers) (lib : Library V) (fuel : ℕ) where
    abbrev pub created_answer : Job → List Job → A → ClientResult A → Response Job × (List Job × A)
    created_answer job jobs cluster (done cluster') = (answer 201, (jobs, cluster'))
    created_answer job jobs cluster (status_error e) = (answer 503, (jobs, cluster))
    created_answer job jobs cluster (other_error e) = (answer 400, (jobs, cluster))

    -- After the job is stored: it is made into a workflow of Argo, and that is created.
    unfoldable pub start_job :
        Job → Database → List Job → A → Option (Response Job × (List Job × A))
    unfolding dereference_component get_argo_workflow
    start_job job db jobs cluster =
        elim (dereference_component
          (λ cref. get_document drivers.components (by_version cref) db.components) fuel
          (inline job.workflow.component)) [
            | none ↦ none
            | some (err e) ↦ some (answer 500, (jobs, cluster))
            | some (ok cmp) ↦
                let deref_job = record job { workflow = record job.workflow { component = cmp } } in
                elim (get_argo_workflow lib fuel deref_job) [
                  | none ↦ none
                  | some (err e) ↦ some (answer 500, (jobs, cluster))
                  | some (ok argo_wf) ↦ some (
                      created_answer job jobs cluster (
                        argo.create job.workflow.workspace
                          (record argo_wf { name = lib.uid_text job.uid }) cluster))
                ]
          ]

    -- A request without a uid: it is stored and started.
    unfoldable pub submit_job :
        Context
        → (new_uid : ComponentReference) → (now : Time) → Job
        → Database
        → A
        → Option (Response Job × (List Job × A))
    unfolding initialize_job store_job start_job
    submit_job ctx new_uid now request db cluster = elim (initialize_job ctx new_uid now request) [
      | err e ↦ some (answer 500, (db.jobs, cluster))
      | ok job ↦ elim (store_job drivers ctx job db.jobs) [
        | err e ↦ some (answer 500, (db.jobs, cluster))
        | ok stored ↦ start_job job db stored.1 cluster
      ]
    ]

    unfoldable pub jobs_submit_handler :
        Context
        → (new_uid : ComponentReference) → (now : Time) → Result Job
        → Database
        → A
        → Option (Response Job × (List Job × A))
    unfolding submit_job
    jobs_submit_handler ctx new_uid now (err e) db cluster = some (answer 400, (db.jobs, cluster))
    jobs_submit_handler ctx new_uid now (ok request) db cluster =
        if not (is_zero request.uid)
        then some (answer 400, (db.jobs, cluster))
        else submit_job ctx new_uid now request db cluster
