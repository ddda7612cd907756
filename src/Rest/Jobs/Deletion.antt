-- ===== src/Rest/Jobs/Deletion.antt =====
-- rest/jobs.go: the deletion of a job, first tried in Argo, then in the database, then in Argo.
use flowify_workflows_server.Storage.Documents.JobDeletion.{delete_document-IsGone, IsGone}
use mathlib.Core.Path.{subst}
use flowify_workflows_server.Common.{
  ap, Bool, String, true, false, ◌≡◌, refl, sym, ◌⊎◌, inl, inr, Bool-cases,
}
use flowify_workflows_server.Common.Int.{pos}
use flowify_workflows_server.Common.Result.{
  ok-injective, Result, ok, err, Error, Result-cases, wrapped, ok≢err,
}
use flowify_workflows_server.Models.{component_document, workflow_document, job_document}
use flowify_workflows_server.Models.Versions.{ComponentReference, CRefVersion}
use flowify_workflows_server.Storage.Access.{Context}
use flowify_workflows_server.Storage.Driver.{IsMongo}
use flowify_workflows_server.Storage.Documents.{Database, Drivers, job_kind, delete_document}
use flowify_workflows_server.Storage.Documents.Deletion.{delete_document-err}
use flowify_workflows_server.Rest.Requests.{
  Response, answer, answer_with, Route, Parsers, get_id_from_muxer_path,
}
use flowify_workflows_server.Rest.Requests.Answers.{pair_of}
use flowify_workflows_server.Rest.Jobs.{
  ArgoClient, RunningJob, get_workspace_by_job_uid, delete_from_argo, delete_job, deleted_answer,
  job_delete_handler,
}

abbrev pub job_version : ComponentReference → CRefVersion
job_version uid = record { uid = uid; version = pos 0 }

module _ {A V : Type 0} (argo : ArgoClient A V) (drivers : Drivers) (ctx : Context) where
  -- The dry run has succeeded, and the document is not stored any more.
  abbrev pub IsDeleted : ComponentReference → String → Database → A → Database → A → Type 0
  IsDeleted uid workspace db cluster db' dry =
      (argo.delete true workspace uid cluster ≡ ok dry) × IsGone ctx uid db db'

  -- The dry run has failed, or the deletion of the document.
  abbrev pub IsRefused : ComponentReference → String → Database → A → Type 0
  IsRefused uid workspace db cluster =
      ((e : Error) × (argo.delete true workspace uid cluster ≡ err e))
      ⊎ ((dry : A) × (e : Error) × (argo.delete true workspace uid cluster ≡ ok dry)
          × ((delete_document drivers ctx job_kind (job_version uid) db).0 ≡ err e))

  -- A deletion: the document is deleted, and then the job in Argo or not; or the document is kept.
  abbrev pub IsDeletionOf :
      ComponentReference
      → String
      → Database
      → A
      → Result ComponentReference × (Database × A)
      → Type 0
  IsDeletionOf uid workspace db cluster (r, (db', cluster')) =
      ((dry : A) × IsDeleted uid workspace db cluster db' dry
        × (((r ≡ ok uid) × (argo.delete false workspace uid dry ≡ ok cluster'))
            ⊎ ((e : Error) × (x : Error) × (r ≡ err e)
                × (argo.delete false workspace uid dry ≡ err x)
                × (cluster' ≡ dry))))
      ⊎ (IsRefused uid workspace db cluster × ((e : Error) × (r ≡ err e)) × (db' ≡ db))

  delete_from_argo-IsDeletionOf :
      (uid : ComponentReference) (workspace : String) (crefver : CRefVersion) (db db' : Database)
      (cluster dry : A)
      → crefver.uid ≡ uid
      → IsDeleted uid workspace db cluster db' dry
      → IsDeletionOf uid workspace db cluster (delete_from_argo argo uid workspace crefver db' dry)
  unfolding delete_from_argo
  delete_from_argo-IsDeletionOf uid workspace crefver db db' cluster dry named h =
      elim (Result-cases (argo.delete false workspace uid dry)) [
        | inl (cluster', done) ↦
            let outcome : delete_from_argo argo uid workspace crefver db' dry
                ≡ (ok crefver.uid, (db', cluster')) =
              rw (delete_from_argo, done) refl in
            let both : IsDeletionOf uid workspace db cluster (ok crefver.uid, (db', cluster')) =
              inl (dry, h, inl (ap ok named, done)) in
            subst (IsDeletionOf uid workspace db cluster) (sym outcome) both
        | inr (x, failed) ↦
            let e = wrapped "cannot delete job" x in
            let outcome : delete_from_argo argo uid workspace crefver db' dry
                ≡ (err e, (db', dry)) =
              rw (delete_from_argo, failed) refl in
            let half : IsDeletionOf uid workspace db cluster (err e, (db', dry)) =
              inl (dry, h, inr (e, x, refl, failed, refl)) in
            subst (IsDeletionOf uid workspace db cluster) (sym outcome) half
      ]

  -- The document is kept, and the deletion fails.
  refused :
      (uid : ComponentReference) (workspace : String) (db db' : Database) (cluster dry : A)
      (x : Error)
      → delete_job argo drivers ctx uid workspace db cluster ≡ (err x, (db', dry))
      → db' ≡ db
      → IsRefused uid workspace db cluster
      → IsDeletionOf uid workspace db cluster (delete_job argo drivers ctx uid workspace db cluster)
  refused uid workspace db db' cluster dry x outcome same why =
      let kept : IsDeletionOf uid workspace db cluster (err x, (db', dry)) =
        inr (why, (x, refl), same) in
      subst (IsDeletionOf uid workspace db cluster) (sym outcome) kept

  module _ (mc : IsMongo ⦃doc = component_document⦄ drivers.components)
      (mw : IsMongo ⦃doc = workflow_document⦄ drivers.workflows)
      (mj : IsMongo ⦃doc = job_document⦄ drivers.jobs) where
    delete_job-IsDeletionOf :
        (uid : ComponentReference) (workspace : String) (db : Database) (cluster : A)
        → IsDeletionOf uid workspace db cluster
            (delete_job argo drivers ctx uid workspace db cluster)
    unfolding delete_job
    delete_job-IsDeletionOf uid workspace db cluster =
        elim (Result-cases (argo.delete true workspace uid cluster)) [
          | inr (x, failed) ↦
              refused uid workspace db db cluster cluster (wrapped "cannot delete job" x)
                (rw (delete_job, failed) refl) refl (inl (x, failed))
          | inl (dry, tried) ↦
              let r = delete_document drivers ctx job_kind (job_version uid) db in
              elim (Result-cases r.0) [
                | inr (x, failed) ↦
                    refused uid workspace db r.1 cluster dry (wrapped "cannot delete job" x)
                      (rw (delete_job, tried, failed) refl)
                      (delete_document-err drivers ctx job_kind (job_version uid) db r.1 x mc mw mj
                        (pair_of r failed refl))
                      (inr (dry, x, tried, failed))
                | inl (crefver, fine) ↦
                    let outcome : delete_job argo drivers ctx uid workspace db cluster
                        ≡ delete_from_argo argo uid workspace crefver r.1 dry =
                      rw (delete_job, tried, fine) refl in
                    let (named, gone) =
                      delete_document-IsGone drivers ctx (job_version uid) crefver db r.1 mj
                        (pair_of r fine refl) in
                    subst (IsDeletionOf uid workspace db cluster) (sym outcome) (
                      delete_from_argo-IsDeletionOf uid workspace crefver db r.1 cluster dry
                        (ap (λ c. c.uid) (sym named)) (tried, gone))
              ]
        ]

    module _ (parsers : Parsers) (route : Route) where
      -- The job of the path is listed in the workspace, and is finished or not.
      abbrev pub IsFinished : Bool → ComponentReference → String → A → Type 0
      IsFinished finished id workspace cluster =
          (get_id_from_muxer_path parsers route ≡ ok id)
          × (get_workspace_by_job_uid argo id cluster ≡ ok workspace)
          × ((job : RunningJob) × (argo.get workspace id cluster ≡ ok job)
              × (job.finished ≡ finished))

      -- Argo does not list the job of the path in one workspace, or does not give it.
      abbrev pub IsUnknown : A → Type 0
      IsUnknown cluster =
          (id : ComponentReference) × (get_id_from_muxer_path parsers route ≡ ok id)
          × (((e : Error) × (get_workspace_by_job_uid argo id cluster ≡ err e))
              ⊎ ((workspace : String) × (e : Error) × (get_workspace_by_job_uid argo id cluster
                    ≡ ok workspace)
                  × (argo.get workspace id cluster ≡ err e)))

      -- Why the document is kept, and the response.
      abbrev pub IsKept : Database → A → Response ComponentReference → Type 0
      IsKept db cluster r =
          (((e : Error) × (get_id_from_muxer_path parsers route ≡ err e)) × (r ≡ answer 400))
          ⊎ (IsUnknown cluster × (r ≡ answer 404))
          ⊎ (((id : ComponentReference) × (workspace : String) × IsFinished false id workspace
                  cluster)
              × (r ≡ answer 423))
          ⊎ (((id : ComponentReference) × (workspace : String) × IsFinished true id workspace
                  cluster
                × IsRefused id workspace db cluster)
              × (r ≡ answer 500))

      -- The response to a deletion, and what becomes of the collections and of Argo.
      abbrev pub IsAnswered : Database → A → Response ComponentReference × (Database × A) → Type 0
      IsAnswered db cluster out =
          ((id : ComponentReference) × (workspace : String) × (dry : A) × IsFinished true id
              workspace cluster
            × IsDeleted id workspace db cluster out.1.0 dry
            × (((out.0 ≡ answer_with 200 id) × (argo.delete false workspace id dry ≡ ok out.1.1))
                ⊎ ((out.0 ≡ answer 500)
                    × ((x : Error) × (argo.delete false workspace id dry ≡ err x))
                    × (out.1.1 ≡ dry))))
          ⊎ (IsKept db cluster out.0 × (out.1.0 ≡ db))

      deleted_answer-IsAnswered :
          (id : ComponentReference) (workspace : String) (db : Database) (cluster : A)
          (r : Result ComponentReference × (Database × A))
          → IsFinished true id workspace cluster
          → IsDeletionOf id workspace db cluster r
          → IsAnswered db cluster (deleted_answer argo parsers r)
      deleted_answer-IsAnswered id workspace db cluster (ok c, s) fine
            (inl (dry, gone, inl (is, in_argo))) =
          inl
            (id, workspace, dry, fine, gone, inl (ap (answer_with 200) (ok-injective is), in_argo))
      deleted_answer-IsAnswered id workspace db cluster (err x, s) fine
            (inl (dry, gone, inl (is, in_argo))) =
          absurd (ok≢err (sym is))
      deleted_answer-IsAnswered id workspace db cluster (ok c, s) fine
            (inl (dry, gone, inr (e, x, is, failed, same))) =
          absurd (ok≢err is)
      deleted_answer-IsAnswered id workspace db cluster (err y, s) fine
            (inl (dry, gone, inr (e, x, is, failed, same))) =
          inl (id, workspace, dry, fine, gone, inr (refl, (x, failed), same))
      deleted_answer-IsAnswered id workspace db cluster (ok c, s) fine (inr (why, (x, is), same)) =
          absurd (ok≢err is)
      deleted_answer-IsAnswered id workspace db cluster (err y, s) fine (inr (why, (x, is), same)) =
          inr (inr (inr (inr ((id, workspace, fine, why), refl))), same)

      kept_as_it_was :
          (db : Database) (cluster : A) (r : Response ComponentReference)
          → job_delete_handler argo parsers drivers ctx route db cluster ≡ (r, (db, cluster))
          → IsKept db cluster r
          → IsAnswered db cluster (job_delete_handler argo parsers drivers ctx route db cluster)
      kept_as_it_was db cluster r outcome why =
          let kept : IsAnswered db cluster (r, (db, cluster)) = inr (why, refl) in
          subst (IsAnswered db cluster) (sym outcome) kept

      -- A job is deleted if it is the one of the path, Argo has it as finished, a dry run in Argo
      -- succeeds and its document can be deleted, of a job in a workspace that the user has access
      -- to. Then one job with the uid is not stored any more, and nothing else has changed in the
      -- database. The response is 200 with the uid when Argo deletes the job too, and 500 when that
      -- fails. Otherwise the collections are as they were: 400 if the path has no uid, 404 if Argo
      -- does not find one such job, 423 if it is not finished, and 500 if the dry run or the
      -- deletion of the document fails.
      pub job_delete_handler-IsAnswered :
          (db : Database) (cluster : A)
          → IsAnswered db cluster (job_delete_handler argo parsers drivers ctx route db cluster)
      unfolding job_delete_handler
      job_delete_handler-IsAnswered db cluster =
          elim (Result-cases (get_id_from_muxer_path parsers route)) [
            | inr (x, bad) ↦
                kept_as_it_was db cluster (answer 400) (rw (job_delete_handler, bad) refl)
                  (inl ((x, bad), refl))
            | inl (id, e₁) ↦ elim (Result-cases (get_workspace_by_job_uid argo id cluster)) [
              | inr (x, bad) ↦
                  kept_as_it_was db cluster (answer 404) (rw (job_delete_handler, e₁, bad) refl)
                    (inr (inl ((id, e₁, inl (x, bad)), refl)))
              | inl (workspace, e₂) ↦ elim (Result-cases (argo.get workspace id cluster)) [
                | inr (x, bad) ↦
                    kept_as_it_was db cluster (answer 404)
                      (rw (job_delete_handler, e₁, e₂, bad) refl)
                      (inr (inl ((id, e₁, inr (workspace, x, e₂, bad)), refl)))
                | inl (job, e₃) ↦ elim (Bool-cases job.finished) [
                  | inr running ↦
                      kept_as_it_was db cluster (answer 423)
                        (rw (job_delete_handler, e₁, e₂, e₃, running) refl)
                        (inr (inr (inl ((id, workspace, (e₁, e₂, (job, e₃, running))), refl))))
                  | inl over ↦
                      let outcome : job_delete_handler argo parsers drivers ctx route db cluster
                          ≡ deleted_answer argo parsers
                              (delete_job argo drivers ctx id workspace db cluster) =
                        rw (job_delete_handler, e₁, e₂, e₃, over) refl in
                      subst (IsAnswered db cluster) (sym outcome) (
                        deleted_answer-IsAnswered id workspace db cluster
                          (delete_job argo drivers ctx id workspace db cluster)
                          (e₁, e₂, (job, e₃, over))
                          (delete_job-IsDeletionOf id workspace db cluster))
                ]
              ]
            ]
          ]
