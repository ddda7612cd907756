-- ===== src/Rest/Jobs/Submission.antt =====
-- rest/jobs.go: what a job that is started has been through.
use flowify_workflows_server.Common.{
  ℕ, true, List, [], ◌∷◌, ◌++◌, ◌≡◌, refl, sym, ◌∙◌, ap, inl, inr, Bool-cases, Option, some,
  Option-cases, arith, ◌≢◌,
}
use flowify_workflows_server.Common.Result.{
  Result, ok, >>=-eq-ok, wrap-eq-ok, ok-injective, ok≢err, some-injective, Result-cases, wrap,
  none≢some,
}
use flowify_workflows_server.Models.{
  Metadata, Component, inline, Job, Time, component_document, job_document,
}
use flowify_workflows_server.Models.Versions.{ComponentReference, CRefVersion, is_zero}
use flowify_workflows_server.Storage.Access.{Context, check_workspace_access}
use flowify_workflows_server.Storage.Driver.{IsMongo}
use flowify_workflows_server.Storage.Versioned.{get_document, by_version}
use flowify_workflows_server.Storage.Documents.{Database, Drivers, create_job}
use flowify_workflows_server.Storage.Documents.Checks.{create_job-access}
use flowify_workflows_server.Storage.References.{dereference_component}
use flowify_workflows_server.Transpiler.Argo.{Library, ArgoWorkflow}
use flowify_workflows_server.Transpiler.Submission.{get_argo_workflow}
use flowify_workflows_server.Transpiler.Submission.Templates.{
  IsRunnable, get_argo_workflow-IsClosed,
}
use flowify_workflows_server.Rest.Requests.{Response, answer, initialize_metadata}
use flowify_workflows_server.Rest.Requests.Answers.{answers_differ}
use flowify_workflows_server.Rest.Requests.New.{IsNew, initialize_metadata-IsNew}
use mathlib.Core.Path.{subst}
use flowify_workflows_server.Rest.Jobs.{
  ArgoClient, ClientResult, done, status_error, other_error, initialize_job, store_job,
  created_answer, start_job, submit_job, jobs_submit_handler,
}

store_job-stored :
    (drivers : Drivers) (ctx : Context) (job : Job) (ds ds' : List Job) (uid : ComponentReference)
    → IsMongo drivers.jobs
    → store_job drivers ctx job ds ≡ ok (uid, ds')
    → (check_workspace_access ctx job.workflow.workspace ≡ true) × (ds' ≡ ds ++ job ∷ [])
unfolding store_job
store_job-stored drivers ctx job ds ds' uid mongo e = elim (Bool-cases (is_zero job.uid)) [
  | inl zero_uid ↦ absurd (ok≢err (sym (rw (store_job, zero_uid) at e)))
  | inr nonzero ↦
      let (stored, made, same) =
        >>=-eq-ok (create_job drivers ctx job ds) _ (rw (store_job, nonzero) at e) in
      let is : stored ≡ ds' = ap (λ x. x.1) (ok-injective same) in
      create_job-access drivers ctx job ds ds' mongo (made ∙ ap ok is)
]

initialize_job-IsNew :
    (ctx : Context) (new_uid : ComponentReference) (now : Time) (request job : Job)
    → initialize_job ctx new_uid now request ≡ ok job
    → IsNew ctx new_uid now job.metadata × (job ≡ record request { metadata = job.metadata })
unfolding initialize_job
initialize_job-IsNew ctx new_uid now request job e =
    let (meta, made, same) =
      >>=-eq-ok
        (wrap "cannot initialize job" (initialize_metadata ctx new_uid now request.metadata)) _ e in
    let (_, fresh) =
      initialize_metadata-IsNew ctx new_uid now request.metadata meta (wrap-eq-ok _ _ made) in
    let is = ok-injective same in
    (
      subst (λ (x : Job). IsNew ctx new_uid now x.metadata) is fresh,
      sym is ∙ ap (λ (x : Job). record request { metadata = x.metadata }) is,
    )

module _ {A V : Type 0} (argo : ArgoClient A V) (drivers : Drivers) (lib : Library V)
    (fuel : ℕ) where
  created_answer-done :
      (job : Job) (jobs jobs' : List Job) (cluster cluster' : A) (r : ClientResult A)
      → created_answer argo drivers lib fuel job jobs cluster r ≡ (answer 201, (jobs', cluster'))
      → (r ≡ done cluster') × (jobs ≡ jobs')
  created_answer-done job jobs jobs' cluster cluster' (done c) e =
      (ap done (ap (λ x. x.1.1) e), ap (λ x. x.1.0) e)
  created_answer-done job jobs jobs' cluster cluster' (status_error x) e =
      absurd (answers_differ (answer 503) (answer 201) _ _ 503 201 refl refl (λ p. omega arith) e)
  created_answer-done job jobs jobs' cluster cluster' (other_error x) e =
      absurd (answers_differ (answer 400) (answer 201) _ _ 400 201 refl refl (λ p. omega arith) e)

  -- What is started for a job: Argo has accepted what the transpiler makes of the job, with its
  -- component resolved and the rest as it is, in the workspace of its workflow and under the uid of
  -- the job. That workflow can be run.
  abbrev pub IsRun : Database → Job → A → A → Type 0
  IsRun db job cluster cluster' =
      (cmp : Component) × (awf : ArgoWorkflow V) × (dereference_component
          (λ cref. get_document drivers.components (by_version cref) db.components) fuel
          (inline job.workflow.component)
        ≡ some (ok cmp))
      × (get_argo_workflow lib fuel
            (record job { workflow = record job.workflow { component = cmp } })
          ≡ some (ok awf))
      × IsRunnable (record awf { name = lib.uid_text job.uid })
      × (argo.create job.workflow.workspace (record awf { name = lib.uid_text job.uid }) cluster
          ≡ done cluster')

  start_job-started :
      (job : Job) (db : Database) (jobs jobs' : List Job) (cluster cluster' : A)
      → start_job argo drivers lib fuel job db jobs cluster ≡ some (answer 201, (jobs', cluster'))
      → (jobs ≡ jobs') × IsRun db job cluster cluster'
  unfolding start_job
  start_job-started job db jobs jobs' cluster cluster' e =
      let get : CRefVersion → Result Component =
        λ cref. get_document drivers.components (by_version cref) db.components in
      elim (Option-cases (dereference_component get fuel (inline job.workflow.component))) [
        | inl out ↦ absurd (none≢some (rw (start_job, out) at e))
        | inr (result, e₁) ↦ elim (Result-cases result) [
          | inr (x, bad) ↦ absurd (
              answers_differ (answer 500) (answer 201) (jobs, cluster) (jobs', cluster') 500 201
                refl refl (λ p. omega arith) (some-injective (rw (start_job, e₁, bad) at e)))
          | inl (cmp, fine) ↦
              let deref_job = record job { workflow = record job.workflow { component = cmp } } in
              elim (Option-cases (get_argo_workflow lib fuel deref_job)) [
                | inl out ↦ absurd (none≢some (rw (start_job, e₁, fine, out) at e))
                | inr (made, e₂) ↦ elim (Result-cases made) [
                  | inr (x, bad) ↦ absurd (
                      answers_differ (answer 500) (answer 201) (jobs, cluster) (jobs', cluster') 500
                        201 refl refl (λ p. omega arith)
                        (some-injective (rw (start_job, e₁, fine, e₂, bad) at e)))
                  | inl (awf, good) ↦
                      let named = record awf { name = lib.uid_text job.uid } in
                      let (accepted, same) =
                        created_answer-done job jobs jobs' cluster cluster'
                          (argo.create job.workflow.workspace named cluster)
                          (some-injective (rw (start_job, e₁, fine, e₂, good) at e)) in
                      (
                        same,
                        (
                          cmp,
                          awf,
                          e₁ ∙ ap some fine,
                          e₂ ∙ ap some good,
                          get_argo_workflow-IsClosed lib fuel deref_job awf (e₂ ∙ ap some good),
                          accepted,
                        ),
                      )
                ]
              ]
        ]
      ]

  -- The answer 201 is not one of the others.
  not_created :
      (r : Response Job) (s s' : List Job × A) (n : ℕ)
      → r.codes ≡ n ∷ []
      → n ≢ 201
      → ◌≡◌ {A = Option (Response Job × (List Job × A))} (some (r, s)) (some (answer 201, s'))
      → ⊥
  not_created r s s' n is differ same =
      answers_differ r (answer 201) s s' n 201 is refl differ (some-injective same)

  -- What the response 201 says of the job and of Argo.
  abbrev pub IsStarted :
      Context → ComponentReference → Time → Job → Database → A → A → List Job → Type 0
  IsStarted ctx new_uid now request db cluster cluster' jobs' =
      (check_workspace_access ctx request.workflow.workspace ≡ true)
      × ((m : Metadata) × IsNew ctx new_uid now m
          × (jobs' ≡ db.jobs ++ record request { metadata = m } ∷ [])
          × IsRun db (record request { metadata = m }) cluster cluster')

  submit_job-IsStarted :
      (ctx : Context) (new_uid : ComponentReference) (now : Time) (request : Job) (db : Database)
      (cluster cluster' : A) (jobs' : List Job)
      → IsMongo drivers.jobs
      → submit_job argo drivers lib fuel ctx new_uid now request db cluster
        ≡ some (answer 201, (jobs', cluster'))
      → IsStarted ctx new_uid now request db cluster cluster' jobs'
  unfolding submit_job
  submit_job-IsStarted ctx new_uid now request db cluster cluster' jobs' mongo e =
      elim (Result-cases (initialize_job ctx new_uid now request)) [
        | inr (x, bad) ↦ absurd (
            not_created (answer 500) (db.jobs, cluster) (jobs', cluster') 500 refl
              (λ p. omega arith) (rw (submit_job, bad) at e))
        | inl (job, e₁) ↦ elim (Result-cases (store_job drivers ctx job db.jobs)) [
          | inr (x, bad) ↦ absurd (
              not_created (answer 500) (db.jobs, cluster) (jobs', cluster') 500 refl
                (λ p. omega arith) (rw (submit_job, e₁, bad) at e))
          | inl (stored, e₂) ↦
              let (uid, jobs) = stored in
              let (fresh, same_job) = initialize_job-IsNew ctx new_uid now request job e₁ in
              let (may, added) = store_job-stored drivers ctx job db.jobs jobs uid mongo e₂ in
              let (kept, started) =
                start_job-started job db jobs jobs' cluster cluster'
                  (rw (submit_job, e₁, e₂) at e) in
              (
                subst (λ (x : Job). check_workspace_access ctx x.workflow.workspace ≡ true) same_job
                    may,
                (
                  job.metadata,
                  fresh,
                  sym kept ∙ added ∙ ap (λ x. db.jobs ++ x ∷ []) same_job,
                  subst (λ (x : Job). IsRun db x cluster cluster') same_job started,
                ),
              )
        ]
      ]

  -- A job whose submission is answered by 201 has been stored, behind the others, as the request
  -- gives it but for its metadata, which are new, under the new reference, and its user has access to
  -- the workspace of its workflow. In that workspace, under the uid of the job, Argo has created
  -- what the transpiler makes of this same job with its component resolved, and that can be run: its
  -- tasks run templates that it has.
  pub jobs_submit_handler-IsStarted :
      (ctx : Context) (new_uid : ComponentReference) (now : Time) (request : Job) (db : Database)
      (cluster cluster' : A) (jobs' : List Job)
      → IsMongo drivers.jobs
      → jobs_submit_handler argo drivers lib fuel ctx new_uid now (ok request) db cluster
        ≡ some (answer 201, (jobs', cluster'))
      → IsStarted ctx new_uid now request db cluster cluster' jobs'
  unfolding jobs_submit_handler
  jobs_submit_handler-IsStarted ctx new_uid now request db cluster cluster' jobs' mongo e =
      elim (Bool-cases (is_zero request.uid)) [
        | inr given ↦ absurd (
            not_created (answer 400) (db.jobs, cluster) (jobs', cluster') 400 refl
              (λ p. omega arith) (rw (jobs_submit_handler, given) at e))
        | inl unset ↦
            submit_job-IsStarted ctx new_uid now request db cluster cluster' jobs' mongo
              (rw (jobs_submit_handler, unset) at e)
      ]
