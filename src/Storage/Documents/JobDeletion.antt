-- ===== src/Storage/Documents/JobDeletion.antt =====
-- storage/mongo.go: the deletion of a job, which has no versions.
use flowify_workflows_server.Common.{
  List, [], ◌∷◌, ◌++◌, nat_eq, nat_beq_iff, true, In, ◌≡◌, sym, ap, inl, inr, arith,
}
use flowify_workflows_server.Common.Result.{ok, Result-cases, >>=-eq-ok, wrap, wrap-eq-ok, ok≢err}
use flowify_workflows_server.Models.{Job, job_document}
use flowify_workflows_server.Models.Versions.{ComponentReference, CRefVersion}
use flowify_workflows_server.Storage.Access.{Context, check_workspace_access}
use flowify_workflows_server.Storage.Driver.{uid_is, IsMongo}
use flowify_workflows_server.Storage.Documents.{
  Database, Drivers, job_kind, get_job, check_readable, delete_by_kind, delete_document, delete_in,
}
use flowify_workflows_server.Storage.Documents.Checks.{get_job-access}
use flowify_workflows_server.Storage.Documents.Deletion.{delete_in-ok}

-- One job with the uid is not there any more, and nothing else has changed. The user has access to
-- the workspace of a stored job with that uid.
abbrev pub IsGone : Context → ComponentReference → Database → Database → Type 0
IsGone ctx uid db db' =
    ((j : Job) × In j db.jobs
      × (j.uid ≡ uid)
      × (check_workspace_access ctx j.workflow.workspace ≡ true))
    × ((before : List Job) × (gone : Job) × (after : List Job) × (db.jobs ≡ before ++ gone ∷ after)
        × (gone.uid ≡ uid)
        × (db'.jobs ≡ before ++ after))
    × (db'.components ≡ db.components)
    × (db'.workflows ≡ db.workflows)

check_readable_job :
    (drivers : Drivers) (ctx : Context) (id : CRefVersion) (db : Database)
    → check_readable drivers ctx job_kind id db ≡ ok tt
    → (j : Job) × (get_job drivers ctx id.uid db.jobs ≡ ok j)
unfolding check_readable
check_readable_job drivers ctx id db e =
    let (j, read, _) =
      >>=-eq-ok
        (wrap "could not access job from storage or document not found"
          (get_job drivers ctx id.uid db.jobs))
        _ e in
    (j, wrap-eq-ok _ _ read)

pub delete_document-IsGone :
    (drivers : Drivers) (ctx : Context) (id r : CRefVersion) (db db' : Database)
    → IsMongo drivers.jobs
    → delete_document drivers ctx job_kind id db ≡ (ok r, db')
    → (id ≡ r) × IsGone ctx id.uid db db'
unfolding delete_document delete_by_kind
delete_document-IsGone drivers ctx id r db db' mongo e =
    elim (Result-cases (check_readable drivers ctx job_kind id db)) [
      | inr (e', refused) ↦
          absurd (ok≢err (sym (ap (λ x. x.0) (rw (delete_document, refused) at e))))
      | inl (_, readable) ↦
          let (j, read) = check_readable_job drivers ctx id db readable in
          let (m, at, may) = get_job-access drivers ctx id.uid db.jobs j mongo read in
          let t = delete_in drivers.jobs id (uid_is id.uid ∷ []) db.jobs in
          let e' : (t.0, record db { jobs = t.1 }) ≡ (ok r, db') =
            rw (delete_document, readable) at e in
          let (same, removed) =
            delete_in-ok drivers.jobs mongo id r (uid_is id.uid ∷ []) db.jobs db'.jobs
              (ap (λ x. (x.0, x.1.jobs)) e') in
          let selected = removed.selected in
          (
            same,
            (
              (j, m, at, may),
              (
                removed.before,
                removed.gone,
                removed.after,
                removed.was,
                ground (arith, nat_beq_iff removed.gone.uid id.uid),
                removed.is,
              ),
              ap (λ x. x.1.components) (sym e'),
              ap (λ x. x.1.workflows) (sym e'),
            ),
          )
    ]
