-- ===== src/Examples/Requests.antt =====
-- Requests for components, workflows and jobs.
use flowify_workflows_server.Storage.Driver.{uid_is}
use flowify_workflows_server.Storage.References.{dref_node}
use flowify_workflows_server.Workspace.{user_has_access}
use flowify_workflows_server.Storage.Access.{check_workspace_access}
use flowify_workflows_server.Storage.Versioned.{get_latest_version, patch_callback}
use flowify_workflows_server.Common.{
  ◌++◌, ◌↔◌, contains, ℕ, suc, String, true, false, List, [], ◌∷◌, ◌≡◌, refl, arith, ◌==◌,
  string_eq, none, some, if◌then◌else◌,
}
use flowify_workflows_server.Common.Result.{Result, ok, err, message}
use flowify_workflows_server.Models.{
  Component, Job, component_document, workflow_document, job_document, set_base,
}
use flowify_workflows_server.Models.Versions.{initialize_new, ComponentReference}
use flowify_workflows_server.Storage.Documents.{
  delete_in, delete_by_kind, get_job, check_readable, Database,
}
use flowify_workflows_server.Rest.Requests.{answer, answer_with, Route, Parsers}
use flowify_workflows_server.Rest.Components.{
  touched_component, component_patch_handler, component_create_handler,
}
use flowify_workflows_server.Rest.Components.Patches.{component_patch_handler-lost_update}
use flowify_workflows_server.Rest.Components.Creation.{
  IsCreation, component_create_handler-IsCreation,
}
use flowify_workflows_server.Rest.Workflows.{workflow_post_handler, workflow_patch_handler}
use flowify_workflows_server.Rest.Workflows.Patches.{IsPatch, workflow_patch_handler-IsPatch}
use flowify_workflows_server.Rest.Jobs.{ArgoClient, done, job_delete_handler, jobs_submit_handler}
use flowify_workflows_server.Rest.Jobs.Submission.{IsStarted, jobs_submit_handler-IsStarted}
use flowify_workflows_server.Rest.Jobs.Deletion.{IsAnswered, job_delete_handler-IsAnswered}
use flowify_workflows_server.Rest.Jobs.Events.{
  Watched, workflow, Completes, event_saver, event_saver-completed, watched, context_done,
  start_event_loop,
}
use flowify_workflows_server.Examples.Database.{
  replace_first, first_match, run, in_memory, in_memory-IsMongo,
}
use flowify_workflows_server.Examples.Updates.{store, other_step, store-HasDistinctKeys}
use flowify_workflows_server.Examples.Patches.{described}
use flowify_workflows_server.Examples.Documents.{request, drivers, flow, run_of_flow}
use flowify_workflows_server.Examples.Submission.{
  library, pipeline_job, metadata_of, step_component,
}

abbrev uid_of_text : String → Result ComponentReference
uid_of_text text =
    if text == "seven"
    then ok 7
    else if text == "eleven"
    then ok 11
    else if text == "three"
    then ok 3
    else err (message "invalid UUID")

abbrev parsers : Parsers
parsers = record { parse_uuid = uid_of_text; atoi = λ text. err (message "invalid syntax") }

abbrev route_of : String → Route
route_of text = record { id = some text; version = none }

-- Two patches from the time stamp 5, at the times 6 and 7.
abbrev first_answer : Component
first_answer = touched_component request 6 (described "first" 5)

abbrev second_answer : Component
second_answer = touched_component request 7 (described "second" 5)

component_patched :
    component_patch_handler in_memory parsers request 6
      (route_of "seven")
      (ok (described "first" 5))
      store
    ≡ (answer_with 200 first_answer, first_answer ∷ other_step ∷ [])
unfolding component_patch_handler patch_callback get_latest_version run first_match replace_first
component_patched = refl

component_conflict :
    component_patch_handler in_memory parsers request 7
      (route_of "seven")
      (ok (described "second" 5))
      (first_answer ∷ other_step ∷ [])
    ≡ (answer 409, first_answer ∷ other_step ∷ [])
unfolding component_patch_handler patch_callback get_latest_version run first_match
component_conflict = refl

component_patch_handler-lost_update_example : ¬ (
    component_patch_handler in_memory parsers request 7
      (route_of "seven")
      (ok (described "second" 5))
      (first_answer ∷ other_step ∷ [])
    ≡ (answer_with 200 second_answer, second_answer ∷ other_step ∷ []))
component_patch_handler-lost_update_example =
    component_patch_handler-lost_update in_memory in_memory-IsMongo parsers request request 6 7
      (route_of "seven") (route_of "seven") (described "first" 5) (described "second" 5)
      first_answer second_answer store (first_answer ∷ other_step ∷ [])
      (second_answer ∷ other_step ∷ []) store-HasDistinctKeys component_patched (λ p. omega arith)
      (refl, refl) refl

abbrev new_step : Component
new_step = set_base (metadata_of 0) step_component

component_create_handler-IsCreation_example :
    IsCreation in_memory in_memory-IsMongo parsers request 5 30
      (ok new_step)
      store
      (component_create_handler in_memory parsers request 5 30 (ok new_step) store)
component_create_handler-IsCreation_example =
    component_create_handler-IsCreation in_memory in_memory-IsMongo parsers request 5 30
      (ok new_step) store

-- A workflow with a uid is not initialized: the handler answers twice.
workflow_refused :
    workflow_post_handler drivers parsers request 5 30 (ok (flow 1)) []
    ≡ (record { codes = 400 ∷ 500 ∷ []; body = none }, [])
unfolding workflow_post_handler
workflow_refused = refl

workflow_patch_handler-IsPatch_example :
    IsPatch drivers in_memory-IsMongo parsers request 9
      (route_of "three")
      (ok (flow 1))
      (flow 1 ∷ [])
      (workflow_patch_handler drivers parsers request 9
        (route_of "three")
        (ok (flow 1))
        (flow 1 ∷ []))
workflow_patch_handler-IsPatch_example =
    workflow_patch_handler-IsPatch drivers in_memory-IsMongo parsers request 9 (route_of "three")
      (ok (flow 1)) (flow 1 ∷ [])

-- The state of Argo is the number of the jobs here, each of which is finished.
abbrev argo : ArgoClient ℕ String
argo = record {
  list_workflows =
      λ id n. ok (record { namespace = "lab"; finished = true; phase = "Succeeded" } ∷ []);
  get = λ ws id n. ok (record { namespace = ws; finished = true; phase = "Succeeded" });
  create = λ ws awf n. done (suc n);
  delete = λ dry ws id n. ok (if dry then n else 0);
  terminate = λ ws id n. err (message "already stopped");
}

abbrev no_documents : Database
no_documents = record { components = []; workflows = []; jobs = [] }

abbrev new_job : Job
new_job = record pipeline_job { metadata = metadata_of 0 }

abbrev submitted : List Job
submitted =
    record pipeline_job {
      metadata = record (metadata_of 31) {
        modified_by = record { oid = request.user.uid; email = request.user.email };
      };
    }
    ∷ []

job_submitted :
    jobs_submit_handler argo drivers library 3 request 31 5 (ok new_job) no_documents 0
    ≡ some (answer 201, (submitted, 1))
unfolding jobs_submit_handler initialize_new check_workspace_access user_has_access dref_node
job_submitted = refl

jobs_submit_handler-IsStarted_example :
    IsStarted argo drivers library 3 request 31 5 new_job no_documents 0 1 submitted
jobs_submit_handler-IsStarted_example =
    jobs_submit_handler-IsStarted argo drivers library 3 request 31 5 new_job no_documents 0 1
      submitted in_memory-IsMongo job_submitted

abbrev one_job : Database
one_job = record no_documents { jobs = run_of_flow ∷ [] }

job_deleted :
    job_delete_handler argo parsers drivers request (route_of "eleven") one_job 1
    ≡ (answer_with 200 11, (no_documents, 0))
unfolding job_delete_handler check_readable get_job first_match check_workspace_access
    user_has_access contains delete_by_kind delete_in replace_first
job_deleted = refl

job_delete_handler-IsAnswered_example :
    IsAnswered argo drivers request in_memory-IsMongo in_memory-IsMongo in_memory-IsMongo parsers
      (route_of "eleven")
      one_job
      1
      (job_delete_handler argo parsers drivers request (route_of "eleven") one_job 1)
job_delete_handler-IsAnswered_example =
    job_delete_handler-IsAnswered argo drivers request in_memory-IsMongo in_memory-IsMongo
      in_memory-IsMongo parsers (route_of "eleven") one_job 1

abbrev two_states : List Watched
two_states = workflow "running" false ∷ workflow "succeeded" true ∷ []

event_saver-completed_example :
    (event_saver drivers 11 two_states (run_of_flow ∷ [])
      ≡ some
          (drivers.set_events (uid_is 11 ∷ []) ("running" ∷ "succeeded" ∷ []) (run_of_flow ∷ [])))
    ↔ ((texts : List String) × (last : String) × (rest : List Watched) × Completes two_states texts
          last rest
        × (drivers.set_events (uid_is 11 ∷ []) ("running" ∷ "succeeded" ∷ []) (run_of_flow ∷ [])
            ≡ drivers.set_events (uid_is 11 ∷ []) (texts ++ last ∷ []) (run_of_flow ∷ [])))
event_saver-completed_example =
    event_saver-completed drivers 11 two_states (run_of_flow ∷ [])
      (drivers.set_events (uid_is 11 ∷ []) ("running" ∷ "succeeded" ∷ []) (run_of_flow ∷ []))

-- A client that leaves does not end the loop that saves.
left_early :
    start_event_loop
      (λ text. ok tt)
      (watched (workflow "running" false) ∷ context_done ∷ watched (workflow "succeeded" true) ∷ [])
    ≡ some ("running" ∷ [], ok tt)
unfolding start_event_loop
left_early = refl
