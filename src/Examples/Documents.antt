-- ===== src/Examples/Documents.antt =====
-- Workflows and jobs in the workspace of a user, and in one of somebody else.
use flowify_workflows_server.Workspace.{user_has_access}
use flowify_workflows_server.Common.{
  ◌∙◌, sym, ap, contains, List, In, ◌≡◌, refl, inl, inr, ℕ, [], ◌∷◌, true, some,
}
use flowify_workflows_server.Common.Int.{increment, pos}
use flowify_workflows_server.Common.Result.{ok, err, message}
use flowify_workflows_server.Models.{
  Workflow, Job, workflow_document, job_document, component_document, base,
}
use flowify_workflows_server.Models.Versions.{
  set_latest_tag, initialize_new, version_tag_latest, no_version, CRefVersion,
}
use flowify_workflows_server.Storage.Access.{Context, check_workspace_access}
use flowify_workflows_server.Storage.Versioned.{
  next_version, replace_latest_tag, update_callback, with_transaction, get_latest_version,
  get_cref_version, get_document, insert_new, by_reference,
}
use flowify_workflows_server.Storage.Documents.{
  delete_in, delete_by_kind, check_readable, Drivers, Database, create_workflow, get_workflow,
  put_workflow, create_job, get_job, delete_document, workflow_kind, component_kind, version_filter,
}
use flowify_workflows_server.Storage.Documents.Workspaces.{
  OneWorkspace, put_workflow-access, put_workflow-OneWorkspace,
}
use flowify_workflows_server.Storage.Documents.Deletion.{Removed, delete_document-workflow}
use flowify_workflows_server.Examples.{ada, lab}
use flowify_workflows_server.Examples.Database.{
  replace_first, run, first_match, in_memory, in_memory-IsMongo,
}
use flowify_workflows_server.Examples.Updates.{old, stored}

abbrev pub request : Context
request = record { user = ada; workspaces = some (lab ∷ []) }

abbrev pub drivers : Drivers
drivers = record {
  components = in_memory;
  workflows = in_memory;
  jobs = in_memory;
  set_events = λ f events js. ok js;
}

abbrev pub flow : ℕ → Workflow
flow n = record {
  metadata = (base (stored 3 (pos n) (version_tag_latest ∷ []) (pos 0))).metadata;
  component = old;
  type = "workflow";
  workspace = "lab";
}

abbrev given : Workflow
given = record (flow 1) { metadata = record (flow 1).metadata { version = no_version } }

created : create_workflow drivers request given [] ≡ ok (flow 1 ∷ [])
unfolding create_workflow check_workspace_access user_has_access contains insert_new initialize_new
created = refl

read : get_workflow drivers request (by_reference 3) (flow 1 ∷ []) ≡ ok (flow 1)
unfolding get_workflow get_document get_cref_version get_latest_version first_match run
    check_workspace_access user_has_access contains
read = refl

-- The workflow after an update: version 1 without the tag, and version 2.
abbrev renewed_flow : Workflow
renewed_flow = record {
  metadata = (base (stored 3 (pos 2) (version_tag_latest ∷ []) (pos 1))).metadata;
  component = old;
  type = "workflow";
  workspace = "lab";
}

abbrev untagged_flow : Workflow
untagged_flow = record {
  metadata = (base (stored 3 (pos 1) [] (pos 0))).metadata;
  component = old;
  type = "workflow";
  workspace = "lab";
}

abbrev flows : List Workflow
flows = untagged_flow ∷ renewed_flow ∷ []

flow_updated :
    put_workflow drivers request (flow 1) (flow 1 ∷ []) (flow 1 ∷ []) ≡ (ok renewed_flow, flows)
unfolding put_workflow get_workflow get_document get_cref_version get_latest_version first_match run
    check_workspace_access user_has_access contains with_transaction update_callback
    replace_latest_tag next_version set_latest_tag increment
flow_updated = refl

abbrev flow_twice : List Workflow
flow_twice = flow 1 ∷ flow 1 ∷ []

flow_of_twice : (a : Workflow) → In a flow_twice → a.workspace ≡ "lab"
flow_of_twice a (inl p) = ap (λ w. w.workspace) (sym p)
flow_of_twice a (inr (inl p)) = ap (λ w. w.workspace) (sym p)
flow_of_twice a (inr (inr m)) = elim m [ ]

twice-OneWorkspace : OneWorkspace flow_twice
twice-OneWorkspace a b m n same = flow_of_twice a m ∙ sym (flow_of_twice b n)

put_workflow-OneWorkspace_example : OneWorkspace (flow 1 ∷ flows)
put_workflow-OneWorkspace_example =
    put_workflow-OneWorkspace drivers in_memory-IsMongo request (flow 1) (flow 1 ∷ []) (flow 1 ∷ [])
      flows renewed_flow twice-OneWorkspace flow_updated

put_workflow-access_example :
    (check_workspace_access request "lab" ≡ true)
    × ((w : Workflow) × In w (flow 1 ∷ []) × (w.uid ≡ 3) × (w.workspace ≡ "lab"))
put_workflow-access_example =
    put_workflow-access drivers in_memory-IsMongo request (flow 1) (flow 1 ∷ []) (flow 1 ∷ []) flows
      renewed_flow flow_updated

-- An attempt to move the workflow to another workspace.
flow_moved :
    put_workflow drivers request
      (record (flow 1) { workspace = "attic" })
      (flow 1 ∷ [])
      (flow 1 ∷ [])
    ≡ (err (message "cannot move workflows from workspace"), flow 1 ∷ [])
unfolding put_workflow get_workflow get_document get_cref_version get_latest_version first_match run
    check_workspace_access user_has_access contains
flow_moved = refl

abbrev pub run_of_flow : Job
run_of_flow = record {
  metadata = (base (stored 11 (pos 1) [] (pos 0))).metadata;
  type = "job";
  input_values = [];
  workflow = flow 1;
  events = [];
}

job_created : create_job drivers request run_of_flow [] ≡ ok (run_of_flow ∷ [])
unfolding create_job check_workspace_access user_has_access contains
job_created = refl

job_read : get_job drivers request 11 (run_of_flow ∷ []) ≡ ok run_of_flow
unfolding get_job first_match check_workspace_access user_has_access contains
job_read = refl

abbrev documents : List Workflow → Database
documents ws = record { components = old ∷ []; workflows = ws; jobs = run_of_flow ∷ [] }

abbrev first_flow : CRefVersion
first_flow = record { version = pos 1; uid = 3 }

flow_deleted :
    delete_document drivers request workflow_kind first_flow (documents flows)
    ≡ (ok first_flow, documents (renewed_flow ∷ []))
unfolding delete_document check_readable get_workflow get_document get_cref_version first_match
    check_workspace_access user_has_access contains delete_by_kind delete_in replace_first
flow_deleted = refl

delete_document-workflow_example :
    ((w : Workflow) × In w flows
      × (w.uid ≡ 3)
      × (check_workspace_access request w.workspace ≡ true))
    × Removed (version_filter first_flow) flows (renewed_flow ∷ [])
    × (old ∷ [] ≡ old ∷ [])
    × (run_of_flow ∷ [] ≡ run_of_flow ∷ [])
delete_document-workflow_example =
    delete_document-workflow drivers request first_flow first_flow (documents flows)
      (documents (renewed_flow ∷ [])) in_memory-IsMongo flow_deleted

component_missing :
    delete_document drivers request component_kind first_flow (documents flows)
    ≡ (err (message "document not found"), documents flows)
unfolding delete_document check_readable delete_by_kind delete_in replace_first
component_missing = refl
