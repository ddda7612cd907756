-- ===== src/Examples/Submission.antt =====
-- A job of a graph of two nodes with one component, which takes a secret and a parameter.
use flowify_workflows_server.Common.{
  ◌++◌, ℕ, String, List, [], ◌∷◌, map, Option, none, some, All, Any, In, ◌≡◌, refl, inl, inr, ◌<◌,
  arith, ◌==◌, string_eq, nat_eq, if◌then◌else◌,
}
use mathlib.Core.Path.{subst}
use flowify_workflows_server.Common.Int.{pos}
use flowify_workflows_server.Common.Result.{ok, err, Ended, Run}
use flowify_workflows_server.Models.{
  Component, component, base, brick, graph, inline, Nodes, end, node, Edge, Data, file, text,
  Metadata, Job, Value,
}
use flowify_workflows_server.Storage.Versioned.Tags.{latest_only}
use flowify_workflows_server.Transpiler.{Map, empty, insert}
use flowify_workflows_server.Transpiler.Argo.{
  Parameter, Artifact, Template, ArgoWorkflow, Library, new_parameter,
}
use flowify_workflows_server.Transpiler.Traverse.Secrets.{HasEnvironment}
use flowify_workflows_server.Transpiler.Traverse.Ends.{IsLayered}
use flowify_workflows_server.Transpiler.Submission.{
  get_argo_workflow, secret_values, remove_duplicated_templates,
}
use flowify_workflows_server.Transpiler.Submission.Templates.{
  remove_duplicated_templates_lem, find_template, AreDistinct, IsRunnable,
  get_argo_workflow-IsClosed,
}
use flowify_workflows_server.Transpiler.Submission.Ends.{get_argo_workflow-Ended}
use flowify_workflows_server.Transpiler.Submission.Environment.{
  IsJobSecret, get_argo_workflow-environment,
}
use flowify_workflows_server.Transpiler.Submission.Values.{
  Holds, GivenBy, IsSecret, secret_values_lem,
}
use flowify_workflows_server.Examples.Transpiler.{edge}
use flowify_workflows_server.Examples.Updates.{stored}
use flowify_workflows_server.Examples.Documents.{flow}

abbrev first_parameter : List Parameter → String → Option Parameter
first_parameter [] name = none
first_parameter (p ∷ ps) name =
    let rest = first_parameter ps name in if p.name == name then some p else rest

abbrev first_artifact : List Artifact → String → Option Artifact
first_artifact [] name = none
first_artifact (a ∷ artifacts) name =
    let rest = first_artifact artifacts name in if a.name == name then some a else rest

-- Volumes are their names here.
abbrev pub library : Library String
library = record {
  uid_text = λ u. if u == 20 then "pipeline" else "step";
  get_parameter_by_name = first_parameter;
  get_artifact_by_name = first_artifact;
  volume_name = λ v. v;
  join_path = λ prefix p suffix. prefix;
  decode_volume = λ config. ok config;
}

abbrev data_of : String → String → Data
data_of name type = record { name = name; mediatype = []; type = type; userdata = "" }

abbrev pub metadata_of : ℕ → Metadata
metadata_of u = (base (stored u (pos 1) latest_only (pos 0))).metadata

abbrev pub step_component : Component
step_component =
    component
      (record {
        metadata = metadata_of 21;
        inputs = data_of "n" "parameter" ∷ data_of "token" "env_secret" ∷ [];
        outputs = data_of "out" "parameter" ∷ [];
        type = "component";
      })
      (brick (record {
        container = some "alpine";
        args = [];
        results =
            record {
              description = "";
              target = record { node = ""; port = "out" };
              source = file "/out";
            }
            ∷ [];
      }))

abbrev pipeline_nodes : Nodes
pipeline_nodes =
    node "first" (inline step_component) "" (node "second" (inline step_component) "" end)

abbrev pipeline_edges : List Edge
pipeline_edges = edge "first" "out" "second" "n" ∷ []

abbrev pipeline_inputs : List Data
pipeline_inputs = data_of "count" "parameter" ∷ data_of "key" "env_secret" ∷ []

abbrev pipeline : Component
pipeline =
    component
      (record {
        metadata = metadata_of 20;
        inputs = pipeline_inputs;
        outputs = [];
        type = "component";
      })
      (graph pipeline_nodes pipeline_edges
        (edge "" "count" "first" "n"
          ∷ edge "" "key" "first" "token"
          ∷ edge "" "key" "second" "token"
          ∷ [])
        [])

abbrev pipeline_values : List Value
pipeline_values =
    record { value = text "3"; target = "count" }
    ∷ record { value = text "vault-key"; target = "key" }
    ∷ []

abbrev pub pipeline_job : Job
pipeline_job = record {
  metadata = metadata_of 22;
  type = "job";
  input_values = pipeline_values;
  workflow = record (flow 1) { component = pipeline };
  events = [];
}

abbrev nothing_made : ArgoWorkflow String
nothing_made = record {
  name = "";
  namespace = "";
  entrypoint = "";
  arguments = [];
  templates = [];
  volumes = empty;
}

abbrev workflow_of : Run (ArgoWorkflow String) → ArgoWorkflow String
workflow_of (some (ok awf)) = awf
workflow_of (some (err e)) = nothing_made
workflow_of none = nothing_made

abbrev pipeline_workflow : ArgoWorkflow String
unfolding get_argo_workflow
pipeline_workflow = workflow_of (get_argo_workflow library 2 pipeline_job)

pipeline_made : get_argo_workflow library 2 pipeline_job ≡ some (ok pipeline_workflow)
unfolding get_argo_workflow
pipeline_made = refl

-- The template of the step is made for each node and kept once.
pipeline_templates :
    map (λ (t : Template). t.name) pipeline_workflow.templates ≡ "pipeline" ∷ "step" ∷ []
unfolding get_argo_workflow
pipeline_templates = refl

pipeline_arguments : pipeline_workflow.arguments ≡ new_parameter "count" (some "3") ∷ []
unfolding get_argo_workflow
pipeline_arguments = refl

get_argo_workflow-IsClosed_example : IsRunnable pipeline_workflow
get_argo_workflow-IsClosed_example =
    get_argo_workflow-IsClosed library 2 pipeline_job pipeline_workflow pipeline_made

get_argo_workflow-environment_example :
    All
      (λ (t : Template). HasEnvironment (IsJobSecret pipeline_job) t.body)
      pipeline_workflow.templates
get_argo_workflow-environment_example =
    get_argo_workflow-environment library 2 pipeline_job pipeline_workflow pipeline_made

abbrev step_place : String → ℕ
step_place id = if id == "first" then 0 else 1

places_rise : (e : Edge) → In e pipeline_edges → step_place e.source.node < step_place e.target.node
places_rise e (inl same) =
    subst (λ x. step_place x.source.node < step_place x.target.node) same (omega arith)
places_rise e (inr m) = elim m [ ]

places_below : (id : String) → step_place id < 2
places_below id = ground arith

pipeline-IsLayered : IsLayered 2 pipeline
unfolding IsLayered
pipeline-IsLayered = ((step_place, places_rise, places_below), (tt, (tt, tt)))

get_argo_workflow-Ended_example : Ended (get_argo_workflow library 2 pipeline_job)
get_argo_workflow-Ended_example = get_argo_workflow-Ended library 2 pipeline_job pipeline-IsLayered

abbrev pipeline_secrets : Map String
pipeline_secrets = insert "key" "vault-key" empty

secrets_found : secret_values pipeline_inputs pipeline_values empty ≡ ok pipeline_secrets
unfolding secret_values
secrets_found = refl

secret_values_lem_example :
    All
      (λ (i : Data). i.type ≡ "env_secret" → Holds pipeline_values pipeline_secrets i.name)
      pipeline_inputs
    × ((key s : String)
        → pipeline_secrets key ≡ some s
        → GivenBy pipeline_values key s × Any (IsSecret key) pipeline_inputs)
secret_values_lem_example =
    secret_values_lem pipeline_inputs pipeline_values pipeline_secrets secrets_found

abbrev repeated : List Template
unfolding get_argo_workflow
repeated = pipeline_workflow.templates ++ pipeline_workflow.templates

remove_duplicated_templates_lem_example :
    AreDistinct (remove_duplicated_templates repeated)
    × ((name : String)
        → find_template (remove_duplicated_templates repeated) name ≡ find_template repeated name)
remove_duplicated_templates_lem_example = remove_duplicated_templates_lem repeated
