-- ===== src/Transpiler/Templates.antt =====
-- transpiler/transpiler.go: the template of Argo for each kind of component, `AddBrick`, `AddGraph`,
-- `AddMap` and `AddConditional`. Each returns the template that the code appends.
use flowify_workflows_server.Common.{
  String, List, [], ◌∷◌, map as map_list, Option, none, some, ◌==◌, string_eq, nat_eq,
  if◌then◌else◌,
}
use flowify_workflows_server.Common.Result.{Result, ok, err, wrap, ◌>>=◌}
use flowify_workflows_server.Models.{
  Component, base, NodeContent, Nodes, end, node, Edge, Brick, BrickResult, text, file, volume,
  Expression,
}
use flowify_workflows_server.Transpiler.{Map}
use flowify_workflows_server.Transpiler.Arguments.{
  get_container_args, get_container_volumes, expression_to_string,
}
use flowify_workflows_server.Transpiler.Tasks.{
  TaskInputs, no_inputs, is_some, map_outputs, add_mappings, node_component, node_task,
  false_component,
}
use flowify_workflows_server.Transpiler.Argo.{
  from_path, from_parameter, from_expression, Parameter, Artifact, Ports, Task, run, dag, Template,
  Library, nil_dereference, task_parameter, task_artifact, artifact_path, negated, chosen_output,
}

-- The first item with the name is changed: the loop breaks there.
unfoldable pub set_path : String → String → List Artifact → List Artifact
set_path port path [] = []
set_path port path (a ∷ artifacts) =
    let rest = a ∷ set_path port path artifacts in
    if a.name == port then record a { path = path } ∷ artifacts else rest

unfoldable pub set_value_path : String → String → List Parameter → List Parameter
set_value_path port path [] = []
set_value_path port path (p ∷ parameters) =
    let rest = p ∷ set_value_path port path parameters in
    if p.name == port then record p { value_from = some (from_path path) } ∷ parameters else rest

-- The loop over the results: those that are files.
unfoldable pub brick_outputs : List BrickResult → Ports → Ports
unfolding set_path set_value_path
brick_outputs [] outputs = outputs
brick_outputs (r ∷ results) outputs = brick_outputs results (elim r.source [
  | file path ↦ record {
    artifacts = set_path r.target.port path outputs.artifacts;
    parameters = set_value_path r.target.port path outputs.parameters;
  }
  | text t ↦ outputs
  | volume v ↦ outputs
])

abbrev pub with_paths : List Artifact → List Artifact
with_paths artifacts =
    map_list (λ (a : Artifact). record a { path = artifact_path a.name }) artifacts

abbrev pub container_of : Option String → Result String
container_of none = err nil_dereference
container_of (some c) = ok c

abbrev pub map_node : String
map_node = "mapnode"

module _ {V : Type 0} (lib : Library V) where
  unfoldable pub add_brick :
      String → Brick → (outputs inputs : Ports) → Map String → Map V → Result Template
  unfolding get_container_volumes get_container_args brick_outputs
  add_brick name cmp outputs inputs s_map volumes = do
    mounts ←
        wrap "Cannot add brick"
          (get_container_volumes lib.volume_name lib.join_path volumes cmp.args)
    container ← container_of cmp.container
    args ← wrap "Cannot add brick" (get_container_args cmp.args)
    ok (record {
      name = name;
      body = run (record { container = container; args = args; env = s_map; mounts = mounts });
      inputs = record inputs { artifacts = with_paths inputs.artifacts };
      outputs = brick_outputs cmp.results outputs;
    })

  unfoldable pub graph_tasks :
      Ports → (edges input_mappings : List Edge) → Nodes → Result (List Task)
  unfolding node_task
  graph_tasks inputs edges input_mappings end = ok []
  graph_tasks inputs edges input_mappings (node id content userdata rest) =
      node_component content >>= λ cmp. node_task lib inputs edges input_mappings id cmp >>= λ task.
      graph_tasks inputs edges input_mappings rest >>= λ tasks. ok (task ∷ tasks)

  unfoldable pub add_graph :
      String
      → Nodes
      → (edges input_mappings output_mappings : List Edge) → (outputs inputs : Ports)
      → Result Template
  unfolding graph_tasks map_outputs
  add_graph name nodes edges input_mappings output_mappings outputs inputs =
      graph_tasks inputs edges input_mappings nodes >>= λ tasks. ok (record {
        name = name;
        body = dag tasks;
        inputs = inputs;
        outputs =
            map_outputs (λ m. from_parameter (task_parameter m.source.node m.source.port))
              (λ m a. record a { from = task_artifact m.source.node m.source.port }) output_mappings
              outputs;
      })

  unfoldable pub add_map :
      String
      → NodeContent
      → (input_mappings output_mappings : List Edge) → (outputs inputs : Ports) → Result Template
  unfolding add_mappings map_outputs
  add_map name content input_mappings output_mappings outputs inputs = do
    cmp ← node_component content
    t ← add_mappings lib inputs (base cmp).inputs input_mappings no_inputs
    ok (record {
      name = name;
      body = dag (
          record {
            name = map_node;
            template = lib.uid_text (base cmp).uid;
            dependencies = [];
            arguments = record { parameters = t.parameters; artifacts = t.artifacts };
            with_param = t.with_param;
            condition = "";
          }
          ∷ []);
      inputs = inputs;
      outputs =
          map_outputs (λ m. from_parameter (task_parameter map_node m.source.port))
            (λ m a. record a { from = task_artifact map_node m.source.port }) output_mappings
            outputs;
    })

  -- The task of one of the nodes of a conditional.
  abbrev pub choice_task : String → Component → TaskInputs → String → Task
  choice_task name cmp t condition = record {
    name = name;
    template = lib.uid_text (base cmp).uid;
    dependencies = [];
    arguments = record { parameters = t.parameters; artifacts = t.artifacts };
    with_param = t.with_param;
    condition = condition;
  }

  abbrev pub false_task : Option Component → TaskInputs → String → List Task
  false_task none t expression = []
  false_task (some cmp) t expression = choice_task "nodeFalse" cmp t (negated expression) ∷ []

  unfoldable pub add_conditional :
      String
      → Expression
      → (node_true node_false : NodeContent) → (input_mappings output_mappings : List Edge)
      → (outputs inputs : Ports) → Result Template
  unfolding false_component add_mappings map_outputs
  add_conditional name expression node_true node_false input_mappings output_mappings outputs
        inputs =
      do
        yes_node ← node_component node_true
        no_node ← false_component yes_node node_false
        t ← add_mappings lib inputs (base yes_node).inputs input_mappings no_inputs
        let text = expression_to_string expression
        let has_false = is_some no_node
        ok (record {
          name = name;
          body = dag (choice_task "nodeTrue" yes_node t text ∷ false_task no_node t text);
          inputs = inputs;
          outputs =
              map_outputs
                (λ m. from_expression (chosen_output text has_false "parameters" m.source.port))
                (λ m a. record a {
                  from_expression = chosen_output text has_false "artifacts" m.source.port;
                })
                output_mappings outputs;
        })
