-- ===== src/Transpiler/Tasks.antt =====
-- transpiler/transpiler.go: the inputs of the tasks of a graph, a map or a conditional, from the
-- mappings and the edges, and the outputs of their templates.
use flowify_workflows_server.Common.{
  Bool, true, false, not, ◌&&◌, ◌||◌, String, List, [], ◌∷◌, ◌++◌, map as map_list, length, Option,
  none, some, ◌==◌, string_eq, nat_eq, if◌then◌else◌,
}
use flowify_workflows_server.Common.Result.{Result, ok, err, message, fail_if, ◌>>=◌, ◌>>◌}
use flowify_workflows_server.Models.{
  Component, base, implementation, Implementation, no_implementation, any, brick, graph, map,
  conditional, NodeContent, unset, inline, reference, versioned, Edge, Data,
}
use flowify_workflows_server.Transpiler.{check_input_type, get_dependencies}
use flowify_workflows_server.Transpiler.Argo.{
  ValueFrom, Parameter, Artifact, new_parameter, new_artifact, Ports, Task, Library,
  nil_dereference, item, input_parameter, input_artifact, task_parameter, task_artifact,
}

-- The text of `it, _ := checkInputType(...)`: empty where no input has the name.
abbrev pub type_or_empty : Option String → String
type_or_empty none = ""
type_or_empty (some t) = t

-- What the loops over mappings and edges gather for a task.
pub record TaskInputs : Type 0 where
  pub parameters : List Parameter
  pub artifacts : List Artifact
  pub with_param : String

abbrev pub no_inputs : TaskInputs
no_inputs = record { parameters = []; artifacts = []; with_param = "" }

abbrev pub with_parameter : String → String → TaskInputs → TaskInputs
with_parameter name value t = record t {
  parameters = t.parameters ++ new_parameter name (some value) ∷ [];
}

abbrev pub with_artifact : String → String → TaskInputs → TaskInputs
with_artifact name from t = record t { artifacts = t.artifacts ++ new_artifact name from ∷ [] }

-- `p1.Value != nil`: the port may be that of an artifact, and then there is no `p1`.
abbrev pub map_parameter : Option Parameter → Edge → TaskInputs → Result TaskInputs
map_parameter none m t = err nil_dereference
map_parameter (some p) m t = elim p.value [
  | some _ ↦
      ok (
        with_parameter m.target.port item (record t { with_param = input_parameter m.source.port }))
  | none ↦ ok (with_parameter m.target.port (input_parameter m.source.port) t)
]

abbrev pub is_some {ℓ} : {A : Type ℓ} → Option A → Bool
is_some none = false
is_some (some a) = true

-- The outputs with the name of the target of a mapping are set.
unfoldable pub map_outputs :
    (from_task : Edge → ValueFrom) (with_source : Edge → Artifact → Artifact)
    → List Edge
    → Ports
    → Ports
map_outputs from_task with_source [] outputs = outputs
map_outputs from_task with_source (m ∷ mappings) outputs =
    map_outputs from_task with_source mappings (record {
      parameters =
          map_list
            (λ (p : Parameter).
              if m.target.port == p.name then record p { value_from = some (from_task m) } else p)
            outputs.parameters;
      artifacts =
          map_list (λ (a : Artifact). if m.target.port == a.name then with_source m a else a)
            outputs.artifacts;
    })

module _ {V : Type 0} (lib : Library V) where
  -- One input mapping, where its source is an input of the template, by the type of the input of
  -- the component in the node.
  unfoldable pub add_mapping : Ports → List Data → Edge → TaskInputs → Result TaskInputs
  unfolding check_input_type
  add_mapping inputs cmp_inputs m t =
      let p1 = lib.get_parameter_by_name inputs.parameters m.source.port in
      let a1 = lib.get_artifact_by_name inputs.artifacts m.source.port in
      let it = type_or_empty (check_input_type cmp_inputs m.target.port) in
      if not (is_some p1 || is_some a1)
      then ok t
      else if it == "artifact"
      then ok (with_artifact m.target.port (input_artifact m.source.port) t)
      else if it == "parameter"
      then map_parameter p1 m t
      else if it == "parameter_array"
      then ok (with_parameter m.target.port (input_parameter m.source.port) t)
      else err (message "Unrecognized input mapping target type")

  -- The loop over the input mappings of a map or a conditional.
  unfoldable pub add_mappings : Ports → List Data → List Edge → TaskInputs → Result TaskInputs
  unfolding add_mapping
  add_mappings inputs cmp_inputs [] t = ok t
  add_mappings inputs cmp_inputs (m ∷ mappings) t =
      add_mapping inputs cmp_inputs m t >>= add_mappings inputs cmp_inputs mappings

  -- The same loop in a graph: the mappings to one node.
  unfoldable pub add_node_mappings :
      String → Ports → List Data → List Edge → TaskInputs → Result TaskInputs
  unfolding add_mapping
  add_node_mappings n inputs cmp_inputs [] t = ok t
  add_node_mappings n inputs cmp_inputs (m ∷ mappings) t =
      (if m.target.node == n then add_mapping inputs cmp_inputs m t else ok t)
      >>= add_node_mappings n inputs cmp_inputs mappings

-- An array at an edge, by the implementation: for a conditional, the code makes an error and
-- drops it.
abbrev pub add_array : Implementation → Edge → TaskInputs → TaskInputs
add_array (graph ns es is os) e t =
    with_parameter e.target.port (task_parameter e.source.node e.source.port) t
add_array (map c is os) e t =
    with_parameter e.target.port (task_parameter e.source.node e.source.port) t
add_array (brick k) e t =
    with_parameter e.target.port item
      (record t { with_param = task_parameter e.source.node e.source.port })
add_array (conditional x c d is os) e t = t
add_array any e t = t
add_array no_implementation e t = t

unfoldable pub add_edge : Component → Edge → TaskInputs → Result TaskInputs
unfolding check_input_type
add_edge cmp e t =
    let it = type_or_empty (check_input_type (base cmp).inputs e.target.port) in
    if it == "artifact"
    then ok (with_artifact e.target.port (task_artifact e.source.node e.source.port) t)
    else if it == "parameter"
    then ok (with_parameter e.target.port (task_parameter e.source.node e.source.port) t)
    else if it == "parameter_array"
    then ok (add_array (implementation cmp) e t)
    else if it == "volume"
    then ok t
    else err (message "Unrecognized edge target-type")

unfoldable pub add_edges : String → Component → List Edge → TaskInputs → Result TaskInputs
unfolding add_edge
add_edges n cmp [] t = ok t
add_edges n cmp (e ∷ edges) t =
    (if e.target.node == n then add_edge cmp e t else ok t) >>= add_edges n cmp edges

abbrev pub node_component : NodeContent → Result Component
node_component (inline cmp) = ok cmp
node_component unset = err (message "Cannot unmarshal node")
node_component (reference uid) = err (message "Cannot unmarshal node")
node_component (versioned cref) = err (message "Cannot unmarshal node")

module _ {V : Type 0} (lib : Library V) where
  -- The body of the loop over the nodes of a graph.
  unfoldable pub node_task :
      Ports → (edges input_mappings : List Edge) → String → Component → Result Task
  unfolding add_node_mappings add_edges get_dependencies
  node_task inputs edges input_mappings n cmp = do
    mapped ← add_node_mappings lib n inputs (base cmp).inputs input_mappings no_inputs
    t ← add_edges n cmp edges mapped
    ok (record {
      name = n;
      template = lib.uid_text (base cmp).uid;
      dependencies = get_dependencies edges n;
      arguments = record { parameters = t.parameters; artifacts = t.artifacts };
      with_param = t.with_param;
      condition = "";
    })

-- `getInput` and `getOutput`: whether there is a port with the name and the type.
unfoldable pub has_port : List Data → Data → Bool
has_port [] d = false
has_port (p ∷ ports) d = (p.name == d.name) && (p.type == d.type) || has_port ports d

-- The loops that look for the ports of the true node in the false node.
unfoldable pub has_ports : List Data → List Data → Bool
unfolding has_port
has_ports ports [] = true
has_ports ports (d ∷ wanted) = has_port ports d && has_ports ports wanted

-- The node for false, if there is one, with the ports of the node for true.
unfoldable pub false_component : Component → NodeContent → Result (Option Component)
unfolding has_ports
false_component yes_node unset = ok none
false_component yes_node (reference uid) = err (message "Cannot unmarshal conditional false node")
false_component yes_node (versioned cref) = err (message "Cannot unmarshal conditional false node")
false_component yes_node (inline no_node) = do
  fail_if
      (not (
        (length (base yes_node).inputs == length (base no_node).inputs)
        && (length (base yes_node).outputs == length (base no_node).outputs)))
      (message "Inputs and outputs of true and false nodes have to be the same")
  fail_if (not (has_ports (base no_node).inputs (base yes_node).inputs))
      (message "Missing input in false node of conditional component")
  fail_if (not (has_ports (base no_node).outputs (base yes_node).outputs))
      (message "Missing output in false node of conditional component")
  ok (some no_node)
