-- ===== src/Transpiler/Traverse.antt =====
-- transpiler/transpiler.go: `TraverseComponent`, which makes the templates of a component and of
-- all the components in it. It returns the templates that the code appends; `none` means that the
-- fuel of the search for volumes ran out.
pub mod Made
pub mod Closed
pub mod Ends
pub mod Secrets
pub mod Environment
use flowify_workflows_server.Common.{
  ℕ, Bool, true, false, ◌||◌, String, List, [], ◌∷◌, ◌++◌, Option, none, some, ◌==◌, string_eq,
  if◌then◌else◌,
}
use flowify_workflows_server.Common.Result.{Result, ok, err, message, wrap, Run, ◌>=>◌, ◌>>=◌}
use flowify_workflows_server.Models.{
  Component, component, base, ComponentBase, Implementation, no_implementation, any, brick, graph,
  map, conditional, NodeContent, unset, inline, reference, versioned, Nodes, end, node, Edge, Data,
}
use flowify_workflows_server.Models.Versions.{is_zero}
use flowify_workflows_server.Transpiler.{
  Map, empty, insert, at_key, check_input_type, get_node_secret_map, get_connected_volume_map,
}
use flowify_workflows_server.Transpiler.Argo.{
  new_parameter, new_artifact, Ports, Template, Library, item,
}
use flowify_workflows_server.Transpiler.Templates.{add_brick, add_graph, add_map, add_conditional}

abbrev pub no_ports : Ports
no_ports = record { parameters = []; artifacts = [] }

-- The loop over the inputs of a component.
unfoldable pub input_ports : Map String → List Data → Ports → Result Ports
input_ports secrets [] ports = ok ports
input_ports secrets (i ∷ inputs) ports =
    (if i.type == "artifact"
      then ok (record ports { artifacts = ports.artifacts ++ new_artifact i.name "" ∷ [] })
      else if i.type == "parameter"
      then ok (record ports { parameters = ports.parameters ++ new_parameter i.name none ∷ [] })
      else if i.type == "parameter_array"
      then ok
          (record ports { parameters = ports.parameters ++ new_parameter i.name (some item) ∷ [] })
      else if i.type == "env_secret"
      then elim (secrets i.name) [
        | some s ↦ ok ports
        | none ↦ err (message "missing secret for component")
      ]
      else if i.type == "volume"
      then ok ports
      else err (message "cannot append input data"))
    >>= input_ports secrets inputs

unfoldable pub output_ports : List Data → Ports → Ports
output_ports [] ports = ports
output_ports (o ∷ outputs) ports = output_ports outputs (
    if o.type == "artifact"
    then record ports { artifacts = ports.artifacts ++ new_artifact o.name "" ∷ [] }
    else if (o.type == "parameter") || (o.type == "parameter_array")
    then record ports { parameters = ports.parameters ++ new_parameter o.name none ∷ [] }
    else ports)

-- `delete(cmpSecrets, k)` for every key that is no input.
unfoldable pub has_input : List Data → String → Bool
has_input [] k = false
has_input (i ∷ inputs) k = (k == i.name) || has_input inputs k

abbrev pub input_secrets : List Data → Map String → Map String
input_secrets inputs secrets k = if has_input inputs k then secrets k else none

-- The secrets and the volumes that the node of a map or of a conditional is given.
unfoldable pub node_secrets :
    List Data → List Edge → (cmp_secrets secrets : Map String) → Map String
unfolding check_input_type
node_secrets inputs [] cmp_secrets secrets = secrets
node_secrets inputs (m ∷ mappings) cmp_secrets secrets =
    node_secrets inputs mappings cmp_secrets (elim (check_input_type inputs m.source.port) [
      | none ↦ secrets
      | some mt ↦
          if mt == "env_secret"
          then insert m.target.port (at_key cmp_secrets m.source.port) secrets
          else secrets
    ])

module _ {V : Type 0} where
  abbrev pub add_volume : String → Option V → Map V → Map V
  add_volume key none volumes = volumes
  add_volume key (some vol) volumes = insert key vol volumes

  unfoldable pub node_volumes : List Data → List Edge → Map V → Map V → Map V
  unfolding check_input_type
  node_volumes inputs [] volumes given = given
  node_volumes inputs (m ∷ mappings) volumes given =
      node_volumes inputs mappings volumes (elim (check_input_type inputs m.source.port) [
        | none ↦ given
        | some mt ↦
            if mt == "volume" then add_volume m.target.port (volumes m.source.port) given else given
      ])

  -- The volumes in the scope of a graph, by the node and the port that they are mapped to.
  unfoldable pub scope_volumes : List Data → List Edge → Map V → (String → Map V) → String → Map V
  unfolding check_input_type
  scope_volumes inputs [] volumes scope = scope
  scope_volumes inputs (m ∷ mappings) volumes scope =
      scope_volumes inputs mappings volumes (elim (check_input_type inputs m.source.port) [
        | none ↦ scope
        | some mt ↦
            if mt == "volume"
            then (λ id.
                if id == m.target.node
                then add_volume m.target.port (volumes m.source.port) (scope id)
                else scope id)
            else scope
      ])

module _ {V : Type 0} (lib : Library V) (fuel : ℕ) where
  unfoldable mutual
    unfolding input_ports output_ports add_brick add_graph add_map add_conditional node_secrets
        node_volumes scope_volumes get_node_secret_map get_connected_volume_map has_input

    pub traverse_component : Component → Map String → Map V → Run (List Template)
    traverse_component (component b i) secrets volumes =
        if is_zero b.uid
        then some (err (message "component uid is required to be unique and non-zero"))
        else some (input_ports secrets b.inputs no_ports) >=> λ inputs.
            traverse_implementation i b (output_ports b.outputs no_ports) inputs secrets volumes

    pub traverse_implementation :
        Implementation
        → ComponentBase
        → (outputs inputs : Ports) → Map String
        → Map V
        → Run (List Template)
    traverse_implementation (brick k) b outputs inputs secrets volumes =
        some (
          wrap "Cannot add node into argo workflow" (
            add_brick lib (lib.uid_text b.uid) k outputs inputs (input_secrets b.inputs secrets)
              volumes))
        >=> λ t. some (ok (t ∷ []))
    traverse_implementation (graph nodes edges ins outs) b outputs inputs secrets volumes =
        some (
          wrap "Cannot add node into argo workflow"
            (add_graph lib (lib.uid_text b.uid) nodes edges ins outs outputs inputs))
        >=> λ t.
            traverse_nodes nodes nodes edges ins b secrets
              (scope_volumes b.inputs ins volumes (λ id. empty))
            >=> λ ts. some (ok (t ∷ ts))
    traverse_implementation (map content ins outs) b outputs inputs secrets volumes =
        some (
          wrap "Cannot add node into argo workflow"
            (add_map lib (lib.uid_text b.uid) content ins outs outputs inputs))
        >=> λ t.
            traverse_content content (node_secrets b.inputs ins secrets secrets)
              (node_volumes b.inputs ins volumes empty)
            >=> λ ts. some (ok (t ∷ ts))
    traverse_implementation (conditional x c d ins outs) b outputs inputs secrets volumes =
        some (
          wrap "Cannot add conditional node into argo workflow"
            (add_conditional lib (lib.uid_text b.uid) x c d ins outs outputs inputs))
        >=> λ t.
            traverse_content c (node_secrets b.inputs ins secrets secrets)
              (node_volumes b.inputs ins volumes empty)
            >=> λ ts.
                traverse_option d (node_secrets b.inputs ins secrets secrets)
                  (node_volumes b.inputs ins volumes empty)
                >=> λ us. some (ok (t ∷ (ts ++ us)))
    traverse_implementation any b outputs inputs secrets volumes =
        some (err (message "Unrecognized implementation type"))
    traverse_implementation no_implementation b outputs inputs secrets volumes =
        some (err (message "Unrecognized implementation type"))

    pub traverse_content : NodeContent → Map String → Map V → Run (List Template)
    traverse_content (inline cmp) secrets volumes = traverse_component cmp secrets volumes
    traverse_content unset secrets volumes = some (err (message "Cannot unmarshal node"))
    traverse_content (reference uid) secrets volumes = some (err (message "Cannot unmarshal node"))
    traverse_content (versioned cref) secrets volumes = some (err (message "Cannot unmarshal node"))

    -- The false node of a conditional, if there is one.
    pub traverse_option : NodeContent → Map String → Map V → Run (List Template)
    traverse_option unset secrets volumes = some (ok [])
    traverse_option (inline cmp) secrets volumes = traverse_component cmp secrets volumes
    traverse_option (reference uid) secrets volumes = some (err (message "Cannot unmarshal node"))
    traverse_option (versioned cref) secrets volumes = some (err (message "Cannot unmarshal node"))

    -- The loop over the nodes of a graph; `all` are the nodes of the graph.
    pub traverse_nodes :
        Nodes
        → (all : Nodes) → (edges ins : List Edge) → ComponentBase
        → Map String
        → (String → Map V)
        → Run (List Template)
    traverse_nodes end all edges ins b secrets scope = some (ok [])
    traverse_nodes (node id content userdata rest) all edges ins b secrets scope =
        traverse_node content id all edges ins b secrets scope >=> λ ts.
        traverse_nodes rest all edges ins b secrets scope >=> λ us. some (ok (ts ++ us))

    pub traverse_node :
        NodeContent
        → String
        → (all : Nodes) → (edges ins : List Edge) → ComponentBase
        → Map String
        → (String → Map V)
        → Run (List Template)
    traverse_node (inline cmp) id all edges ins b secrets scope =
        elim (get_connected_volume_map scope all edges fuel id (base cmp).inputs) [
          | none ↦ none
          | some volumes ↦
              traverse_component cmp (get_node_secret_map id secrets b.inputs ins) volumes
        ]
    traverse_node unset id all edges ins b secrets scope =
        some (err (message "Cannot unmarshal node"))
    traverse_node (reference uid) id all edges ins b secrets scope =
        some (err (message "Cannot unmarshal node"))
    traverse_node (versioned cref) id all edges ins b secrets scope =
        some (err (message "Cannot unmarshal node"))
