-- ===== src/Transpiler.antt =====
-- transpiler/helpers.go: how the volumes and arguments of a component are found, on the way to Argo.
pub mod Volumes
pub mod Secrets
pub mod Arguments
pub mod Argo
pub mod Tasks
pub mod Templates
pub mod Traverse
pub mod Submission
use flowify_workflows_server.Common.{
  ℕ, zero, suc, String, List, [], ◌∷◌, ◌==◌, ◌&&◌, Bool, if◌then◌else◌, Option, none, some,
  string_eq, false,
}
use flowify_workflows_server.Common.Result.{Result, ok, err, message, wrap, ◌>>=◌, Run, ◌>=>◌}
use flowify_workflows_server.Models.{
  Component, component, ComponentBase, Implementation, no_implementation, any, brick, graph, map,
  conditional, NodeContent, unset, inline, reference, versioned, Nodes, end, node, Edge,
  PortAddress, Data, BrickResult, ResultSource, text, file, volume,
}

-- A Go map with texts as keys.
abbrev pub Map {ℓ} : Type ℓ → Type ℓ
Map V = String → Option V

abbrev pub empty {ℓ} : {V : Type ℓ} → Map V
empty key = none

abbrev pub insert {ℓ} : {V : Type ℓ} → String → V → Map V → Map V
insert key v m = λ x. if key == x then some v else m x

-- `e.Target == connectionTarget`
abbrev pub same_port : PortAddress → PortAddress → Bool
same_port a b = (a.node == b.node) && (a.port == b.port)

unfoldable pub get_connected_source_edge : PortAddress → List Edge → Result Edge
get_connected_source_edge target [] = err (message "could not find input connected edge")
get_connected_source_edge target (e ∷ edges) =
    if same_port e.target target then ok e else get_connected_source_edge target edges

unfoldable pub find_by_name : List Data → String → Option Data
find_by_name [] port = none
find_by_name (e ∷ edges) port = if e.name == port then some e else find_by_name edges port

-- What the node with an identifier holds.
unfoldable pub get_node : String → Nodes → Result NodeContent
get_node id end = err (message "could not find node")
get_node id (node n content userdata rest) = if n == id then ok content else get_node id rest

abbrev pub number_of_nodes : Nodes → ℕ
number_of_nodes end = 0
number_of_nodes (node id content userdata rest) = suc (number_of_nodes rest)

unfoldable pub bridge_brick : List BrickResult → String → Result String
bridge_brick [] output_port = err (message "could not bridge")
bridge_brick (r ∷ results) output_port =
    let rest = bridge_brick results output_port in
    if r.target.port == output_port
    then elim r.source [ volume v ↦ ok v | text t ↦ rest | file f ↦ rest ]
    else rest

-- The walk from a node to the nodes before it, over as many steps as the graph has nodes. At the
-- end of the loop the code wraps an error that is nil, and so returns the empty name and no error.
unfoldable pub walk_upstream :
    (String → String → Result String)
    → (input_mappings edges : List Edge) → ℕ
    → PortAddress
    → Result String
unfolding get_connected_source_edge
walk_upstream bridge inputs edges zero output = ok ""
walk_upstream bridge inputs edges (suc steps) output =
    bridge output.node output.port >>= λ input_port.
    elim (get_connected_source_edge (record { node = output.node; port = input_port }) inputs) [
      | ok input ↦ ok input.source.port
      | err _ ↦
          wrap "graph.bridge walk failed"
            (get_connected_source_edge (record { node = output.node; port = input_port }) edges)
          >>= λ e. walk_upstream bridge inputs edges steps e.source
    ]

-- The input of a component that an output volume comes from.
unfoldable mutual
  unfolding find_by_name bridge_brick walk_upstream get_connected_source_edge

  pub bridge_component : Component → String → Result String
  bridge_component (component b i) output_port = elim (find_by_name b.outputs output_port) [
    | none ↦ err (message "port expected")
    | some data' ↦
        if data'.type == "volume"
        then bridge_implementation i output_port
        else err (message "'volume' port required")
  ]

  pub bridge_implementation : Implementation → String → Result String
  bridge_implementation (brick k) output_port = bridge_brick k.results output_port
  bridge_implementation (graph nodes edges inputs outputs) output_port =
      wrap "graph.bridge outputMappings error"
        (get_connected_source_edge (record { node = ""; port = output_port }) outputs)
      >>= λ edge.
          walk_upstream (λ id port. bridge_node nodes id port) inputs edges (number_of_nodes nodes)
            edge.source
  bridge_implementation no_implementation output_port = err (message "not implemented")
  bridge_implementation any output_port = err (message "not implemented")
  bridge_implementation (map n i o) output_port = err (message "not implemented")
  bridge_implementation (conditional x t f i o) output_port = err (message "not implemented")

  -- `getNode`, and the bridge of the component in the node.
  pub bridge_node : Nodes → String → String → Result String
  bridge_node end id output_port =
      wrap "graph.bridge node reference error" (err (message "could not find node"))
  bridge_node (node n content userdata rest) id output_port =
      let later = bridge_node rest id output_port in
      if n == id then bridge_content content output_port else later

  pub bridge_content : NodeContent → String → Result String
  bridge_content (inline cmp) output_port =
      wrap "could not bridge graph node" (bridge_component cmp output_port)
  bridge_content unset output_port =
      err (message "transpiler package requires dereferenced components")
  bridge_content (reference uid) output_port =
      err (message "transpiler package requires dereferenced components")
  bridge_content (versioned cref) output_port =
      err (message "transpiler package requires dereferenced components")

abbrev pub component_of : NodeContent → Result Component
component_of (inline cmp) = ok cmp
component_of unset = err (message "cant resolve non-component node")
component_of (reference uid) = err (message "cant resolve non-component node")
component_of (versioned cref) = err (message "cant resolve non-component node")

-- `V` is the type of the volumes of Kubernetes, and `scope` the volumes that nodes are given.
module _ {V : Type 0} (scope : String → Map V) (nodes : Nodes) (edges : List Edge) where
  -- One step: the node before and the input of it that the claim is on.
  unfoldable pub upstream : (id claim : String) → Result (String × String)
  unfolding get_connected_source_edge get_node bridge_component
  upstream id claim =
      wrap "resolve failed" (get_connected_source_edge (record { node = id; port = claim }) edges)
      >>= λ e. wrap "resolve failed" (get_node e.source.node nodes) >>= λ content.
          component_of content >>= λ cmp.
          wrap "resolve node failed" (bridge_component cmp e.source.port) >>= λ upstream_claim.
          ok (e.source.node, upstream_claim)

  -- Of the node that claims a volume, the code reads the identifier only.
  unfoldable pub resolve : ℕ → (id claim : String) → Run V
  unfolding upstream
  resolve zero id claim = none
  resolve (suc fuel) id claim = elim (scope id claim) [
    | some vol ↦ some (ok vol)
    | none ↦ some (upstream id claim) >=> λ (before, its_claim). resolve fuel before its_claim
  ]

  -- `node.Id`, of the zero node if the name is unknown.
  abbrev pub found_id : String → String
  found_id node_name = elim (get_node node_name nodes) [ ok content ↦ node_name | err e ↦ "" ]

  -- The loop over the inputs: those that cannot be resolved are left out.
  unfoldable pub add_volumes : ℕ → String → List Data → Map V → Option (Map V)
  unfolding resolve
  add_volumes fuel id [] volumes = some volumes
  add_volumes fuel id (d ∷ inputs) volumes =
      if d.type == "volume"
      then elim (resolve fuel id d.name) [
        | some (ok vol) ↦ add_volumes fuel id inputs (insert d.name vol volumes)
        | some (err e) ↦ add_volumes fuel id inputs volumes
        | none ↦ none
      ]
      else add_volumes fuel id inputs volumes

  unfoldable pub get_connected_volume_map : ℕ → String → List Data → Option (Map V)
  unfolding add_volumes get_node
  get_connected_volume_map fuel node_name inputs =
      add_volumes fuel (found_id node_name) inputs empty

-- `checkInputType`: the type of the first input with the name.
unfoldable pub check_input_type : List Data → String → Option String
check_input_type [] input_name = none
check_input_type (d ∷ inputs) input_name =
    if d.name == input_name then some d.type else check_input_type inputs input_name

-- `m.Target.Node == targetNodeId`, where the source is an input that is a secret.
unfoldable pub maps_secret : String → List Data → Edge → Bool
unfolding check_input_type
maps_secret target_node_id inputs m = elim (check_input_type inputs m.source.port) [
  | some t ↦ (t == "env_secret") && (m.target.node == target_node_id)
  | none ↦ false
]

-- A missing key gives the empty text.
abbrev pub at_key : Map String → String → String
at_key secrets key = elim (secrets key) [ some s ↦ s | none ↦ "" ]

-- The loop over the mappings: a later one overrides an earlier one.
unfoldable pub add_secrets : String → Map String → List Data → List Edge → Map String → Map String
unfolding maps_secret
add_secrets target_node_id cmp_secrets cmp_inputs [] secrets = secrets
add_secrets target_node_id cmp_secrets cmp_inputs (m ∷ ms) secrets =
    add_secrets target_node_id cmp_secrets cmp_inputs ms (
      if maps_secret target_node_id cmp_inputs m
      then insert m.target.port (at_key cmp_secrets m.source.port) secrets
      else secrets)

unfoldable pub get_node_secret_map : String → Map String → List Data → List Edge → Map String
unfolding add_secrets
get_node_secret_map target_node_id cmp_secrets cmp_inputs inputs_map =
    add_secrets target_node_id cmp_secrets cmp_inputs inputs_map cmp_secrets

-- The nodes that a node depends on.
unfoldable pub get_dependencies : List Edge → String → List String
get_dependencies [] node_id = []
get_dependencies (e ∷ edges) node_id =
    let deps = get_dependencies edges node_id in
    if e.target.node == node_id then e.source.node ∷ deps else deps
