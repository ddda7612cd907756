-- ===== src/Transpiler/Traverse/Ends.antt =====
-- transpiler/transpiler.go: the traversal of a component ends, with templates or an error.
use flowify_workflows_server.Common.{
  ℕ, ◌<◌, String, List, [], ◌∷◌, some, In, ◌≡◌, refl, inl, inr, Bool-cases, ◌==◌, string_eq,
}
use flowify_workflows_server.Common.Result.{wrap, Ended, some-Ended, >=>-Ended, Result-cases}
use flowify_workflows_server.Models.{
  Component, component, base, ComponentBase, Implementation, no_implementation, any, brick, graph,
  map, conditional, NodeContent, unset, inline, reference, versioned, Nodes, end, node, Edge, Data,
}
use flowify_workflows_server.Models.Versions.{is_zero}
use flowify_workflows_server.Transpiler.{
  Map, empty, insert, add_volumes, get_connected_volume_map, get_node_secret_map, found_id,
}
use flowify_workflows_server.Transpiler.Volumes.{resolve-Ended}
use flowify_workflows_server.Transpiler.Argo.{Ports, Library}
use flowify_workflows_server.Transpiler.Templates.{add_brick, add_graph, add_map, add_conditional}
use flowify_workflows_server.Transpiler.Traverse.{
  no_ports, input_ports, output_ports, input_secrets, node_secrets, node_volumes, scope_volumes,
  traverse_component, traverse_implementation, traverse_content, traverse_option, traverse_nodes,
  traverse_node,
}

-- The nodes of a graph have ranks below the bound, and each edge leads to a node of a greater rank.
abbrev pub IsRanked : ℕ → List Edge → Type 0
IsRanked fuel edges =
    (rank : String → ℕ) × ((e : Edge) → In e edges → rank e.source.node < rank e.target.node)
    × ((id : String) → rank id < fuel)

-- The graphs of a component are ranked, those in its nodes included.
unfoldable mutual
  pub IsLayered : ℕ → Component → Type 0
  IsLayered fuel (component b i) = LayeredImplementation fuel i

  pub LayeredImplementation : ℕ → Implementation → Type 0
  LayeredImplementation fuel (brick k) = Unit {0}
  LayeredImplementation fuel (graph nodes edges ins outs) =
      IsRanked fuel edges × LayeredNodes fuel nodes
  LayeredImplementation fuel (map c ins outs) = LayeredContent fuel c
  LayeredImplementation fuel (conditional x c d ins outs) =
      LayeredContent fuel c × LayeredContent fuel d
  LayeredImplementation fuel any = Unit {0}
  LayeredImplementation fuel no_implementation = Unit {0}

  pub LayeredContent : ℕ → NodeContent → Type 0
  LayeredContent fuel (inline cmp) = IsLayered fuel cmp
  LayeredContent fuel unset = Unit {0}
  LayeredContent fuel (reference uid) = Unit {0}
  LayeredContent fuel (versioned cref) = Unit {0}

  pub LayeredNodes : ℕ → Nodes → Type 0
  LayeredNodes fuel end = Unit {0}
  LayeredNodes fuel (node id content userdata rest) =
      LayeredContent fuel content × LayeredNodes fuel rest

module _ {V : Type 0} (fuel : ℕ) (scope : String → Map V) (nodes : Nodes) (edges : List Edge)
    (ranked : IsRanked fuel edges) where
  add_volumes-found :
      (id : String) (inputs : List Data) (volumes : Map V)
      → (given : Map V) × (add_volumes scope nodes edges fuel id inputs volumes ≡ some given)
  unfolding add_volumes
  add_volumes-found id [] volumes = (volumes, refl)
  add_volumes-found id (d ∷ inputs) volumes =
      let (rank, falls, below) = ranked in
      elim (Bool-cases (d.type == "volume")) [
        | inl is ↦
            let (result, e) =
              resolve-Ended scope nodes edges rank falls fuel id d.name (below id) in
            elim (Result-cases result) [
              | inl (vol, found) ↦
                  rw (is, e, found) (add_volumes-found id inputs (insert d.name vol volumes))
              | inr (x, failed) ↦ rw (is, e, failed) (add_volumes-found id inputs volumes)
            ]
        | inr other ↦ rw other (add_volumes-found id inputs volumes)
      ]

  volume_map-found :
      (name : String) (inputs : List Data)
      → (given : Map V) × (get_connected_volume_map scope nodes edges fuel name inputs ≡ some given)
  unfolding get_connected_volume_map
  volume_map-found name inputs = add_volumes-found (found_id scope nodes edges name) inputs empty

module _ {V : Type 0} (lib : Library V) (fuel : ℕ) where
  mutual
    unfolding traverse_component IsLayered

    -- The traversal of a component whose graphs have ranks below the fuel ends.
    pub traverse_component-Ended :
        (c : Component) (s : Map String) (v : Map V)
        → IsLayered fuel c
        → Ended (traverse_component lib fuel c s v)
    traverse_component-Ended (component b i) s v h = elim (Bool-cases (is_zero b.uid)) [
      | inl zero_uid ↦ rw zero_uid (some-Ended _)
      | inr nonzero ↦ rw nonzero (
          >=>-Ended (some (input_ports s b.inputs no_ports)) _ (some-Ended _)
            λ inputs e. implementation-Ended i b (output_ports b.outputs no_ports) inputs s v h)
    ]

    implementation-Ended :
        (i : Implementation) (b : ComponentBase) (outputs inputs : Ports) (s : Map String)
        (v : Map V)
        → LayeredImplementation fuel i
        → Ended (traverse_implementation lib fuel i b outputs inputs s v)
    implementation-Ended (brick k) b outputs inputs s v h =
        >=>-Ended
          (some (
            wrap "Cannot add node into argo workflow"
              (add_brick lib (lib.uid_text b.uid) k outputs inputs (input_secrets b.inputs s) v)))
          _ (some-Ended _) λ t e. some-Ended _
    implementation-Ended (graph ns edges ins outs) b outputs inputs s v (ranked, h) =
        let scope = scope_volumes b.inputs ins v (λ id. empty) in
        >=>-Ended
          (some (
            wrap "Cannot add node into argo workflow"
              (add_graph lib (lib.uid_text b.uid) ns edges ins outs outputs inputs)))
          _ (some-Ended _)
          λ t e.
            >=>-Ended (traverse_nodes lib fuel ns ns edges ins b s scope) _
              (nodes-Ended ns ns edges ins b s scope ranked h) λ ts f. some-Ended _
    implementation-Ended (map c ins outs) b outputs inputs s v h =
        let secrets = node_secrets b.inputs ins s s in
        let volumes = node_volumes b.inputs ins v empty in
        >=>-Ended
          (some (
            wrap "Cannot add node into argo workflow"
              (add_map lib (lib.uid_text b.uid) c ins outs outputs inputs)))
          _ (some-Ended _)
          λ t e.
            >=>-Ended (traverse_content lib fuel c secrets volumes) _
              (content-Ended c secrets volumes h) λ ts f. some-Ended _
    implementation-Ended (conditional x c d ins outs) b outputs inputs s v (h, k) =
        let secrets = node_secrets b.inputs ins s s in
        let volumes = node_volumes b.inputs ins v empty in
        >=>-Ended
          (some (
            wrap "Cannot add conditional node into argo workflow"
              (add_conditional lib (lib.uid_text b.uid) x c d ins outs outputs inputs)))
          _ (some-Ended _)
          λ t e.
            >=>-Ended (traverse_content lib fuel c secrets volumes) _
              (content-Ended c secrets volumes h)
              λ ts f.
                >=>-Ended (traverse_option lib fuel d secrets volumes) _
                  (option-Ended d secrets volumes k) λ us g. some-Ended _
    implementation-Ended any b outputs inputs s v h = some-Ended _
    implementation-Ended no_implementation b outputs inputs s v h = some-Ended _

    content-Ended :
        (c : NodeContent) (s : Map String) (v : Map V)
        → LayeredContent fuel c
        → Ended (traverse_content lib fuel c s v)
    content-Ended (inline cmp) s v h = traverse_component-Ended cmp s v h
    content-Ended unset s v h = some-Ended _
    content-Ended (reference uid) s v h = some-Ended _
    content-Ended (versioned cref) s v h = some-Ended _

    option-Ended :
        (c : NodeContent) (s : Map String) (v : Map V)
        → LayeredContent fuel c
        → Ended (traverse_option lib fuel c s v)
    option-Ended (inline cmp) s v h = traverse_component-Ended cmp s v h
    option-Ended unset s v h = some-Ended _
    option-Ended (reference uid) s v h = some-Ended _
    option-Ended (versioned cref) s v h = some-Ended _

    nodes-Ended :
        (ns all : Nodes) (edges ins : List Edge) (b : ComponentBase) (s : Map String)
        (scope : String → Map V)
        → IsRanked fuel edges
        → LayeredNodes fuel ns
        → Ended (traverse_nodes lib fuel ns all edges ins b s scope)
    nodes-Ended end all edges ins b s scope ranked h = some-Ended _
    nodes-Ended (node id content userdata rest) all edges ins b s scope ranked (h, k) =
        >=>-Ended (traverse_node lib fuel content id all edges ins b s scope) _
          (node-Ended content id all edges ins b s scope ranked h)
          λ ts e.
            >=>-Ended (traverse_nodes lib fuel rest all edges ins b s scope) _
              (nodes-Ended rest all edges ins b s scope ranked k) λ us f. some-Ended _

    node-Ended :
        (c : NodeContent) (id : String) (all : Nodes) (edges ins : List Edge) (b : ComponentBase)
        (s : Map String) (scope : String → Map V)
        → IsRanked fuel edges
        → LayeredContent fuel c
        → Ended (traverse_node lib fuel c id all edges ins b s scope)
    node-Ended (inline cmp) id all edges ins b s scope ranked h =
        let (volumes, found) = volume_map-found fuel scope all edges ranked id (base cmp).inputs in
        rw (traverse_node, found)
          (traverse_component-Ended cmp (get_node_secret_map id s b.inputs ins) volumes h)
    node-Ended unset id all edges ins b s scope ranked h = some-Ended _
    node-Ended (reference uid) id all edges ins b s scope ranked h = some-Ended _
    node-Ended (versioned cref) id all edges ins b s scope ranked h = some-Ended _
