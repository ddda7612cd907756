-- ===== src/Transpiler/Volumes.antt =====
-- transpiler/helpers.go: where the volume of a claim comes from, and that the search for it ends.
use mathlib.Core.Bool.{false≢true}
use mathlib.Core.Path.{subst}
use flowify_workflows_server.Common.{
  Any-map, ◌∙◌, ℕ, zero, suc, ◌<◌, String, List, [], ◌∷◌, some, ◌≡◌, sym, ap, ◌⊎◌, inl, inr, arith,
  Any, In, Option-cases, ◌==◌, Bool-cases, eq_iff, string_eq, true,
}
use flowify_workflows_server.Common.Result.{
  Result, ok, Ended, >=>-Ended, some-Ended, some-injective, >=>-eq-ok, wrap-eq-ok,
  some-ok-injective, wrap, Result-cases, >>=-eq-ok, ok-injective, ok≢err,
}
use flowify_workflows_server.Models.{
  Component, NodeContent, unset, inline, reference, versioned, Nodes, end, node, Edge, PortAddress,
  graph,
}
use flowify_workflows_server.Transpiler.{
  upstream, Map, same_port, get_connected_source_edge, get_node, component_of, bridge_component,
  resolve, walk_upstream, bridge_node, bridge_implementation, number_of_nodes,
}

-- The node stands in the graph, with the component in line.
abbrev pub Holds : String → Component → Nodes → Type 0
Holds id cmp end = ⊥
Holds id cmp (node n content userdata rest) =
    ((n ≡ id) × (content ≡ inline cmp)) ⊎ Holds id cmp rest

same_port_sound : (a b : PortAddress) → same_port a b ≡ true → a ≡ b
same_port_sound a b h = elim (Bool-cases (a.node == b.node)) [
  | inl node_same ↦
      let p : a.node ≡ b.node = (eq_iff a.node b.node).0 node_same in
      let q : a.port ≡ b.port = (eq_iff a.port b.port).0 (rw node_same at h) in
      λ i. record { node = p i; port = q i }
  | inr other ↦ absurd (false≢true (rw other at h))
]

get_connected_source_edge-In :
    (target : PortAddress) (edges : List Edge) (e : Edge)
    → get_connected_source_edge target edges ≡ ok e
    → In e edges × (e.target ≡ target)
unfolding get_connected_source_edge
get_connected_source_edge-In target [] e h = absurd (ok≢err (sym h))
get_connected_source_edge-In target (x ∷ edges) e h =
    elim (Bool-cases (same_port x.target target)) [
      | inl same ↦
          let found : x ≡ e = ok-injective (rw same at h) in
          (inl found, subst (λ y. y.target ≡ target) found (same_port_sound x.target target same))
      | inr other ↦
          let (there, at) = get_connected_source_edge-In target edges e (rw other at h) in
          (inr there, at)
    ]

get_node-Holds :
    (id : String) (nodes : Nodes) (cmp : Component)
    → get_node id nodes ≡ ok (inline cmp)
    → Holds id cmp nodes
unfolding get_node
get_node-Holds id end cmp h = absurd (ok≢err (sym h))
get_node-Holds id (node n content userdata rest) cmp h = elim (Bool-cases (n == id)) [
  | inl same ↦ inl ((eq_iff n id).0 same, ok-injective (rw same at h))
  | inr other ↦ inr (get_node-Holds id rest cmp (rw other at h))
]

component_of-inline :
    (content : NodeContent) (cmp : Component) → component_of content ≡ ok cmp → content ≡ inline cmp
component_of-inline (inline c) cmp h = ap inline (ok-injective h)
component_of-inline unset cmp h = absurd (ok≢err (sym h))
component_of-inline (reference uid) cmp h = absurd (ok≢err (sym h))
component_of-inline (versioned cref) cmp h = absurd (ok≢err (sym h))

module _ {V : Type 0} (scope : String → Map V) (nodes : Nodes) (edges : List Edge) where
  -- A volume comes to a port of a node: it is given to the port, or an edge leads to the port
  -- from an output of a node, whose component has the output from an input that the volume
  -- comes to.
  pub data ComesTo : String → String → V → Type 0 where
    given : (id claim : String) (vol : V) → scope id claim ≡ some vol → ComesTo id claim vol
    along :
        (id claim : String) (vol : V) (e : Edge) (cmp : Component) (input : String)
        → In e edges
        → e.target ≡ record { node = id; port = claim }
        → Holds e.source.node cmp nodes
        → bridge_component cmp e.source.port ≡ ok input
        → ComesTo e.source.node input vol
        → ComesTo id claim vol

  -- The edge that a step goes back along.
  abbrev pub IsStep : String → String → String → String → Type 0
  IsStep id claim before input =
      (e : Edge) × (cmp : Component) × In e edges
      × (e.target ≡ record { node = id; port = claim })
      × (e.source.node ≡ before)
      × Holds e.source.node cmp nodes
      × (bridge_component cmp e.source.port ≡ ok input)

  upstream-IsStep :
      (id claim before input : String)
      → upstream scope nodes edges id claim ≡ ok (before, input)
      → IsStep id claim before input
  unfolding upstream
  upstream-IsStep id claim before input h =
      let (e, h₁, k₁) = >>=-eq-ok _ _ h in
      let (content, h₂, k₂) = >>=-eq-ok _ _ k₁ in
      let (cmp, h₃, k₃) = >>=-eq-ok _ _ k₂ in
      let (bridged, h₄, k₄) = >>=-eq-ok _ _ k₃ in
      let (there, at) = get_connected_source_edge-In _ edges e (wrap-eq-ok _ _ h₁) in
      let held =
        subst (λ x. get_node e.source.node nodes ≡ ok x) (component_of-inline content cmp h₃)
          (wrap-eq-ok _ _ h₂) in
      let out = ok-injective k₄ in
      (
        e,
        cmp,
        there,
        at,
        ap (λ x. x.0) out,
        get_node-Holds e.source.node nodes cmp held,
        wrap-eq-ok _ _ h₄ ∙ ap ok (ap (λ x. x.1) out),
      )

  -- What a claim is resolved to is a volume that comes to it.
  pub resolve-ComesTo :
      (fuel : ℕ) (id claim : String) (vol : V)
      → resolve scope nodes edges fuel id claim ≡ some (ok vol)
      → ComesTo id claim vol
  unfolding resolve
  resolve-ComesTo zero id claim vol h = cc
  resolve-ComesTo (suc fuel) id claim vol h = elim (Option-cases (scope id claim)) [
    | inl nothing ↦
        let ((before, input), h₁, k₁) = >=>-eq-ok _ _ (rw (resolve, nothing) at h) in
        let (e, cmp, there, at, from, held, bridged) =
          upstream-IsStep id claim before input (some-injective h₁) in
        along id claim vol e cmp input there at held bridged
          (subst (λ x. ComesTo x input vol) (sym from) (resolve-ComesTo fuel before input vol k₁))
    | inr (v, given_there) ↦
        given id claim vol
          (given_there ∙ ap some (some-ok-injective (rw (resolve, given_there) at h)))
  ]

  module _ (rank : String → ℕ)
      (falls : (e : Edge) → In e edges → rank e.source.node < rank e.target.node) where
    -- The search with more fuel than the rank of the node ends, with a volume or an error, where
    -- each edge leads from a node of a smaller rank.
    pub resolve-Ended :
        (fuel : ℕ) (id claim : String)
        → rank id < fuel
        → Ended (resolve scope nodes edges fuel id claim)
    unfolding resolve
    resolve-Ended zero id claim h = absurd (omega arith)
    resolve-Ended (suc fuel) id claim h = elim (Option-cases (scope id claim)) [
      | inl nothing ↦
          rw (resolve, nothing)
            (>=>-Ended (some (upstream scope nodes edges id claim)) _ (some-Ended _)
              λ (before, input) k.
                let (e, cmp, there, at, from, _, _) =
                  upstream-IsStep id claim before input (some-injective k) in
                let below : rank before < rank id =
                  subst (λ x. rank x < rank id) from
                    (subst (λ x. rank e.source.node < rank x) (ap (λ y. y.node) at)
                      (falls e there)) in
                resolve-Ended fuel before input (omega arith))
      | inr (v, given_there) ↦ rw (resolve, given_there) (some-Ended (ok v))
    ]

port-of_In :
    (edges : List Edge) (e : Edge) (r : String)
    → In e edges
    → e.source.port ≡ r
    → Any (λ x. x.source.port ≡ r) edges
port-of_In edges e r m same = Any-map (λ x at. ap (λ y. y.source.port) at ∙ same) edges m

walk_upstream-input :
    (bridge : String → String → Result String) (inputs edges : List Edge) (steps : ℕ)
    (output : PortAddress) (r : String)
    → walk_upstream bridge inputs edges steps output ≡ ok r
    → (r ≡ "") ⊎ Any (λ e. e.source.port ≡ r) inputs
unfolding walk_upstream
walk_upstream-input bridge inputs edges zero output r h = inl (sym (ok-injective h))
walk_upstream-input bridge inputs edges (suc steps) output r h =
    let (input, h₁, k₁) = >>=-eq-ok (bridge output.node output.port) _ h in
    let target : PortAddress = record { node = output.node; port = input } in
    elim (Result-cases (get_connected_source_edge target inputs)) [
      | inl (e, found) ↦ inr (
          port-of_In inputs e r (get_connected_source_edge-In target inputs e found).0
            (ok-injective (rw found at k₁)))
      | inr (x, missing) ↦
          let (e, h₂, k₂) =
            >>=-eq-ok {A = Edge}
              (wrap "graph.bridge walk failed" (get_connected_source_edge target edges))
              (λ e. walk_upstream bridge inputs edges steps e.source) (rw missing at k₁) in
          walk_upstream-input bridge inputs edges steps e.source r k₂
    ]

-- The input that an output of a graph is bridged to is the source of an input mapping of the
-- graph, or is empty.
pub bridge_implementation-graph :
    (nodes : Nodes) (edges inputs outputs : List Edge) (output_port r : String)
    → bridge_implementation (graph nodes edges inputs outputs) output_port ≡ ok r
    → (r ≡ "") ⊎ Any (λ e. e.source.port ≡ r) inputs
unfolding bridge_implementation
bridge_implementation-graph nodes edges inputs outputs output_port r h =
    let (edge, h₁, k₁) =
      >>=-eq-ok {A = Edge}
        (wrap "graph.bridge outputMappings error"
          (get_connected_source_edge (record { node = ""; port = output_port }) outputs))
        (λ e. walk_upstream (bridge_node nodes) inputs edges (number_of_nodes nodes) e.source) h in
    walk_upstream-input (bridge_node nodes) inputs edges (number_of_nodes nodes) edge.source r k₁
