-- ===== src/Storage/References/Termination.antt =====
-- Resolution ends when the references lead to components of smaller rank, and does not end on a
-- component that refers to itself.
use flowify_workflows_server.Common.{
  ℕ, zero, suc, ◌<◌, String, none, some, ◌≡◌, refl, ◌⊎◌, inl, inr, arith, List,
}
use flowify_workflows_server.Common.Result.{
  Result, ok, err, Run, Ended, >=>-Ended, some-Ended, some-injective,
}
use flowify_workflows_server.Models.{
  Component, component, ComponentBase, no_implementation, any, brick, graph, map, conditional,
  NodeContent, unset, inline, reference, versioned, Nodes, end, node, Edge,
}
use flowify_workflows_server.Models.Versions.{CRefVersion}
use flowify_workflows_server.Storage.References.{
  without_userdata, dref_component, dref_node, traverse_nodes, traverse_implementation,
  traverse_component,
}

-- A component is one of those that a traversal goes to from another.
abbrev pub InNodes : (CRefVersion → Result Component) → Component → Nodes → Type 0
InNodes get sub end = ⊥
InNodes get sub (node id content userdata rest) =
    (dref_component get content ≡ ok sub) ⊎ InNodes get sub rest

abbrev pub IsChild : (CRefVersion → Result Component) → Component → Component → Type 0
IsChild get sub (component b (graph nodes e i o)) = InNodes get sub nodes
IsChild get sub (component b (map content i o)) = dref_component get content ≡ ok sub
IsChild get sub (component b no_implementation) = ⊥
IsChild get sub (component b any) = ⊥
IsChild get sub (component b (brick k)) = ⊥
IsChild get sub (component b (conditional x t f i o)) = ⊥

without_userdata-eq-ok :
    (r : Result Component) (sub : Component) (u : String)
    → without_userdata r ≡ ok (sub, u)
    → r ≡ ok sub
without_userdata-eq-ok (ok c) sub u e = cc
without_userdata-eq-ok (err x) sub u e = cc

-- What a node resolves to is what its content does.
pub dref_node-component :
    (get : CRefVersion → Result Component) (content : NodeContent) (userdata : String)
    (sub : Component) (u : String)
    → dref_node get content userdata ≡ ok (sub, u)
    → dref_component get content ≡ ok sub
unfolding dref_node dref_component
dref_node-component get (inline c) userdata sub u e = cc
dref_node-component get unset userdata sub u e = cc
dref_node-component get (reference uid) userdata sub u e =
    without_userdata-eq-ok (dref_component get (reference uid)) sub u e
dref_node-component get (versioned cref) userdata sub u e =
    without_userdata-eq-ok (dref_component get (versioned cref)) sub u e

module _ (get : CRefVersion → Result Component) where
  -- The loop ends if the traversal does on each node that resolves.
  traverse_nodes-Ended :
      (traverse : Component → Run Component) (nodes : Nodes)
      → ((sub : Component) → InNodes get sub nodes → Ended (traverse sub))
      → Ended (traverse_nodes get traverse nodes)
  unfolding traverse_nodes
  traverse_nodes-Ended traverse end h = some-Ended (ok end)
  traverse_nodes-Ended traverse (node id content userdata rest) h =
      >=>-Ended (some (dref_node get content userdata)) _
        (some-Ended (dref_node get content userdata))
        λ (sub, u) e.
          >=>-Ended (traverse sub) _
            (h sub (inl (dref_node-component get content userdata sub u (some-injective e))))
            λ nc _.
              >=>-Ended (traverse_nodes get traverse rest) _
                (traverse_nodes-Ended traverse rest λ x m. h x (inr m)) λ new_nodes _. some-Ended _

  module _ (rank : Component → ℕ)
      (below : (c sub : Component) → IsChild get sub c → rank sub < rank c) where
    -- A traversal with more fuel than the rank of the component ends, with a result or an error,
    -- where each reference leads to a component of a smaller rank.
    pub traverse_component-Ended :
        (fuel : ℕ) (c : Component) → rank c < fuel → Ended (traverse_component get fuel c)
    unfolding traverse_component traverse_implementation
    traverse_component-Ended zero c h = absurd (omega arith)
    traverse_component-Ended (suc fuel) (component b (graph nodes e i o)) h =
        >=>-Ended (traverse_nodes get (traverse_component get fuel) nodes) _
          (traverse_nodes-Ended (traverse_component get fuel) nodes λ sub m.
            traverse_component-Ended fuel sub
              (let smaller = below (component b (graph nodes e i o)) sub m in omega arith))
          λ new_nodes _. some-Ended _
    traverse_component-Ended (suc fuel) (component b (map content i o)) h =
        >=>-Ended (some (dref_component get content)) _ (some-Ended (dref_component get content))
          λ sub e.
            >=>-Ended (traverse_component get fuel sub) _
              (traverse_component-Ended fuel sub (
                let smaller = below (component b (map content i o)) sub (some-injective e) in
                omega arith))
              λ nc _. some-Ended _
    traverse_component-Ended (suc fuel) (component b (brick k)) h = some-Ended _
    traverse_component-Ended (suc fuel) (component b no_implementation) h = some-Ended _
    traverse_component-Ended (suc fuel) (component b any) h = some-Ended _
    traverse_component-Ended (suc fuel) (component b (conditional x t f i o)) h = some-Ended _

  -- A traversal of a graph whose first node refers to the graph itself never ends.
  pub traverse_component_self :
      (b : ComponentBase) (id userdata : String) (cref : CRefVersion) (rest : Nodes)
      (edges inputs outputs : List Edge) (fuel : ℕ)
      → get cref
        ≡ ok (component b (graph (node id (versioned cref) userdata rest) edges inputs outputs))
      → traverse_component get fuel
          (component b (graph (node id (versioned cref) userdata rest) edges inputs outputs))
        ≡ none
  unfolding traverse_component traverse_implementation traverse_nodes dref_node dref_component
  traverse_component_self b id userdata cref rest edges inputs outputs zero e = refl
  traverse_component_self b id userdata cref rest edges inputs outputs (suc fuel) e =
      rw (e, traverse_component_self b id userdata cref rest edges inputs outputs fuel e)
