-- ===== src/Storage/References.antt =====
-- storage/references.go: a component with its references replaced by the stored components.
pub mod Termination
pub mod Resolution
use flowify_workflows_server.Common.{ℕ, zero, suc, String, Option, none, some}
use flowify_workflows_server.Common.Int.{pos}
use flowify_workflows_server.Common.Result.{Run, ◌>=>◌, Result, ok, err, message, wrapped, wrap}
use flowify_workflows_server.Models.{
  Component, component, ComponentBase, Implementation, no_implementation, any, brick, graph, map,
  conditional, NodeContent, unset, inline, reference, versioned, Nodes, end, node, Edge,
}
use flowify_workflows_server.Models.Versions.{CRefVersion}

-- `client.GetComponent`, by an identifier with a version, is the first argument.
unfoldable pub dref_component : (CRefVersion → Result Component) → NodeContent → Result Component
dref_component get (inline c) = ok c
dref_component get (reference uid) = get (record { version = pos 0; uid = uid })
dref_component get (versioned cref) = get cref
dref_component get unset = err (message "Cannot convert to component object. Incorect type")

-- `models.Node{Id: node.Id, Node: cmp}`: a reference that is resolved loses its user data.
abbrev pub without_userdata : Result Component → Result (Component × String)
without_userdata (ok c) = ok (c, "")
without_userdata (err e) = err (wrapped "Cannot dereference node" e)

unfoldable pub dref_node :
    (CRefVersion → Result Component) → NodeContent → String → Result (Component × String)
unfolding dref_component
dref_node get (inline c) userdata = ok (c, userdata)
dref_node get (reference uid) userdata = without_userdata (dref_component get (reference uid))
dref_node get (versioned cref) userdata = without_userdata (dref_component get (versioned cref))
dref_node get unset userdata =
    err (message "Cannot convert to component object. Incorect node type")

-- The loop over the nodes of a graph, with the traversal of a component.
unfoldable pub traverse_nodes :
    (CRefVersion → Result Component) → (Component → Run Component) → Nodes → Run Nodes
traverse_nodes get traverse end = some (ok end)
traverse_nodes get traverse (node id content userdata rest) =
    some (dref_node get content userdata) >=> λ (sub, data'). traverse sub >=> λ nc.
    traverse_nodes get traverse rest >=> λ new_nodes.
    some (ok (node id (inline nc) data' new_nodes))

unfoldable pub traverse_implementation :
    (CRefVersion → Result Component)
    → (Component → Run Component)
    → ComponentBase
    → Implementation
    → Run Component
unfolding traverse_nodes
traverse_implementation get traverse b (graph nodes edges inputs outputs) =
    traverse_nodes get traverse nodes >=> λ new_nodes.
    some (ok (component b (graph new_nodes edges inputs outputs)))
traverse_implementation get traverse b (map content inputs outputs) =
    some (dref_component get content) >=> λ new_node.
    traverse new_node >=> λ nc. some (ok (component b (map (inline nc) inputs outputs)))
traverse_implementation get traverse b (brick k) = some (ok (component b (brick k)))
traverse_implementation get traverse b no_implementation =
    some (err (message "Dereference is not implemented"))
traverse_implementation get traverse b any = some (err (message "Dereference is not implemented"))
traverse_implementation get traverse b (conditional e t f inputs outputs) =
    some (err (message "Dereference is not implemented"))

-- `traverseComponent` calls itself on what the references lead to: the fuel bounds the depth.
unfoldable pub traverse_component : (CRefVersion → Result Component) → ℕ → Component → Run Component
unfolding traverse_implementation
traverse_component get zero cmp = none
traverse_component get (suc fuel) (component b implementation) =
    traverse_implementation get (traverse_component get fuel) b implementation

unfoldable pub dereference_component :
    (CRefVersion → Result Component) → ℕ → NodeContent → Run Component
unfolding traverse_component dref_component
dereference_component get fuel cmp = some (dref_component get cmp) >=> traverse_component get fuel
