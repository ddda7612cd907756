-- ===== src/Transpiler/Secrets.antt =====
-- transpiler/helpers.go: which secrets a node is given, and which nodes it depends on.
use flowify_workflows_server.Common.{
  sym, String, List, [], ◌∷◌, Any, Option, some, ◌≡◌, refl, ◌↔◌, ◌⊎◌, inl, inr, ◌==◌, string_eq,
  Bool-cases, eq_iff, true, In,
}
use flowify_workflows_server.Models.{Data, Edge}
use flowify_workflows_server.Transpiler.{
  Map, insert, at_key, maps_secret, add_secrets, get_node_secret_map, get_dependencies,
}

-- The secret is that of the component under the name, or that of the source of a mapping of a
-- secret to the port of the node.
abbrev pub ComesFrom :
    String → Map String → List Data → List Edge → Map String → String → Option String → Type 0
ComesFrom id secrets inputs edges given key found =
    (found ≡ given key)
    ⊎ Any
        (λ m.
          (maps_secret id inputs m ≡ true)
          × (m.target.port ≡ key)
          × (found ≡ some (at_key secrets m.source.port)))
        edges

inserted-ComesFrom :
    (id : String) (secrets : Map String) (inputs : List Data) (m : Edge) (edges : List Edge)
    (given : Map String) (key : String) (found : Option String)
    → maps_secret id inputs m ≡ true
    → found ≡ insert m.target.port (at_key secrets m.source.port) given key
    → ComesFrom id secrets inputs (m ∷ edges) given key found
inserted-ComesFrom id secrets inputs m edges given key found is e =
    elim (Bool-cases (m.target.port == key)) [
      | inl same ↦ inr (inl (is, (eq_iff m.target.port key).0 same, rw same at e))
      | inr other ↦ inl (rw other at e)
    ]

add_secrets-ComesFrom :
    (id : String) (secrets : Map String) (inputs : List Data) (edges : List Edge)
    (given : Map String) (key : String) (found : Option String)
    → add_secrets id secrets inputs edges given key ≡ found
    → ComesFrom id secrets inputs edges given key found
unfolding add_secrets
add_secrets-ComesFrom id secrets inputs [] given key found e = inl (sym e)
add_secrets-ComesFrom id secrets inputs (m ∷ edges) given key found e =
    elim (Bool-cases (maps_secret id inputs m)) [
      | inl is ↦
          elim (add_secrets-ComesFrom id secrets inputs edges
            (insert m.target.port (at_key secrets m.source.port) given) key found
            (rw (add_secrets, is) at e)) [
              | inl here ↦ inserted-ComesFrom id secrets inputs m edges given key found is here
              | inr later ↦ inr (inr later)
            ]
      | inr other ↦
          elim (add_secrets-ComesFrom id secrets inputs edges given key found
            (rw (add_secrets, other) at e)) [ inl here ↦ inl here | inr later ↦ inr (inr later) ]
    ]

-- Each secret of a node is that of the component under the same name, or that of the source of
-- a mapping of an input that is a secret to the port of the node with the name.
pub get_node_secret_map-ComesFrom :
    (id : String) (secrets : Map String) (inputs : List Data) (edges : List Edge) (key : String)
    → ComesFrom id secrets inputs edges secrets key
        (get_node_secret_map id secrets inputs edges key)
unfolding get_node_secret_map
get_node_secret_map-ComesFrom id secrets inputs edges key =
    add_secrets-ComesFrom id secrets inputs edges secrets key _ refl

-- The edge leads to the node, from the source.
abbrev pub LeadsTo : String → String → Edge → Type 0
LeadsTo id source e = (e.target.node ≡ id) × (e.source.node ≡ source)

dependency-edge :
    (edges : List Edge) (id source : String)
    → In source (get_dependencies edges id)
    → Any (LeadsTo id source) edges
unfolding get_dependencies
dependency-edge [] id source m = elim m [ ]
dependency-edge (e ∷ edges) id source m = elim (Bool-cases (e.target.node == id)) [
  | inl same ↦
      let there : In source (e.source.node ∷ get_dependencies edges id) =
        rw (get_dependencies, same) at m in
      elim there [
        | inl here ↦ inl ((eq_iff e.target.node id).0 same, here)
        | inr later ↦ inr (dependency-edge edges id source later)
      ]
  | inr other ↦ inr (dependency-edge edges id source (rw (get_dependencies, other) at m))
]

edge-dependency :
    (edges : List Edge) (id source : String)
    → Any (LeadsTo id source) edges
    → In source (get_dependencies edges id)
unfolding get_dependencies
edge-dependency [] id source m = elim m [ ]
edge-dependency (e ∷ edges) id source (inl (target, from)) =
    rw ((eq_iff e.target.node id).1 target) (inl from)
edge-dependency (e ∷ edges) id source (inr m) =
    let later = edge-dependency edges id source m in
    elim (Bool-cases (e.target.node == id)) [
      | inl same ↦ rw same (inr later)
      | inr other ↦ rw other later
    ]

-- The nodes that a node depends on are the sources of the edges to it.
pub get_dependencies_iff :
    (edges : List Edge) (id source : String)
    → In source (get_dependencies edges id) ↔ Any (LeadsTo id source) edges
get_dependencies_iff edges id source =
    (dependency-edge edges id source, edge-dependency edges id source)
