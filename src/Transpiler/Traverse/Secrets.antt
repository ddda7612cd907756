-- ===== src/Transpiler/Traverse/Secrets.antt =====
-- The secrets that nodes and containers are given.
use mathlib.Core.Path.{subst}
use flowify_workflows_server.Common.{
  String, List, [], ◌∷◌, some, ◌≡◌, inl, inr, Bool-cases, Option-cases, ◌==◌, string_eq,
}
use flowify_workflows_server.Common.Result.{ok, wrap, >>=-eq-ok, ok-injective, some-injective}
use flowify_workflows_server.Models.{base, NodeContent, Nodes, Edge, Data, Brick, Expression}
use flowify_workflows_server.Transpiler.{
  Map, insert, at_key, check_input_type, maps_secret, add_secrets, get_node_secret_map,
}
use flowify_workflows_server.Transpiler.Arguments.{get_container_args, get_container_volumes}
use flowify_workflows_server.Transpiler.Argo.{Ports, Body, run, dag, Template, Library}
use flowify_workflows_server.Transpiler.Templates.{
  container_of, graph_tasks, add_brick, add_graph, add_map, add_conditional,
}
use flowify_workflows_server.Transpiler.Tasks.{
  no_inputs, add_mappings, node_component, false_component,
}
use flowify_workflows_server.Transpiler.Traverse.{input_secrets, has_input, node_secrets}

module _ (P : String → Type 0) where
  -- The texts of the map are all of one kind.
  abbrev pub IsWithin : Map String → Type 0
  IsWithin m = (key s : String) → m key ≡ some s → P s

  -- So are the variables of the container of a template.
  abbrev pub HasEnvironment : Body → Type 0
  HasEnvironment (run c) = IsWithin c.env
  HasEnvironment (dag tasks) = Unit {0}

  insert-IsWithin : (k s : String) (m : Map String) → P s → IsWithin m → IsWithin (insert k s m)
  insert-IsWithin k s m p h key t e = elim (Bool-cases (k == key)) [
    | inl same ↦ subst P (some-injective (rw same at e)) p
    | inr other ↦ h key t (rw other at e)
  ]

  at_key-in : P "" → (m : Map String) (k : String) → IsWithin m → P (at_key m k)
  at_key-in p m k h = elim (Option-cases (m k)) [
    | inl nothing ↦ rw (at_key, nothing) p
    | inr (s, e) ↦ rw (at_key, e) (h k s e)
  ]

  pub input_secrets-IsWithin :
      (inputs : List Data) (m : Map String) → IsWithin m → IsWithin (input_secrets inputs m)
  input_secrets-IsWithin inputs m h key s e = elim (Bool-cases (has_input inputs key)) [
    | inl is ↦ h key s (rw is at e)
    | inr other ↦ cc
  ]

  pub node_secrets-IsWithin :
      P ""
      → (inputs : List Data) (mappings : List Edge) (m given : Map String) → IsWithin m
      → IsWithin given
      → IsWithin (node_secrets inputs mappings m given)
  unfolding node_secrets
  node_secrets-IsWithin p inputs [] m given h g = g
  node_secrets-IsWithin p inputs (e ∷ mappings) m given h g =
      let more = node_secrets-IsWithin p inputs mappings m in
      elim (Option-cases (check_input_type inputs e.source.port)) [
        | inl nothing ↦ rw (node_secrets, nothing) (more given h g)
        | inr (t, found) ↦ elim (Bool-cases (t == "env_secret")) [
          | inl is ↦
              rw (node_secrets, found, is)
                (more (insert e.target.port (at_key m e.source.port) given) h (
                  insert-IsWithin e.target.port (at_key m e.source.port) given
                    (at_key-in p m e.source.port h) g))
          | inr other ↦ rw (node_secrets, found, other) (more given h g)
        ]
      ]

  add_secrets-IsWithin :
      P ""
      → (id : String) (m : Map String) (inputs : List Data) (mappings : List Edge)
        (given : Map String)
      → IsWithin m
      → IsWithin given
      → IsWithin (add_secrets id m inputs mappings given)
  unfolding add_secrets
  add_secrets-IsWithin p id m inputs [] given h g = g
  add_secrets-IsWithin p id m inputs (e ∷ mappings) given h g =
      let more = add_secrets-IsWithin p id m inputs mappings in
      elim (Bool-cases (maps_secret id inputs e)) [
        | inl is ↦
            rw (add_secrets, is)
              (more (insert e.target.port (at_key m e.source.port) given) h (
                insert-IsWithin e.target.port (at_key m e.source.port) given
                  (at_key-in p m e.source.port h) g))
        | inr other ↦ rw (add_secrets, other) (more given h g)
      ]

  pub get_node_secret_map-IsWithin :
      P ""
      → (id : String) (m : Map String) (inputs : List Data) (mappings : List Edge) → IsWithin m
      → IsWithin (get_node_secret_map id m inputs mappings)
  unfolding get_node_secret_map
  get_node_secret_map-IsWithin p id m inputs mappings h =
      add_secrets-IsWithin p id m inputs mappings m h h

  module _ {V : Type 0} (lib : Library V) where
    pub add_brick-environment :
        (name : String) (k : Brick) (outputs inputs : Ports) (secrets : Map String)
        (volumes : Map V) (t : Template)
        → add_brick lib name k outputs inputs secrets volumes ≡ ok t
        → IsWithin secrets
        → HasEnvironment t.body
    unfolding add_brick
    add_brick-environment name k outputs inputs secrets volumes t e h =
        let (mounts, _, e₁) =
          >>=-eq-ok
            (wrap "Cannot add brick"
              (get_container_volumes lib.volume_name lib.join_path volumes k.args))
            _ e in
        let (container, _, e₂) = >>=-eq-ok (container_of k.container) _ e₁ in
        let (args, _, same) =
          >>=-eq-ok (wrap "Cannot add brick" (get_container_args k.args)) _ e₂ in
        subst (λ (x : Template). HasEnvironment x.body) (ok-injective same) h

    pub add_graph-environment :
        (name : String) (ns : Nodes) (edges ins outs : List Edge) (outputs inputs : Ports)
        (t : Template)
        → add_graph lib name ns edges ins outs outputs inputs ≡ ok t
        → HasEnvironment t.body
    unfolding add_graph
    add_graph-environment name ns edges ins outs outputs inputs t e =
        let (tasks, _, same) = >>=-eq-ok (graph_tasks lib inputs edges ins ns) _ e in
        subst (λ (x : Template). HasEnvironment x.body) (ok-injective same) tt

    pub add_map-environment :
        (name : String) (content : NodeContent) (ins outs : List Edge) (outputs inputs : Ports)
        (t : Template)
        → add_map lib name content ins outs outputs inputs ≡ ok t
        → HasEnvironment t.body
    unfolding add_map
    add_map-environment name content ins outs outputs inputs t e =
        let (cmp, _, k₁) = >>=-eq-ok (node_component content) _ e in
        let (args, _, same) =
          >>=-eq-ok (add_mappings lib inputs (base cmp).inputs ins no_inputs) _ k₁ in
        subst (λ (x : Template). HasEnvironment x.body) (ok-injective same) tt

    pub add_conditional-environment :
        (name : String) (x : Expression) (c d : NodeContent) (ins outs : List Edge)
        (outputs inputs : Ports) (t : Template)
        → add_conditional lib name x c d ins outs outputs inputs ≡ ok t
        → HasEnvironment t.body
    unfolding add_conditional
    add_conditional-environment name x c d ins outs outputs inputs t e =
        let (yes_node, _, k₁) = >>=-eq-ok (node_component c) _ e in
        let (no_node, _, k₂) = >>=-eq-ok (false_component yes_node d) _ k₁ in
        let (args, _, same) =
          >>=-eq-ok (add_mappings lib inputs (base yes_node).inputs ins no_inputs) _ k₂ in
        subst (λ (y : Template). HasEnvironment y.body) (ok-injective same) tt
