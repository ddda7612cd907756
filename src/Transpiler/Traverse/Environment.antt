-- ===== src/Transpiler/Traverse/Environment.antt =====
-- The secrets in the environment of the containers of a component's templates.
use mathlib.Core.Path.{subst}
use flowify_workflows_server.Common.{
  ℕ, String, List, none, some, All, All-append, ◌≡◌, sym, inl, inr, Bool-cases, Option-cases,
  string_eq,
}
use flowify_workflows_server.Common.Result.{
  ok, wrap, >=>-eq-ok, wrap-eq-ok, ok≢err, some-injective, some-ok-injective,
}
use flowify_workflows_server.Models.{
  Component, component, base, ComponentBase, Implementation, no_implementation, any, brick, graph,
  map, conditional, NodeContent, unset, inline, reference, versioned, Nodes, end, node, Edge,
}
use flowify_workflows_server.Models.Versions.{is_zero}
use flowify_workflows_server.Transpiler.{Map, empty, get_node_secret_map, get_connected_volume_map}
use flowify_workflows_server.Transpiler.Argo.{Ports, Template, Library}
use flowify_workflows_server.Transpiler.Templates.{add_brick, add_graph, add_map, add_conditional}
use flowify_workflows_server.Transpiler.Traverse.Secrets.{
  IsWithin, HasEnvironment, get_node_secret_map-IsWithin, input_secrets-IsWithin,
  node_secrets-IsWithin, add_brick-environment, add_graph-environment, add_map-environment,
  add_conditional-environment,
}
use flowify_workflows_server.Transpiler.Traverse.{
  no_ports, input_ports, output_ports, input_secrets, node_secrets, node_volumes, scope_volumes,
  traverse_component, traverse_implementation, traverse_content, traverse_option, traverse_nodes,
  traverse_node,
}

module _ {V : Type 0} (lib : Library V) (fuel : ℕ) (P : String → Type 0) (p : P "") where
  abbrev pub AllWithin : List Template → Type 0
  AllWithin ts = All (λ (t : Template). HasEnvironment P t.body) ts

  mutual
    unfolding traverse_component

    -- When the secrets that a component is given are of one kind, and the empty text is too, so are
    -- the variables of all the containers in its templates.
    pub traverse_component-environment :
        (c : Component) (s : Map String) (v : Map V) (ts : List Template)
        → traverse_component lib fuel c s v ≡ some (ok ts)
        → IsWithin P s
        → AllWithin ts
    traverse_component-environment (component b i) s v ts e h = elim (Bool-cases (is_zero b.uid)) [
      | inl z ↦ absurd (ok≢err (sym (some-injective (rw z at e))))
      | inr nz ↦
          let (inputs, _, e₁) = >=>-eq-ok (some (input_ports s b.inputs no_ports)) _ (rw nz at e) in
          implementation-environment i b (output_ports b.outputs no_ports) inputs s v ts e₁ h
    ]

    implementation-environment :
        (i : Implementation) (b : ComponentBase) (outputs inputs : Ports) (s : Map String)
        (v : Map V) (ts : List Template)
        → traverse_implementation lib fuel i b outputs inputs s v ≡ some (ok ts)
        → IsWithin P s
        → AllWithin ts
    implementation-environment (brick k) b outputs inputs s v ts e h =
        let secrets = input_secrets b.inputs s in
        let (t, made, same) =
          >=>-eq-ok
            (some (
              wrap "Cannot add node into argo workflow"
                (add_brick lib (lib.uid_text b.uid) k outputs inputs secrets v)))
            _ e in
        let built =
          add_brick-environment P lib (lib.uid_text b.uid) k outputs inputs secrets v t
            (wrap-eq-ok _ _ (some-injective made)) (input_secrets-IsWithin P b.inputs s h) in
        subst AllWithin (some-ok-injective same) (built, tt)
    implementation-environment (graph ns edges ins outs) b outputs inputs s v ts e h =
        let (t, made, e₁) =
          >=>-eq-ok
            (some (
              wrap "Cannot add node into argo workflow"
                (add_graph lib (lib.uid_text b.uid) ns edges ins outs outputs inputs)))
            _ e in
        let built =
          add_graph-environment P lib (lib.uid_text b.uid) ns edges ins outs outputs inputs t
            (wrap-eq-ok _ _ (some-injective made)) in
        let scope = scope_volumes b.inputs ins v (λ id. empty) in
        let (us, below, same) =
          >=>-eq-ok (traverse_nodes lib fuel ns ns edges ins b s scope) _ e₁ in
        subst AllWithin (some-ok-injective same)
          (built, nodes-environment ns ns edges ins b s scope us below h)
    implementation-environment (map c ins outs) b outputs inputs s v ts e h =
        let (t, made, e₁) =
          >=>-eq-ok
            (some (
              wrap "Cannot add node into argo workflow"
                (add_map lib (lib.uid_text b.uid) c ins outs outputs inputs)))
            _ e in
        let built =
          add_map-environment P lib (lib.uid_text b.uid) c ins outs outputs inputs t
            (wrap-eq-ok _ _ (some-injective made)) in
        let secrets = node_secrets b.inputs ins s s in
        let volumes = node_volumes b.inputs ins v empty in
        let (us, below, same) = >=>-eq-ok (traverse_content lib fuel c secrets volumes) _ e₁ in
        subst AllWithin (some-ok-injective same) (
          built,
          content-environment c secrets volumes us below
              (node_secrets-IsWithin P p b.inputs ins s s h h),
        )
    implementation-environment (conditional x c d ins outs) b outputs inputs s v ts e h =
        let (t, made, e₁) =
          >=>-eq-ok
            (some (
              wrap "Cannot add conditional node into argo workflow"
                (add_conditional lib (lib.uid_text b.uid) x c d ins outs outputs inputs)))
            _ e in
        let built =
          add_conditional-environment P lib (lib.uid_text b.uid) x c d ins outs outputs inputs t
            (wrap-eq-ok _ _ (some-injective made)) in
        let secrets = node_secrets b.inputs ins s s in
        let volumes = node_volumes b.inputs ins v empty in
        let given = node_secrets-IsWithin P p b.inputs ins s s h h in
        let (us, here, e₂) = >=>-eq-ok (traverse_content lib fuel c secrets volumes) _ e₁ in
        let (ws, there, same) = >=>-eq-ok (traverse_option lib fuel d secrets volumes) _ e₂ in
        subst AllWithin (some-ok-injective same) (
          built,
          All-append (λ (t : Template). HasEnvironment P t.body) us ws
              (content-environment c secrets volumes us here given)
              (option-environment d secrets volumes ws there given),
        )
    implementation-environment any b outputs inputs s v ts e h =
        absurd (ok≢err (sym (some-injective e)))
    implementation-environment no_implementation b outputs inputs s v ts e h =
        absurd (ok≢err (sym (some-injective e)))

    content-environment :
        (c : NodeContent) (s : Map String) (v : Map V) (ts : List Template)
        → traverse_content lib fuel c s v ≡ some (ok ts)
        → IsWithin P s
        → AllWithin ts
    content-environment (inline cmp) s v ts e h = traverse_component-environment cmp s v ts e h
    content-environment unset s v ts e h = absurd (ok≢err (sym (some-injective e)))
    content-environment (reference uid) s v ts e h = absurd (ok≢err (sym (some-injective e)))
    content-environment (versioned cref) s v ts e h = absurd (ok≢err (sym (some-injective e)))

    option-environment :
        (c : NodeContent) (s : Map String) (v : Map V) (ts : List Template)
        → traverse_option lib fuel c s v ≡ some (ok ts)
        → IsWithin P s
        → AllWithin ts
    option-environment (inline cmp) s v ts e h = traverse_component-environment cmp s v ts e h
    option-environment unset s v ts e h = subst AllWithin (some-ok-injective e) tt
    option-environment (reference uid) s v ts e h = absurd (ok≢err (sym (some-injective e)))
    option-environment (versioned cref) s v ts e h = absurd (ok≢err (sym (some-injective e)))

    nodes-environment :
        (ns all : Nodes) (edges ins : List Edge) (b : ComponentBase) (s : Map String)
        (scope : String → Map V) (ts : List Template)
        → traverse_nodes lib fuel ns all edges ins b s scope ≡ some (ok ts)
        → IsWithin P s
        → AllWithin ts
    nodes-environment end all edges ins b s scope ts e h = subst AllWithin (some-ok-injective e) tt
    nodes-environment (node id content userdata rest) all edges ins b s scope ts e h =
        let (us, e₁, k₁) =
          >=>-eq-ok (traverse_node lib fuel content id all edges ins b s scope) _ e in
        let (ws, e₂, same) =
          >=>-eq-ok (traverse_nodes lib fuel rest all edges ins b s scope) _ k₁ in
        subst AllWithin (some-ok-injective same) (
          All-append (λ (t : Template). HasEnvironment P t.body) us ws
            (node-environment content id all edges ins b s scope us e₁ h)
            (nodes-environment rest all edges ins b s scope ws e₂ h))

    node-environment :
        (c : NodeContent) (id : String) (all : Nodes) (edges ins : List Edge) (b : ComponentBase)
        (s : Map String) (scope : String → Map V) (ts : List Template)
        → traverse_node lib fuel c id all edges ins b s scope ≡ some (ok ts)
        → IsWithin P s
        → AllWithin ts
    node-environment (inline cmp) id all edges ins b s scope ts e h =
        elim (Option-cases (get_connected_volume_map scope all edges fuel id (base cmp).inputs)) [
          | inl out ↦ let impossible : none ≡ some (ok ts) = rw (traverse_node, out) at e in cc
          | inr (volumes, found) ↦
              traverse_component-environment cmp (get_node_secret_map id s b.inputs ins) volumes ts
                (rw (traverse_node, found) at e)
                (get_node_secret_map-IsWithin P p id s b.inputs ins h)
        ]
    node-environment unset id all edges ins b s scope ts e h =
        absurd (ok≢err (sym (some-injective e)))
    node-environment (reference uid) id all edges ins b s scope ts e h =
        absurd (ok≢err (sym (some-injective e)))
    node-environment (versioned cref) id all edges ins b s scope ts e h =
        absurd (ok≢err (sym (some-injective e)))
