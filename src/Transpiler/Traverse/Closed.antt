-- ===== src/Transpiler/Traverse/Closed.antt =====
-- The templates of a component are closed: each task runs one of them.
use flowify_workflows_server.Transpiler.Traverse.Made.{
  IsClosed-append, NamesContent-left, add_conditional-MadeAs, NamesContent-right, add_map-MadeAs,
  NamesNodes-right, add_graph-MadeAs, MadeAs-IsClosed, add_brick-MadeAs, Names, IsClosed,
  NamesNodes, NamesContent,
}
use mathlib.Core.Path.{subst}
use flowify_workflows_server.Common.{
  ℕ, String, List, [], ◌∷◌, ◌++◌, none, some, ◌≡◌, sym, inl, inr, Bool-cases, Option-cases,
}
use flowify_workflows_server.Common.Result.{
  ok, wrap, >=>-eq-ok, wrap-eq-ok, ok≢err, some-injective, some-ok-injective,
}
use flowify_workflows_server.Models.{
  Component, component, base, ComponentBase, Implementation, no_implementation, any, brick, graph,
  map, conditional, NodeContent, unset, inline, reference, versioned, Nodes, end, node, Edge,
}
use flowify_workflows_server.Models.Versions.{is_zero}
use flowify_workflows_server.Transpiler.{empty, get_node_secret_map, Map, get_connected_volume_map}
use flowify_workflows_server.Transpiler.Argo.{Ports, Template, Library}
use flowify_workflows_server.Transpiler.Templates.{add_brick, add_graph, add_map, add_conditional}
use flowify_workflows_server.Transpiler.Traverse.{
  node_volumes, node_secrets, scope_volumes, input_secrets, input_ports, output_ports, no_ports,
  traverse_component, traverse_implementation, traverse_content, traverse_option, traverse_nodes,
  traverse_node,
}

module _ {V : Type 0} (lib : Library V) where
  module _ (fuel : ℕ) where
    mutual
      unfolding traverse_component NamesContent NamesNodes

      pub component-IsClosed :
          (c : Component) (s : Map String) (v : Map V) (ts : List Template)
          → traverse_component lib fuel c s v ≡ some (ok ts)
          → IsClosed ts × Names ts (lib.uid_text (base c).uid)
      component-IsClosed (component b i) s v ts e = elim (Bool-cases (is_zero b.uid)) [
        | inl z ↦ absurd (ok≢err (sym (some-injective (rw z at e))))
        | inr nz ↦
            let (inputs, _, e₁) =
              >=>-eq-ok (some (input_ports s b.inputs no_ports)) _ (rw nz at e) in
            implementation-IsClosed i b (output_ports b.outputs no_ports) inputs s v ts e₁
      ]

      implementation-IsClosed :
          (i : Implementation) (b : ComponentBase) (outputs inputs : Ports) (s : Map String)
          (v : Map V) (ts : List Template)
          → traverse_implementation lib fuel i b outputs inputs s v ≡ some (ok ts)
          → IsClosed ts × Names ts (lib.uid_text b.uid)
      implementation-IsClosed (brick k) b outputs inputs s v ts e =
          let name = lib.uid_text b.uid in
          let secrets = input_secrets b.inputs s in
          let (t, made, same) =
            >=>-eq-ok
              (some (
                wrap "Cannot add node into argo workflow"
                  (add_brick lib name k outputs inputs secrets v)))
              _ e in
          let built =
            add_brick-MadeAs lib name k outputs inputs secrets v t
              (wrap-eq-ok _ _ (some-injective made)) in
          subst (λ x. IsClosed x × Names x name) (some-ok-injective same)
            (MadeAs-IsClosed lib name (λ x. Unit {0}) t [] built tt tt)
      implementation-IsClosed (graph ns edges ins outs) b outputs inputs s v ts e =
          let name = lib.uid_text b.uid in
          let (t, made, e₁) =
            >=>-eq-ok
              (some (
                wrap "Cannot add node into argo workflow"
                  (add_graph lib name ns edges ins outs outputs inputs)))
              _ e in
          let built =
            add_graph-MadeAs lib name ns edges ins outs outputs inputs t
              (wrap-eq-ok _ _ (some-injective made)) in
          let scope = scope_volumes b.inputs ins v (λ id. empty) in
          let (us, below, same) =
            >=>-eq-ok (traverse_nodes lib fuel ns ns edges ins b s scope) _ e₁ in
          let (h, n) = nodes-IsClosed ns ns edges ins b s scope us below in
          subst (λ x. IsClosed x × Names x name) (some-ok-injective same)
            (MadeAs-IsClosed lib name (λ x. NamesNodes lib x ns) t us built
              (NamesNodes-right lib (t ∷ []) us ns n) h)
      implementation-IsClosed (map c ins outs) b outputs inputs s v ts e =
          let name = lib.uid_text b.uid in
          let (t, made, e₁) =
            >=>-eq-ok
              (some (
                wrap "Cannot add node into argo workflow"
                  (add_map lib name c ins outs outputs inputs)))
              _ e in
          let built =
            add_map-MadeAs lib name c ins outs outputs inputs t
              (wrap-eq-ok _ _ (some-injective made)) in
          let secrets = node_secrets b.inputs ins s s in
          let volumes = node_volumes b.inputs ins v empty in
          let (us, below, same) = >=>-eq-ok (traverse_content lib fuel c secrets volumes) _ e₁ in
          let (h, n) = content-IsClosed c secrets volumes us below in
          subst (λ x. IsClosed x × Names x name) (some-ok-injective same)
            (MadeAs-IsClosed lib name (λ x. NamesContent lib x c) t us built
              (NamesContent-right lib (t ∷ []) us c n) h)
      implementation-IsClosed (conditional x c d ins outs) b outputs inputs s v ts e =
          let name = lib.uid_text b.uid in
          let (t, made, e₁) =
            >=>-eq-ok
              (some (
                wrap "Cannot add conditional node into argo workflow"
                  (add_conditional lib name x c d ins outs outputs inputs)))
              _ e in
          let built =
            add_conditional-MadeAs lib name x c d ins outs outputs inputs t
              (wrap-eq-ok _ _ (some-injective made)) in
          let secrets = node_secrets b.inputs ins s s in
          let volumes = node_volumes b.inputs ins v empty in
          let (us, here, e₂) = >=>-eq-ok (traverse_content lib fuel c secrets volumes) _ e₁ in
          let (ws, there, same) = >=>-eq-ok (traverse_option lib fuel d secrets volumes) _ e₂ in
          let (h₁, n₁) = content-IsClosed c secrets volumes us here in
          let (h₂, n₂) = option-IsClosed d secrets volumes ws there in
          let both : NamesContent lib (us ++ ws) c × NamesContent lib (us ++ ws) d =
            (NamesContent-left lib us ws c n₁, NamesContent-right lib us ws d n₂) in
          let wanted : NamesContent lib (t ∷ (us ++ ws)) c × NamesContent lib (t ∷ (us ++ ws)) d = (
            NamesContent-right lib (t ∷ []) (us ++ ws) c both.0,
            NamesContent-right lib (t ∷ []) (us ++ ws) d both.1,
          ) in
          subst (λ y. IsClosed y × Names y name) (some-ok-injective same)
            (MadeAs-IsClosed lib name (λ y. NamesContent lib y c × NamesContent lib y d) t
              (us ++ ws) built wanted (IsClosed-append us ws h₁ h₂))
      implementation-IsClosed any b outputs inputs s v ts e =
          absurd (ok≢err (sym (some-injective e)))
      implementation-IsClosed no_implementation b outputs inputs s v ts e =
          absurd (ok≢err (sym (some-injective e)))

      content-IsClosed :
          (c : NodeContent) (s : Map String) (v : Map V) (ts : List Template)
          → traverse_content lib fuel c s v ≡ some (ok ts)
          → IsClosed ts × NamesContent lib ts c
      content-IsClosed (inline cmp) s v ts e = component-IsClosed cmp s v ts e
      content-IsClosed unset s v ts e = absurd (ok≢err (sym (some-injective e)))
      content-IsClosed (reference uid) s v ts e = absurd (ok≢err (sym (some-injective e)))
      content-IsClosed (versioned cref) s v ts e = absurd (ok≢err (sym (some-injective e)))

      option-IsClosed :
          (c : NodeContent) (s : Map String) (v : Map V) (ts : List Template)
          → traverse_option lib fuel c s v ≡ some (ok ts)
          → IsClosed ts × NamesContent lib ts c
      option-IsClosed (inline cmp) s v ts e = component-IsClosed cmp s v ts e
      option-IsClosed unset s v ts e = (subst IsClosed (some-ok-injective e) tt, tt)
      option-IsClosed (reference uid) s v ts e = absurd (ok≢err (sym (some-injective e)))
      option-IsClosed (versioned cref) s v ts e = absurd (ok≢err (sym (some-injective e)))

      nodes-IsClosed :
          (ns all : Nodes) (edges ins : List Edge) (b : ComponentBase) (s : Map String)
          (scope : String → Map V) (ts : List Template)
          → traverse_nodes lib fuel ns all edges ins b s scope ≡ some (ok ts)
          → IsClosed ts × NamesNodes lib ts ns
      nodes-IsClosed end all edges ins b s scope ts e =
          (subst IsClosed (some-ok-injective e) tt, tt)
      nodes-IsClosed (node id content userdata rest) all edges ins b s scope ts e =
          let (ts₁, e₁, k₁) =
            >=>-eq-ok (traverse_node lib fuel content id all edges ins b s scope) _ e in
          let (ts₂, e₂, same) =
            >=>-eq-ok (traverse_nodes lib fuel rest all edges ins b s scope) _ k₁ in
          let (h₁, n₁) = node-IsClosed content id all edges ins b s scope ts₁ e₁ in
          let (h₂, n₂) = nodes-IsClosed rest all edges ins b s scope ts₂ e₂ in
          subst (λ x. IsClosed x × NamesNodes lib x (node id content userdata rest))
            (some-ok-injective same)
            (
              IsClosed-append ts₁ ts₂ h₁ h₂,
              (NamesContent-left lib ts₁ ts₂ content n₁, NamesNodes-right lib ts₁ ts₂ rest n₂),
            )

      node-IsClosed :
          (c : NodeContent) (id : String) (all : Nodes) (edges ins : List Edge) (b : ComponentBase)
          (s : Map String) (scope : String → Map V) (ts : List Template)
          → traverse_node lib fuel c id all edges ins b s scope ≡ some (ok ts)
          → IsClosed ts × NamesContent lib ts c
      node-IsClosed (inline cmp) id all edges ins b s scope ts e =
          elim (Option-cases (get_connected_volume_map scope all edges fuel id (base cmp).inputs)) [
            | inl out ↦ let impossible : none ≡ some (ok ts) = rw (traverse_node, out) at e in cc
            | inr (volumes, found) ↦
                component-IsClosed cmp (get_node_secret_map id s b.inputs ins) volumes ts
                  (rw (traverse_node, found) at e)
          ]
      node-IsClosed unset id all edges ins b s scope ts e = absurd (ok≢err (sym (some-injective e)))
      node-IsClosed (reference uid) id all edges ins b s scope ts e =
          absurd (ok≢err (sym (some-injective e)))
      node-IsClosed (versioned cref) id all edges ins b s scope ts e =
          absurd (ok≢err (sym (some-injective e)))
