-- ===== src/Storage/References/Resolution.antt =====
-- What a resolved component is: no reference is left in it, and resolving it again changes nothing.
use mathlib.Core.Path.{subst}
use flowify_workflows_server.Common.{ℕ, zero, suc, some, ◌≡◌, refl, sym, ap}
use flowify_workflows_server.Common.Result.{Result, ok, Run, >=>-eq-ok, some-ok-injective}
use flowify_workflows_server.Models.{
  Component, component, base, Implementation, no_implementation, any, brick, graph, map,
  conditional, NodeContent, unset, inline, reference, versioned, Nodes, end, node,
}
use flowify_workflows_server.Models.Versions.{CRefVersion}
use flowify_workflows_server.Storage.References.{
  dref_component, dref_node, traverse_nodes, traverse_implementation, traverse_component,
  dereference_component,
}

-- A component in which, down to a depth, each node is a component in line.
abbrev pub AllInline : (Component → Type 0) → Nodes → Type 0
AllInline P end = Unit
AllInline P (node id (inline c) userdata rest) = P c × AllInline P rest
AllInline P (node id (reference uid) userdata rest) = ⊥
AllInline P (node id (versioned cref) userdata rest) = ⊥
AllInline P (node id unset userdata rest) = ⊥

abbrev pub ResolvedIn : (Component → Type 0) → Implementation → Type 0
ResolvedIn P (graph nodes e i o) = AllInline P nodes
ResolvedIn P (map (inline c) i o) = P c
ResolvedIn P (map (reference uid) i o) = ⊥
ResolvedIn P (map (versioned cref) i o) = ⊥
ResolvedIn P (map unset i o) = ⊥
ResolvedIn P (brick k) = Unit
ResolvedIn P no_implementation = ⊥
ResolvedIn P any = ⊥
ResolvedIn P (conditional x t f i o) = ⊥

pub IsResolved : ℕ → Component → Type 0
IsResolved zero c = ⊥
IsResolved (suc depth) (component b implementation) = ResolvedIn (IsResolved depth) implementation

module _ (get : CRefVersion → Result Component) where
  traverse_nodes-AllInline :
      (traverse : Component → Run Component) (P : Component → Type 0)
      → ((c r : Component) → traverse c ≡ some (ok r) → P r)
      → (nodes new_nodes : Nodes) → traverse_nodes get traverse nodes ≡ some (ok new_nodes)
      → AllInline P new_nodes
  unfolding traverse_nodes
  traverse_nodes-AllInline traverse P h end new_nodes e =
      subst (AllInline P) (some-ok-injective e) tt
  traverse_nodes-AllInline traverse P h (node id content userdata rest) new_nodes e =
      let ((sub, u), _, e₁) = >=>-eq-ok (some (dref_node get content userdata)) _ e in
      let (nc, resolved, e₂) = >=>-eq-ok (traverse sub) _ e₁ in
      let (ns, others, e₃) = >=>-eq-ok (traverse_nodes get traverse rest) _ e₂ in
      subst (AllInline P) (some-ok-injective e₃)
        (h sub nc resolved, traverse_nodes-AllInline traverse P h rest ns others)

  -- What a traversal returns has no reference to a stored component in it, at any depth.
  pub traverse_component-IsResolved :
      (fuel : ℕ) (c r : Component) → traverse_component get fuel c ≡ some (ok r) → IsResolved fuel r
  unfolding traverse_component traverse_implementation IsResolved
  traverse_component-IsResolved zero c r e = cc
  traverse_component-IsResolved (suc fuel) (component b (graph nodes es i o)) r e =
      let (ns, all, same) =
        >=>-eq-ok (traverse_nodes get (traverse_component get fuel) nodes) _ e in
      subst (IsResolved (suc fuel)) (some-ok-injective same) (
        traverse_nodes-AllInline (traverse_component get fuel) (IsResolved fuel)
          (traverse_component-IsResolved fuel) nodes ns all)
  traverse_component-IsResolved (suc fuel) (component b (map content i o)) r e =
      let (sub, _, e₁) = >=>-eq-ok (some (dref_component get content)) _ e in
      let (nc, resolved, same) = >=>-eq-ok (traverse_component get fuel sub) _ e₁ in
      subst (IsResolved (suc fuel)) (some-ok-injective same)
        (traverse_component-IsResolved fuel sub nc resolved)
  traverse_component-IsResolved (suc fuel) (component b (brick k)) r e =
      subst (IsResolved (suc fuel)) (some-ok-injective e) tt
  traverse_component-IsResolved (suc fuel) (component b no_implementation) r e = cc
  traverse_component-IsResolved (suc fuel) (component b any) r e = cc
  traverse_component-IsResolved (suc fuel) (component b (conditional x t f i o)) r e = cc

  traverse_nodes-again :
      (traverse : Component → Run Component) (P : Component → Type 0)
      → ((c : Component) → P c → traverse c ≡ some (ok c))
      → (nodes : Nodes) → AllInline P nodes
      → traverse_nodes get traverse nodes ≡ some (ok nodes)
  unfolding traverse_nodes dref_node
  traverse_nodes-again traverse P h end all = refl
  traverse_nodes-again traverse P h (node id (inline c) userdata rest) all =
      rw (h c all.0, traverse_nodes-again traverse P h rest all.1)
  traverse_nodes-again traverse P h (node id (reference uid) userdata rest) all = elim all [ ]
  traverse_nodes-again traverse P h (node id (versioned cref) userdata rest) all = elim all [ ]
  traverse_nodes-again traverse P h (node id unset userdata rest) all = elim all [ ]

  -- A component without references is returned as it is, whatever the storage holds.
  pub traverse_component-resolved :
      (depth : ℕ) (c : Component)
      → IsResolved depth c
      → traverse_component get depth c ≡ some (ok c)
  unfolding traverse_component traverse_implementation IsResolved dref_component
  traverse_component-resolved zero c h = elim h [ ]
  traverse_component-resolved (suc depth) (component b (graph nodes es i o)) h = rw (
      traverse_nodes-again (traverse_component get depth) (IsResolved depth)
        (traverse_component-resolved depth) nodes h)
  traverse_component-resolved (suc depth) (component b (map (inline c) i o)) h =
      rw (traverse_component-resolved depth c h)
  traverse_component-resolved (suc depth) (component b (map (reference uid) i o)) h = elim h [ ]
  traverse_component-resolved (suc depth) (component b (map (versioned cref) i o)) h = elim h [ ]
  traverse_component-resolved (suc depth) (component b (map unset i o)) h = elim h [ ]
  traverse_component-resolved (suc depth) (component b (brick k)) h = refl
  traverse_component-resolved (suc depth) (component b no_implementation) h = elim h [ ]
  traverse_component-resolved (suc depth) (component b any) h = elim h [ ]
  traverse_component-resolved (suc depth) (component b (conditional x t f i o)) h = elim h [ ]

-- A component that was resolved once is resolved: resolving it again, with the storage in any
-- later state, returns it as it is.
pub dereference_component-again :
    (get later : CRefVersion → Result Component) (fuel : ℕ) (cmp : NodeContent) (r : Component)
    → dereference_component get fuel cmp ≡ some (ok r)
    → dereference_component later fuel (inline r) ≡ some (ok r)
unfolding dereference_component dref_component
dereference_component-again get later fuel cmp r e =
    let (c, _, resolved) = >=>-eq-ok (some (dref_component get cmp)) _ e in
    traverse_component-resolved later fuel r (traverse_component-IsResolved get fuel c r resolved)

-- Resolution keeps the metadata, the type and the ports of the component.
pub traverse_component-base :
    (get : CRefVersion → Result Component) (fuel : ℕ) (c r : Component)
    → traverse_component get fuel c ≡ some (ok r)
    → base r ≡ base c
unfolding traverse_component traverse_implementation
traverse_component-base get zero c r e = cc
traverse_component-base get (suc fuel) (component b (graph nodes es i o)) r e =
    let (ns, all, same) = >=>-eq-ok (traverse_nodes get (traverse_component get fuel) nodes) _ e in
    ap base (sym (some-ok-injective same))
traverse_component-base get (suc fuel) (component b (map content i o)) r e =
    let (sub, _, e₁) = >=>-eq-ok (some (dref_component get content)) _ e in
    let (nc, resolved, same) = >=>-eq-ok (traverse_component get fuel sub) _ e₁ in
    ap base (sym (some-ok-injective same))
traverse_component-base get (suc fuel) (component b (brick k)) r e =
    ap base (sym (some-ok-injective e))
traverse_component-base get (suc fuel) (component b no_implementation) r e = cc
traverse_component-base get (suc fuel) (component b any) r e = cc
traverse_component-base get (suc fuel) (component b (conditional x t f i o)) r e = cc
