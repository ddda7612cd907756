-- ===== src/Examples/References.antt =====
-- A graph that refers to a stored brick, and one that refers to itself.
use flowify_workflows_server.Common.Int.{pos}
use flowify_workflows_server.Common.{
  ℕ, suc, ◌+◌, ◌<◌, ◌≤◌, [], ◌==◌, nat_eq, if◌then◌else◌, none, some, ◌≡◌, refl, sym, ap, inl, inr,
  arith, Bool-cases,
}
use flowify_workflows_server.Common.Result.{Result, ok, err, not_found, ok≢err, ok-injective, Ended}
use flowify_workflows_server.Models.{
  Component, component, base, Implementation, no_implementation, any, brick, graph, map,
  conditional, NodeContent, unset, inline, reference, versioned, Nodes, end, node,
}
use flowify_workflows_server.Models.Versions.{CRefVersion}
use flowify_workflows_server.Storage.References.{
  dref_node, dref_component, traverse_component, dereference_component,
}
use flowify_workflows_server.Storage.References.Termination.{
  InNodes, IsChild, traverse_component-Ended, traverse_component_self,
}
use flowify_workflows_server.Storage.References.Resolution.{
  IsResolved, traverse_component-IsResolved, dereference_component-again, traverse_component-base,
}
use flowify_workflows_server.Examples.Updates.{old}

abbrev leaf : Component
leaf = component (base old) (brick (record { container = none; args = []; results = [] }))

-- A storage with one component, under the uid 5.
abbrev shelf : CRefVersion → Result Component
shelf cref = if cref.uid == 5 then ok leaf else err not_found

abbrev pair : NodeContent → Component
pair content =
    component (base old) (graph (node "a" (inline leaf) "x" (node "b" content "y" end)) [] [] [])

-- The nesting in line.
mutual
  rank : Component → ℕ
  rank (component b i) = rank_in i

  rank_in : Implementation → ℕ
  rank_in (graph nodes e i o) = suc (rank_nodes nodes)
  rank_in (map content i o) = suc (rank_content content)
  rank_in (brick k) = 0
  rank_in no_implementation = 0
  rank_in any = 0
  rank_in (conditional x t f i o) = 0

  rank_content : NodeContent → ℕ
  rank_content (inline c) = rank c
  rank_content (reference uid) = 0
  rank_content (versioned cref) = 0
  rank_content unset = 0

  rank_nodes : Nodes → ℕ
  rank_nodes end = 0
  rank_nodes (node id content userdata rest) = rank_content content + rank_nodes rest

rank-shelf : (cref : CRefVersion) (sub : Component) → shelf cref ≡ ok sub → rank sub ≡ 0
unfolding rank
rank-shelf cref sub e = elim (Bool-cases (cref.uid == 5)) [
  | inl found ↦ ap rank (sym (ok-injective (rw found at e)))
  | inr missing ↦ absurd (ok≢err (sym (rw missing at e)))
]

rank-child :
    (content : NodeContent) (sub : Component)
    → dref_component shelf content ≡ ok sub
    → rank sub ≤ rank_content content
unfolding rank dref_component
rank-child (inline c) sub e = let same : c ≡ sub = ok-injective e in rw same (omega arith)
rank-child (reference uid) sub e =
    let low = rank-shelf (record { version = pos 0; uid = uid }) sub e in omega arith
rank-child (versioned cref) sub e = let low = rank-shelf cref sub e in omega arith
rank-child unset sub e = absurd (ok≢err (sym e))

rank-nodes :
    (nodes : Nodes) (sub : Component) → InNodes shelf sub nodes → rank sub ≤ rank_nodes nodes
unfolding rank
rank-nodes end sub m = elim m [ ]
rank-nodes (node id content userdata rest) sub (inl e) =
    let low = rank-child content sub e in omega arith
rank-nodes (node id content userdata rest) sub (inr m) =
    let low = rank-nodes rest sub m in omega arith

rank-below : (c sub : Component) → IsChild shelf sub c → rank sub < rank c
unfolding rank
rank-below (component b (graph nodes e i o)) sub m = let low = rank-nodes nodes sub m in omega arith
rank-below (component b (map content i o)) sub m = let low = rank-child content sub m in omega arith
rank-below (component b no_implementation) sub m = elim m [ ]
rank-below (component b any) sub m = elim m [ ]
rank-below (component b (brick k)) sub m = elim m [ ]
rank-below (component b (conditional x t f i o)) sub m = elim m [ ]

pair-rank : rank (pair (reference 5)) < 2
unfolding rank
pair-rank = omega arith

traverse_component-Ended_example : Ended (traverse_component shelf 2 (pair (reference 5)))
traverse_component-Ended_example =
    traverse_component-Ended shelf rank rank-below 2 (pair (reference 5)) pair-rank

pair_resolved :
    traverse_component shelf 2 (pair (reference 5))
    ≡ some (
        ok (
          component
            (base old)
            (graph (node "a" (inline leaf) "x" (node "b" (inline leaf) "" end)) [] [] [])))
unfolding traverse_component dref_node
pair_resolved = refl

abbrev resolved : Component
resolved =
    component (base old)
      (graph (node "a" (inline leaf) "x" (node "b" (inline leaf) "" end)) [] [] [])

traverse_component-IsResolved_example : IsResolved 2 resolved
traverse_component-IsResolved_example =
    traverse_component-IsResolved shelf 2 (pair (reference 5)) resolved pair_resolved

traverse_component-base_example : base resolved ≡ base (pair (reference 5))
traverse_component-base_example =
    traverse_component-base shelf 2 (pair (reference 5)) resolved pair_resolved

pair_dereferenced : dereference_component shelf 2 (inline (pair (reference 5))) ≡ some (ok resolved)
unfolding dereference_component dref_node
pair_dereferenced = refl

dereference_component-again_example :
    dereference_component (λ cref. err not_found) 2 (inline resolved) ≡ some (ok resolved)
dereference_component-again_example =
    dereference_component-again shelf (λ cref. err not_found) 2 (inline (pair (reference 5)))
      resolved pair_dereferenced

-- A graph with itself as its first node.
abbrev knot : Component
knot =
    component (base old)
      (graph (node "a" (versioned (record { version = pos 1; uid = 7 })) "" end) [] [] [])

traverse_component_self_example : traverse_component (λ cref. ok knot) 100 knot ≡ none
traverse_component_self_example =
    traverse_component_self (λ cref. ok knot) (base old) "a" ""
      (record { version = pos 1; uid = 7 }) end [] [] [] 100 refl
