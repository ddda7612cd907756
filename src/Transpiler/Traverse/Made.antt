-- ===== src/Transpiler/Traverse/Made.antt =====
-- The template of each kind of component: its name, and the templates that its tasks run.
use flowify_workflows_server.Transpiler.Arguments.{
  expression_to_string, get_container_args, get_container_volumes,
}
use mathlib.Core.Path.{subst}
use native.Mathlib.Omega.{arith}
use flowify_workflows_server.Common.{
  Any-right, Any-left, String, List, [], ◌∷◌, ◌++◌, Option, some, All, Any, All-append, All-map,
  ◌≡◌, refl, sym, ap, inl, inr,
}
use flowify_workflows_server.Common.Result.{ok, wrap, >>=-eq-ok, ok-injective, ok≢err}
use flowify_workflows_server.Models.{
  Component, base, NodeContent, unset, inline, reference, versioned, Nodes, end, node, Edge, Brick,
  Expression,
}
use flowify_workflows_server.Transpiler.{Map}
use flowify_workflows_server.Transpiler.Argo.{Ports, Task, Body, run, dag, Template, Library}
use flowify_workflows_server.Transpiler.Tasks.{
  TaskInputs, add_edges, no_inputs, add_node_mappings, add_mappings, node_component, node_task,
  false_component,
}
use flowify_workflows_server.Transpiler.Templates.{
  container_of, graph_tasks, false_task, add_brick, add_graph, add_map, add_conditional,
}

-- A template has the name.
abbrev pub Names : List Template → String → Type 0
Names ts name = Any (λ t. t.name ≡ name) ts

abbrev pub tasks_of : Body → List Task
tasks_of (run c) = []
tasks_of (dag tasks) = tasks

-- Each task of the template runs a template of the list.
abbrev pub RunsIn : List Template → Template → Type 0
RunsIn ts t = All (λ (k : Task). Names ts k.template) (tasks_of t.body)

abbrev pub IsClosed : List Template → Type 0
IsClosed ts = All (RunsIn ts) ts

module _ (ts us : List Template) where
  pub RunsIn-left : (t : Template) → RunsIn ts t → RunsIn (ts ++ us) t
  RunsIn-left t h = All-map (λ k. Any-left _ ts us) (tasks_of t.body) h

  pub RunsIn-right : (t : Template) → RunsIn us t → RunsIn (ts ++ us) t
  RunsIn-right t h = All-map (λ k. Any-right _ ts us) (tasks_of t.body) h

  pub IsClosed-append : IsClosed ts → IsClosed us → IsClosed (ts ++ us)
  IsClosed-append h k =
      All-append (RunsIn (ts ++ us)) ts us (All-map RunsIn-left ts h) (All-map RunsIn-right us k)

pub IsClosed-cons :
    (t : Template) (ts : List Template) → IsClosed ts → RunsIn (t ∷ ts) t → IsClosed (t ∷ ts)
IsClosed-cons t ts h runs = (runs, All-map (λ u r. All-map (λ k n. inr n) (tasks_of u.body) r) ts h)

module _ {V : Type 0} (lib : Library V) where
  -- The component in a node has a template.
  unfoldable pub NamesContent : List Template → NodeContent → Type 0
  NamesContent ts (inline cmp) = Names ts (lib.uid_text (base cmp).uid)
  NamesContent ts unset = Unit {0}
  NamesContent ts (reference uid) = Unit {0}
  NamesContent ts (versioned cref) = Unit {0}

  unfoldable pub NamesNodes : List Template → Nodes → Type 0
  unfolding NamesContent
  NamesNodes ts end = Unit {0}
  NamesNodes ts (node id content userdata rest) = NamesContent ts content × NamesNodes ts rest

  module _ (ts us : List Template) where
    pub NamesContent-left : (c : NodeContent) → NamesContent ts c → NamesContent (ts ++ us) c
    unfolding NamesContent
    NamesContent-left (inline cmp) h = Any-left _ ts us h
    NamesContent-left unset h = tt
    NamesContent-left (reference uid) h = tt
    NamesContent-left (versioned cref) h = tt

    pub NamesContent-right : (c : NodeContent) → NamesContent us c → NamesContent (ts ++ us) c
    unfolding NamesContent
    NamesContent-right (inline cmp) h = Any-right _ ts us h
    NamesContent-right unset h = tt
    NamesContent-right (reference uid) h = tt
    NamesContent-right (versioned cref) h = tt

    pub NamesNodes-right : (ns : Nodes) → NamesNodes us ns → NamesNodes (ts ++ us) ns
    unfolding NamesNodes
    NamesNodes-right end h = tt
    NamesNodes-right (node id content userdata rest) (h, k) =
        (NamesContent-right content h, NamesNodes-right rest k)

  named_component :
      (ts : List Template) (content : NodeContent) (cmp : Component)
      → node_component content ≡ ok cmp
      → NamesContent ts content
      → Names ts (lib.uid_text (base cmp).uid)
  unfolding NamesContent
  named_component ts (inline c) cmp e h =
      subst (λ x. Names ts (lib.uid_text (base x).uid)) (ok-injective e) h
  named_component ts unset cmp e h = absurd (ok≢err (sym e))
  named_component ts (reference uid) cmp e h = absurd (ok≢err (sym e))
  named_component ts (versioned cref) cmp e h = absurd (ok≢err (sym e))

  node_task-template :
      (inputs : Ports) (edges ins : List Edge) (n : String) (cmp : Component) (k : Task)
      → node_task lib inputs edges ins n cmp ≡ ok k
      → k.template ≡ lib.uid_text (base cmp).uid
  unfolding node_task
  node_task-template inputs edges ins n cmp k e =
      let (mapped, _, e₁) =
        >>=-eq-ok (add_node_mappings lib n inputs (base cmp).inputs ins no_inputs) _ e in
      let (t, _, same) = >>=-eq-ok (add_edges n cmp edges mapped) _ e₁ in
      ap (λ x. x.template) (sym (ok-injective same))

  graph_tasks-Names :
      (inputs : Ports) (edges ins : List Edge) (ns : Nodes) (ts : List Template) (tasks : List Task)
      → graph_tasks lib inputs edges ins ns ≡ ok tasks
      → NamesNodes ts ns
      → All (λ (k : Task). Names ts k.template) tasks
  unfolding graph_tasks NamesNodes
  graph_tasks-Names inputs edges ins end ts tasks e h =
      subst (All (λ (k : Task). Names ts k.template)) (ok-injective e) tt
  graph_tasks-Names inputs edges ins (node id content userdata rest) ts tasks e (h, hs) =
      let (cmp, e₁, k₁) = >>=-eq-ok (node_component content) _ e in
      let (k, e₂, k₂) = >>=-eq-ok (node_task lib inputs edges ins id cmp) _ k₁ in
      let (ks, e₃, same) = >>=-eq-ok (graph_tasks lib inputs edges ins rest) _ k₂ in
      subst (All (λ (x : Task). Names ts x.template)) (ok-injective same) (
        subst (Names ts) (sym (node_task-template inputs edges ins id cmp k e₂))
            (named_component ts content cmp e₁ h),
        graph_tasks-Names inputs edges ins rest ts ks e₃ hs,
      )

  -- A template that is made: its name, and what its tasks want.
  abbrev pub MadeAs : String → (List Template → Type 0) → Template → Type 0
  MadeAs name P t = (t.name ≡ name) × ((ts : List Template) → P ts → RunsIn ts t)

  pub add_graph-MadeAs :
      (name : String) (ns : Nodes) (edges ins outs : List Edge) (outputs inputs : Ports)
      (t : Template)
      → add_graph lib name ns edges ins outs outputs inputs ≡ ok t
      → MadeAs name (λ ts. NamesNodes ts ns) t
  unfolding add_graph MadeAs
  add_graph-MadeAs name ns edges ins outs outputs inputs t e =
      let (tasks, e₁, same) = >>=-eq-ok (graph_tasks lib inputs edges ins ns) _ e in
      subst (MadeAs name (λ ts. NamesNodes ts ns)) (ok-injective same)
        (refl, λ ts h. graph_tasks-Names inputs edges ins ns ts tasks e₁ h)

  pub add_map-MadeAs :
      (name : String) (content : NodeContent) (ins outs : List Edge) (outputs inputs : Ports)
      (t : Template)
      → add_map lib name content ins outs outputs inputs ≡ ok t
      → MadeAs name (λ ts. NamesContent ts content) t
  unfolding add_map MadeAs
  add_map-MadeAs name content ins outs outputs inputs t e =
      let (cmp, e₁, k₁) = >>=-eq-ok (node_component content) _ e in
      let (args, _, same) =
        >>=-eq-ok (add_mappings lib inputs (base cmp).inputs ins no_inputs) _ k₁ in
      subst (MadeAs name (λ ts. NamesContent ts content)) (ok-injective same)
        (refl, λ ts h. (named_component ts content cmp e₁ h, tt))

  pub add_brick-MadeAs :
      (name : String) (k : Brick) (outputs inputs : Ports) (secrets : Map String) (volumes : Map V)
      (t : Template)
      → add_brick lib name k outputs inputs secrets volumes ≡ ok t
      → MadeAs name (λ ts. Unit {0}) t
  unfolding add_brick MadeAs
  add_brick-MadeAs name k outputs inputs secrets volumes t e =
      let (mounts, _, e₁) =
        >>=-eq-ok
          (wrap "Cannot add brick"
            (get_container_volumes lib.volume_name lib.join_path volumes k.args))
          _ e in
      let (container, _, e₂) = >>=-eq-ok (container_of k.container) _ e₁ in
      let (args, _, same) = >>=-eq-ok (wrap "Cannot add brick" (get_container_args k.args)) _ e₂ in
      subst (MadeAs name (λ ts. Unit {0})) (ok-injective same) (refl, λ ts h. tt)

  false_component-inline :
      (yes_node c : Component) (f : Option Component)
      → false_component yes_node (inline c) ≡ ok f
      → some c ≡ f
  unfolding false_component
  false_component-inline yes_node c f e = ground arith

  false_task-Names :
      (ts : List Template) (yes_node : Component) (content : NodeContent) (f : Option Component)
      (t : TaskInputs) (text : String)
      → false_component yes_node content ≡ ok f
      → NamesContent ts content
      → All (λ (k : Task). Names ts k.template) (false_task lib f t text)
  unfolding false_component NamesContent
  false_task-Names ts yes_node unset f t text e h =
      subst (λ x. All (λ (k : Task). Names ts k.template) (false_task lib x t text))
        (ok-injective e) tt
  false_task-Names ts yes_node (reference uid) f t text e h = absurd (ok≢err (sym e))
  false_task-Names ts yes_node (versioned cref) f t text e h = absurd (ok≢err (sym e))
  false_task-Names ts yes_node (inline c) f t text e h =
      let same = false_component-inline yes_node c f e in
      let here : All (λ (k : Task). Names ts k.template) (false_task lib (some c) t text) =
        (h, tt) in
      subst (λ x. All (λ (k : Task). Names ts k.template) (false_task lib x t text)) same here

  pub add_conditional-MadeAs :
      (name : String) (x : Expression) (c d : NodeContent) (ins outs : List Edge)
      (outputs inputs : Ports) (t : Template)
      → add_conditional lib name x c d ins outs outputs inputs ≡ ok t
      → MadeAs name (λ ts. NamesContent ts c × NamesContent ts d) t
  unfolding add_conditional MadeAs
  add_conditional-MadeAs name x c d ins outs outputs inputs t e =
      let (yes_node, e₁, k₁) = >>=-eq-ok (node_component c) _ e in
      let (no_node, e₂, k₂) = >>=-eq-ok (false_component yes_node d) _ k₁ in
      let (args, _, same) =
        >>=-eq-ok (add_mappings lib inputs (base yes_node).inputs ins no_inputs) _ k₂ in
      subst (MadeAs name (λ ts. NamesContent ts c × NamesContent ts d)) (ok-injective same) (
        refl,
        λ ts (h, k). (
          named_component ts c yes_node e₁ h,
          false_task-Names ts yes_node d no_node args (expression_to_string x) e₂ k,
        ),
      )

  -- A template in front of closed ones, when what its tasks want is among them.
  pub MadeAs-IsClosed :
      (name : String) (P : List Template → Type 0) (t : Template) (ts : List Template)
      → MadeAs name P t
      → P (t ∷ ts)
      → IsClosed ts
      → IsClosed (t ∷ ts) × Names (t ∷ ts) name
  unfolding MadeAs
  MadeAs-IsClosed name P t ts (named, runs) wanted h =
      (IsClosed-cons t ts h (runs (t ∷ ts) wanted), inl named)
