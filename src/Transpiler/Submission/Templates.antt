-- ===== src/Transpiler/Submission/Templates.antt =====
-- The templates of the workflow of a job: transpiler/transpiler.go, `RemoveDuplicatedTemplates` of
-- transpiler/argo.go and `GetArgoWorkflow`.
use mathlib.Core.Path.{subst}
use mathlib.Core.Bool.{false≢true}
use flowify_workflows_server.Common.{
  All-map, arith, ℕ, false, String, List, [], ◌∷◌, Option, none, some, All, ◌≡◌, refl, sym, ◌∙◌,
  inl, inr, Bool-cases, ◌==◌, string_eq, contains, eq_iff, if◌then◌else◌,
}
use flowify_workflows_server.Common.Result.{ok, >=>-eq-ok, some-ok-injective}
use flowify_workflows_server.Models.{Job, base}
use flowify_workflows_server.Transpiler.{empty}
use flowify_workflows_server.Transpiler.Argo.{Template, ArgoWorkflow, Library, Task}
use flowify_workflows_server.Transpiler.Traverse.{traverse_component}
use flowify_workflows_server.Transpiler.Traverse.Made.{Names, RunsIn, IsClosed, tasks_of}
use flowify_workflows_server.Transpiler.Traverse.Closed.{component-IsClosed}
use flowify_workflows_server.Transpiler.Submission.{
  unseen_templates, remove_duplicated_templates, secret_values, job_volumes, job_arguments,
  parse_component_tree, get_argo_workflow,
}

-- The first template with the name.
unfoldable pub find_template : List Template → String → Option Template
find_template [] name = none
find_template (t ∷ ts) name =
    let rest = find_template ts name in if t.name == name then some t else rest

-- No two templates have the same name.
abbrev pub AreDistinct : List Template → Type 0
AreDistinct [] = Unit {0}
AreDistinct (t ∷ ts) = ¬ (Names ts t.name) × AreDistinct ts

unseen-Names :
    (ts : List Template) (keys : List String) (name : String)
    → Names (unseen_templates keys ts) name
    → contains keys name ≡ false
unfolding unseen_templates contains
unseen-Names [] keys name m = elim m [ ]
unseen-Names (t ∷ ts) keys name m = elim (Bool-cases (contains keys t.name)) [
  | inl seen ↦ unseen-Names ts keys name (rw (unseen_templates, seen) at m)
  | inr new ↦
      let there : Names (t ∷ unseen_templates (t.name ∷ keys) ts) name =
        rw (unseen_templates, new) at m in
      elim there [
        | inl here ↦ subst (λ x. contains keys x ≡ false) here new
        | inr later ↦ let out = unseen-Names ts (t.name ∷ keys) name later in ground arith
      ]
]

unseen-AreDistinct :
    (ts : List Template) (keys : List String) → AreDistinct (unseen_templates keys ts)
unfolding unseen_templates contains
unseen-AreDistinct [] keys = tt
unseen-AreDistinct (t ∷ ts) keys = elim (Bool-cases (contains keys t.name)) [
  | inl seen ↦ rw seen (unseen-AreDistinct ts keys)
  | inr new ↦
      let fresh : ¬ (Names (unseen_templates (t.name ∷ keys) ts) t.name) = λ m.
        let out = unseen-Names ts (t.name ∷ keys) t.name m in
        false≢true (sym (rw (contains, (eq_iff t.name t.name).1 refl) at out)) in
      let both : AreDistinct (t ∷ unseen_templates (t.name ∷ keys) ts) =
        (fresh, unseen-AreDistinct ts (t.name ∷ keys)) in
      rw new both
]

unseen-find :
    (ts : List Template) (keys : List String) (name : String)
    → contains keys name ≡ false
    → find_template (unseen_templates keys ts) name ≡ find_template ts name
unfolding unseen_templates find_template contains
unseen-find [] keys name h = refl
unseen-find (t ∷ ts) keys name h = elim (Bool-cases (t.name == name)) [
  | inl same ↦
      let new = subst (λ x. contains keys x ≡ false) (sym ((eq_iff t.name name).0 same)) h in
      rw (unseen_templates, new, same) refl
  | inr other ↦ elim (Bool-cases (contains keys t.name)) [
    | inl seen ↦ rw (unseen_templates, seen, other) (unseen-find ts keys name h)
    | inr new ↦
        rw (unseen_templates, new, other)
          (unseen-find ts (t.name ∷ keys) name (rw (contains, other) h))
  ]
]

unseen-All :
    (P : Template → Type 0) (ts : List Template) (keys : List String)
    → All P ts
    → All P (unseen_templates keys ts)
unfolding unseen_templates
unseen-All P [] keys h = tt
unseen-All P (t ∷ ts) keys (h, hs) = elim (Bool-cases (contains keys t.name)) [
  | inl seen ↦ rw seen (unseen-All P ts keys hs)
  | inr new ↦
      let both : All P (t ∷ unseen_templates (t.name ∷ keys) ts) =
        (h, unseen-All P ts (t.name ∷ keys) hs) in
      rw new both
]

-- Of the templates with one name, the first one is kept and the others are dropped: no two that
-- are kept have the same name, and the first template with each name is still found.
pub remove_duplicated_templates_lem :
    (templates : List Template)
    → AreDistinct (remove_duplicated_templates templates)
      × ((name : String)
          → find_template (remove_duplicated_templates templates) name
            ≡ find_template templates name)
unfolding remove_duplicated_templates contains
remove_duplicated_templates_lem templates =
    (unseen-AreDistinct templates [], λ name. unseen-find templates [] name refl)

-- A template that is dropped has the name of one that is kept, or a name that was seen before.
unseen-keeps :
    (ts : List Template) (keys : List String) (name : String)
    → contains keys name ≡ false
    → Names ts name
    → Names (unseen_templates keys ts) name
unfolding unseen_templates contains
unseen-keeps [] keys name new m = m
unseen-keeps (t ∷ ts) keys name new m = elim (Bool-cases (t.name == name)) [
  | inl same ↦
      let named = (eq_iff t.name name).0 same in
      let first = subst (λ x. contains keys x ≡ false) (sym named) new in
      rw (unseen_templates, first) (inl named)
  | inr other ↦
      let later : Names ts name = elim m [
        | inl here ↦ absurd (false≢true (sym other ∙ (eq_iff t.name name).1 here))
        | inr there ↦ there
      ] in
      elim (Bool-cases (contains keys t.name)) [
        | inl seen ↦ rw (unseen_templates, seen) (unseen-keeps ts keys name new later)
        | inr first ↦
            rw (unseen_templates, first)
              (inr (unseen-keeps ts (t.name ∷ keys) name (rw (contains, other) new) later))
      ]
]

module _ (ts : List Template) where
  pub removed-All : (P : Template → Type 0) → All P ts → All P (remove_duplicated_templates ts)
  unfolding remove_duplicated_templates
  removed-All P h = unseen-All P ts [] h

  removed-Names : (name : String) → Names ts name → Names (remove_duplicated_templates ts) name
  unfolding remove_duplicated_templates contains
  removed-Names name m = unseen-keeps ts [] name refl m

  removed-IsClosed : IsClosed ts → IsClosed (remove_duplicated_templates ts)
  removed-IsClosed h = removed-All (RunsIn (remove_duplicated_templates ts)) (
      All-map (λ t runs. All-map (λ (k : Task). removed-Names k.template) (tasks_of t.body) runs) ts
        h)

-- The entrypoint is a template, every task of every template runs a template, and no two templates
-- have the same name.
abbrev pub IsRunnable : {V : Type 0} → ArgoWorkflow V → Type 0
IsRunnable awf =
    Names awf.templates awf.entrypoint × IsClosed awf.templates × AreDistinct awf.templates

module _ {V : Type 0} (lib : Library V) where
  -- The workflow that is made of a job can be run: its entrypoint is one of its templates, every
  -- task of every template runs one of them, and no two of them have the same name.
  pub get_argo_workflow-IsClosed :
      (fuel : ℕ) (job : Job) (awf : ArgoWorkflow V)
      → get_argo_workflow lib fuel job ≡ some (ok awf)
      → IsRunnable awf
  unfolding get_argo_workflow parse_component_tree
  get_argo_workflow-IsClosed fuel job awf e =
      let wf = job.workflow in
      let inputs = (base wf.component).inputs in
      let (secrets, _, e₁) = >=>-eq-ok (some (secret_values inputs job.input_values empty)) _ e in
      let (volumes, _, e₂) =
        >=>-eq-ok (some (job_volumes lib job.input_values inputs empty)) _ e₁ in
      let (tree, parsed, e₃) = >=>-eq-ok (parse_component_tree lib fuel wf secrets volumes) _ e₂ in
      let (ps, _, same) = >=>-eq-ok (some (job_arguments job.input_values inputs [])) _ e₃ in
      let (ts, traversed, made) =
        >=>-eq-ok (traverse_component lib fuel wf.component secrets volumes) _ parsed in
      let tree_closed =
        subst (λ (x : ArgoWorkflow V). IsClosed x.templates × Names x.templates x.entrypoint)
          (some-ok-injective made)
          (component-IsClosed lib fuel wf.component secrets volumes ts traversed) in
      let (closed, named) = tree_closed in
      let whole : Names (remove_duplicated_templates tree.templates) tree.entrypoint
          × IsClosed (remove_duplicated_templates tree.templates)
          × AreDistinct (remove_duplicated_templates tree.templates) =
        (
          removed-Names tree.templates tree.entrypoint named,
          removed-IsClosed tree.templates closed,
          (remove_duplicated_templates_lem tree.templates).0,
        ) in
      subst IsRunnable (some-ok-injective same) whole
