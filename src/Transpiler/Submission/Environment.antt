-- ===== src/Transpiler/Submission/Environment.antt =====
-- transpiler/transpiler.go: where the variables of the containers of a job's workflow come from.
use mathlib.Core.Path.{subst}
use flowify_workflows_server.Common.{ℕ, String, [], some, All, Any, ◌≡◌, refl, ◌⊎◌, inl, inr}
use flowify_workflows_server.Common.Result.{ok, >=>-eq-ok, some-injective, some-ok-injective}
use flowify_workflows_server.Models.{Job, base}
use flowify_workflows_server.Transpiler.{empty}
use flowify_workflows_server.Transpiler.Argo.{Template, ArgoWorkflow, Library}
use flowify_workflows_server.Transpiler.Traverse.{traverse_component}
use flowify_workflows_server.Transpiler.Traverse.Secrets.{HasEnvironment}
use flowify_workflows_server.Transpiler.Traverse.Environment.{traverse_component-environment}
use flowify_workflows_server.Transpiler.Submission.{
  secret_values, job_volumes, job_arguments, parse_component_tree, get_argo_workflow,
}
use flowify_workflows_server.Transpiler.Submission.Templates.{removed-All}
use flowify_workflows_server.Transpiler.Submission.Values.{GivenBy, IsSecret, secret_values_lem}

-- The text is empty, or a value of the job gives it to an input that is a secret.
abbrev pub IsJobSecret : Job → String → Type 0
IsJobSecret job s =
    (s ≡ "")
    ⊎ ((key : String) × GivenBy job.input_values key s
        × Any (IsSecret key) (base job.workflow.component).inputs)

module _ {V : Type 0} (lib : Library V) where
  -- Each variable of each container in the workflow of a job is empty, or has the text that a value
  -- of the job gives to an input of the component that is a secret.
  pub get_argo_workflow-environment :
      (fuel : ℕ) (job : Job) (awf : ArgoWorkflow V)
      → get_argo_workflow lib fuel job ≡ some (ok awf)
      → All (λ (t : Template). HasEnvironment (IsJobSecret job) t.body) awf.templates
  unfolding get_argo_workflow parse_component_tree
  get_argo_workflow-environment fuel job awf e =
      let wf = job.workflow in
      let inputs = (base wf.component).inputs in
      let (secrets, found, e₁) =
        >=>-eq-ok (some (secret_values inputs job.input_values empty)) _ e in
      let (volumes, _, e₂) =
        >=>-eq-ok (some (job_volumes lib job.input_values inputs empty)) _ e₁ in
      let (tree, parsed, e₃) = >=>-eq-ok (parse_component_tree lib fuel wf secrets volumes) _ e₂ in
      let (ps, _, same) = >=>-eq-ok (some (job_arguments job.input_values inputs [])) _ e₃ in
      let (ts, traversed, made) =
        >=>-eq-ok (traverse_component lib fuel wf.component secrets volumes) _ parsed in
      let (_, from) = secret_values_lem inputs job.input_values secrets (some-injective found) in
      let within =
        traverse_component-environment lib fuel (IsJobSecret job) (inl refl) wf.component secrets
          volumes ts traversed
          (λ key s k. let (given, asked) = from key s k in inr (key, given, asked)) in
      let tree_within =
        subst
          (λ (x : ArgoWorkflow V).
            All (λ (t : Template). HasEnvironment (IsJobSecret job) t.body) x.templates)
          (some-ok-injective made) within in
      subst
        (λ (x : ArgoWorkflow V).
          All (λ (t : Template). HasEnvironment (IsJobSecret job) t.body) x.templates)
        (some-ok-injective same)
        (removed-All tree.templates (λ t. HasEnvironment (IsJobSecret job) t.body) tree_within)
