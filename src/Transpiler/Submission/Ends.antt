-- ===== src/Transpiler/Submission/Ends.antt =====
-- transpiler/transpiler.go: the making of the workflow of a job ends.
use flowify_workflows_server.Common.{ℕ, String, [], some}
use flowify_workflows_server.Common.Result.{Ended, some-Ended, >=>-Ended}
use flowify_workflows_server.Models.{Job, Workflow, base}
use flowify_workflows_server.Transpiler.{Map, empty}
use flowify_workflows_server.Transpiler.Argo.{Library}
use flowify_workflows_server.Transpiler.Traverse.{traverse_component}
use flowify_workflows_server.Transpiler.Traverse.Ends.{IsLayered, traverse_component-Ended}
use flowify_workflows_server.Transpiler.Submission.{
  secret_values, job_volumes, job_arguments, parse_component_tree, get_argo_workflow,
}

module _ {V : Type 0} (lib : Library V) (fuel : ℕ) where
  parse_component_tree-Ended :
      (wf : Workflow) (secrets : Map String) (volumes : Map V)
      → IsLayered fuel wf.component
      → Ended (parse_component_tree lib fuel wf secrets volumes)
  unfolding parse_component_tree
  parse_component_tree-Ended wf secrets volumes h =
      >=>-Ended (traverse_component lib fuel wf.component secrets volumes) _
        (traverse_component-Ended lib fuel wf.component secrets volumes h) λ ts e. some-Ended _

  -- The making of the workflow of a job ends, with a workflow or an error, where the nodes of every
  -- graph in the component have ranks below the fuel that rise along its edges.
  pub get_argo_workflow-Ended :
      (job : Job) → IsLayered fuel job.workflow.component → Ended (get_argo_workflow lib fuel job)
  unfolding get_argo_workflow
  get_argo_workflow-Ended job h =
      let wf = job.workflow in
      let inputs = (base wf.component).inputs in
      >=>-Ended (some (secret_values inputs job.input_values empty)) _ (some-Ended _) λ secrets _.
        >=>-Ended (some (job_volumes lib job.input_values inputs empty)) _ (some-Ended _)
          λ volumes _.
            >=>-Ended (parse_component_tree lib fuel wf secrets volumes) _
              (parse_component_tree-Ended wf secrets volumes h)
              λ awf _.
                >=>-Ended (some (job_arguments job.input_values inputs [])) _ (some-Ended _)
                  λ ps _. some-Ended _
