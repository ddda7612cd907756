-- ===== src/Transpiler/Submission.antt =====
-- transpiler/transpiler.go and transpiler/argo.go: the Argo workflow of a job.
pub mod Templates
pub mod Ends
pub mod Values
pub mod Environment
use flowify_workflows_server.Common.{
  ℕ, Bool, true, false, String, List, [], ◌∷◌, ◌++◌, Option, none, some, ◌==◌, string_eq, contains,
  if◌then◌else◌,
}
use flowify_workflows_server.Common.Result.{Result, ok, err, message, wrap, Run, ◌>=>◌, ◌>>=◌}
use flowify_workflows_server.Models.{
  Component, base, ComponentBase, Data, Workflow, Job, Value, JobValue, text, texts,
}
use flowify_workflows_server.Transpiler.{Map, empty, insert}
use flowify_workflows_server.Transpiler.Argo.{
  Parameter, new_parameter, Template, ArgoWorkflow, Library, array_text,
}
use flowify_workflows_server.Transpiler.Traverse.{traverse_component}

-- `keys` are the names of the templates that are kept.
unfoldable pub unseen_templates : List String → List Template → List Template
unfolding contains
unseen_templates keys [] = []
unseen_templates keys (entry ∷ templates) =
    let rest = unseen_templates keys templates in
    let kept = entry ∷ unseen_templates (entry.name ∷ keys) templates in
    if contains keys entry.name then rest else kept

unfoldable pub remove_duplicated_templates : List Template → List Template
unfolding unseen_templates
remove_duplicated_templates templates = unseen_templates [] templates

-- The loop over the values of a job for one secret; `found` is what the loop has found before.
unfoldable pub job_secret : String → List Value → Option String → Result (Option String)
job_secret name [] found = ok found
job_secret name (v ∷ values) found =
    (if name == v.target
      then elim v.value [
        | text s ↦ ok (some s)
        | texts ss ↦ err (message "Cannot convert flowify secret to string.")
      ]
      else ok found)
    >>= job_secret name values

abbrev pub found_secret : String → Map String → Option String → Result (Map String)
found_secret name secrets none = err (message "Missing input secret for job")
found_secret name secrets (some s) = ok (insert name s secrets)

unfoldable pub secret_values : List Data → List Value → Map String → Result (Map String)
unfolding job_secret
secret_values [] values secrets = ok secrets
secret_values (i ∷ inputs) values secrets =
    (if i.type == "env_secret"
      then (job_secret i.name values none >>= found_secret i.name secrets)
      else ok secrets)
    >>= secret_values inputs values

-- The argument of Argo for a value, if the input takes one: `none` goes on with the loop.
unfoldable pub input_argument : Data → JobValue → Result (Option String)
input_argument i (text s) =
    if i.type == "parameter"
    then ok (some s)
    else if i.type == "parameter_array"
    then err (message "Cannot convert input value to flowify parameter array")
    else ok none
input_argument i (texts ss) =
    if i.type == "parameter"
    then err (message "Cannot convert input value to flowify parameter")
    else if i.type == "parameter_array"
    then ok (some (array_text ss))
    else ok none

abbrev pub with_argument : String → Option String → List Parameter → List Parameter
with_argument name none ps = ps
with_argument name (some value) ps = ps ++ new_parameter name (some value) ∷ []

-- The two loops, over the values and over the inputs with the name of their target.
unfoldable pub value_arguments : Value → List Data → List Parameter → Result (List Parameter)
unfolding input_argument
value_arguments v [] ps = ok ps
value_arguments v (i ∷ inputs) ps =
    (if i.name == v.target
      then (input_argument i v.value >>= λ a. ok (with_argument v.target a ps))
      else ok ps)
    >>= value_arguments v inputs

unfoldable pub job_arguments : List Value → List Data → List Parameter → Result (List Parameter)
unfolding value_arguments
job_arguments [] inputs ps = ok ps
job_arguments (v ∷ values) inputs ps = value_arguments v inputs ps >>= job_arguments values inputs

module _ {V : Type 0} (lib : Library V) where
  -- `volumeFromConfig`
  abbrev pub volume_from_config : String → Result V
  volume_from_config config = wrap "Could not create volume from config" (lib.decode_volume config)

  unfoldable pub value_volumes : Value → List Data → Map V → Result (Map V)
  value_volumes v [] volumes = ok volumes
  value_volumes v (tgt ∷ inputs) volumes =
      (if tgt.name == v.target
        then (if tgt.type == "volume"
            then elim v.value [
              | text config ↦ volume_from_config config >>= λ vol. ok (insert tgt.name vol volumes)
              | texts ss ↦ err (message "mount config must be json encoded string")
            ]
            else ok volumes)
        else ok volumes)
      >>= value_volumes v inputs

  unfoldable pub job_volumes : List Value → List Data → Map V → Result (Map V)
  unfolding value_volumes
  job_volumes [] inputs volumes = ok volumes
  job_volumes (v ∷ values) inputs volumes =
      value_volumes v inputs volumes >>= job_volumes values inputs

  -- `GenerateArgo` and the specification.
  unfoldable pub parse_component_tree : ℕ → Workflow → Map String → Map V → Run (ArgoWorkflow V)
  unfolding traverse_component
  parse_component_tree fuel wf secrets volumes =
      traverse_component lib fuel wf.component secrets volumes >=> λ templates. some (
        ok (record {
          name = wf.name;
          namespace = wf.workspace;
          entrypoint = lib.uid_text (base wf.component).uid;
          arguments = [];
          templates = templates;
          volumes = empty;
        }))

  unfoldable pub get_argo_workflow : ℕ → Job → Run (ArgoWorkflow V)
  unfolding secret_values job_volumes parse_component_tree job_arguments remove_duplicated_templates
  get_argo_workflow fuel job =
      let wf = job.workflow in
      let inputs = (base wf.component).inputs in
      some (secret_values inputs job.input_values empty) >=> λ secrets.
      some (job_volumes job.input_values inputs empty) >=> λ volumes.
      parse_component_tree fuel wf secrets volumes >=> λ awf.
      some (job_arguments job.input_values inputs []) >=> λ ps. some (
        ok (record awf {
          arguments = ps;
          templates = remove_duplicated_templates awf.templates;
          volumes = volumes;
        }))
