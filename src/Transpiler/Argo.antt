-- ===== src/Transpiler/Argo.antt =====
-- What the transpiler makes of Argo's types: the fields of `wfv1` that transpiler/transpiler.go
-- writes, the calls of other packages that it makes, and the texts of Argo's expressions.
use Prim.Native.String.{◌++◌}
use flowify_workflows_server.Common.{
  Bool, String, List, [], ◌∷◌, Option, none, string_eq, if◌then◌else◌,
}
use flowify_workflows_server.Common.Result.{Result, Error, message}
use flowify_workflows_server.Models.Versions.{ComponentReference}
use flowify_workflows_server.Transpiler.{Map}
use flowify_workflows_server.Transpiler.Arguments.{VolumeMount}

-- The field of `wfv1.ValueFrom` that is set.
pub data ValueFrom : Type 0 where
  from_path : String → ValueFrom
  from_parameter : String → ValueFrom
  from_expression : String → ValueFrom

pub record Parameter : Type 0 where
  pub name : String
  pub value : Option String
  pub value_from : Option ValueFrom

pub record Artifact : Type 0 where
  pub name : String
  pub path : String
  pub from : String
  pub from_expression : String

abbrev pub new_parameter : String → Option String → Parameter
new_parameter name value = record { name = name; value = value; value_from = none }

abbrev pub new_artifact : String → String → Artifact
new_artifact name from = record { name = name; path = ""; from = from; from_expression = "" }

-- `wfv1.Inputs`, `wfv1.Outputs` and `wfv1.Arguments`
pub record Ports : Type 0 where
  pub parameters : List Parameter
  pub artifacts : List Artifact

-- `wfv1.DAGTask`
pub record Task : Type 0 where
  pub name : String
  pub template : String
  pub dependencies : List String
  pub arguments : Ports
  pub with_param : String
  pub condition : String

-- The container of a brick, kept as its text, with what the transpiler sets in it. The variables
-- of `env` map to the keys of the secret: Go leaves their order open.
pub record Container : Type 0 where
  pub container : String
  pub args : List String
  pub env : Map String
  pub mounts : List VolumeMount

pub data Body : Type 0 where
  run : Container → Body
  dag : List Task → Body

pub record Template : Type 0 where
  pub name : String
  pub body : Body
  pub inputs : Ports
  pub outputs : Ports

-- The volumes map the names of the inputs to what `Spec.Volumes` lists: Go leaves the order open.
pub record ArgoWorkflow (V : Type 0) : Type 0 where
  pub name : String
  pub namespace : String
  pub entrypoint : String
  pub arguments : List Parameter
  pub templates : List Template
  pub volumes : Map V

-- The calls of other packages. `V` is the type of the volumes of Kubernetes.
pub record Library (V : Type 0) : Type 0 where
  -- `ComponentReference.String`, the text of a UUID
  pub uid_text : ComponentReference → String
  -- `Inputs.GetParameterByName` and `Inputs.GetArtifactByName` of Argo
  pub get_parameter_by_name : List Parameter → String → Option Parameter
  pub get_artifact_by_name : List Artifact → String → Option Artifact
  pub volume_name : V → String
  -- `path.Join`
  pub join_path : String → String → String → String
  -- `json.Unmarshal` to a volume
  pub decode_volume : String → Result V

-- A panic is an error here.
abbrev pub nil_dereference : Error
nil_dereference = message "invalid memory address or nil pointer dereference"

abbrev pub item : String
item = "{{item}}"

abbrev pub input_parameter : String → String
input_parameter port = "{{inputs.parameters." ++ port ++ "}}"

abbrev pub input_artifact : String → String
input_artifact port = "{{inputs.artifacts." ++ port ++ "}}"

abbrev pub task_parameter : String → String → String
task_parameter task port = "{{tasks." ++ task ++ ".outputs.parameters." ++ port ++ "}}"

abbrev pub task_artifact : String → String → String
task_artifact task port = "{{tasks." ++ task ++ ".outputs.artifacts." ++ port ++ "}}"

abbrev pub artifact_path : String → String
artifact_path name = "/artifacts/" ++ name

abbrev pub negated : String → String
negated expression = "!(" ++ expression ++ ")"

-- The choice between the outputs of the two nodes of a conditional; `kind` is "parameters" or
-- "artifacts".
abbrev pub chosen_output : String → Bool → String → String → String
chosen_output expression has_false kind port =
    expression
    ++ " ? tasks.nodeTrue.outputs."
    ++ kind
    ++ "."
    ++ port
    ++ " : "
    ++ (if has_false then "tasks.nodeFalse.outputs." ++ kind ++ "." ++ port else "\"\"")

-- `strings.Join(arr, "\", \"")` between brackets and quotes.
abbrev pub joined_texts : List String → String
joined_texts [] = ""
joined_texts (s ∷ []) = s
joined_texts (s ∷ t ∷ texts) = s ++ "\", \"" ++ joined_texts (t ∷ texts)

abbrev pub array_text : List String → String
array_text texts = "[\"" ++ joined_texts texts ++ "\"]"
