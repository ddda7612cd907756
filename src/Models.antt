-- ===== src/Models.antt =====
-- models/models.go and models/job.go: the documents that the server stores.
pub mod Versions
use flowify_workflows_server.Common.{ℕ, String, List, Option, ◌≡◌, refl, Eq, nat_eq}
use flowify_workflows_server.Models.Versions.{Version, CRefVersion, ComponentReference}

pub record ModifiedBy : Type 0 where
  pub oid : String
  pub email : String

-- Times are milliseconds in UTC, counted from year 1: `TouchMetadata` truncates to them.
abbrev pub Time : Type 0
Time = ℕ

pub record Metadata : Type 0 where
  pub name : String
  pub description : String
  pub modified_by : ModifiedBy
  pub uid : ComponentReference
  pub version : Version
  pub timestamp : Time

pub record PortAddress : Type 0 where
  pub node : String
  pub port : String

pub record Edge : Type 0 where
  pub source : PortAddress
  pub target : PortAddress

pub record Data : Type 0 where
  pub name : String
  pub mediatype : List String
  pub type : String
  pub userdata : String

-- The dynamic types that the decoders give to `Expression.Left` and `Expression.Right`.
pub data Operand : Type 0 where
  text : String → Operand
  value : Data → Operand

pub record Expression : Type 0 where
  pub left : Operand
  pub right : Operand
  pub operator : String

pub data ArgumentSource : Type 0 where
  text : String → ArgumentSource
  port : String → ArgumentSource
  file : String → ArgumentSource

pub record ArgumentTarget : Type 0 where
  pub type : String
  pub prefix : String
  pub suffix : String

pub record Argument : Type 0 where
  pub description : String
  pub target : ArgumentTarget
  pub source : ArgumentSource

pub data ResultSource : Type 0 where
  text : String → ResultSource
  file : String → ResultSource
  volume : String → ResultSource

-- `models.Result`
pub record BrickResult : Type 0 where
  pub description : String
  pub target : PortAddress
  pub source : ResultSource

-- The Kubernetes container is kept as its text.
pub record Brick : Type 0 where
  pub container : Option String
  pub args : List Argument
  pub results : List BrickResult

pub record ComponentBase : Type 0 where
  pub metadata : Metadata
  pub open metadata use *
  pub inputs : List Data
  pub outputs : List Data
  pub type : String

-- A component holds components: `Node.Node`, `Map.Node` and the nodes of a conditional are
-- components in line, references to stored ones, or nothing of these (`unset`).
mutual
  pub data Component : Type 0 where
    component : ComponentBase → Implementation → Component

  pub data Implementation : Type 0 where
    no_implementation : Implementation
    any : Implementation
    brick : Brick → Implementation
    graph : (nodes : Nodes) (edges input_mappings output_mappings : List Edge) → Implementation
    map : (node : NodeContent) (input_mappings output_mappings : List Edge) → Implementation
    conditional :
        (expression : Expression) (node_true node_false : NodeContent)
        (input_mappings output_mappings : List Edge)
        → Implementation

  pub data NodeContent : Type 0 where
    unset : NodeContent
    inline : Component → NodeContent
    reference : ComponentReference → NodeContent
    versioned : CRefVersion → NodeContent

  pub data Nodes : Type 0 where
    end : Nodes
    node : (id : String) (content : NodeContent) (userdata : String) → Nodes → Nodes

abbrev pub base : Component → ComponentBase
base (component b i) = b

abbrev pub implementation : Component → Implementation
implementation (component b i) = i

pub record Workflow : Type 0 where
  pub metadata : Metadata
  pub open metadata use *
  pub component : Component
  pub type : String
  pub workspace : String

-- `Value.Value` is a text or a list of texts.
pub data JobValue : Type 0 where
  text : String → JobValue
  texts : List String → JobValue

pub record Value : Type 0 where
  pub value : JobValue
  pub target : String

-- An event is a state of the Argo workflow, kept as its text.
pub record Job : Type 0 where
  pub metadata : Metadata
  pub open metadata use *
  pub type : String
  pub input_values : List Value
  pub workflow : Workflow
  pub events : List String

-- What the storage code needs of a kind of document: its metadata.
pub record Document (D : Type 0) : Type 0 where
  pub metadata : D → Metadata
  pub with_metadata : Metadata → D → D
  pub metadata-with : (m : Metadata) (d : D) → metadata (with_metadata m d) ≡ m

abbrev pub set_base : Metadata → Component → Component
set_base m (component b i) = component (record b { metadata = m }) i

pub set_base_lem : (m : Metadata) (c : Component) → (base (set_base m c)).metadata ≡ m
set_base_lem m (component b i) = refl

instance abbrev pub component_document : Document Component
component_document = record {
  metadata = λ c. (base c).metadata;
  with_metadata = set_base;
  metadata-with = set_base_lem;
}

instance abbrev pub workflow_document : Document Workflow
workflow_document = record {
  metadata = λ w. w.metadata;
  with_metadata = λ m w. record w { metadata = m };
  metadata-with = λ m w. refl;
}

instance abbrev pub job_document : Document Job
job_document = record {
  metadata = λ j. j.metadata;
  with_metadata = λ m j. record j { metadata = m };
  metadata-with = λ m j. refl;
}
