-- ===== src/Storage/Listing.antt =====
-- storage/mongo.go: the listings of components, workflows and jobs, as aggregation pipelines.
pub mod Projection
pub mod Stages
pub mod Access
pub mod Pages
use flowify_workflows_server.Common.{
  ℕ, String, Bool, true, false, List, [], ◌∷◌, ◌++◌, map, ◌==◌, string_eq, if◌then◌else◌, Option,
  none, some,
}
use flowify_workflows_server.Common.Int.{ℤ, pos}
use flowify_workflows_server.Common.Result.{Result, ok, err, message, wrap, ◌>>=◌, ◌>>◌}
use flowify_workflows_server.User.{User}
use flowify_workflows_server.Workspace.{Workspace, user_has_access}
use flowify_workflows_server.Models.{Metadata, Time, Component, Workflow, Job}
use flowify_workflows_server.Models.Versions.{ComponentReference}
use flowify_workflows_server.Storage.Access.{Context, get_workspaces_from_context}
use flowify_workflows_server.Storage.Query.{
  SortItem, texts, uuid, operators, equals, Fields, Query, fields, filter_queries, sort_queries,
  join_queries, is_empty_query,
}
use flowify_workflows_server.Storage.Listing.Projection.{
  metadata_projection, metadata_workspace_projection,
}

pub record Pagination : Type 0 where
  pub limit : ℤ
  pub skip : ℤ

pub record PageInfo : Type 0 where
  pub total_number : ℤ
  pub limit : ℤ
  pub skip : ℤ

pub record MetadataWorkspace : Type 0 where
  pub metadata : Metadata
  pub workspace : String

-- `MetadataList` and `MetadataWorkspaceList`
pub record ListOf (I : Type 0) : Type 0 where
  pub items : List I
  pub page_info : PageInfo

abbrev pub no_list : {I : Type 0} → ListOf I
no_list = record {
  items = [];
  page_info = record { total_number = pos 0; limit = pos 0; skip = pos 0 };
}

-- The two pipelines of the facet stage: `$count` and `$addFields` of numbers for "pageInfo", and
-- `$skip` and `$limit` for "items".
pub data InfoStage : Type 0 where
  count : String → InfoStage
  add_fields : List (String × ℤ) → InfoStage

pub data PageStage : Type 0 where
  skip limit : ℤ → PageStage

-- The stages of the listings. `add_field name path` is `$addFields` of a name with the value at a
-- path.
pub data Stage : Type 0 where
  match : Query → Stage
  sort : List SortItem → Stage
  add_field : String → String → Stage
  project : List String → Stage
  facet : (page_info : List InfoStage) → (items : List PageStage) → Stage

-- The facet stage that all listings end with: skip before limit.
abbrev pub page_facet : Pagination → Stage
page_facet pagination =
    facet
      (count "totalNumber"
        ∷ add_fields (("skip", pagination.skip) ∷ ("limit", pagination.limit) ∷ [])
        ∷ [])
      (skip pagination.skip ∷ limit pagination.limit ∷ [])

-- The single document of the facet stage.
pub record Facets (I : Type 0) : Type 0 where
  pub page_info : List PageInfo
  pub items : List I

-- The cursor: whether there is a document, how it decodes, and its error at the end.
pub record Cursor (I : Type 0) : Type 0 where
  pub next : Bool
  pub decoded : Result (Facets I)
  pub error : Result (Unit {0})

-- `Aggregate` on a collection, a parameter.
abbrev pub Aggregate : Type 0 → Type 0 → Type 0
Aggregate D I = List Stage → List D → Result (Cursor I)

unfoldable pub first_page : {I : Type 0} → Result (Unit {0}) → Facets I → Result (ListOf I)
first_page error facets = elim facets.page_info [
  | [] ↦ ok no_list
  | info ∷ _ ↦ error >> ok (record { items = facets.items; page_info = info })
]

-- What is read from the cursor; `empty` is the result without a document.
unfoldable pub read_list :
    {I : Type 0} → Result (ListOf I) → Result (Unit {0}) → Cursor I → Result (ListOf I)
unfolding first_page
read_list empty error cursor =
    if cursor.next
    then (wrap "Error decoding component from storage" cursor.decoded >>= first_page error)
    else empty

abbrev pub match_stages : Query → List Stage
match_stages filter = if is_empty_query filter then [] else match filter ∷ []

abbrev pub sort_stages : List SortItem → List Stage
sort_stages [] = []
sort_stages (s ∷ sorts) = sort (s ∷ sorts) ∷ []

-- `createWorkspaceFilter`
unfoldable pub create_workspace_filter : List Workspace → String → Fields
create_workspace_filter ws_accesses ws_field_path =
    (ws_field_path, operators (("$in", texts (map (λ ws. ws.name) ws_accesses)) ∷ [])) ∷ []

-- The loop of the listings over the workspaces of the request.
unfoldable pub accessible : User → List Workspace → List Workspace
accessible usr [] = []
accessible usr (ws ∷ wss) =
    let rest = accessible usr wss in if user_has_access ws usr then ws ∷ rest else rest

-- The workspace filter, joined with those of the request, if any.
unfoldable pub secured_filter : Fields → List Fields → Query
secured_filter filter [] = fields filter
secured_filter filter (f ∷ user_filters) = join_queries (filter ∷ f ∷ user_filters) "$and"

module _ (parse_time : String → Result Time) where
  module _ {D : Type 0} (aggregate : Aggregate D Metadata) where
    unfoldable pub list_components_metadata :
        Pagination → List String → List String → List D → Result (ListOf Metadata)
    list_components_metadata pagination filterstrings sorts ds = do
      user_filters ←
          wrap "could not list metadata for workflows" (filter_queries parse_time filterstrings)
      sort_query ← wrap "could not list metadata for components" (sort_queries sorts)
      let filter = join_queries user_filters "$and"
      let stages =
          match_stages filter
          ++ sort_stages sort_query
          ++ project metadata_projection ∷ page_facet pagination ∷ []
      cur ← wrap "Error getting components from storage" (aggregate stages ds)
      read_list (ok no_list) (wrap "Error getting components from storage" cur.error) cur

    unfoldable pub list_component_versions_metadata :
        ComponentReference → Pagination → List String → List D → Result (ListOf Metadata)
    list_component_versions_metadata id pagination sorts ds = do
      sort_query ← wrap "could not list metadata for components" (sort_queries sorts)
      let filter = fields (("uid", equals (uuid id)) ∷ [])
      let stages =
          match filter ∷ sort_stages sort_query
          ++ project metadata_projection ∷ page_facet pagination ∷ []
      cursor ← wrap "Error getting document versions from storage" (aggregate stages ds)
      read_list (ok no_list) (ok tt) cursor

  module _ {D : Type 0} (aggregate : Aggregate D MetadataWorkspace) where
    -- The listings of workflows and of jobs differ in the path of the workspace, and in the
    -- stages that bring it to the top level.
    unfoldable pub list_secured :
        String
        → List Stage
        → List Workspace
        → Pagination
        → List String
        → List String
        → List D
        → Result (ListOf MetadataWorkspace)
    list_secured path lift ws_access pagination filterstrings sorts ds = do
      user_filters ←
          wrap "could not list metadata for workflows" (filter_queries parse_time filterstrings)
      sort_query ← wrap "could not list metadata for workflows" (sort_queries sorts)
      let filter = secured_filter (create_workspace_filter ws_access path) user_filters
      let stages =
          match filter
            ∷ (sort_stages sort_query ++ lift ++ project metadata_workspace_projection ∷ [])
          ++ page_facet pagination ∷ []
      cur ← wrap "Error getting components from storage" (aggregate stages ds)
      read_list (err (message "Error decoding component from storage, empty aggregation result"))
          (wrap "Error getting components from storage" cur.error) cur

    unfoldable pub list_accessible :
        String
        → List Stage
        → Context
        → Pagination
        → List String
        → List String
        → List D
        → Result (ListOf MetadataWorkspace)
    unfolding list_secured
    list_accessible path lift ctx pagination filterstrings sorts ds =
        elim (accessible ctx.user (get_workspaces_from_context ctx)) [
          | [] ↦ ok no_list
          | ws ∷ wss ↦ list_secured path lift (ws ∷ wss) pagination filterstrings sorts ds
        ]

    unfoldable pub list_workflows_metadata :
        Context
        → Pagination
        → List String
        → List String
        → List D
        → Result (ListOf MetadataWorkspace)
    unfolding list_accessible
    list_workflows_metadata = list_accessible "workspace" []

    unfoldable pub list_jobs_metadata :
        Context
        → Pagination
        → List String
        → List String
        → List D
        → Result (ListOf MetadataWorkspace)
    unfolding list_accessible
    list_jobs_metadata =
        list_accessible "workflow.workspace" (add_field "workspace" "workflow.workspace" ∷ [])

    -- The workspaces of the request are not filtered by the access of the user.
    versions_in :
        List Workspace
        → ComponentReference
        → Pagination
        → List String
        → List D
        → Result (ListOf MetadataWorkspace)
    versions_in wss id pagination sorts ds = do
      sort_query ← wrap "could not list metadata for workflow" (sort_queries sorts)
      let filter =
          fields (create_workspace_filter wss "workspace" ++ ("uid", equals (uuid id)) ∷ [])
      let stages =
          match filter ∷ (sort_stages sort_query ++ project metadata_workspace_projection ∷ [])
          ++ page_facet pagination ∷ []
      cursor ← wrap "Error getting document versions from storage" (aggregate stages ds)
      read_list (ok no_list) (ok tt) cursor

    unfoldable pub list_workflow_versions_metadata :
        Context
        → ComponentReference
        → Pagination
        → List String
        → List D
        → Result (ListOf MetadataWorkspace)
    unfolding versions_in
    list_workflow_versions_metadata ctx id pagination sorts ds =
        elim (get_workspaces_from_context ctx) [
          | [] ↦ ok no_list
          | ws ∷ wss ↦ versions_in (ws ∷ wss) id pagination sorts ds
        ]
