-- ===== src/Storage/Volumes/Listing.antt =====
-- storage/mongovolumestorage.go: the listing of volumes, whose pipeline has two stages that match.
use flowify_workflows_server.Common.{String, List, [], ◌∷◌, ◌++◌}
use flowify_workflows_server.Common.Result.{Result, ok, wrap, ◌>>=◌}
use flowify_workflows_server.Models.{Time}
use flowify_workflows_server.Storage.Access.{Context, get_workspaces_from_context}
use flowify_workflows_server.Storage.Query.{
  Fields, fields, filter_queries, sort_queries, join_queries,
}
use flowify_workflows_server.Storage.Listing.{
  Pagination, ListOf, Stage, match, page_facet, Aggregate, read_list, sort_stages,
  create_workspace_filter, no_list,
}
use flowify_workflows_server.Storage.Volumes.{FlowifyVolume}

-- No stage where the request has no filter.
abbrev filter_stages : List Fields → List Stage
filter_stages [] = []
filter_stages (f ∷ filter) = match (join_queries (f ∷ filter) "$and") ∷ []

module _ (parse_time : String → Result Time) where
  unfoldable make_filter_sort_pipeline :
      Pagination → List String → List String → Result (List Stage)
  make_filter_sort_pipeline pagination filterstrings sortstrings = do
    filter ← wrap "could not create pipeline" (filter_queries parse_time filterstrings)
    sort_query ← wrap "could create pipeline sort stage" (sort_queries sortstrings)
    ok (filter_stages filter ++ (sort_stages sort_query ++ page_facet pagination ∷ []))

  -- The volumes of the workspaces in the context of the request.
  unfoldable list_volumes :
      Aggregate FlowifyVolume FlowifyVolume
      → Context
      → Pagination
      → List String
      → List String
      → List FlowifyVolume
      → Result (ListOf FlowifyVolume)
  unfolding make_filter_sort_pipeline
  list_volumes aggregate ctx pagination filterstrings sortstrings vs = do
    user_stages ←
        wrap "Error listing volumes"
          (make_filter_sort_pipeline pagination filterstrings sortstrings)
    let wss = get_workspaces_from_context ctx
    let stages = match (fields (create_workspace_filter wss "workspace")) ∷ user_stages
    cur ← wrap "Error getting components from storage" (aggregate stages vs)
    read_list (ok no_list) (wrap "Error getting components from storage" cur.error) cur
