-- ===== src/Examples/Listing.antt =====
-- Query parameters, and an aggregation in memory.
use flowify_workflows_server.Storage.Access.{get_workspaces_from_context}
use flowify_workflows_server.Examples.{ada, lab}
use flowify_workflows_server.Workspace.{user_has_access, Workspace}
use flowify_workflows_server.Examples.Updates.{old}
use mathlib.Core.Bool.{false≢true}
use flowify_workflows_server.Common.{
  ℕ, String, Bool, true, ◌&&◌, List, [], ◌∷◌, ◌++◌, ◌==◌, string_eq, contains, In-of_contains,
  length, take, drop, if◌then◌else◌, In, Any, Any-map, All, All-map, ◌≡◌, refl, sym, ◌∙◌, ap, inl,
  inr, arith, Bool-cases,
}
use flowify_workflows_server.Common.Int.{ℤ, pos, negsuc}
use flowify_workflows_server.Common.Result.{ok-injective, ok≢err, Result, ok, err, message}
use flowify_workflows_server.Models.{Time, base}
use flowify_workflows_server.Storage.Query.{
  join_queries, field_from, text, texts, operators, Test, Fields, Query, fields, joined,
  parse_sort_query, sort_queries, filter_queries,
}
use flowify_workflows_server.Storage.Query.Printing.{up, down, parse_sort_query-print}
use flowify_workflows_server.Storage.Listing.{
  create_workspace_filter, secured_filter, read_list, accessible, Pagination, MetadataWorkspace,
  ListOf, Stage, match, sort, add_field, project, facet, Facets, Cursor, Aggregate, InfoStage,
  PageStage, PageInfo, count, add_fields, skip, limit, list_workflows_metadata, list_jobs_metadata,
}
use flowify_workflows_server.Storage.Listing.Access.{list_workflows_metadata-access}
use flowify_workflows_server.Storage.Listing.Stages.{
  KeepWorkspace, workspace_path, IsAggregate, IsPaged, counted,
}
use flowify_workflows_server.Examples.Documents.{request}

parse_sort_query-print_example :
    parse_sort_query "+name,-version.current"
    ≡ ok (("name", pos 1) ∷ ("version.current", negsuc 0) ∷ [])
unfolding field_from
parse_sort_query-print_example =
    parse_sort_query-print (up, "name") ((down, "version.current") ∷ []) (refl, (refl, tt))

sorts_read :
    sort_queries ("+name,-uid" ∷ "-timestamp" ∷ [])
    ≡ ok (("name", pos 1) ∷ ("uid", negsuc 0) ∷ ("timestamp", negsuc 0) ∷ [])
unfolding sort_queries
sorts_read = refl

abbrev no_time : String → Result Time
no_time s = err (message "no time")

abbrev by_ada : Fields
by_ada = ("modifiedBy.email", operators (("$eq", text "ada@example.com") ∷ [])) ∷ []

filters_read :
    filter_queries no_time ("modifiedBy.email[==]=ada@example.com" ∷ []) ≡ ok (by_ada ∷ [])
unfolding filter_queries
filters_read = refl

-- Documents with a workspace at the top level and one in their workflow.
abbrev text_at : String → MetadataWorkspace → String
text_at path d =
    if path == "workspace"
    then d.workspace
    else if path == "workflow.workspace"
    then d.workspace
    else ""

abbrev passes_one : String → Test → MetadataWorkspace → Bool
passes_one path (operators ((op, texts ts) ∷ [])) d =
    if op == "$in" then contains ts (text_at path d) else true
passes_one path _ d = true

abbrev passes_fields : Fields → MetadataWorkspace → Bool
passes_fields [] d = true
passes_fields ((path, test) ∷ fs) d = passes_one path test d && passes_fields fs d

abbrev passes_all : List Fields → MetadataWorkspace → Bool
passes_all [] d = true
passes_all (f ∷ fs) d = passes_fields f d && passes_all fs d

abbrev satisfies : Query → MetadataWorkspace → Bool
satisfies (fields f) d = passes_fields f d
satisfies (joined op fs) d = passes_all fs d

abbrev filtered : Query → List MetadataWorkspace → List MetadataWorkspace
filtered q [] = []
filtered q (d ∷ ds) = let rest = filtered q ds in if satisfies q d then d ∷ rest else rest

abbrev shown : String → List MetadataWorkspace → List MetadataWorkspace
shown path [] = []
shown path (d ∷ ds) = record d { workspace = text_at path d } ∷ shown path ds

-- The pipelines of the facet stage, on the documents that come to it.
abbrev page_items : List PageStage → List MetadataWorkspace → Result (List MetadataWorkspace)
page_items [] ds = ok ds
page_items (skip (pos n) ∷ page) ds = page_items page (drop n ds)
page_items (limit (pos n) ∷ page) ds = page_items page (take n ds)
page_items _ ds = err (message "negative number")

abbrev page_info_of : List InfoStage → ℕ → List PageInfo
page_info_of (count name ∷ add_fields fs ∷ []) n = counted name fs n
page_info_of _ n = []

abbrev cursor_of :
    List PageInfo → Result (List MetadataWorkspace) → Result (Cursor MetadataWorkspace)
cursor_of info (err e) = err e
cursor_of info (ok items) = ok (record {
  next = true;
  decoded = ok (record { page_info = info; items = items });
  error = ok tt;
})

abbrev page_of : String → List Stage → List MetadataWorkspace → Result (Cursor MetadataWorkspace)
page_of path [] ds = err (message "no page")
page_of path (facet info page ∷ stages) ds =
    cursor_of (page_info_of info (length (shown path ds))) (page_items page (shown path ds))
page_of path (s ∷ stages) ds = page_of path stages ds

abbrev aggregate : Aggregate MetadataWorkspace MetadataWorkspace
aggregate (match q ∷ stages) ds = page_of (workspace_path stages) stages (filtered q ds)
aggregate _ ds = err (message "no filter")

passes_all-All :
    (fs : List Fields) (d : MetadataWorkspace)
    → passes_all fs d ≡ true
    → All (λ f. passes_fields f d ≡ true) fs
passes_all-All [] d h = tt
passes_all-All (f ∷ fs) d h = elim (Bool-cases (passes_fields f d)) [
  | inl here ↦ (here, passes_all-All fs d (rw here at h))
  | inr fails ↦ absurd (false≢true (rw fails at h))
]

filtered-Any :
    (q : Query) (ds : List MetadataWorkspace)
    → All (λ d. Any (λ x. (satisfies q x ≡ true) × (x ≡ d)) ds) (filtered q ds)
filtered-Any q [] = tt
filtered-Any q (d ∷ ds) = elim (Bool-cases (satisfies q d)) [
  | inl hit ↦ rw hit (inl (refl, refl), All-map (λ x. inr) (filtered q ds) (filtered-Any q ds))
  | inr miss ↦ rw miss (All-map (λ x. inr) (filtered q ds) (filtered-Any q ds))
]

shown-Any :
    (q : Query) (path : String) (all ds : List MetadataWorkspace)
    → All (λ d. Any (λ x. (satisfies q x ≡ true) × (x ≡ d)) all) ds
    → All
        (λ item. Any (λ d. (satisfies q d ≡ true) × (text_at path d ≡ item.workspace)) all)
        (shown path ds)
shown-Any q path all [] h = tt
shown-Any q path all (d ∷ ds) (here, h) =
    (Any-map (λ x p. (p.0, ap (text_at path) p.1)) all here, shown-Any q path all ds h)

page_of-keep :
    (path : String) (stages : List Stage) (info : List InfoStage) (page : List PageStage)
    (ds : List MetadataWorkspace)
    → KeepWorkspace stages
    → page_of path (stages ++ facet info page ∷ []) ds ≡ page_of path (facet info page ∷ []) ds
page_of-keep path [] info page ds h = refl
page_of-keep path (match q ∷ stages) info page ds h = elim h [ ]
page_of-keep path (facet x y ∷ stages) info page ds h = elim h [ ]
page_of-keep path (sort x ∷ stages) info page ds h = page_of-keep path stages info page ds h
page_of-keep path (add_field x y ∷ stages) info page ds h = page_of-keep path stages info page ds h
page_of-keep path (project x ∷ stages) info page ds h = page_of-keep path stages info page ds h.1

workspace_path-keep :
    (stages : List Stage) (info : List InfoStage) (page : List PageStage)
    → KeepWorkspace stages
    → workspace_path (stages ++ facet info page ∷ []) ≡ workspace_path stages
workspace_path-keep [] info page h = refl
workspace_path-keep (match q ∷ stages) info page h = elim h [ ]
workspace_path-keep (facet x y ∷ stages) info page h = elim h [ ]
workspace_path-keep (sort x ∷ stages) info page h = workspace_path-keep stages info page h
workspace_path-keep (add_field x y ∷ stages) info page h =
    rw (workspace_path-keep stages info page h)
workspace_path-keep (project x ∷ stages) info page h = workspace_path-keep stages info page h.1

page_items-IsPaged :
    (page : List PageStage) (ds items : List MetadataWorkspace)
    → page_items page ds ≡ ok items
    → IsPaged page ds items
page_items-IsPaged [] ds items e = sym (ok-injective e)
page_items-IsPaged (skip (pos n) ∷ page) ds items e = page_items-IsPaged page (drop n ds) items e
page_items-IsPaged (limit (pos n) ∷ page) ds items e = page_items-IsPaged page (take n ds) items e
page_items-IsPaged (skip (negsuc n) ∷ page) ds items e = absurd (ok≢err (sym e))
page_items-IsPaged (limit (negsuc n) ∷ page) ds items e = absurd (ok≢err (sym e))

cursor_of-ok :
    (info : List PageInfo) (r : Result (List MetadataWorkspace)) (cursor : Cursor MetadataWorkspace)
    (facets : Facets MetadataWorkspace)
    → cursor_of info r ≡ ok cursor
    → cursor.decoded ≡ ok facets
    → (r ≡ ok facets.items) × (facets.page_info ≡ info)
cursor_of-ok info (err x) cursor facets e decoded = absurd (ok≢err (sym e))
cursor_of-ok info (ok items) cursor facets e decoded =
    let is = ok-injective (ap (λ c. c.decoded) (ok-injective e) ∙ decoded) in
    (ap ok (ap (λ x. x.items) is), ap (λ x. x.page_info) (sym is))

aggregate-facets :
    (q : Query) (stages : List Stage) (info : List InfoStage) (page : List PageStage)
    (ds : List MetadataWorkspace) (cursor : Cursor MetadataWorkspace)
    (facets : Facets MetadataWorkspace)
    → KeepWorkspace stages
    → aggregate (match q ∷ stages ++ facet info page ∷ []) ds ≡ ok cursor
    → cursor.decoded ≡ ok facets
    → (page_items page (shown (workspace_path stages) (filtered q ds)) ≡ ok facets.items)
      × (facets.page_info
          ≡ page_info_of info (length (shown (workspace_path stages) (filtered q ds))))
aggregate-facets q stages info page ds cursor facets keep e decoded =
    cursor_of-ok _ (page_items page (shown (workspace_path stages) (filtered q ds))) cursor facets
      (sym (page_of-keep (workspace_path stages) stages info page (filtered q ds) keep)
        ∙ ap (λ path. page_of path (stages ++ facet info page ∷ []) (filtered q ds))
            (sym (workspace_path-keep stages info page keep))
        ∙ e)
      decoded

aggregate-IsAggregate : IsAggregate text_at satisfies aggregate
aggregate-IsAggregate = record {
  all_of = passes_all-All;
  in_texts = λ path ts d h. In-of_contains ts (text_at path d) (ground arith);
  faceted = λ q stages name fs page ds cursor facets keep e decoded.
      let (items, info) =
        aggregate-facets q stages (count name ∷ add_fields fs ∷ []) page ds cursor facets keep e
          decoded in
      let all = shown (workspace_path stages) (filtered q ds) in
      (
        all,
        shown-Any q (workspace_path stages) ds (filtered q ds) (filtered-Any q ds),
        page_items-IsPaged page all facets.items items,
        info,
      );
}

-- Two workflows, one in a workspace that the user has no access to.
abbrev listed : String → MetadataWorkspace
listed ws = record { metadata = (base old).metadata; workspace = ws }

abbrev ten : Pagination
ten = record { limit = pos 10; skip = pos 0 }

abbrev shown_list : ListOf MetadataWorkspace
shown_list = record {
  items = listed "lab" ∷ [];
  page_info = record { total_number = pos 1; limit = pos 10; skip = pos 0 };
}

workflows_listed :
    list_workflows_metadata no_time aggregate request ten []
      ("+name" ∷ [])
      (listed "attic" ∷ listed "lab" ∷ [])
    ≡ ok shown_list
unfolding list_workflows_metadata accessible get_workspaces_from_context user_has_access contains
    filter_queries sort_queries read_list secured_filter create_workspace_filter
workflows_listed = refl

list_workflows_metadata-access_example :
    (w : Workspace) × In w (lab ∷ []) × (user_has_access w ada ≡ true) × (w.name ≡ "lab")
unfolding get_workspaces_from_context
list_workflows_metadata-access_example =
    list_workflows_metadata-access text_at satisfies no_time aggregate aggregate-IsAggregate request
      ten [] ("+name" ∷ []) (listed "attic" ∷ listed "lab" ∷ []) shown_list (listed "lab")
      workflows_listed (inl refl)

-- Reads a number of two digits only.
abbrev atoi : String → Result ℤ
atoi s = if s == "10" then ok (pos 10) else err (message "no number")

jobs_listed :
    list_jobs_metadata no_time aggregate request ten
      ("name[!=]=x" ∷ [])
      []
      (listed "attic" ∷ listed "lab" ∷ [])
    ≡ ok shown_list
unfolding list_jobs_metadata accessible get_workspaces_from_context user_has_access contains
    filter_queries sort_queries read_list secured_filter join_queries create_workspace_filter
jobs_listed = refl
