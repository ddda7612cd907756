-- ===== src/Storage/Listing/Access.antt =====
-- What the listings show: items of the workspaces that the user has access to.
use mathlib.Core.Path.{subst}
use flowify_workflows_server.Common.{
  List-cases, String, Bool, true, List, [], ◌∷◌, ◌++◌, map, string_eq, In, Any-witness, All-In, ◌≡◌,
  refl, sym, ◌∙◌, ap, ◌⊎◌, inl, inr, Bool-cases,
}
use flowify_workflows_server.Common.Result.{
  Result, ok, wrap, >>=-eq-ok, wrap-eq-ok, ok-injective, ok≢err,
}
use flowify_workflows_server.User.{User}
use flowify_workflows_server.Workspace.{Workspace, user_has_access}
use flowify_workflows_server.Models.{Time}
use flowify_workflows_server.Storage.Access.{Context, get_workspaces_from_context}
use flowify_workflows_server.Storage.Query.{
  SortItem, Fields, Query, fields, filter_queries, sort_queries, join_queries,
}
use flowify_workflows_server.Storage.Listing.{
  skip, limit, page_facet, PageInfo, Pagination, MetadataWorkspace, ListOf, Stage, match, add_field,
  project, Facets, Cursor, Aggregate, first_page, read_list, sort_stages, create_workspace_filter,
  accessible, secured_filter, list_secured, list_accessible, list_workflows_metadata,
  list_jobs_metadata, no_list,
}
use flowify_workflows_server.Storage.Listing.Projection.{metadata_workspace_projection}
use flowify_workflows_server.Storage.Listing.Stages.{
  KeepWorkspace, workspace_path, IsAggregate, IsPaged-All,
}

-- What the items and the page of a list are, from those of the facets.
abbrev pub IsFirst : {I : Type 0} → Facets I → ListOf I → Type 0
IsFirst facets r =
    ((facets.page_info ≡ []) × (r ≡ no_list))
    ⊎ ((info : PageInfo) × (rest : List PageInfo) × (facets.page_info ≡ info ∷ rest)
        × (r ≡ record { items = facets.items; page_info = info }))

first_page-IsFirst :
    {I : Type 0} (error : Result (Unit {0})) (facets : Facets I) (r : ListOf I)
    → first_page error facets ≡ ok r
    → IsFirst facets r
unfolding first_page
first_page-IsFirst error facets r e = elim (List-cases facets.page_info) [
  | inl none ↦ inl (none, sym (ok-injective (rw (first_page, none) at e)))
  | inr (info, rest, some) ↦
      let (_, _, same) = >>=-eq-ok error _ (rw (first_page, some) at e) in
      inr (info, rest, some, sym (ok-injective same))
]

-- A list comes from the facets of the cursor, or is the empty one.
read_list-IsFirst :
    {I : Type 0} (empty : Result (ListOf I)) (error : Result (Unit {0})) (cursor : Cursor I)
    (r : ListOf I)
    → read_list empty error cursor ≡ ok r
    → ((facets : Facets I) × (cursor.decoded ≡ ok facets) × IsFirst facets r) ⊎ (empty ≡ ok r)
unfolding read_list
read_list-IsFirst empty error cursor r e = elim (Bool-cases cursor.next) [
  | inr end ↦ inr (rw end at e)
  | inl more ↦
      let (facets, decoded, page) =
        >>=-eq-ok (wrap "Error decoding component from storage" cursor.decoded) _ (rw more at e) in
      inl (facets, wrap-eq-ok _ _ decoded, first_page-IsFirst error facets r page)
]

accessible-In :
    (u : User) (wss : List Workspace) (w : Workspace)
    → In w (accessible u wss)
    → In w wss × (user_has_access w u ≡ true)
unfolding accessible
accessible-In u [] w m = elim m [ ]
accessible-In u (x ∷ wss) w m = elim (Bool-cases (user_has_access x u)) [
  | inl has ↦ elim (rw has at m) [
    | inl same ↦ (inl same, subst (λ y. user_has_access y u ≡ true) same has)
    | inr later ↦ let (m', a) = accessible-In u wss w later in (inr m', a)
  ]
  | inr lacks ↦ let (m', a) = accessible-In u wss w (rw lacks at m) in (inr m', a)
]

In-names :
    (wss : List Workspace) (name : String)
    → In name (map (λ ws. ws.name) wss)
    → (w : Workspace) × In w wss × (w.name ≡ name)
In-names [] name m = elim m [ ]
In-names (w ∷ wss) name (inl same) = (w, inl refl, same)
In-names (w ∷ wss) name (inr m) = let (x, m', same) = In-names wss name m in (x, inr m', same)

-- The stages between the filter and the page.
abbrev pub middle : List Stage → List SortItem → List Stage
middle lift sorts = sort_stages sorts ++ lift ++ project metadata_workspace_projection ∷ []

projected : In "workspace" metadata_workspace_projection
unfolding metadata_workspace_projection
projected = inr (inr (inr (inr (inr (inr (inl refl))))))

module _ {D : Type 0} (text_at : String → D → String) (satisfies : Query → D → Bool)
    (parse_time : String → Result Time) (aggregate : Aggregate D MetadataWorkspace)
    (mongo : IsAggregate text_at satisfies aggregate) where
  secured_filter-satisfies :
      (f : Fields) (qs : List Fields) (d : D)
      → satisfies (secured_filter f qs) d ≡ true
      → satisfies (fields f) d ≡ true
  unfolding secured_filter join_queries
  secured_filter-satisfies f [] d h = h
  secured_filter-satisfies f (q ∷ qs) d h = (mongo.all_of (f ∷ q ∷ qs) d h).0

  module _ (path : String) (lift : List Stage)
      (keep : (sorts : List SortItem) → KeepWorkspace (middle lift sorts))
      (at_path : (sorts : List SortItem) → workspace_path (middle lift sorts) ≡ path) where
    -- The aggregation that a secured listing has made.
    pub record Aggregated (wss : List Workspace) (p : Pagination) (ds : List D)
        (r : ListOf MetadataWorkspace) : Type 0 where
      pub user_filters : List Fields
      pub sorts : List SortItem
      pub cursor : Cursor MetadataWorkspace
      pub facets : Facets MetadataWorkspace
      pub got :
          aggregate
            (match (secured_filter (create_workspace_filter wss path) user_filters)
                ∷ middle lift sorts
              ++ page_facet p ∷ [])
            ds
          ≡ ok cursor
      pub decoded : cursor.decoded ≡ ok facets
      pub first : IsFirst facets r

    pub list_secured-Aggregated :
        (wss : List Workspace) (p : Pagination) (fs ss : List String) (ds : List D)
        (r : ListOf MetadataWorkspace)
        → list_secured parse_time aggregate path lift wss p fs ss ds ≡ ok r
        → Aggregated wss p ds r
    unfolding list_secured
    list_secured-Aggregated wss p fs ss ds r e =
        let (qs, _, e₁) =
          >>=-eq-ok (wrap "could not list metadata for workflows" (filter_queries parse_time fs)) _
            e in
        let (sorts, _, e₂) =
          >>=-eq-ok (wrap "could not list metadata for workflows" (sort_queries ss)) _ e₁ in
        let q = secured_filter (create_workspace_filter wss path) qs in
        let (cursor, got, e₃) =
          >>=-eq-ok
            (wrap "Error getting components from storage"
              (aggregate (match q ∷ middle lift sorts ++ page_facet p ∷ []) ds))
            _ e₂ in
        elim (read_list-IsFirst _ _ cursor r e₃) [
          | inr empty ↦ absurd (ok≢err (sym empty))
          | inl (facets, decoded, first) ↦ record {
            user_filters = qs;
            sorts = sorts;
            cursor = cursor;
            facets = facets;
            got = wrap-eq-ok _ _ got;
            decoded = decoded;
            first = first;
          }
        ]

    list_secured-items :
        (wss : List Workspace) (p : Pagination) (ds : List D) (r : ListOf MetadataWorkspace)
        (item : MetadataWorkspace)
        → Aggregated wss p ds r
        → In item r.items
        → (w : Workspace) × In w wss × (w.name ≡ item.workspace)
    unfolding create_workspace_filter
    list_secured-items wss p ds r item a m = elim a.first [
      | inl (_, none) ↦ elim (subst (λ (x : ListOf MetadataWorkspace). In item x.items) none m) [ ]
      | inr (info, rest, _, is) ↦
          let same : r.items ≡ a.facets.items = ap (λ x. x.items) is in
          let q = secured_filter (create_workspace_filter wss path) a.user_filters in
          let (all, selected, paged, _) =
            mongo.faceted q (middle lift a.sorts) _ _ _ ds a.cursor a.facets (keep a.sorts) a.got
              a.decoded in
          let items =
            IsPaged-All _ (skip p.skip ∷ limit p.limit ∷ []) all a.facets.items selected paged in
          let (d, _, hit) =
            Any-witness ds (All-In _ a.facets.items items (subst (In item) same m)) in
          let names = map (λ (ws : Workspace). ws.name) wss in
          let named =
            mongo.in_texts path names d (
              secured_filter-satisfies (create_workspace_filter wss path) a.user_filters d hit.0) in
          In-names wss item.workspace
            (subst (λ t. In t names) (ap (λ x. text_at x d) (sym (at_path a.sorts)) ∙ hit.1) named)
    ]

    list_accessible-items :
        (ctx : Context) (p : Pagination) (fs ss : List String) (ds : List D)
        (r : ListOf MetadataWorkspace) (item : MetadataWorkspace)
        → list_accessible parse_time aggregate path lift ctx p fs ss ds ≡ ok r
        → In item r.items
        → (w : Workspace) × In w (get_workspaces_from_context ctx)
          × (user_has_access w ctx.user ≡ true)
          × (w.name ≡ item.workspace)
    unfolding list_accessible
    list_accessible-items ctx p fs ss ds r item e m =
        elim (List-cases (accessible ctx.user (get_workspaces_from_context ctx))) [
          | inl none ↦
              let empty : ok no_list ≡ ok r = rw (list_accessible, none) at e in
              elim (subst (In item) (ap (λ x. x.items) (sym (ok-injective empty))) m) [ ]
          | inr (ws, wss, some) ↦
              let (w, m', named) =
                list_secured-items (ws ∷ wss) p ds r item
                  (list_secured-Aggregated (ws ∷ wss) p fs ss ds r
                    (rw (list_accessible, some) at e))
                  m in
              let (visible, may) =
                accessible-In ctx.user (get_workspaces_from_context ctx) w
                  (subst (In w) (sym some) m') in
              (w, visible, may, named)
        ]

  pub keep_workflows : (sorts : List SortItem) → KeepWorkspace (middle [] sorts)
  keep_workflows [] = (projected, tt)
  keep_workflows (s ∷ sorts) = (projected, tt)

  pub at_workspace : (sorts : List SortItem) → workspace_path (middle [] sorts) ≡ "workspace"
  at_workspace [] = refl
  at_workspace (s ∷ sorts) = refl

  -- Each workflow that is listed is in a workspace of the request that the user has access to,
  -- whatever the filters and the sorting of the request are.
  pub list_workflows_metadata-access :
      (ctx : Context) (p : Pagination) (fs ss : List String) (ds : List D)
      (r : ListOf MetadataWorkspace) (item : MetadataWorkspace)
      → list_workflows_metadata parse_time aggregate ctx p fs ss ds ≡ ok r
      → In item r.items
      → (w : Workspace) × In w (get_workspaces_from_context ctx)
        × (user_has_access w ctx.user ≡ true)
        × (w.name ≡ item.workspace)
  unfolding list_workflows_metadata
  list_workflows_metadata-access = list_accessible-items "workspace" [] keep_workflows at_workspace

  -- The same of the jobs that are listed: the workspace is that of the workflow of the job.
  pub list_jobs_metadata-access :
      (ctx : Context) (p : Pagination) (fs ss : List String) (ds : List D)
      (r : ListOf MetadataWorkspace) (item : MetadataWorkspace)
      → list_jobs_metadata parse_time aggregate ctx p fs ss ds ≡ ok r
      → In item r.items
      → (w : Workspace) × In w (get_workspaces_from_context ctx)
        × (user_has_access w ctx.user ≡ true)
        × (w.name ≡ item.workspace)
  unfolding list_jobs_metadata
  list_jobs_metadata-access =
      list_accessible-items "workflow.workspace" (add_field "workspace" "workflow.workspace" ∷ [])
        keep at_path
    where
      keep :
          (sorts : List SortItem)
          → KeepWorkspace (middle (add_field "workspace" "workflow.workspace" ∷ []) sorts)
      keep [] = (projected, tt)
      keep (s ∷ sorts) = (projected, tt)

      at_path :
          (sorts : List SortItem)
          → workspace_path (middle (add_field "workspace" "workflow.workspace" ∷ []) sorts)
            ≡ "workflow.workspace"
      at_path [] = refl
      at_path (s ∷ sorts) = refl
