-- ===== src/Storage/Listing/Stages.antt =====
-- The stages of the aggregation pipelines of the listings: what MongoDB documents of them, as laws on
-- the parameter.
use mathlib.Core.Path.{subst}
use flowify_workflows_server.Common.{
  zero, suc, take, drop, ℕ, String, Bool, true, List, [], ◌∷◌, ◌++◌, ◌==◌, string_eq, length,
  if◌then◌else◌, In, Any, All, ◌≡◌, sym,
}
use flowify_workflows_server.Common.Int.{negsuc, ℤ, pos}
use flowify_workflows_server.Common.Result.{ok}
use flowify_workflows_server.Storage.Query.{texts, operators, Fields, Query, fields, joined}
use flowify_workflows_server.Storage.Listing.{
  skip, limit, add_fields, count, PageStage, PageInfo, MetadataWorkspace, Stage, match, sort,
  add_field, project, facet, Facets, Cursor, Aggregate,
}

-- Stages that leave the workspace in the items.
abbrev pub KeepWorkspace : List Stage → Type 0
KeepWorkspace [] = Unit
KeepWorkspace (match q ∷ stages) = ⊥
KeepWorkspace (facet info items ∷ stages) = ⊥
KeepWorkspace (sort s ∷ stages) = KeepWorkspace stages
KeepWorkspace (add_field name path ∷ stages) = KeepWorkspace stages
KeepWorkspace (project names ∷ stages) = In "workspace" names × KeepWorkspace stages

-- The path in the stored document that the workspace of the items comes from.
abbrev pub workspace_path : List Stage → String
workspace_path [] = "workspace"
workspace_path (add_field name path ∷ stages) =
    if name == "workspace" then path else workspace_path stages
workspace_path (_ ∷ stages) = workspace_path stages

-- What `$skip` and `$limit` leave of the documents, one stage after the other. MongoDB takes no
-- negative numbers.
abbrev pub IsPaged : {I : Type 0} → List PageStage → List I → List I → Type 0
IsPaged [] xs ys = ys ≡ xs
IsPaged (skip (pos n) ∷ stages) xs ys = IsPaged stages (drop n xs) ys
IsPaged (limit (pos n) ∷ stages) xs ys = IsPaged stages (take n xs) ys
IsPaged (skip (negsuc n) ∷ stages) xs ys = ⊥
IsPaged (limit (negsuc n) ∷ stages) xs ys = ⊥

-- `$addFields` on the document of the page, where a later field replaces an earlier one.
abbrev pub with_fields : List (String × ℤ) → PageInfo → PageInfo
with_fields [] info = info
with_fields ((name, n) ∷ fs) info = with_fields fs (
    if name == "skip"
    then record info { skip = n }
    else if name == "limit"
    then record info { limit = n }
    else info)

-- `$count` under a name, and then `$addFields`: without a document there is none.
abbrev pub counted : String → List (String × ℤ) → ℕ → List PageInfo
counted name fs zero = []
counted name fs (suc n) =
    with_fields fs (record {
      total_number = if name == "totalNumber" then pos (suc n) else pos 0;
      limit = pos 0;
      skip = pos 0;
    })
    ∷ []

-- What MongoDB documents of the stages: which documents a query selects, and what the pipelines of
-- a facet stage make of the documents that come to it. `text_at` is the text at a path of a
-- document.
pub record IsAggregate {D : Type 0} (text_at : String → D → String) (satisfies : Query → D → Bool)
    (aggregate : Aggregate D MetadataWorkspace) : Type 0 where
  pub all_of :
      (qs : List Fields) (d : D)
      → satisfies (joined "$and" qs) d ≡ true
      → All (λ q. satisfies (fields q) d ≡ true) qs
  pub in_texts :
      (path : String) (ts : List String) (d : D)
      → satisfies (fields ((path, operators (("$in", texts ts) ∷ [])) ∷ [])) d ≡ true
      → In (text_at path d) ts
  pub faceted :
      (q : Query) (stages : List Stage) (name : String) (fs : List (String × ℤ))
      (page : List PageStage) (ds : List D) (cursor : Cursor MetadataWorkspace)
      (facets : Facets MetadataWorkspace)
      → KeepWorkspace stages
      → aggregate (match q ∷ stages ++ facet (count name ∷ add_fields fs ∷ []) page ∷ []) ds
        ≡ ok cursor
      → cursor.decoded ≡ ok facets
      → (all : List MetadataWorkspace) × All
          (λ item.
            Any
              (λ d. (satisfies q d ≡ true) × (text_at (workspace_path stages) d ≡ item.workspace))
              ds)
          all
        × IsPaged page all facets.items
        × (facets.page_info ≡ counted name fs (length all))

take-All : {A : Type 0} (P : A → Type 0) (n : ℕ) (xs : List A) → All P xs → All P (take n xs)
take-All P zero xs h = tt
take-All P (suc n) [] h = tt
take-All P (suc n) (x ∷ xs) (here, h) = (here, take-All P n xs h)

drop-All : {A : Type 0} (P : A → Type 0) (n : ℕ) (xs : List A) → All P xs → All P (drop n xs)
drop-All P zero xs h = h
drop-All P (suc n) [] h = tt
drop-All P (suc n) (x ∷ xs) (here, h) = drop-All P n xs h

pub IsPaged-All :
    {I : Type 0} (P : I → Type 0) (page : List PageStage) (xs ys : List I)
    → All P xs
    → IsPaged page xs ys
    → All P ys
IsPaged-All P [] xs ys h same = subst (All P) (sym same) h
IsPaged-All P (skip (pos n) ∷ page) xs ys h paged =
    IsPaged-All P page (drop n xs) ys (drop-All P n xs h) paged
IsPaged-All P (limit (pos n) ∷ page) xs ys h paged =
    IsPaged-All P page (take n xs) ys (take-All P n xs h) paged
IsPaged-All P (skip (negsuc n) ∷ page) xs ys h paged = elim paged [ ]
IsPaged-All P (limit (negsuc n) ∷ page) xs ys h paged = elim paged [ ]
