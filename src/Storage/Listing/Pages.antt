-- ===== src/Storage/Listing/Pages.antt =====
-- What a page of a listing holds: as many items as its limit allows, of those after the offset.
use flowify_workflows_server.Storage.Access.{get_workspaces_from_context, Context}
use flowify_workflows_server.Storage.Listing.Stages.{counted}
use flowify_workflows_server.Models.{Time}
use flowify_workflows_server.Storage.Listing.Stages.{IsAggregate, IsPaged}
use flowify_workflows_server.Common.Result.{ok-injective, ok, Result}
use flowify_workflows_server.Common.Int.{◌≤ℤ◌, pos, ℤ}
use flowify_workflows_server.Storage.Listing.{
  accessible, list_accessible, list_workflows_metadata, PageInfo, Aggregate, limit, no_list, skip,
  Facets, ListOf, MetadataWorkspace, Pagination,
}
use flowify_workflows_server.Storage.Query.{Query}
use flowify_workflows_server.Common.{
  List-cases, Bool, ◌-◌, ℕ, zero, suc, String, List, [], ◌∷◌, length, take, drop, ◌≡◌, refl, sym,
  ◌∙◌, ap, ◌⊎◌, inl, inr, arith,
}
use mathlib.Core.Path.{subst}
use Prim.Native.Nat.{min}
use flowify_workflows_server.Storage.Listing.Access.{
  middle, IsFirst, keep_workflows, at_workspace, list_secured-Aggregated,
}
use flowify_workflows_server.Common.Int.{negsuc}

length-take : {A : Type 0} (n : ℕ) (xs : List A) → length (take n xs) ≡ min n (length xs)
length-take zero xs = omega arith
length-take (suc n) [] = omega arith
length-take (suc n) (x ∷ xs) = let rest = length-take n xs in omega arith

length-drop : {A : Type 0} (n : ℕ) (xs : List A) → length (drop n xs) ≡ length xs - n
length-drop zero xs = omega arith
length-drop (suc n) [] = omega arith
length-drop (suc n) (x ∷ xs) = let rest = length-drop n xs in omega arith

-- The list is a page: of the total number of documents, those after the offset, as many as the
-- limit allows. It repeats the limit and the offset, if there is a document at all.
abbrev pub IsPage : Pagination → ListOf MetadataWorkspace → Type 0
IsPage p r =
    (l : ℕ) × (s : ℕ) × (n : ℕ) × (p.limit ≡ pos l)
    × (p.skip ≡ pos s)
    × (r.page_info.total_number ≡ pos n)
    × (length r.items ≡ min l (n - s))
    × ((n ≡ 0) ⊎ ((r.page_info.limit ≡ p.limit) × (r.page_info.skip ≡ p.skip)))

no_list-IsPage :
    (limit skip : ℤ)
    → pos 0 ≤ℤ limit
    → pos 0 ≤ℤ skip
    → IsPage (record { limit = limit; skip = skip }) no_list
no_list-IsPage (pos l) (pos s) h k = (l, s, 0, refl, refl, refl, omega arith, inl refl)
no_list-IsPage (negsuc l) s h k = absurd (omega arith)
no_list-IsPage (pos l) (negsuc s) h k = absurd (omega arith)

page-length :
    (l s : ℤ) (all items : List MetadataWorkspace)
    → IsPaged (skip s ∷ limit l ∷ []) all items
    → (m : ℕ) × (k : ℕ) × (l ≡ pos m) × (s ≡ pos k) × (length items ≡ min m (length all - k))
page-length (pos m) (pos k) all items paged = (
  m,
  k,
  refl,
  refl,
  ap length paged ∙ length-take m (drop k all) ∙ ap (min m) (length-drop k all),
)
page-length (negsuc m) (pos k) all items paged = elim paged [ ]
page-length l (negsuc k) all items paged = elim paged [ ]

-- The facets of the page, with the documents counted.
first-IsPage :
    (l s : ℤ) (all : List MetadataWorkspace) (facets : Facets MetadataWorkspace)
    (r : ListOf MetadataWorkspace)
    → pos 0 ≤ℤ l
    → pos 0 ≤ℤ s
    → IsPaged (skip s ∷ limit l ∷ []) all facets.items
    → facets.page_info ≡ counted "totalNumber" (("skip", s) ∷ ("limit", l) ∷ []) (length all)
    → IsFirst facets r
    → IsPage (record { limit = l; skip = s }) r
first-IsPage l s all facets r h k paged info (inl (_, is)) =
    subst (IsPage (record { limit = l; skip = s })) (sym is) (no_list-IsPage l s h k)
first-IsPage l s [] facets r h k paged info (inr (first, rest, some, is)) = cc
first-IsPage l s (d ∷ all) facets r h k paged info (inr (first, rest, some, is)) =
    let (m, j, at_limit, at_skip, long) = page-length l s (d ∷ all) facets.items paged in
    let page : ListOf MetadataWorkspace = record {
      items = facets.items;
      page_info = record { total_number = pos (length (d ∷ all)); limit = l; skip = s };
    } in
    let same : page ≡ r =
      ap (λ i. record { items = facets.items; page_info = i }) (head_of (sym info ∙ some))
      ∙ sym is in
    subst (IsPage (record { limit = l; skip = s })) same
      (m, j, length (d ∷ all), at_limit, at_skip, refl, long, inr (refl, refl))
  where
    head_of : {a b : PageInfo} {cs bs : List PageInfo} → a ∷ cs ≡ b ∷ bs → a ≡ b
    head_of e = cc

module _ {D : Type 0} (text_at : String → D → String) (satisfies : Query → D → Bool)
    (parse_time : String → Result Time) (aggregate : Aggregate D MetadataWorkspace)
    (mongo : IsAggregate text_at satisfies aggregate) where
  -- A listing of workflows is the page that is asked for, where its limit and its offset are not
  -- negative.
  pub list_workflows_metadata-IsPage :
      (ctx : Context) (p : Pagination) (fs ss : List String) (ds : List D)
      (r : ListOf MetadataWorkspace)
      → pos 0 ≤ℤ p.limit
      → pos 0 ≤ℤ p.skip
      → list_workflows_metadata parse_time aggregate ctx p fs ss ds ≡ ok r
      → IsPage p r
  unfolding list_workflows_metadata list_accessible
  list_workflows_metadata-IsPage ctx p fs ss ds r h k e =
      elim (List-cases (accessible ctx.user (get_workspaces_from_context ctx))) [
        | inl none ↦
            let empty : ok no_list ≡ ok r =
              rw (list_workflows_metadata, list_accessible, none) at e in
            subst (IsPage p) (ok-injective empty) (no_list-IsPage p.limit p.skip h k)
        | inr (ws, wss, some) ↦
            let keep = keep_workflows text_at satisfies parse_time aggregate mongo in
            let at = at_workspace text_at satisfies parse_time aggregate mongo in
            let a =
              list_secured-Aggregated text_at satisfies parse_time aggregate mongo "workspace" []
                keep at (ws ∷ wss) p fs ss ds r
                (rw (list_workflows_metadata, list_accessible, some) at e) in
            let (all, _, paged, info) =
              mongo.faceted _ (middle [] a.sorts) _ _ _ ds a.cursor a.facets (keep a.sorts) a.got
                a.decoded in
            first-IsPage p.limit p.skip all a.facets r h k paged info a.first
      ]
