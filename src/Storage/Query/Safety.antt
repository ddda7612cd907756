-- ===== src/Storage/Query/Safety.antt =====
-- What a request can bring into a query: keys that are fields, never operators of MongoDB.
use mathlib.Core.Path.{subst}
use Prim.Native.Char.{code}
use flowify_workflows_server.Common.{
  ◌≢◌, ℕ, String, true, ◌&&◌, ◌||◌, List, [], ◌∷◌, ◌==◌, nat_eq, string_eq, none, some, ◌≡◌, sym,
  ◌∙◌, ap, ◌⊎◌, inl, inr, arith, Bool-cases, All, All-append, Option-cases,
}
use flowify_workflows_server.Common.Result.{
  Result, ok, wrap, >>=-eq-ok, wrap-eq-ok, ok-injective, ok≢err,
}
use flowify_workflows_server.Models.{Time}
use flowify_workflows_server.Storage.Query.{
  filter_operators, operator_submatches, cut_bracket, mongo_operator, SortItem, ascending,
  descending, is_field, split_comma, sort_submatches, sort_item, parse_sort_parts, parse_sort_query,
  sort_queries, Test, Fields, mongo_filter, filter_submatches, filter_value, filter_part,
  parse_filter_parts, parse_filter_query, filter_queries,
}

abbrev pub IsSortItem : SortItem → Type 0
IsSortItem item = (is_field item.0 ≡ true) × ((item.1 ≡ ascending) ⊎ (item.1 ≡ descending))

sort_submatches-field :
    (p : String) (m : ℕ × String) → sort_submatches p ≡ some m → is_field m.1 ≡ true
unfolding sort_submatches
sort_submatches-field String.[] m e = cc
sort_submatches-field (String.◌∷◌ c s) m e =
    elim (Bool-cases ((code c == b'+' || code c == b'-') && is_field s)) [
      | inl hit ↦
          let field : is_field s ≡ true = ground arith in
          let same : some (code c, s) ≡ some m = rw hit at e in
          let part : s ≡ m.1 = cc in subst (λ x. is_field x ≡ true) part field
      | inr miss ↦ let none_found : none ≡ some m = rw miss at e in cc
    ]

sort_item-eq-ok :
    (m : ℕ × String) (item : SortItem)
    → sort_item (some m) ≡ ok item
    → (m.1 ≡ item.0) × ((item.1 ≡ ascending) ⊎ (item.1 ≡ descending))
unfolding sort_item
sort_item-eq-ok (sign, field) item e = elim (Bool-cases (sign == b'+')) [
  | inl plus ↦ let same : ok (field, ascending) ≡ ok item = rw plus at e in (cc, inl cc)
  | inr other ↦ elim (Bool-cases (sign == b'-')) [
    | inl minus ↦
        let same : ok (field, descending) ≡ ok item = rw (other, minus) at e in (cc, inr cc)
    | inr neither ↦ absurd (ok≢err (sym (rw (other, neither) at e)))
  ]
]

sort_item-none : (item : SortItem) → sort_item none ≢ ok item
unfolding sort_item
sort_item-none item e = ok≢err (sym e)

sort_item-IsSortItem :
    (p : String) (item : SortItem) → sort_item (sort_submatches p) ≡ ok item → IsSortItem item
sort_item-IsSortItem p item e = elim (Option-cases (sort_submatches p)) [
  | inl missed ↦ absurd (sort_item-none item (ap sort_item (sym missed) ∙ e))
  | inr (m, found) ↦
      let (same, order) = sort_item-eq-ok m item (ap sort_item (sym found) ∙ e) in
      (subst (λ x. is_field x ≡ true) same (sort_submatches-field p m found), order)
]

parse_sort_parts-IsSortItem :
    (parts : List String) (items : List SortItem)
    → parse_sort_parts parts ≡ ok items
    → All IsSortItem items
unfolding parse_sort_parts
parse_sort_parts-IsSortItem [] items e = subst (All IsSortItem) (ok-injective e) tt
parse_sort_parts-IsSortItem (p ∷ parts) items e =
    let (item, first, more) = >>=-eq-ok (sort_item (sort_submatches p)) _ e in
    let (rest, others, same) = >>=-eq-ok (parse_sort_parts parts) _ more in
    subst (All IsSortItem) (ok-injective same)
      (sort_item-IsSortItem p item first, parse_sort_parts-IsSortItem parts rest others)

-- What sort parameters are read to are fields, each with one of the two orders.
sort_queries-IsSortItem :
    (sortstrings : List String) (items : List SortItem)
    → sort_queries sortstrings ≡ ok items
    → All IsSortItem items
unfolding sort_queries parse_sort_query
sort_queries-IsSortItem [] items e = subst (All IsSortItem) (ok-injective e) tt
sort_queries-IsSortItem (f ∷ fs) items e =
    let (mf, first, more) =
      >>=-eq-ok (wrap "could not parse filter query" (parse_sort_query f)) _ e in
    let (rest, others, same) = >>=-eq-ok (sort_queries fs) _ more in
    subst (All IsSortItem) (ok-injective same) (
      All-append IsSortItem mf rest
        (parse_sort_parts-IsSortItem (split_comma f) mf (wrap-eq-ok _ _ first))
        (sort_queries-IsSortItem fs rest others))

abbrev pub IsCondition : String × Test → Type 0
IsCondition c = is_field c.0 ≡ true

filter_submatches-field :
    (p : String) (m : String × (String × String))
    → filter_submatches p ≡ some m
    → is_field m.0 ≡ true
unfolding filter_submatches
filter_submatches-field p m e = elim (Option-cases (cut_bracket p)) [
  | inl uncut ↦ let missed : none ≡ some m = rw (filter_submatches, uncut) at e in cc
  | inr ((field, after), cut) ↦ elim (Option-cases (operator_submatches filter_operators after)) [
    | inl missing ↦ let missed : none ≡ some m = rw (filter_submatches, cut, missing) at e in cc
    | inr (match, found) ↦ elim (Bool-cases (is_field field)) [
      | inl good ↦
          let same : some (field, match) ≡ some m = rw (filter_submatches, cut, found, good) at e in
          let part : field ≡ m.0 = cc in subst (λ x. is_field x ≡ true) part good
      | inr bad ↦ let missed : none ≡ some m = rw (filter_submatches, cut, found, bad) at e in cc
    ]
  ]
]

module _ (parse_time : String → Result Time) where
  filter_part-attribute :
      (m : String × (String × String)) (c : String × Test)
      → filter_part parse_time (some m) ≡ ok c
      → m.0 ≡ c.0
  unfolding filter_part mongo_filter
  filter_part-attribute (attribute, (op, s)) c e =
      let (value, _, rest) = >>=-eq-ok (filter_value parse_time attribute s) _ e in
      let (test, _, same) =
        >>=-eq-ok (wrap "could not construct filter" (mongo_operator op value)) _
          (wrap-eq-ok _ (mongo_filter attribute op value) rest) in
      ap (λ x. x.0) (ok-injective same)

  filter_part-none : (c : String × Test) → filter_part parse_time none ≢ ok c
  unfolding filter_part
  filter_part-none c e = ok≢err (sym e)

  filter_part-IsCondition :
      (p : String) (c : String × Test)
      → filter_part parse_time (filter_submatches p) ≡ ok c
      → IsCondition c
  filter_part-IsCondition p c e = elim (Option-cases (filter_submatches p)) [
    | inl missed ↦ absurd (filter_part-none c (ap (filter_part parse_time) (sym missed) ∙ e))
    | inr (m, found) ↦
        subst (λ x. is_field x ≡ true)
          (filter_part-attribute m c (ap (filter_part parse_time) (sym found) ∙ e))
          (filter_submatches-field p m found)
  ]

  parse_filter_parts-IsCondition :
      (parts : List String) (cs : Fields)
      → parse_filter_parts parse_time parts ≡ ok cs
      → All IsCondition cs
  unfolding parse_filter_parts
  parse_filter_parts-IsCondition [] cs e = subst (All IsCondition) (ok-injective e) tt
  parse_filter_parts-IsCondition (p ∷ parts) cs e =
      let (c, first, more) = >>=-eq-ok (filter_part parse_time (filter_submatches p)) _ e in
      let (rest, others, same) = >>=-eq-ok (parse_filter_parts parse_time parts) _ more in
      subst (All IsCondition) (ok-injective same)
        (filter_part-IsCondition p c first, parse_filter_parts-IsCondition parts rest others)

  -- What filter parameters are read to are conditions on fields: words with dots between them.
  pub filter_queries-IsCondition :
      (filterstrings : List String) (qs : List Fields)
      → filter_queries parse_time filterstrings ≡ ok qs
      → All (All IsCondition) qs
  unfolding filter_queries parse_filter_query
  filter_queries-IsCondition [] qs e = subst (All (All IsCondition)) (ok-injective e) tt
  filter_queries-IsCondition (f ∷ fs) qs e =
      let (mf, first, more) =
        >>=-eq-ok (wrap "could not parse filter query" (parse_filter_query parse_time f)) _ e in
      let (rest, others, same) = >>=-eq-ok (filter_queries parse_time fs) _ more in
      subst (All (All IsCondition)) (ok-injective same) (
        parse_filter_parts-IsCondition (split_comma f) mf (wrap-eq-ok _ _ first),
        filter_queries-IsCondition fs rest others,
      )
