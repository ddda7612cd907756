-- ===== src/Storage/Query/Printing.antt =====
-- Sort parameters read back as they are written, and the operators that filters can have.
use Prim.Native.Char.{Char, code}
use Prim.Native.String.{◌++◌}
use text.Mathlib.TextLemmas.{nil-append, cons-append}
use flowify_workflows_server.Common.{
  map, String, Bool, true, false, List, [], ◌∷◌, ◌==◌, nat_eq, nat_beq_iff, string_eq, ◌≡◌, refl,
  ap, ◌⊎◌, inl, inr, arith, All,
}
use flowify_workflows_server.Common.Int.{ℤ}
use flowify_workflows_server.Common.Result.{ok}
use flowify_workflows_server.Storage.Query.{
  SortItem, ascending, descending, is_word, field_from, is_field, push_char, split_comma,
  sort_submatches, sort_item, parse_sort_parts, parse_sort_query,
}

-- A sort parameter as a client writes it: `+name,-timestamp`.
pub data Direction : Type 0 where
  up down : Direction

abbrev pub order_of : Direction → ℤ
order_of up = ascending
order_of down = descending

abbrev pub sign_of : Direction → Char
sign_of up = "+"
sign_of down = "-"

abbrev pub print_item : Direction × String → String
print_item (d, field) = String.◌∷◌ (sign_of d) field

abbrev pub print_sort : Direction × String → List (Direction × String) → String
print_sort item [] = print_item item
print_sort item (next ∷ items) = print_item item ++ String.◌∷◌ "," (print_sort next items)

abbrev pub item_of : Direction × String → SortItem
item_of (d, field) = (field, order_of d)

field_from-no_comma :
    (b : Bool) (c : Char) (s : String)
    → field_from b (String.◌∷◌ c s) ≡ true
    → (code c == b',') ≡ false
unfolding field_from is_word
field_from-no_comma true c s h =
    ground (arith, nat_beq_iff (code c) b',', nat_beq_iff (code c) b'_')
field_from-no_comma false c s h =
    ground (arith, nat_beq_iff (code c) b',', nat_beq_iff (code c) b'_', nat_beq_iff (code c) b'.')

field_from-rest :
    (b : Bool) (c : Char) (s : String)
    → field_from b (String.◌∷◌ c s) ≡ true
    → (field_from false s ≡ true) ⊎ (field_from true s ≡ true)
unfolding field_from
field_from-rest true c s h = ground arith
field_from-rest false c s h = ground arith

-- A field has no comma: it is one part of a split text.
split_comma-field : (b : Bool) (s : String) → field_from b s ≡ true → split_comma s ≡ s ∷ []
unfolding split_comma
split_comma-field b String.[] h = refl
split_comma-field b (String.◌∷◌ c s) h = rw (field_from-no_comma b c s h) (
    ap (push_char c) (elim (field_from-rest b c s h) [
      | inl inside ↦ split_comma-field false s inside
      | inr start ↦ split_comma-field true s start
    ]))

split_comma-append :
    (b : Bool) (s t : String)
    → field_from b s ≡ true
    → split_comma (s ++ String.◌∷◌ "," t) ≡ s ∷ split_comma t
unfolding split_comma
split_comma-append b String.[] t h = rw nil-append refl
split_comma-append b (String.◌∷◌ c s) t h =
    rw (cons-append, field_from-no_comma b c s h)
      (ap (push_char c) (elim (field_from-rest b c s h) [
        | inl inside ↦ split_comma-append false s t inside
        | inr start ↦ split_comma-append true s t start
      ]))

sort_submatches-print :
    (d : Direction) (field : String)
    → is_field field ≡ true
    → sort_item (sort_submatches (print_item (d, field))) ≡ ok (item_of (d, field))
unfolding sort_submatches sort_item
sort_submatches-print up field h = rw h refl
sort_submatches-print down field h = rw h refl

-- A printed item has no comma either, since a sign is none.
split_comma-print :
    (item : Direction × String)
    → is_field item.1 ≡ true
    → split_comma (print_item item) ≡ print_item item ∷ []
unfolding split_comma
split_comma-print (up, field) h = ap (push_char "+") (split_comma-field true field h)
split_comma-print (down, field) h = ap (push_char "-") (split_comma-field true field h)

split_comma-print_next :
    (item : Direction × String) (t : String)
    → is_field item.1 ≡ true
    → split_comma (print_item item ++ String.◌∷◌ "," t) ≡ print_item item ∷ split_comma t
unfolding split_comma
split_comma-print_next (up, field) t h =
    rw cons-append (ap (push_char "+") (split_comma-append true field t h))
split_comma-print_next (down, field) t h =
    rw cons-append (ap (push_char "-") (split_comma-append true field t h))

-- A printed sort parameter is read back as the fields and orders that it was printed from, in
-- their order. Each field is one or more words with dots between them.
pub parse_sort_query-print :
    (item : Direction × String) (items : List (Direction × String))
    → All (λ i. is_field i.1 ≡ true) (item ∷ items)
    → parse_sort_query (print_sort item items) ≡ ok (map item_of (item ∷ items))
unfolding parse_sort_query parse_sort_parts
parse_sort_query-print item [] h =
    rw (split_comma-print item h.0, sort_submatches-print item.0 item.1 h.0)
parse_sort_query-print item (next ∷ items) h = rw (
  split_comma-print_next item (print_sort next items) h.0,
  sort_submatches-print item.0 item.1 h.0,
  parse_sort_query-print next items h.1,
)
