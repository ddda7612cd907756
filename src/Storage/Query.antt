-- ===== src/Storage/Query.antt =====
-- storage/parsequery.go: the `filter` and `sort` parameters of a request as queries of MongoDB. The
-- regular expressions are written out as the functions that they describe.
pub mod Printing
pub mod Safety
use Prim.Native.Char.{Char, code}
use Prim.Native.String.{◌++◌}
use mathlib.Core.List
use flowify_workflows_server.Common.{
  ℕ, zero, suc, String, Bool, true, false, ◌&&◌, ◌||◌, List, [], ◌∷◌, ◌==◌, nat_eq, string_eq,
  Option, none, some, leb, if◌then◌else◌,
}
use flowify_workflows_server.Common.Int.{ℤ, pos, negsuc}
use flowify_workflows_server.Common.Result.{Result, ok, err, message, wrap, ◌>>=◌}
use flowify_workflows_server.Models.{Time}
use flowify_workflows_server.Models.Versions.{ComponentReference}

-- The `bson.D` values that the package builds. A condition gives a field either operators with
-- their arguments, or the value that it equals.
pub data Value : Type 0 where
  text : String → Value
  time : Time → Value
  texts : List String → Value
  uuid : ComponentReference → Value

pub data Test : Type 0 where
  operators : List (String × Value) → Test
  equals : Value → Test

-- The conditions of one filter parameter, and what the parameters are joined to.
abbrev pub Fields : Type 0
Fields = List (String × Test)

pub data Query : Type 0 where
  fields : Fields → Query
  joined : String → List Fields → Query

abbrev pub SortItem : Type 0
SortItem = String × ℤ

abbrev pub ascending : ℤ
ascending = pos 1

abbrev pub descending : ℤ
descending = negsuc 0

-- `\w`
unfoldable pub is_word : ℕ → Bool
is_word c =
    leb b'0' c && leb c b'9'
    || (leb b'A' c && leb c b'Z' || (leb b'a' c && leb c b'z' || c == b'_'))

-- `\w+(?:\.\w+)*`, from the start of a word or inside one.
unfoldable pub field_from : Bool → String → Bool
unfolding is_word
field_from true String.[] = false
field_from false String.[] = true
field_from true (String.◌∷◌ c s) = is_word (code c) && field_from false s
field_from false (String.◌∷◌ c s) =
    is_word (code c) && field_from false s || code c == b'.' && field_from true s

abbrev pub is_field : String → Bool
is_field s = field_from true s

-- `strings.Split(s, ",")`
abbrev pub push_char : Char → List String → List String
push_char c [] = String.◌∷◌ c String.[] ∷ []
push_char c (part ∷ parts) = String.◌∷◌ c part ∷ parts

unfoldable pub split_comma : String → List String
split_comma String.[] = String.[] ∷ []
split_comma (String.◌∷◌ c s) =
    let rest = split_comma s in if code c == b',' then String.[] ∷ rest else push_char c rest

-- The submatches of `^(\+|-)` field `$`: the sign and the field.
unfoldable pub sort_submatches : String → Option (ℕ × String)
unfolding field_from
sort_submatches String.[] = none
sort_submatches (String.◌∷◌ c s) =
    if (code c == b'+' || code c == b'-') && is_field s then some (code c, s) else none

-- One part of a sort parameter. The sign is one of the two that the expression lets pass.
unfoldable pub sort_item : Option (ℕ × String) → Result SortItem
sort_item none = err (message "cannot parse sort")
sort_item (some (sign, field)) =
    if sign == b'+'
    then ok (field, ascending)
    else if sign == b'-'
    then ok (field, descending)
    else err (message "can never parse sort")

unfoldable pub parse_sort_parts : List String → Result (List SortItem)
unfolding sort_item sort_submatches
parse_sort_parts [] = ok []
parse_sort_parts (p ∷ parts) = do
  item ← sort_item (sort_submatches p)
  rest ← parse_sort_parts parts
  ok (item ∷ rest)

unfoldable pub parse_sort_query : String → Result (List SortItem)
unfolding parse_sort_parts split_comma
parse_sort_query sortstr = parse_sort_parts (split_comma sortstr)

unfoldable pub sort_queries : List String → Result (List SortItem)
unfolding parse_sort_query
sort_queries [] = ok []
sort_queries (f ∷ sortstrings) = do
  mf ← wrap "could not parse filter query" (parse_sort_query f)
  sorts ← sort_queries sortstrings
  ok (List.◌++◌ mf sorts)

unfoldable pub mongo_operator : String → Value → Result Test
mongo_operator op value =
    if op == "=="
    then ok (operators (("$eq", value) ∷ []))
    else if op == "!="
    then ok (operators (("$neq", value) ∷ []))
    else if op == ">="
    then ok (operators (("$gte", value) ∷ []))
    else if op == "<="
    then ok (operators (("$lte", value) ∷ []))
    else if op == ">"
    then ok (operators (("$gt", value) ∷ []))
    else if op == "<"
    then ok (operators (("$lt", value) ∷ []))
    else if op == "search"
    then ok (operators (("$regex", value) ∷ ("$options", text "i") ∷ []))
    else err (message "no such filter operator")

unfoldable pub mongo_filter : String → String → Value → Result (String × Test)
unfolding mongo_operator
mongo_filter attr ops value = do
  op ← wrap "could not construct filter" (mongo_operator ops value)
  ok (attr, op)

-- The text before the first `[`, and the text after it.
unfoldable pub cut_bracket : String → Option (String × String)
cut_bracket String.[] = none
cut_bracket (String.◌∷◌ c s) =
    let rest = cut_bracket s in
    if code c == b'['
    then some (String.[], s)
    else elim rest [ none ↦ none | some (field, after) ↦ some (String.◌∷◌ c field, after) ]

-- `s` without a prefix, if it has it.
unfoldable pub cut_prefix : String → String → Option String
cut_prefix String.[] s = some s
cut_prefix (String.◌∷◌ c prefix) String.[] = none
cut_prefix (String.◌∷◌ c prefix) (String.◌∷◌ d s) =
    let rest = cut_prefix prefix s in if code c == code d then rest else none

-- `.*` lets no line feed pass.
unfoldable pub is_line : String → Bool
is_line String.[] = true
is_line (String.◌∷◌ c s) = not_line_feed (code c) && is_line s
  where
    not_line_feed : ℕ → Bool
    not_line_feed c = if c == 10 then false else true

-- The alternatives `==|>=|<=|search|>|<|!=`, with `]=` and the value.
unfoldable pub operator_submatches : List String → String → Option (String × String)
unfolding cut_prefix is_line
operator_submatches [] s = none
operator_submatches (op ∷ ops) s =
    let rest = operator_submatches ops s in
    elim (cut_prefix (op ++ "]=") s) [
      | none ↦ rest
      | some value ↦ if is_line value then some (op, value) else rest
    ]

abbrev pub filter_operators : List String
filter_operators = "==" ∷ ">=" ∷ "<=" ∷ "search" ∷ ">" ∷ "<" ∷ "!=" ∷ []

-- The submatches of the filter expression: the field, the operator and the value.
unfoldable pub filter_submatches : String → Option (String × (String × String))
unfolding cut_bracket operator_submatches field_from
filter_submatches p = elim (cut_bracket p) [
  | none ↦ none
  | some (field, after) ↦ elim (operator_submatches filter_operators after) [
    | none ↦ none
    | some match ↦ if is_field field then some (field, match) else none
  ]
]

-- `time.Parse(time.RFC3339, ...)` is a parameter.
module _ (parse_time : String → Result Time) where
  unfoldable pub filter_value : String → String → Result Value
  filter_value attribute_name s =
      if attribute_name == "timestamp"
      then (wrap "cannot parse timestamp" (parse_time s) >>= λ t. ok (time t))
      else ok (text s)

  unfoldable pub filter_part : Option (String × (String × String)) → Result (String × Test)
  unfolding filter_value mongo_filter
  filter_part none = err (message "cannot parse filter")
  filter_part (some (attribute_name, (op_name, s))) = do
    value ← filter_value attribute_name s
    wrap "cannot parse filter" (mongo_filter attribute_name op_name value)

  unfoldable pub parse_filter_parts : List String → Result (List (String × Test))
  unfolding filter_part filter_submatches
  parse_filter_parts [] = ok []
  parse_filter_parts (p ∷ parts) = do
    filter ← filter_part (filter_submatches p)
    rest ← parse_filter_parts parts
    ok (filter ∷ rest)

  unfoldable pub parse_filter_query : String → Result Fields
  unfolding parse_filter_parts split_comma
  parse_filter_query filter = parse_filter_parts (split_comma filter)

  unfoldable pub filter_queries : List String → Result (List Fields)
  unfolding parse_filter_query
  filter_queries [] = ok []
  filter_queries (f ∷ filterstrings) = do
    mf ← wrap "could not parse filter query" (parse_filter_query f)
    rest ← filter_queries filterstrings
    ok (mf ∷ rest)

unfoldable pub join_queries : List Fields → String → Query
join_queries [] op = fields []
join_queries (q ∷ []) op = fields q
join_queries (q ∷ r ∷ queries) op = joined op (q ∷ r ∷ queries)

-- `len(filter) > 0`
abbrev pub is_empty_query : Query → Bool
is_empty_query (fields []) = true
is_empty_query (fields (f ∷ fs)) = false
is_empty_query (joined op qs) = false
