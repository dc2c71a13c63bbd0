-- ===== src/Filter.antt =====
-- `_escape_sql_string`, `_escape_sql_inner` and `_build_metadata_filter` of
-- src/agent_memory_sdk/repositories/base.py.
pub mod Escape
pub mod Safety
use yaadien.Prelude.{
  ℕ, Bool, true, false, ◌&&◌, ◌||◌, not, Option, none, some, List, [], ◌∷◌, ◌++◌, map, ◌==◌, leb,
  if◌then◌else◌, codes, text_eq, replace,
}
use yaadien.Model.{Text, Result, ok, err, attribute_error, invalid_metadata_filter, ◌>>=◌}

-- A scalar of a filter. A number is the text that `str` gives, and so is any other object.
pub data Scalar : Type 0 where
  text number other : Text → Scalar
  boolean : Bool → Scalar
  null : Scalar

-- A value under an operator: a scalar, or a list or tuple of scalars with its own `str` text.
pub data Value : Type 0 where
  scalar : Scalar → Value
  sequence : List Scalar → Text → Value

-- An operand: a value, a dict with texts as its keys, or a dict with another key behind these entries.
pub data Operand : Type 0 where
  plain : Value → Operand
  dict : List (Text × Value) → Operand
  foreign_dict : List (Text × Value) → Operand

-- The part of the WHERE clause that one field adds. A field stands there as it is, a literal and
-- the tokens of an array test in their escaped form.
pub data Predicate : Type 0 where
  json_eq json_ne : Text → Text → Predicate
  json_is_null json_is_not_null : Text → Predicate
  array_contains_any : Text → List Text → Predicate

abbrev pub quote : ℕ
quote = b'\''

unfoldable pub double_quotes : Text → Text
unfolding replace
double_quotes = replace quote (quote ∷ quote ∷ [])

abbrev pub bool_text : Bool → Text
bool_text true = codes "true"
bool_text false = codes "false"

abbrev pub quoted : Text → Text
quoted s = quote ∷ (s ++ quote ∷ [])

unfoldable pub escape_sql_string : Scalar → Text
unfolding double_quotes
escape_sql_string (boolean b) = quoted (bool_text b)
escape_sql_string (number s) = quoted s
escape_sql_string null = codes "NULL"
escape_sql_string (text s) = quoted (double_quotes s)
escape_sql_string (other s) = quoted (double_quotes s)

unfoldable pub escape_sql_inner : Scalar → Text
unfolding double_quotes
escape_sql_inner (boolean b) = bool_text b
escape_sql_inner (number s) = s
escape_sql_inner null = []
escape_sql_inner (text s) = double_quotes s
escape_sql_inner (other s) = double_quotes s

-- a list or tuple is escaped by way of its `str` text
abbrev as_scalar : Value → Scalar
as_scalar (scalar s) = s
as_scalar (sequence _ s) = other s

abbrev pub is_letter : ℕ → Bool
is_letter c = leb b'A' c && leb c b'Z' || (leb b'a' c && leb c b'z')

abbrev pub is_name_start : ℕ → Bool
is_name_start c = is_letter c || c == b'_'

abbrev pub is_name_char : ℕ → Bool
is_name_char c = is_name_start c || (leb b'0' c && leb c b'9') || c == b'.'

-- `$` of the pattern also matches just before a newline at the end.
unfoldable pub name_rest : Text → Bool
name_rest [] = true
name_rest (c ∷ []) = is_name_char c || c == 10
name_rest (c ∷ d ∷ s) = is_name_char c && name_rest (d ∷ s)

-- `_FIELD_RE.match(field)`
unfoldable pub field_matches : Text → Bool
unfolding name_rest
field_matches [] = false
field_matches (c ∷ s) = is_name_start c && name_rest s

-- `op_key in _KNOWN_OPERATORS`
unfoldable pub is_known : Text → Bool
unfolding text_eq
is_known k =
    text_eq k (codes "$not")
    || text_eq k (codes "$array_contains")
    || text_eq k (codes "$array_contains_any")

abbrev starts_with_dollar : Text → Bool
starts_with_dollar [] = false
starts_with_dollar (c ∷ s) = c == b'$'

-- The loop over the keys of an operator dict: both of its checks.
unfoldable pub keys_ok : List (Text × Value) → Bool
unfolding is_known
keys_ok [] = true
keys_ok ((k, v) ∷ ops) = (starts_with_dollar k && is_known k) && keys_ok ops

unfoldable pub find_op : Text → List (Text × Value) → Option Value
unfolding text_eq
find_op k [] = none
find_op k ((j, v) ∷ ops) = if text_eq j k then some v else find_op k ops

abbrev not_part : Text → Scalar → Predicate
not_part field null = json_is_not_null field
not_part field s = json_ne field (escape_sql_string s)

abbrev any_part : Text → Value → Result (List Predicate)
any_part field (sequence (v ∷ vs) _) =
    ok (array_contains_any field (map escape_sql_inner (v ∷ vs)) ∷ [])
any_part field _ = err invalid_metadata_filter

-- The `if`/`elif` chain over the values under the three operators.
unfoldable pub chosen_part :
    Text → Option Value → Option Value → Option Value → Result (List Predicate)
chosen_part field (some v) _ _ = ok (not_part field (as_scalar v) ∷ [])
chosen_part field none (some v) _ =
    ok (array_contains_any field (escape_sql_inner (as_scalar v) ∷ []) ∷ [])
chosen_part field none none (some v) = any_part field v
chosen_part field none none none = ok []

unfoldable pub dict_part : Text → List (Text × Value) → Result (List Predicate)
unfolding find_op chosen_part
dict_part field ops =
    chosen_part field (find_op (codes "$not") ops) (find_op (codes "$array_contains") ops)
      (find_op (codes "$array_contains_any") ops)

-- A key that is no text has no `startswith`.
unfoldable pub operand_part : Text → Operand → Result (List Predicate)
unfolding keys_ok dict_part
operand_part field (dict ops) =
    if keys_ok ops then dict_part field ops else err invalid_metadata_filter
operand_part field (foreign_dict ops) =
    if keys_ok ops then err attribute_error else err invalid_metadata_filter
operand_part field (plain (scalar null)) = ok (json_is_null field ∷ [])
operand_part field (plain (scalar (other s))) = err invalid_metadata_filter
operand_part field (plain (scalar s)) = ok (json_eq field (escape_sql_string s) ∷ [])
operand_part field (plain (sequence vs s)) = err invalid_metadata_filter

abbrev pub Filter : Type 0
Filter = List (Text × Operand)

-- The loop over `metadata_filter.items()`; an exception ends it.
unfoldable pub filter_parts : Filter → Result (List Predicate)
unfolding field_matches operand_part
filter_parts [] = ok []
filter_parts ((field, operand) ∷ items) =
    if field_matches field
    then (do part ← operand_part field operand; rest ← filter_parts items; ok (part ++ rest))
    else err invalid_metadata_filter

-- `None` and the empty dict filter nothing.
unfoldable pub build_metadata_filter : Option Filter → Result (List Predicate)
unfolding filter_parts
build_metadata_filter none = ok []
build_metadata_filter (some items) = filter_parts items
