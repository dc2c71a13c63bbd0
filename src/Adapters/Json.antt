-- ===== src/Adapters/Json.antt =====
-- The JSON values that the adapters of src/agent_memory_sdk/adapters read and write as dicts and
-- lists, and the functions of Python's json module that they call.
use yaadien.Prelude.{Bool, true, false, Option, none, some, ◌≡◌, text_eq, not, [], ◌∷◌}
use yaadien.Model.{Text}

-- A number is the text by which it is written.
mutual
  pub data Json : Type 0 where
    null : Json
    boolean : Bool → Json
    number string : Text → Json
    array : Items → Json
    object : Fields → Json

  pub data Items : Type 0 where
    nil : Items
    item : Json → Items → Items

  pub data Fields : Type 0 where
    end : Fields
    field : Text → Json → Fields → Fields

-- `json.dumps`, `json.loads`, which gives `none` where it raises, `str` of a value that is no
-- string, and whether a number is zero.
pub record Python : Type 0 where
  pub dumps : Json → Text
  pub loads : Text → Option Json
  pub repr : Json → Text
  pub is_zero : Text → Bool

-- What is written is read back. Python's json keeps every value with text keys.
abbrev pub RoundTrips : Python → Type 0
RoundTrips py = (j : Json) → py.loads (py.dumps j) ≡ some j

-- `d.get(key)`
unfoldable pub get : Text → Fields → Option Json
unfolding text_eq
get key end = none
get key (field name value rest) = elim (text_eq name key) [
  | true ↦ some value
  | false ↦ get key rest
]

-- `d.setdefault(key, value)`: a new key goes to the end
unfoldable pub set_default : Text → Json → Fields → Fields
unfolding text_eq
set_default key value end = field key value end
set_default key value (field name old rest) =
    let longer = field name old (set_default key value rest) in
    elim (text_eq name key) [ true ↦ field name old rest | false ↦ longer ]

-- `d.get(key, fallback)`
abbrev pub get_or : Json → Text → Fields → Json
unfolding get
get_or fallback key fields = elim (get key fields) [ none ↦ fallback | some value ↦ value ]

-- `str(value)`
abbrev pub str : Python → Json → Text
str py (string s) = s
str py j = py.repr j

-- the dict behind the text of a metadata column; it always holds one
abbrev pub fields_of : Option Json → Fields
fields_of (some (object fields)) = fields
fields_of _ = end

-- `{**d, key: value}`
unfoldable pub set_field : Text → Json → Fields → Fields
unfolding text_eq
set_field key value end = field key value end
set_field key value (field name old rest) =
    let longer = field name old (set_field key value rest) in
    elim (text_eq name key) [ true ↦ field name value rest | false ↦ longer ]

-- `bool(value)`
abbrev pub is_truthy : Python → Json → Bool
is_truthy py null = false
is_truthy py (boolean b) = b
is_truthy py (number s) = not (py.is_zero s)
is_truthy py (string []) = false
is_truthy py (string (c ∷ s)) = true
is_truthy py (array nil) = false
is_truthy py (array (item j rest)) = true
is_truthy py (object end) = false
is_truthy py (object (field name value rest)) = true
