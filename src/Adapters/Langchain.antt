-- ===== src/Adapters/Langchain.antt =====
-- src/agent_memory_sdk/adapters/langchain.py: the key-value store `Db2MemoryStore`. The messages of
-- `Db2ChatMessageHistory` are in Langchain/Messages.
pub mod Messages
pub mod Deletion
pub mod Insertion
use yaadien.Prelude.{
  ℕ, Bool, true, false, not, ◌&&◌, Option, none, some, List, [], ◌∷◌, ◌==◌, codes, text_eq,
  if◌then◌else◌,
}
use yaadien.Model.{Ident, Text, Result, ok, err, type_error, ◌>>=◌, MemoryScope, Memory}
use yaadien.Db.{TableName, semantic_facts, entity_profiles, Db, Env, tick}
use yaadien.Repository.Lifecycle.{forget}
use yaadien.Repository.Read.{list_all}
use yaadien.Repository.Write.{create, update}
use yaadien.Store.Pipeline.{Pipeline, repository_of}
use yaadien.Adapters.{fresh_record}
use yaadien.Adapters.Json.{
  Json, string, object, Fields, end, field, Python, get, set_field, is_truthy, fields_of,
}

-- `Db2MemoryStore`: any namespace but "facts" stands for the profiles
pub record KeyStore : Type 0 where
  pub scope : MemoryScope
  pub namespace : Text

unfoldable pub table_of : KeyStore → TableName
unfolding text_eq
table_of store = if text_eq store.namespace (codes "facts") then semantic_facts else entity_profiles

-- `row.metadata.get("store_key")`
unfoldable pub key_of : Python → Memory → Option Json
unfolding get
key_of py m = get (codes "store_key") (fields_of (py.loads m.metadata))

abbrev is_string : Text → Option Json → Bool
unfolding text_eq
is_string key (some (string s)) = text_eq s key
is_string key _ = false

unfoldable pub has_key : Python → Text → Memory → Bool
unfolding key_of text_eq
has_key py key m = is_string key (key_of py m)

-- the loop of `_find_by_key`
unfoldable pub first_match : Python → Text → List Memory → Option Memory
unfolding has_key
first_match py key [] = none
first_match py key (m ∷ l) = elim (has_key py key m) [
  | true ↦ some m
  | false ↦ first_match py key l
]

unfoldable pub find_by_key : Env → Python → KeyStore → Text → Db → Result (Option Memory)
unfolding list_all first_match text_eq
find_by_key e py store key db = do
  rows ← list_all e (table_of store) store.scope 1000 0 false 0 none db
  ok (first_match py key rows)

abbrev content_of : Option Memory → Option Text
content_of none = none
content_of (some m) = some m.content

unfoldable pub mget : Env → Python → KeyStore → List Text → Db → Result (List (Option Text))
unfolding find_by_key
mget e py store [] db = ok []
mget e py store (key ∷ keys) db = find_by_key e py store key db >>= λ found.
    mget e py store keys db >>= λ rest. ok (content_of found ∷ rest)

-- the metadata of a new row
abbrev pub key_metadata : Python → KeyStore → Text → Text
key_metadata py store key = py.dumps (
    object (
      field (codes "store_key") (string key)
        (field (codes "namespace") (string store.namespace) end)))

unfoldable pub create_row :
    Env → Pipeline → Python → KeyStore → Text → Text → Db → Result Memory × Db
unfolding create text_eq
create_row e p py store key value db =
    create e (repository_of p (table_of store))
      (fresh_record e store.scope value (key_metadata py store key) db) store.scope (tick db)

-- the found row with its new value
abbrev pub with_value : Python → Text → Text → Memory → Memory
unfolding set_field
with_value py key value m = record m {
  content = value;
  metadata =
      py.dumps
        (object (set_field (codes "store_key") (string key) (fields_of (py.loads m.metadata))));
}

-- A failing update is answered by a new row.
abbrev pub or_create :
    Env → Pipeline → Python → KeyStore → Text → Text → Result Memory × Db → Result Memory × Db
unfolding create_row
or_create e p py store key value (ok m, db) = (ok m, db)
or_create e p py store key value (err x, db) = create_row e p py store key value db

unfoldable pub set_value :
    Env → Pipeline → Python → KeyStore → Text → Text → Option Memory → Db → Result Memory × Db
unfolding create_row update set_field text_eq
set_value e p py store key value none db = create_row e p py store key value db
set_value e p py store key value (some m) db =
    or_create e p py store key value
      (update e (repository_of p (table_of store)) (with_value py key value m) store.scope db)

unfoldable pub mset :
    Env → Pipeline → Python → KeyStore → List (Text × Text) → Db → Result (Unit {0}) × Db
unfolding find_by_key set_value
mset e p py store [] db = (ok tt, db)
mset e p py store ((key, value) ∷ pairs) db = elim (find_by_key e py store key db) [
  | err x ↦ (err x, db)
  | ok found ↦
      let step = set_value e p py store key value found db in
      let rest = mset e p py store pairs step.1 in
      elim step.0 [ err x ↦ (err x, step.1) | ok stored ↦ rest ]
]

-- the `forget` of the row that was found, if one was
unfoldable pub forget_found : Env → KeyStore → Option Memory → Db → Result Bool × Db
unfolding forget text_eq
forget_found e store none db = (ok false, db)
forget_found e store (some m) db = forget e (table_of store) m.id store.scope db

unfoldable pub mdelete : Env → Python → KeyStore → List Text → Db → Result (Unit {0}) × Db
unfolding find_by_key forget_found
mdelete e py store [] db = (ok tt, db)
mdelete e py store (key ∷ keys) db = elim (find_by_key e py store key db) [
  | err x ↦ (err x, db)
  | ok found ↦
      let step = forget_found e store found db in
      let rest = mdelete e py store keys step.1 in
      elim step.0 [ err x ↦ (err x, step.1) | ok done ↦ rest ]
]

-- the truthy keys of the rows
unfoldable pub keys_of : Python → List Memory → List Json
unfolding key_of
keys_of py [] = []
keys_of py (m ∷ l) =
    let rest = keys_of py l in
    elim (key_of py m) [
      | none ↦ rest
      | some key ↦ elim (is_truthy py key) [ true ↦ key ∷ rest | false ↦ rest ]
    ]

unfoldable pub starts_with : Text → Text → Bool
starts_with [] s = true
starts_with (a ∷ prefix) [] = false
starts_with (a ∷ prefix) (b ∷ s) = a == b && starts_with prefix s

-- `[k for k in keys if k.startswith(prefix)]`; a key that is no string has no such method
unfoldable pub with_prefix : Text → List Json → Result (List Json)
unfolding starts_with
with_prefix prefix [] = ok []
with_prefix prefix (string s ∷ keys) =
    with_prefix prefix keys >>= λ rest. ok (if starts_with prefix s then string s ∷ rest else rest)
with_prefix prefix (key ∷ keys) = err type_error

abbrev filtered : Option Text → List Json → Result (List Json)
unfolding with_prefix
filtered none keys = ok keys
filtered (some []) keys = ok keys
filtered (some (c ∷ prefix)) keys = with_prefix (c ∷ prefix) keys

unfoldable pub yield_keys : Env → Python → KeyStore → Option Text → Db → Result (List Json)
unfolding list_all keys_of with_prefix text_eq
yield_keys e py store prefix db = do
  rows ← list_all e (table_of store) store.scope 1000 0 false 0 none db
  filtered prefix (keys_of py rows)
