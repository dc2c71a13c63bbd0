-- ===== src/Migrator/Validate.antt =====
-- `validate` of src/agent_memory_sdk/db/migrate.py, and `run` under either schema policy.
pub mod Manifest
pub mod Complete
use yaadien.Prelude.{
  ℕ, Bool, true, false, not, ◌&&◌, Option, List, [], ◌∷◌, ◌++◌, map, if◌then◌else◌, text_eq,
}
use yaadien.Prelude.Table.{select}
use yaadien.Model.{Ident, Text, Result, ok, err, schema_policy_error, ◌>>=◌}
use yaadien.Migrator.{MigrationFile, Database, run}

-- what the application requires: tables, and by tables the names of columns and of indexes
pub record Required : Type 0 where
  pub tables : List Text
  pub columns : List (Text × List Text)
  pub indexes : List (Text × List Text)

-- what the catalog says of the current schema, in upper case; a column or an index with its table
pub record Catalog : Type 0 where
  pub tables : List Text
  pub columns : List (Text × Text)
  pub indexes : List (Text × Text)

-- an entry of the message
pub data Missing : Type 0 where
  missing_table : Text → Missing
  missing_column missing_index : Text → Text → Missing

-- `name in names`
unfoldable pub is_member : Text → List Text → Bool
unfolding text_eq
is_member t [] = false
is_member t (u ∷ us) = if text_eq u t then true else is_member t us

-- whether the set of a table in the dict that the catalog's rows fill has the name
unfoldable pub has_object : Text → Text → List (Text × Text) → Bool
unfolding text_eq
has_object t c [] = false
has_object t c ((u, d) ∷ l) = if text_eq u t && text_eq d c then true else has_object t c l

unfoldable pub missing_tables : Required → Catalog → List Missing
unfolding is_member
missing_tables req cat = map missing_table (select (λ t. not (is_member t cat.tables)) req.tables)

-- `table in present_tables`
abbrev pub is_present : Required → Catalog → Text → Bool
unfolding is_member
is_present req cat t = is_member t cat.tables && is_member t req.tables

-- the loop over the required objects of the tables that are present
unfoldable pub missing_objects :
    (Text → Text → Missing)
    → (Text → Bool)
    → List (Text × Text)
    → List (Text × List Text)
    → List Missing
unfolding has_object
missing_objects report present existing [] = []
missing_objects report present existing ((t, names) ∷ l) =
    let rest = missing_objects report present existing l in
    if present t
    then map (report t) (select (λ c. not (has_object t c existing)) names) ++ rest
    else rest

unfoldable pub missing : Required → Catalog → List Missing
unfolding missing_tables missing_objects is_member
missing req cat =
    missing_tables req cat
    ++ (missing_objects missing_column (is_present req cat) cat.columns req.columns
        ++ missing_objects missing_index (is_present req cat) cat.indexes req.indexes)

-- The exception lists what is missing.
abbrev pub verdict : List Missing → Result (Unit {0})
verdict [] = ok tt
verdict (x ∷ l) = err schema_policy_error

unfoldable pub validate : Required → Catalog → Result (Unit {0})
unfolding missing
validate req cat = verdict (missing req cat)

pub data SchemaPolicy : Type 0 where
  create_if_necessary require_existing : SchemaPolicy

-- `run`: the existing schema is only validated.
unfoldable pub run_policy :
    {S : Type 0}
    → (Text → S → Option S)
    → (S → S → S)
    → (Ident → S → Bool)
    → SchemaPolicy
    → Required
    → Catalog
    → List MigrationFile
    → Database S
    → Result (List Ident) × Database S
unfolding validate run
run_policy exec roll_back records create_if_necessary req cat files db =
    run exec roll_back records files db
run_policy exec roll_back records require_existing req cat files db =
    (validate req cat >>= (λ u. ok []), db)
