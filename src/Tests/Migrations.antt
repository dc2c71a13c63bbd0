-- ===== src/Tests/Migrations.antt =====
-- Two migrations on a database that logs its statements and fails on one.
use yaadien.Prelude.{
  Bool, true, ◌≡◌, ◌↔◌, refl, Option, none, some, List, [], ◌∷◌, ◌++◌, codes, text_eq,
  if◌then◌else◌,
}
use yaadien.Prelude.Table.{select}
use yaadien.Model.{Ident, Text, ok}
use yaadien.Migrator.{
  MigrationFile, Schema, Database, untracked, tracked, bootstrap_ddl, split_statements, run, status,
  is_applied, pending_files, bootstrap, main,
}
use yaadien.Migrator.Validate.{Catalog, validate}
use yaadien.Migrator.Validate.Manifest.{required}
use yaadien.Migrator.Validate.Complete.{IsComplete, validate_iff}
use yaadien.Migrator.Executed.{versions, Applies, Ends}
use yaadien.Migrator.Rerun.{run-run}
use yaadien.Migrator.Resume.{run_lem}

abbrev first_file : MigrationFile
first_file = record { version = 1; sql = codes "create a; -- the table; of a\n create b;" }

abbrev second_file : MigrationFile
second_file = record { version = 2; sql = codes "drop" }

unfoldable exec : Text → List Text → Option (List Text)
unfolding text_eq
exec q l = if text_eq q (codes "drop") then none else some (l ++ q ∷ [])

-- a database that commits each statement by itself
abbrev keep : List Text → List Text → List Text
keep before reached = reached

abbrev accepts : Ident → List Text → Bool
accepts v l = true

abbrev empty : Database (List Text)
empty = untracked []

split_statements_first : split_statements first_file.sql ≡ codes "create a" ∷ codes "create b" ∷ []
unfolding split_statements select
split_statements_first = refl

run-run_example :
    (run exec keep accepts (first_file ∷ []) (run exec keep accepts (first_file ∷ []) empty).1
      ≡ (ok [], (run exec keep accepts (first_file ∷ []) empty).1))
    × (status exec keep accepts (first_file ∷ []) (run exec keep accepts (first_file ∷ []) empty).1
        ≡ ((1, true) ∷ [], (run exec keep accepts (first_file ∷ []) empty).1))
unfolding run select split_statements exec
run-run_example = run-run exec keep accepts (first_file ∷ []) empty refl

abbrev both : List MigrationFile
both = first_file ∷ second_file ∷ []

abbrev created : Schema (List Text)
created = record { objects = bootstrap_ddl ∷ []; applied = [] }

run_lem_example :
    let result = (run exec keep accepts both empty).0 in
    (done left : List MigrationFile) × (t : List Text) × (end : Schema (List Text)) × (done ++ left
      ≡ pending_files [] both)
    × ((run exec keep accepts both empty).1 ≡ tracked end)
    × (end.applied ≡ versions done)
    × (pending_files end.applied both ≡ left)
    × Applies exec done (bootstrap_ddl ∷ []) t
    × Ends exec keep accepts done left t (result, end)
unfolding exec is_applied bootstrap
run_lem_example = run_lem exec keep accepts both empty created (refl, (refl, tt)) refl

-- The second file fails: the first stays applied, and the process ends with 1.
main_fails : main exec keep accepts true (first_file ∷ second_file ∷ []) empty ≡ (
  ok 1,
  tracked (record {
    objects = bootstrap_ddl ∷ codes "create a" ∷ codes "create b" ∷ [];
    applied = 1 ∷ [];
  }),
)
unfolding main run select split_statements exec
main_fails = refl

-- a schema with the first table only
abbrev bare : Catalog
bare = record { tables = codes "SCHEMA_MIGRATIONS" ∷ []; columns = []; indexes = [] }

validate_iff_example : (validate required bare ≡ ok tt) ↔ IsComplete required bare
validate_iff_example = validate_iff required bare
