-- ===== src/Migrator.antt =====
-- `Migrator` of src/agent_memory_sdk/db/migrate.py under its default policy. `S` is what the
-- database holds beside the table of versions, `exec` one statement on it, `none` where it fails, and
-- `roll_back` what is left when a file fails: from the state before the file and the state that its
-- statements had reached, since a database may commit such statements by itself. `records` says
-- whether the INSERT of a version and the commit behind it succeed.
pub mod Executed
pub mod Rerun
pub mod Resume
pub mod Validate
use yaadien.Prelude.{
  ℕ, Bool, true, false, not, ◌&&◌, Option, none, some, List, [], ◌∷◌, ◌++◌, map, ◌==◌,
  if◌then◌else◌, codes,
}
use yaadien.Prelude.Table.{select}
use yaadien.Model.{Ident, Text, Result, ok, err, migration_error, statement_error, ◌>>=◌}
use yaadien.ContentHash.{lstrip, rstrip}

-- `re.sub(r"--[^\n]*", "", sql)`; `within` says that a comment is open.
unfoldable pub strip_comments : Bool → Text → Text
strip_comments within [] = []
strip_comments within (c ∷ []) = if within && not (c == 10) then [] else c ∷ []
strip_comments within (c ∷ d ∷ s) =
    let skipped = strip_comments true (d ∷ s) in
    let kept = c ∷ strip_comments false (d ∷ s) in
    if within
    then (if c == 10 then kept else skipped)
    else (if c == b'-' && d == b'-' then skipped else kept)

-- the first part put in front of the parts of the rest
abbrev pub onto_first : ℕ → List Text → List Text
onto_first c [] = (c ∷ []) ∷ []
onto_first c (p ∷ ps) = (c ∷ p) ∷ ps

-- `text.split(";")`
unfoldable pub split_semicolons : Text → List Text
split_semicolons [] = [] ∷ []
split_semicolons (c ∷ s) =
    let rest = split_semicolons s in if c == b';' then [] ∷ rest else onto_first c rest

abbrev pub is_nonempty : Text → Bool
is_nonempty [] = false
is_nonempty (c ∷ s) = true

unfoldable pub split_statements : Text → List Text
unfolding strip_comments split_semicolons lstrip rstrip
split_statements sql =
    select is_nonempty (map (λ s. rstrip (lstrip s)) (split_semicolons (strip_comments false sql)))

-- A file of the directory; `version` is its stem.
pub record MigrationFile : Type 0 where
  pub version : Ident
  pub sql : Text

unfoldable pub is_applied : Ident → List Ident → Bool
is_applied v [] = false
is_applied v (x ∷ l) = if x == v then true else is_applied v l

-- `files` are the `.sql` files in the order of their names.
unfoldable pub pending_files : List Ident → List MigrationFile → List MigrationFile
unfolding is_applied
pending_files applied files = select (λ f. not (is_applied f.version applied)) files

-- what `status` gives for the versions that were read
unfoldable pub statuses : List Ident → List MigrationFile → List (Ident × Bool)
unfolding is_applied
statuses applied files = map (λ f. (f.version, is_applied f.version applied)) files

-- the objects of the database, and the rows of `schema_migrations` in the order of their INSERTs
pub record Schema (S : Type 0) : Type 0 where
  pub objects : S
  pub applied : List Ident

-- a database before and after the table of versions was created
pub data Database (S : Type 0) : Type 0 where
  untracked : S → Database S
  tracked : Schema S → Database S

-- `_BOOTSTRAP_DDL.strip()`
abbrev pub bootstrap_ddl : Text
bootstrap_ddl =
    codes "CREATE TABLE IF NOT EXISTS schema_migrations ("
    ++ 10 ∷ codes "    version    VARCHAR(255) NOT NULL,"
    ++ 10 ∷ codes "    applied_at TIMESTAMP    NOT NULL DEFAULT CURRENT TIMESTAMP,"
    ++ 10 ∷ codes "    CONSTRAINT pk_schema_migrations PRIMARY KEY (version)"
    ++ 10 ∷ codes ")"

module _ {S : Type 0} (exec : Text → S → Option S) (roll_back : S → S → S)
    (records : Ident → S → Bool) where
  -- whether all statements succeed, and the state that they reach
  unfoldable pub run_statements : List Text → S → Bool × S
  run_statements [] s = (true, s)
  run_statements (q ∷ qs) s = elim (exec q s) [ none ↦ (false, s) | some s' ↦ run_statements qs s' ]

  unfoldable pub apply_file : MigrationFile → Schema S → Result (Unit {0}) × Schema S
  unfolding run_statements
  apply_file f db =
      let ran = run_statements (split_statements f.sql) db.objects in
      let rolled_back : Schema S = record db { objects = roll_back db.objects ran.1 } in
      if ran.0
      then (if records f.version ran.1
          then (ok tt, record { objects = ran.1; applied = db.applied ++ f.version ∷ [] })
          else (err statement_error, rolled_back))
      else (err migration_error, rolled_back)

  -- what the loop does behind a file: an exception ends it, otherwise the rest follows
  abbrev pub after_file :
      MigrationFile
      → Result (Unit {0}) × Schema S
      → Result (List Ident) × Schema S
      → Result (List Ident) × Schema S
  after_file f (err x, db) rest = (err x, db)
  after_file f (ok _, db) rest = (rest.0 >>= (λ vs. ok (f.version ∷ vs)), rest.1)

  -- The loop of `run`: the versions applied, or the exception of the first file that fails.
  unfoldable pub apply_files : List MigrationFile → Schema S → Result (List Ident) × Schema S
  unfolding apply_file
  apply_files [] db = (ok [], db)
  apply_files (f ∷ fs) db = let step = apply_file f db in after_file f step (apply_files fs step.1)

  -- The table of versions is created where it is absent; a failure leaves the database as it was.
  unfoldable pub bootstrap : Database S → Result (Schema S)
  bootstrap (tracked db) = ok db
  bootstrap (untracked s) = elim (exec bootstrap_ddl s) [
    | none ↦ err statement_error
    | some s' ↦ ok (record { objects = s'; applied = [] })
  ]

  -- `run` behind `_bootstrap`
  unfoldable pub apply_pending : List MigrationFile → Schema S → Result (List Ident) × Schema S
  unfolding apply_files pending_files
  apply_pending files db = apply_files (pending_files db.applied files) db

  unfoldable pub run : List MigrationFile → Database S → Result (List Ident) × Database S
  unfolding bootstrap apply_pending
  run files db = elim (bootstrap db) [
    | err x ↦ (err x, db)
    | ok schema ↦ ((apply_pending files schema).0, tracked (apply_pending files schema).1)
  ]

  -- Every exception of the reading counts as no version applied; the table may be created.
  unfoldable pub status : List MigrationFile → Database S → List (Ident × Bool) × Database S
  unfolding bootstrap statuses
  status files db = elim (bootstrap db) [
    | err x ↦ (statuses [] files, db)
    | ok schema ↦ (statuses schema.applied files, tracked schema)
  ]

  -- A MigrationError is reported, any other exception goes on.
  abbrev pub exit_code : Result (List Ident) → Result ℕ
  exit_code (ok versions) = ok 0
  exit_code (err migration_error) = ok 1
  exit_code (err x) = err x

  -- `main` behind the opening of the pool, which `opened` says has succeeded
  unfoldable pub main : Bool → List MigrationFile → Database S → Result ℕ × Database S
  unfolding run
  main false files db = (ok 1, db)
  main true files db = (exit_code (run files db).0, (run files db).1)
