-- ===== src/Store/Import.antt =====
-- `import_scope` and `_import_chunk_record` of src/agent_memory_sdk/store.py.
pub mod Safety
pub mod Mixed
use yaadien.Prelude.{
  ℕ, ◌+◌, Bool, true, false, ◌&&◌, not, Option, none, some, List, [], ◌∷◌, ◌==◌, if◌then◌else◌,
}
use yaadien.Model.{Ident, Result, ok, err, value_error, scope_mismatch, MemoryScope, Memory, ◌>>=◌}
use yaadien.Scope.{ScopeColumns, columns}
use yaadien.Db.{TableName, Db, Env, Chunk, table_eq, tick}
use yaadien.Repository.Chunks.{insert_chunk, chunk_columns}
use yaadien.Repository.Write.{create}
use yaadien.Store.Pipeline.{Pipeline, repository_of}
use yaadien.Store.Export.{Exported, memory_record, chunk_record}

-- A record of the stream: one of an export, one without a `_type`, or one of another `_type`, of
-- which only the scope columns are read.
pub data Raw : Type 0 where
  exported : Exported → Raw
  untyped : Raw
  unrecognized : ScopeColumns → Raw

-- How many records were imported into each table.
pub record Counts : Type 0 where
  pub memories : TableName → ℕ
  pub chunks : ℕ

abbrev pub no_counts : Counts
no_counts = record { memories = λ t. 0; chunks = 0 }

abbrev pub count_memory : TableName → Counts → Counts
count_memory t c = record c {
  memories = λ u. if table_eq t u then c.memories u + 1 else c.memories u;
}

abbrev pub count_chunk : Counts → Counts
count_chunk c = record c { chunks = c.chunks + 1 }

-- `a == b` of two optional columns
abbrev pub same_column : Option Ident → Option Ident → Bool
same_column none none = true
same_column (some a) (some b) = a == b
same_column _ _ = false

-- The first record gives the source agent, and every other must have it.
abbrev pub same_source : Option Ident → Ident → Bool
same_source none a = true
same_source (some s) a = a == s

-- the scope checks of a record
unfoldable pub check_columns : MemoryScope → Option Ident → ScopeColumns → Result (Unit {0})
check_columns scope source c =
    if same_column c.tenant scope.tenant_id
      && same_column c.user scope.user_id
      && same_column c.thread scope.thread_id
      && same_source source c.agent
    then ok tt
    else err scope_mismatch

-- `_import_chunk_record`
unfoldable pub import_chunk : Env → Pipeline → Chunk → MemoryScope → Db → Result Ident × Db
unfolding insert_chunk
import_chunk e p c scope db =
    if p.settings.chunk_repo
    then insert_chunk e p.settings.embedding_dim c.source_table c.source_id c.chunk_index
        c.chunk_text c.embedding scope db
    else (err value_error, db)

-- A record of another agent loses its id, and the model gives it a fresh one.
unfoldable pub import_memory :
    Env → Pipeline → TableName → Memory → MemoryScope → Db → Result Memory × Db
unfolding create
import_memory e p t m scope db =
    if m.agent_id == scope.agent_id
    then create e (repository_of p t) m scope db
    else create e (repository_of p t) (record m { id = e.uuid db.ticks }) scope (tick db)

-- a call that returns something, with the counts after it
abbrev pub counting {ℓ} :
    {A : Type ℓ} → (Counts → Counts) → Counts → Result A × Db → Result Counts × Db
counting f counts (ok a, db) = (ok (f counts), db)
counting f counts (err x, db) = (err x, db)

-- the columns that the checks read; a record without a type has none
abbrev pub raw_columns : Raw → Option ScopeColumns
raw_columns (exported (memory_record t m)) = some (columns m)
raw_columns (exported (chunk_record c)) = some (chunk_columns c)
raw_columns untyped = none
raw_columns (unrecognized c) = some c

-- what follows the checks
unfoldable pub import_record : Env → Pipeline → Raw → MemoryScope → Counts → Db → Result Counts × Db
unfolding import_memory import_chunk
import_record e p (exported (memory_record t m)) scope counts db =
    counting (count_memory t) counts (import_memory e p t m scope db)
import_record e p (exported (chunk_record c)) scope counts db =
    counting count_chunk counts (import_chunk e p c scope db)
import_record e p untyped scope counts db = (err value_error, db)
import_record e p (unrecognized c) scope counts db = (err value_error, db)

-- a record of which the checks read some columns, or of which they read none
unfoldable pub checked_import :
    Env
    → Pipeline
    → Raw
    → MemoryScope
    → Counts
    → Option ScopeColumns
    → Option Ident
    → Db
    → Result Counts × Db
unfolding check_columns import_record
checked_import e p raw scope counts none source db = (err value_error, db)
checked_import e p raw scope counts (some c) source db = elim (check_columns scope source c) [
  | err x ↦ (err x, db)
  | ok _ ↦ import_record e p raw scope counts db
]

-- one round of the loop
unfoldable pub import_round :
    Env → Pipeline → Raw → MemoryScope → Option Ident → Counts → Db → Result Counts × Db
unfolding checked_import
import_round e p raw scope source counts db =
    checked_import e p raw scope counts (raw_columns raw) source db

-- `source_agent_id` after a record
abbrev pub next_source : Option Ident → Raw → Option Ident
next_source (some s) raw = some s
next_source none raw = elim (raw_columns raw) [ none ↦ none | some c ↦ some c.agent ]

-- The loop over the stream. What was imported before an error stays.
unfoldable pub import_all :
    Env → Pipeline → List Raw → MemoryScope → Option Ident → Counts → Db → Result Counts × Db
unfolding import_round
import_all e p [] scope source counts db = (ok counts, db)
import_all e p (raw ∷ raws) scope source counts db =
    let step = import_round e p raw scope source counts db in
    elim step.0 [
      | err x ↦ (err x, step.1)
      | ok c ↦ import_all e p raws scope (next_source source raw) c step.1
    ]

unfoldable pub import_scope : Env → Pipeline → List Raw → MemoryScope → Db → Result Counts × Db
unfolding import_all
import_scope e p records scope db = import_all e p records scope none no_counts db
