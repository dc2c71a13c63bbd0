-- ===== src/Repository/Write.antt =====
-- `create` and `update` of src/agent_memory_sdk/repositories/base.py.
use yaadien.Prelude.{
  false, ℕ, ◌+◌, Bool, ◌&&◌, Option, none, some, [], ◌∷◌, ◌++◌, ltb, is_none, opt_is, if◌then◌else◌,
  ◌==◌,
}
use yaadien.Prelude.Table.{select, update_where, row_count, fetch_one}
use yaadien.Model.{
  Ident, Text, Vector, Result, ok, err, duplicate_key, stale_write, MemoryScope, Memory,
}
use yaadien.Scope.{require_agent_id}
use yaadien.ContentHash.{content_hash}
use yaadien.Db.{TableName, Db, Env, rows, set_rows, tick}
use yaadien.Repository.{
  Repository, row_in_scope, is_target, not_superseded, dedup_on_write, should_chunk,
}
use yaadien.Repository.Chunks.{zero_vector, vector_or_zero, write_chunks}

-- the scope columns of the scope, written over those of the record
abbrev pub stamp : MemoryScope → Memory → Memory
stamp scope m = record m {
  agent_id = scope.agent_id;
  tenant_id = scope.tenant_id;
  user_id = scope.user_id;
  thread_id = scope.thread_id;
}

-- `{scope_sql} AND content_hash = ? AND deleted_at IS NULL`, and the supersession part
abbrev pub is_duplicate : TableName → Ident → MemoryScope → Memory → Bool
is_duplicate t h scope m =
    row_in_scope scope m && opt_is m.content_hash h && is_none m.deleted_at && not_superseded t m

-- the `elif` and `else` of the embedding choice: the provider is asked only for a record that
-- brings no vector, and its failure leaves the zero vector
unfoldable pub own_vector : Repository → Text → Vector → Option (Text → Option Vector) → Vector
unfolding zero_vector vector_or_zero
own_vector r content v none = vector_or_zero r.embedding_dim v
own_vector r content [] (some f) = elim (f content) [
  | none ↦ zero_vector r.embedding_dim
  | some v ↦ v
]
own_vector r content (x ∷ v) (some f) = x ∷ v

-- The vector that the row gets.
unfoldable pub parent_vector : Repository → Memory → Vector
unfolding zero_vector own_vector
parent_vector r m =
    if should_chunk r m.content
    then zero_vector r.embedding_dim
    else own_vector r m.content m.embedding r.embedding_provider

abbrev pub has_id : Ident → Memory → Bool
has_id i m = m.id == i

-- What the INSERT stores of a record: the columns that it does not name are NULL, and
-- the quarantine flag, which has no column, reads as False.
abbrev pub inserted : Repository → Memory → Memory
inserted r m = record m {
  embedding = parent_vector r m;
  consolidated_at = none;
  superseded_by = none;
  superseded_at = none;
  supersede_reason = none;
  quarantined = false;
}

-- The call of `_write_chunks` after the row is there. An exception in it leaves the row.
unfoldable pub then_chunks : Env → Repository → Memory → MemoryScope → Db → Result Memory × Db
unfolding write_chunks
then_chunks e r m scope db =
    if should_chunk r m.content
    then (let step = write_chunks e r m.id m.content scope db in
        elim step.0 [ err x ↦ (err x, step.1) | ok _ ↦ (ok m, step.1) ])
    else (ok m, db)

-- `create` behind its dedup check. The INSERT fails on an id that the table holds (its primary
-- key).
unfoldable pub insert_row : Env → Repository → Memory → MemoryScope → Db → Result Memory × Db
insert_row e r m scope db =
    if ltb 0 (row_count (has_id m.id) (rows r.table db))
    then (err duplicate_key, db)
    else then_chunks e r m scope (set_rows r.table (rows r.table db ++ inserted r m ∷ []) db)

-- The row that the dedup SELECT finds, in the tables that ask for one.
unfoldable pub find_duplicate : TableName → Ident → MemoryScope → Db → Option Memory
find_duplicate t h scope db =
    if dedup_on_write t then fetch_one (select (is_duplicate t h scope) (rows t db)) else none

-- The record as `create` sends it to the INSERT.
abbrev pub prepared : Env → MemoryScope → ℕ → Memory → Memory
prepared e scope now m = record (stamp scope m) {
  content_hash = some (content_hash e m.content);
  created_at = now;
  updated_at = now;
  version = 1;
}

unfoldable pub create : Env → Repository → Memory → MemoryScope → Db → Result Memory × Db
unfolding require_agent_id
create e r m scope db = elim (require_agent_id scope) [
  | err x ↦ (err x, db)
  | ok _ ↦ elim (find_duplicate r.table (content_hash e m.content) scope db) [
    | some existing ↦ (ok existing, tick db)
    | none ↦ insert_row e r (prepared e scope (e.now db.ticks) m) scope (tick db)
  ]
]

-- `id = ? AND {scope_sql} AND version = ? AND deleted_at IS NULL`
abbrev pub is_current : Memory → MemoryScope → Memory → Bool
is_current m scope row = is_target m.id scope row && row.version == m.version

-- The SET clause of `update`; it leaves `origin` alone.
abbrev pub overwrite : Env → Repository → Memory → ℕ → Memory → Memory
overwrite e r m now row = record row {
  content = m.content;
  metadata = m.metadata;
  embedding = parent_vector r m;
  confidence = m.confidence;
  content_hash = some (content_hash e m.content);
  updated_at = now;
  version = m.version + 1;
}

-- the record that a successful `update` returns
abbrev pub updated : Env → ℕ → Memory → Memory
updated e now m = record m {
  version = m.version + 1;
  updated_at = now;
  content_hash = some (content_hash e m.content);
}

unfoldable pub update : Env → Repository → Memory → MemoryScope → Db → Result Memory × Db
unfolding require_agent_id
update e r m scope db = elim (require_agent_id scope) [
  | err x ↦ (err x, db)
  | ok _ ↦
      let hit = is_current m scope in
      let now = e.now db.ticks in
      let l = rows r.table db in
      if row_count hit l == 0
      then (err stale_write, tick db)
      else then_chunks e r (updated e now m) scope
          (set_rows r.table (update_where hit (overwrite e r m now) l) (tick db))
]
