-- ===== src/Repository/Chunks.antt =====
-- `ChunkRepository` of src/agent_memory_sdk/repositories/chunks.py and `_write_chunks` of base.py.
pub mod Listing
use yaadien.Prelude.{
  ℕ, zero, suc, ◌+◌, Bool, true, false, ◌&&◌, Option, none, some, List, [], ◌∷◌, ◌++◌, ltb,
  if◌then◌else◌, ◌==◌, opt_is,
}
use yaadien.Prelude.Table.{delete_where, row_count}
use yaadien.Model.{Ident, Text, Vector, Result, ok, err, duplicate_key, MemoryScope}
use yaadien.Scope.{ScopeColumns, require_agent_id, in_scope}
use yaadien.Chunking.{split_chunks}
use yaadien.Db.{TableName, Db, Chunk, Env, table_eq, tick}
use yaadien.Repository.{Repository}

-- `_zero_vec_str`
unfoldable pub zero_vector : ℕ → Vector
zero_vector zero = []
zero_vector (suc n) = (false, 0) ∷ zero_vector n

-- `_vec_to_str(embedding) if embedding else self._zero_vec_str()`
unfoldable pub vector_or_zero : ℕ → Vector → Vector
unfolding zero_vector
vector_or_zero dim [] = zero_vector dim
vector_or_zero dim (x ∷ v) = x ∷ v

abbrev pub chunk_columns : Chunk → ScopeColumns
chunk_columns c = record {
  tenant = c.tenant_id;
  agent = c.agent_id;
  user = c.user_id;
  thread = c.thread_id;
}

abbrev pub has_chunk_id : Ident → Chunk → Bool
has_chunk_id i c = c.id == i

-- The INSERT fails on a chunk id that the table already holds (its primary key).
unfoldable pub insert_chunk :
    Env → ℕ → TableName → Ident → ℕ → Text → Vector → MemoryScope → Db → Result Ident × Db
unfolding require_agent_id vector_or_zero
insert_chunk e dim source_table source_id chunk_index chunk_text embedding scope db =
    elim (require_agent_id scope) [
      | err x ↦ (err x, db)
      | ok _ ↦
          let chunk_id = e.uuid db.ticks in
          let chunk : Chunk = record {
            id = chunk_id;
            source_table = source_table;
            source_id = source_id;
            chunk_index = chunk_index;
            chunk_text = chunk_text;
            embedding = vector_or_zero dim embedding;
            tenant_id = scope.tenant_id;
            agent_id = scope.agent_id;
            user_id = scope.user_id;
            thread_id = scope.thread_id;
            created_at = e.now db.ticks;
          } in
          if ltb 0 (row_count (has_chunk_id chunk_id) db.chunks)
          then (err duplicate_key, tick db)
          else (ok chunk_id, record db { chunks = db.chunks ++ chunk ∷ []; ticks = db.ticks + 1 })
    ]

-- the part `AND tenant_id = ?`, which stands there only if the scope has a tenant
abbrev pub tenant_ok : Option Ident → Option Ident → Bool
tenant_ok none c = true
tenant_ok (some v) c = opt_is c v

-- `source_id = ? AND source_table = ? AND agent_id = ?`, and the tenant part
abbrev pub is_chunk_of : Ident → TableName → MemoryScope → Chunk → Bool
is_chunk_of source_id t scope c =
    c.source_id == source_id
    && table_eq c.source_table t
    && c.agent_id == scope.agent_id
    && tenant_ok scope.tenant_id c.tenant_id

unfoldable pub delete_by_source : Ident → TableName → MemoryScope → Db → Result ℕ × Db
unfolding require_agent_id
delete_by_source source_id t scope db = elim (require_agent_id scope) [
  | err x ↦ (err x, db)
  | ok _ ↦ (
    ok (row_count (is_chunk_of source_id t scope) db.chunks),
    record db { chunks = delete_where (is_chunk_of source_id t scope) db.chunks },
  )
]

abbrev pub chunk_in_scope : MemoryScope → Chunk → Bool
chunk_in_scope scope c = in_scope scope (chunk_columns c)

unfoldable pub erase_by_scope : MemoryScope → Db → Result ℕ × Db
unfolding require_agent_id
erase_by_scope scope db = elim (require_agent_id scope) [
  | err x ↦ (err x, db)
  | ok _ ↦ (
    ok (row_count (chunk_in_scope scope) db.chunks),
    record db { chunks = delete_where (chunk_in_scope scope) db.chunks },
  )
]

-- The loop of `_write_chunks`, from chunk number `idx`: a chunk whose embedding fails is skipped,
-- a failing INSERT ends the loop. The result is the number written.
unfoldable pub write_loop :
    Env
    → Repository
    → (Text → Option Vector)
    → Ident
    → MemoryScope
    → ℕ
    → ℕ
    → List Text
    → Db
    → Result ℕ × Db
write_loop e r provider source_id scope idx written [] db = (ok written, db)
write_loop e r provider source_id scope idx written (chunk ∷ chunks) db = elim (provider chunk) [
  | none ↦ write_loop e r provider source_id scope (idx + 1) written chunks db
  | some emb ↦
      let step = insert_chunk e r.embedding_dim r.table source_id idx chunk emb scope db in
      elim step.0 [
        | err x ↦ (err x, step.1)
        | ok _ ↦ write_loop e r provider source_id scope (idx + 1) (written + 1) chunks step.1
      ]
]

-- the part of `_write_chunks` behind the split
unfoldable pub replace_chunks :
    Env → Repository → (Text → Option Vector) → Ident → MemoryScope → List Text → Db → Result ℕ × Db
unfolding delete_by_source write_loop
replace_chunks e r provider source_id scope chunks db =
    let step = delete_by_source source_id r.table scope db in
    elim step.0 [
      | err x ↦ (err x, step.1)
      | ok _ ↦ write_loop e r provider source_id scope 0 0 chunks step.1
    ]

unfoldable pub write_chunks : Env → Repository → Ident → Text → MemoryScope → Db → Result ℕ × Db
unfolding replace_chunks
write_chunks e r source_id content scope db = elim r.embedding_provider [
  | none ↦ (ok 0, db)
  | some provider ↦
      if r.chunk_repo
      then elim (split_chunks content r.chunk_size r.chunk_overlap) [
        | err x ↦ (err x, db)
        | ok chunks ↦ replace_chunks e r provider source_id scope chunks db
      ]
      else (ok 0, db)
]
