-- ===== src/Repository.antt =====
-- `BaseRepository` of src/agent_memory_sdk/repositories/base.py: the class attributes of its five
-- subclasses and the attributes of an instance. A table that lacks a column never reads it.
pub mod Chunks
pub mod Lifecycle
pub mod Read
pub mod Frame
pub mod Isolation
pub mod History
pub mod Forgetting
pub mod Locking
pub mod Dedup
pub mod Claims
pub mod Supersession
pub mod Listing
pub mod Write
pub mod Search
pub mod Batches
pub mod View
use yaadien.Prelude.{
  ℕ, Bool, true, false, ◌&&◌, ◌||◌, not, Option, none, some, ltb, length, is_none, if◌then◌else◌,
  ◌==◌,
}
use yaadien.Model.{Text, Vector, Memory, MemoryScope, Ident}
use yaadien.Scope.{in_scope, columns}
use yaadien.Db.{
  TableName, working_memory, episodic_memory, semantic_facts, entity_profiles, procedural_memory,
}

-- `_DEDUP_ON_WRITE`
abbrev pub dedup_on_write : TableName → Bool
dedup_on_write working_memory = false
dedup_on_write _ = true

-- `_HAS_SUPERSESSION`
abbrev pub has_supersession : TableName → Bool
has_supersession semantic_facts = true
has_supersession _ = false

-- `_HAS_CONSOLIDATED_AT`
abbrev pub has_consolidated_at : TableName → Bool
has_consolidated_at working_memory = true
has_consolidated_at episodic_memory = true
has_consolidated_at _ = false

-- `embedding_provider` gives `none` where the call raises.
pub record Repository : Type 0 where
  pub table : TableName
  pub chunk_repo : Bool
  pub chunk_threshold : ℕ
  pub chunk_size : ℕ
  pub chunk_overlap : ℕ
  pub embedding_dim : ℕ
  pub embedding_provider : Option (Text → Option Vector)

-- `WHERE {scope_sql}` on a row of one of the five tables
abbrev pub row_in_scope : MemoryScope → Memory → Bool
row_in_scope scope m = in_scope scope (columns m)

-- `id = ? AND {scope_sql} AND deleted_at IS NULL`
abbrev pub is_target : Ident → MemoryScope → Memory → Bool
is_target record_id scope m = m.id == record_id && row_in_scope scope m && is_none m.deleted_at

-- `superseded_at IS NULL`, in the tables that have the column
abbrev pub not_superseded : TableName → Memory → Bool
not_superseded t m = not (has_supersession t) || is_none m.superseded_at

-- the `should_chunk` test of `create` and `update`
abbrev pub should_chunk : Repository → Text → Bool
should_chunk r content =
    r.chunk_repo && not (is_none r.embedding_provider) && ltb r.chunk_threshold (length content)
