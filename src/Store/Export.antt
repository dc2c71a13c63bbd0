-- ===== src/Store/Export.antt =====
-- `export_scope` of src/agent_memory_sdk/store.py: the loops that page through the five memory tables
-- and the chunk table. No write comes between two pages.
use yaadien.Prelude.{
  ℕ, zero, suc, ◌+◌, Bool, true, none, List, [], ◌∷◌, ◌++◌, map, ltb, length, if◌then◌else◌,
}
use yaadien.Model.{Result, ok, Memory, MemoryScope, ◌>>=◌}
use yaadien.Db.{TableName, Chunk, Db, Env, rows}
use yaadien.Repository.Chunks.Listing.{list_chunks}
use yaadien.Repository.Read.{list_all}
use yaadien.Store.Erasure.{all_tables}

-- `_EXPORT_BATCH_SIZE`
abbrev pub batch_size : ℕ
batch_size = 500

-- a record with its `_type`
pub data Exported : Type 0 where
  memory_record : TableName → Memory → Exported
  chunk_record : Chunk → Exported

-- what is yielded after a batch: nothing more if it was empty or short
unfoldable pub after_batch {ℓ} :
    {A : Type ℓ} → (A → Exported) → List A → Result (List Exported) → Result (List Exported)
after_batch tag [] rest = ok []
after_batch tag (m ∷ l) rest =
    if ltb (length (m ∷ l)) batch_size
    then ok (map tag (m ∷ l))
    else rest >>= λ more. ok (map tag (m ∷ l) ++ more)

-- The `while True` loop on one table, from `offset`. The fuel bounds the rounds.
unfoldable pub export_table : ℕ → Env → TableName → MemoryScope → ℕ → Db → Result (List Exported)
unfolding after_batch
export_table zero e t scope offset db = ok []
export_table (suc fuel) e t scope offset db =
    let rest = export_table fuel e t scope (offset + batch_size) db in
    list_all e t scope batch_size offset true 0 none db >>= λ batch.
    after_batch (memory_record t) batch rest

-- The tables one after the other; the fuel is one round for each row, and one more.
unfoldable pub export_tables : Env → MemoryScope → List TableName → Db → Result (List Exported)
unfolding export_table
export_tables e scope [] db = ok []
export_tables e scope (t ∷ ts) db =
    export_table (suc (length (rows t db))) e t scope 0 db >>= λ records.
    export_tables e scope ts db >>= λ more. ok (records ++ more)

-- The loop on the chunk table.
unfoldable pub export_chunks : ℕ → Env → MemoryScope → ℕ → Db → Result (List Exported)
unfolding after_batch list_chunks
export_chunks zero e scope offset db = ok []
export_chunks (suc fuel) e scope offset db =
    let rest = export_chunks fuel e scope (offset + batch_size) db in
    list_chunks e scope batch_size offset db >>= λ batch. after_batch chunk_record batch rest

-- `has_chunks` says that the store has a chunk repository.
unfoldable pub export_scope : Env → Bool → MemoryScope → Db → Result (List Exported)
unfolding export_tables export_chunks
export_scope e has_chunks scope db = export_tables e scope all_tables db >>= λ records.
    (if has_chunks then export_chunks (suc (length db.chunks)) e scope 0 db else ok [])
    >>= λ chunks. ok (records ++ chunks)
