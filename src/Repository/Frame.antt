-- ===== src/Repository/Frame.antt =====
-- What the writes to `memory_chunks` leave alone, and what a write to one table is in another.
use yaadien.Prelude.{ℕ, ◌+◌, ◌≡◌, refl, inl, inr, Option, some, List, [], ◌∷◌, arith, Option-cases}
use yaadien.Model.{Ident, Text, Vector, Memory, MemoryScope, Result, ok, err}
use yaadien.Chunking.{split_chunks}
use yaadien.Db.{
  TableName, working_memory, episodic_memory, semantic_facts, entity_profiles, procedural_memory,
  Db, Env, Chunk, rows, set_rows,
}
use yaadien.Repository.{Repository}
use yaadien.Repository.Chunks.{
  insert_chunk, delete_by_source, write_loop, replace_chunks, write_chunks,
}
use yaadien.Repository.Write.{then_chunks}

-- the five tables of memories are the same
abbrev pub SameRows : Db → Db → Type 0
SameRows db db' = (u : TableName) → rows u db' ≡ rows u db

chunks-SameRows :
    (db : Db) (chunks : List Chunk) (ticks : ℕ)
    → SameRows db (record db { chunks = chunks; ticks = ticks })
chunks-SameRows db chunks ticks working_memory = refl
chunks-SameRows db chunks ticks _ = refl

pub insert_chunk-SameRows :
    (e : Env) (dim : ℕ) (t : TableName) (i : Ident) (n : ℕ) (text : Text) (v : Vector)
    (scope : MemoryScope) (db : Db)
    → SameRows db (insert_chunk e dim t i n text v scope db).1
unfolding insert_chunk
insert_chunk-SameRows e dim t i n text v scope db working_memory = ground arith
insert_chunk-SameRows e dim t i n text v scope db _ = ground arith

delete_by_source-SameRows :
    (i : Ident) (t : TableName) (scope : MemoryScope) (db : Db)
    → SameRows db (delete_by_source i t scope db).1
unfolding delete_by_source
delete_by_source-SameRows i t scope db working_memory = ground arith
delete_by_source-SameRows i t scope db _ = ground arith

module _ (e : Env) (r : Repository) (provider : Text → Option Vector) (i : Ident)
    (scope : MemoryScope) where
  write_loop-SameRows :
      (idx written : ℕ) (chunks : List Text) (db : Db)
      → SameRows db (write_loop e r provider i scope idx written chunks db).1
  unfolding write_loop
  write_loop-SameRows idx written [] db u = refl
  write_loop-SameRows idx written (c ∷ cs) db u = elim (Option-cases (provider c)) [
    | inl n ↦ rw (n, write_loop) (write_loop-SameRows (idx + 1) written cs db u)
    | inr (v, s) ↦ ground (
      arith,
      insert_chunk-SameRows e r.embedding_dim r.table i idx c v scope db u,
      write_loop-SameRows (idx + 1) (written + 1) cs
          (insert_chunk e r.embedding_dim r.table i idx c v scope db).1 u,
    )
  ]

  replace_chunks-SameRows :
      (chunks : List Text) (db : Db) → SameRows db (replace_chunks e r provider i scope chunks db).1
  unfolding replace_chunks
  replace_chunks-SameRows chunks db u = ground (
    arith,
    delete_by_source-SameRows i r.table scope db u,
    write_loop-SameRows 0 0 chunks (delete_by_source i r.table scope db).1 u,
  )

write_chunks-SameRows :
    (e : Env) (r : Repository) (i : Ident) (text : Text) (scope : MemoryScope) (db : Db)
    → SameRows db (write_chunks e r i text scope db).1
unfolding write_chunks
write_chunks-SameRows e r i text scope db u = elim (Option-cases r.embedding_provider) [
  | inl n ↦ ground arith
  | inr (f, s) ↦ split (split_chunks text r.chunk_size r.chunk_overlap) refl f s
]
  where
    split :
        (res : Result (List Text))
        → split_chunks text r.chunk_size r.chunk_overlap ≡ res
        → (f : Text → Option Vector) → r.embedding_provider ≡ some f
        → rows u (write_chunks e r i text scope db).1 ≡ rows u db
    split (ok cs) p f s = ground (arith, replace_chunks-SameRows e r f i scope cs db u)
    split (err x) p f s = ground arith

pub then_chunks-SameRows :
    (e : Env) (r : Repository) (m : Memory) (scope : MemoryScope) (db : Db)
    → SameRows db (then_chunks e r m scope db).1
unfolding then_chunks
then_chunks-SameRows e r m scope db u =
    ground (arith, write_chunks-SameRows e r m.id m.content scope db u)

-- If the call ends well, its result is the record.
pub then_chunks-ok :
    (e : Env) (r : Repository) (m : Memory) (scope : MemoryScope) (db : Db) {s : Memory}
    → (then_chunks e r m scope db).0 ≡ ok s
    → s ≡ m
unfolding then_chunks
then_chunks-ok e r m scope db h = ground arith

-- What holds of the new rows of one table, and of the old rows of the others, holds of each.
pub set_rows_induction :
    (P : TableName → List Memory → Type 0) (t : TableName) (l : List Memory) (db : Db)
    → ((u : TableName) → P u (rows u db))
    → P t l
    → (u : TableName) → P u (rows u (set_rows t l db))
set_rows_induction P working_memory l db h k working_memory = k
set_rows_induction P episodic_memory l db h k episodic_memory = k
set_rows_induction P semantic_facts l db h k semantic_facts = k
set_rows_induction P entity_profiles l db h k entity_profiles = k
set_rows_induction P procedural_memory l db h k procedural_memory = k
set_rows_induction P working_memory l db h k u = h u
set_rows_induction P episodic_memory l db h k u = h u
set_rows_induction P semantic_facts l db h k u = h u
set_rows_induction P entity_profiles l db h k u = h u
set_rows_induction P procedural_memory l db h k u = h u
