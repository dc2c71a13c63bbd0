-- ===== src/Store/Import/Safety.antt =====
-- What `import_scope` keeps, and the streams that it refuses.
use yaadien.Prelude.{
  ◌≡◌, refl, Option, none, some, List, [], ◌∷◌, ◌==◌, arith, Bool-cases, inl, inr, ◌∙◌,
}
use yaadien.Model.{Ident, Result, Result-cases, ok, err, MemoryScope, Memory}
use yaadien.Scope.{ScopeColumns}
use yaadien.Db.{TableName, Db, Env, Chunk, tick, rows, rows-tick}
use yaadien.Repository.Write.{create}
use yaadien.Repository.Frame.{insert_chunk-SameRows}
use yaadien.Repository.Isolation.{KeepsOutside, create-KeepsOutside}
use yaadien.Repository.History.{creates, after}
use yaadien.Repository.History.Keys.{IsValid, after-IsValid, tick-IsValid}
use yaadien.Store.Pipeline.{Pipeline, repository_of}
use yaadien.Store.Export.{memory_record, chunk_record}
use yaadien.Store.Import.{
  Raw, exported, untyped, unrecognized, Counts, no_counts, count_memory, count_chunk, counting,
  check_columns, import_chunk, import_memory, import_record, checked_import, import_round,
  import_all, import_scope, raw_columns, next_source,
}

-- A relation between databases that every write of the import keeps.
module _ (e : Env) (p : Pipeline) (scope : MemoryScope) (P : Db → Type 0)
    (keep_create : (t : TableName) (m : Memory) (db : Db)
      → P db
      → P (create e (repository_of p t) m scope db).1)
    (keep_tick : (db : Db) → P db → P (tick db))
    (keep_chunk : (c : Chunk) (db : Db) → P db → P (import_chunk e p c scope db).1) where
  counting-keeps :
      {A : Type 0} (f : Counts → Counts) (c : Counts) (step : Result A × Db)
      → P step.1
      → P (counting f c step).1
  counting-keeps f c (ok a, db) h = h
  counting-keeps f c (err x, db) h = h

  import_memory-keeps :
      (t : TableName) (m : Memory) (db : Db) → P db → P (import_memory e p t m scope db).1
  unfolding import_memory
  import_memory-keeps t m db h = elim (Bool-cases (m.agent_id == scope.agent_id)) [
    | inl q ↦ rw q (keep_create t m db h)
    | inr q ↦ rw q (keep_create t (record m { id = e.uuid db.ticks }) (tick db) (keep_tick db h))
  ]

  import_record-keeps :
      (raw : Raw) (counts : Counts) (db : Db) → P db → P (import_record e p raw scope counts db).1
  unfolding import_record
  import_record-keeps (exported (memory_record t m)) counts db h =
      counting-keeps (count_memory t) counts (import_memory e p t m scope db)
        (import_memory-keeps t m db h)
  import_record-keeps (exported (chunk_record c)) counts db h =
      counting-keeps count_chunk counts (import_chunk e p c scope db) (keep_chunk c db h)
  import_record-keeps untyped counts db h = h
  import_record-keeps (unrecognized c) counts db h = h

  checked_import-keeps :
      (raw : Raw) (counts : Counts) (c : Option ScopeColumns) (source : Option Ident) (db : Db)
      → P db
      → P (checked_import e p raw scope counts c source db).1
  unfolding checked_import
  checked_import-keeps raw counts none source db h = h
  checked_import-keeps raw counts (some c) source db h =
      elim (Result-cases (check_columns scope source c)) [
        | inl (u, q) ↦ rw (checked_import, q) (import_record-keeps raw counts db h)
        | inr (x, q) ↦ rw (checked_import, q) h
      ]

  import_all-keeps :
      (raws : List Raw) (source : Option Ident) (counts : Counts) (db : Db)
      → P db
      → P (import_all e p raws scope source counts db).1
  unfolding import_all import_round
  import_all-keeps [] source counts db h = h
  import_all-keeps (raw ∷ raws) source counts db h =
      let step = checked_import e p raw scope counts (raw_columns raw) source db in
      let kept : P step.1 = checked_import-keeps raw counts (raw_columns raw) source db h in
      elim (Result-cases step.0) [
        | inl (c, q) ↦
            rw (import_all, q) (import_all-keeps raws (next_source source raw) c step.1 kept)
        | inr (x, q) ↦ rw (import_all, q) kept
      ]

module _ (e : Env) (p : Pipeline) (scope : MemoryScope) where
  import_chunk-SameRows :
      (c : Chunk) (db : Db) (u : TableName) → rows u (import_chunk e p c scope db).1 ≡ rows u db
  unfolding import_chunk
  import_chunk-SameRows c db u = ground (
    arith,
    insert_chunk-SameRows e p.settings.embedding_dim c.source_table c.source_id c.chunk_index
        c.chunk_text c.embedding scope db u,
  )

  -- Whatever the stream holds and however the import ends, in each of the five tables it leaves
  -- the rows outside the target scope the same, in the same order.
  pub import_scope-KeepsOutside :
      (raws : List Raw) (db : Db) → KeepsOutside scope db (import_scope e p raws scope db).1
  unfolding import_scope
  import_scope-KeepsOutside raws db =
      import_all-keeps e p scope (KeepsOutside scope db)
        (λ t m d h u. create-KeepsOutside scope e (repository_of p t) m d u ∙ h u)
        (λ d h u. rw (rows-tick u d) (h u)) (λ c d h u. rw (import_chunk-SameRows c d u) (h u)) raws
        none no_counts db (λ u. refl)

  created :
      (t : TableName) (m : Memory) (db : Db)
      → IsValid db
      → IsValid (create e (repository_of p t) m scope db).1
  unfolding after
  created t m db h = after-IsValid e (creates (repository_of p t) m scope) db h

  -- An import keeps the tables valid, whatever the stream holds.
  pub import_scope-IsValid :
      (raws : List Raw) (db : Db) → IsValid db → IsValid (import_scope e p raws scope db).1
  unfolding import_scope
  import_scope-IsValid raws db h =
      import_all-keeps e p scope IsValid (λ t m d k. created t m d k) tick-IsValid
        (λ c d k u. rw (import_chunk-SameRows c d u) (k u)) raws none no_counts db h
