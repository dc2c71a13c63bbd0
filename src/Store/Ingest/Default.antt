-- ===== src/Store/Ingest/Default.antt =====
-- `remember` on a store as it is made by default: a record of the working memory becomes one row.
use yaadien.Prelude.{
  ℕ, ◌≡◌, ◌≢◌, refl, Bool, true, false, none, some, List, [], ◌∷◌, ◌++◌, arith, Option-cases, inl,
  inr,
}
use yaadien.Prelude.Table.{row_count}
use yaadien.Model.{Memory, MemoryScope, ok}
use yaadien.Db.{working_memory, Db, Env, tick, set_rows}
use yaadien.Scope.{require_agent_id}
use yaadien.Repository.Write.{
  create, insert_row, then_chunks, find_duplicate, has_id, inserted, prepared,
}
use yaadien.Store.Pipeline.{Pipeline, StoreState, repository_of, run_integrity_guard}
use yaadien.Store.Ingest.{
  flagged, remember, after_guard, then_consolidate, consolidate_if, run_consolidator,
  persist_derived, write_record,
}
use yaadien.Store.Throttle.{Key, should_consolidate}

-- A store as it is made by default: no resolver, no chunks, and a consolidator that derives nothing.
pub record IsDefault (p : Pipeline) : Type 0 where
  pub no_resolver : p.resolver ≡ none
  pub no_chunks : p.settings.chunk_repo ≡ false
  pub derives_nothing : (l : List Memory) → p.consolidator l ≡ some []

module _ (e : Env) (p : Pipeline) (scope : MemoryScope) (default : IsDefault p)
    (agent : scope.agent_id ≢ 0) where
  create_lem :
      (m : Memory) (db : Db)
      → row_count (has_id m.id) db.working ≡ 0
      → let new = prepared e scope (e.now db.ticks) m in
        create e (repository_of p working_memory) m scope db ≡ (
          ok new,
          set_rows working_memory
              (db.working ++ inserted (repository_of p working_memory) new ∷ [])
              (tick db),
        )
  unfolding create insert_row then_chunks find_duplicate require_agent_id
  create_lem m db h = ground (arith, default.no_chunks)

  -- The guard looks at procedural memories only.
  guard_passes : (m : Memory) (db : Db) → run_integrity_guard e p working_memory m scope db ≡ ok m
  unfolding run_integrity_guard
  guard_passes m db = elim (Option-cases p.guard) [
    | inl h ↦ rw (h, run_integrity_guard) refl
    | inr (guard, h) ↦ rw (h, run_integrity_guard) refl
  ]

  consolidates_nothing : (l : List Memory) (db : Db) → run_consolidator e p l scope db ≡ db
  unfolding run_consolidator persist_derived
  consolidates_nothing l db = rw (default.derives_nothing l) refl

  db-consolidate_if :
      (m : Memory) (due : Bool × List (Key × ℕ)) (db : Db)
      → (consolidate_if e p m scope due db).db ≡ db
  unfolding consolidate_if
  db-consolidate_if m (false, counters) db = refl
  db-consolidate_if m (true, counters) db = consolidates_nothing (m ∷ []) db

  then_consolidate_lem :
      (m : Memory) (db : Db) (counters : List (Key × ℕ))
      → let step = then_consolidate e p working_memory scope (ok (m, true), db) counters in
        (step.0 ≡ ok m) × (step.1.db ≡ db)
  unfolding then_consolidate
  then_consolidate_lem m db counters =
      (refl, db-consolidate_if m (should_consolidate p.every_n scope counters) db)

  write_record_lem :
      (m : Memory) (db : Db)
      → write_record e p working_memory m scope db
        ≡ flagged true (create e (repository_of p working_memory) m scope db)
  unfolding write_record
  write_record_lem m db = rw (default.no_resolver, write_record) refl

  -- A record under a new id is stored as it is prepared, behind the rows that are there.
  pub remember_lem :
      (m : Memory) (s : StoreState)
      → row_count (has_id m.id) s.db.working ≡ 0
      → let new = prepared e scope (e.now s.db.ticks) m in
        let step = remember e p working_memory m scope s in
        (step.0 ≡ ok new)
        × (step.1.db
            ≡ set_rows working_memory
                (s.db.working ++ inserted (repository_of p working_memory) new ∷ [])
                (tick s.db))
  unfolding remember after_guard
  remember_lem m s h =
      let new = prepared e scope (e.now s.db.ticks) m in
      let db =
        set_rows working_memory (s.db.working ++ inserted (repository_of p working_memory) new ∷ [])
          (tick s.db) in
      rw (guard_passes m s.db, after_guard, write_record_lem m s.db, create_lem m s.db h)
        (then_consolidate_lem new db s.counters)
