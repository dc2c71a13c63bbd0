-- ===== src/Repository/Batches/Induction.antt =====
-- What every INSERT of `create_many` keeps, the whole call keeps.
use yaadien.Scope.{require_agent_id}
use yaadien.Prelude.Table.{row_count}
use yaadien.Repository.Write.{has_id}
use yaadien.Prelude.{
  ◌≡◌, ◌⊎◌, ◌++◌, ◌==◌, Bool-cases, ltb, arith, ℕ, zero, suc, ◌+◌, List, [], ◌∷◌, take, drop,
  length, All, All-take, All-drop, inl, inr,
}
use yaadien.Model.{Memory, MemoryScope, Result-cases}
use yaadien.Db.{Db, Env, tick}
use yaadien.Repository.{Repository}
use yaadien.Repository.Batches.{
  fact_row, insert_fact, insert_batch, commit_batch, commit_batches, create_many, after_many,
}

-- The database behind an INSERT: nothing was done, or it failed, or the row is there.
pub insert_fact-cases :
    (e : Env) (r : Repository) (now : ℕ) (m : Memory) (scope : MemoryScope) (db : Db)
    → let row = fact_row e r now m scope db in
      let db' = (insert_fact e r now m scope db).1 in
      (db' ≡ db)
      ⊎ (db' ≡ tick db)
      ⊎ ((row_count (has_id row.id) db.facts ≡ 0)
          × (db' ≡ record db { facts = db.facts ++ row ∷ []; ticks = db.ticks + 1 }))
unfolding insert_fact require_agent_id
insert_fact-cases e r now m scope db =
    let row = fact_row e r now m scope db in
    elim (Bool-cases (scope.agent_id == 0)) [
      | inl h ↦ inl (ground arith)
      | inr h ↦ elim (Bool-cases (ltb 0 (row_count (has_id row.id) db.facts))) [
        | inl k ↦ inr (inl (ground arith))
        | inr k ↦ inr (inr (ground arith, ground arith))
      ]
    ]

module _ (e : Env) (r : Repository) (P : Db → Type 0)
    (ticking : (db : Db) (n : ℕ) → P db → P (record db { ticks = n })) where
  -- the INSERT of a record keeps the predicate, whatever the time of the call
  abbrev pub Keeps : Memory × MemoryScope → Type 0
  Keeps x = (now : ℕ) (db : Db) → P db → P (insert_fact e r now x.0 x.1 db).1

  insert_batch-keeps :
      (now : ℕ) (batch : List (Memory × MemoryScope)) (db : Db)
      → All Keeps batch
      → P db
      → P (insert_batch e r now batch db).1
  unfolding insert_batch
  insert_batch-keeps now [] db k h = h
  insert_batch-keeps now ((m, scope) ∷ batch) db k h =
      let step = insert_fact e r now m scope db in
      elim (Result-cases step.0) [
        | inl (u, q) ↦ rw (q, insert_batch) (insert_batch-keeps now batch step.1 k.1 (k.0 now db h))
        | inr (x, q) ↦ rw (q, insert_batch) (k.0 now db h)
      ]

  commit_batch-keeps :
      (now : ℕ) (batch : List (Memory × MemoryScope)) (db : Db)
      → All Keeps batch
      → P db
      → P (commit_batch e r now batch db).1
  unfolding commit_batch
  commit_batch-keeps now batch db k h =
      let step = insert_batch e r now batch db in
      elim (Result-cases step.0) [
        | inl (u, q) ↦ rw (q, commit_batch) (insert_batch-keeps now batch db k h)
        | inr (x, q) ↦ rw (q, commit_batch) (ticking db step.1.ticks h)
      ]

  commit_batches-keeps :
      (fuel now commit_every inserted : ℕ) (records : List (Memory × MemoryScope)) (base db : Db)
      → All Keeps records
      → P base
      → P db
      → P (after_many base (commit_batches fuel e r now commit_every inserted records db))
  unfolding commit_batches
  commit_batches-keeps zero now n inserted records base db k b h = b
  commit_batches-keeps (suc fuel) now n inserted [] base db k b h = h
  commit_batches-keeps (suc fuel) now n inserted (x ∷ records) base db k b h =
      let l = x ∷ records in
      let step = commit_batch e r now (take n l) db in
      let kept = commit_batch-keeps now (take n l) db (All-take Keeps n l k) h in
      elim (Result-cases step.0) [
        | inr (y, q) ↦ rw (q, commit_batches) kept
        | inl (u, q) ↦
            rw (q, commit_batches)
              (commit_batches-keeps fuel now n (inserted + length (take n l)) (drop n l) base step.1
                (All-drop Keeps n l k) b kept)
      ]

  pub create_many-keeps :
      (records : List (Memory × MemoryScope)) (commit_every : ℕ) (db : Db)
      → All Keeps records
      → P db
      → P (after_many db (create_many e r records commit_every db))
  unfolding create_many
  create_many-keeps records n db k h =
      commit_batches-keeps (suc (length records)) (e.now db.ticks) n 0 records db (tick db) k h
        (ticking db (db.ticks + 1) h)
