-- ===== src/Repository/Batches.antt =====
-- `create_many` of src/agent_memory_sdk/repositories/facts.py.
pub mod Whole
pub mod Induction
use yaadien.Prelude.{
  ℕ, zero, suc, ◌+◌, Bool, true, false, Option, none, some, List, [], ◌∷◌, ◌++◌, ltb, take, drop,
  length, if◌then◌else◌, ◌==◌,
}
use yaadien.Prelude.Table.{row_count}
use yaadien.Model.{Ident, Result, ok, err, duplicate_key, MemoryScope, Memory}
use yaadien.Scope.{require_agent_id}
use yaadien.ContentHash.{content_hash}
use yaadien.Db.{semantic_facts, Db, Env, tick}
use yaadien.Repository.{Repository}
use yaadien.Repository.Write.{stamp, own_vector, has_id}

-- the id of a record, or a fresh one for an empty id
abbrev pub id_for : Env → Ident → Db → Ident
id_for e i db = if i == 0 then e.uuid db.ticks else i

-- What the INSERT stores: the columns that it does not name are NULL.
unfoldable pub fact_row : Env → Repository → ℕ → Memory → MemoryScope → Db → Memory
unfolding own_vector
fact_row e r now m scope db = record (stamp scope m) {
  id = id_for e m.id db;
  created_at = now;
  updated_at = now;
  version = 1;
  content_hash = some (content_hash e m.content);
  embedding = own_vector r m.content m.embedding r.embedding_provider;
  consolidated_at = none;
  superseded_by = none;
  superseded_at = none;
  supersede_reason = none;
  quarantined = false;
}

-- one round of the loop over a batch; the INSERT fails on an id that the table holds
unfoldable pub insert_fact :
    Env → Repository → ℕ → Memory → MemoryScope → Db → Result (Unit {0}) × Db
unfolding require_agent_id
insert_fact e r now m scope db = elim (require_agent_id scope) [
  | err x ↦ (err x, db)
  | ok _ ↦
      let row = fact_row e r now m scope db in
      if ltb 0 (row_count (has_id row.id) db.facts)
      then (err duplicate_key, tick db)
      else (ok tt, record db { facts = db.facts ++ row ∷ []; ticks = db.ticks + 1 })
]

-- the statements of one transaction
unfoldable pub insert_batch :
    Env → Repository → ℕ → List (Memory × MemoryScope) → Db → Result (Unit {0}) × Db
insert_batch e r now [] db = (ok tt, db)
insert_batch e r now ((m, scope) ∷ batch) db =
    let step = insert_fact e r now m scope db in
    let rest = insert_batch e r now batch step.1 in
    elim step.0 [ err x ↦ (err x, step.1) | ok _ ↦ rest ]

-- Where a statement raises, the connection goes back to the pool, which rolls the batch back.
unfoldable pub commit_batch :
    Env → Repository → ℕ → List (Memory × MemoryScope) → Db → Result (Unit {0}) × Db
commit_batch e r now batch db =
    let step = insert_batch e r now batch db in
    elim step.0 [ err x ↦ (err x, record db { ticks = (step.1).ticks }) | ok u ↦ (ok u, step.1) ]

-- The loop on the records that are left. It gives `none` where the fuel does not reach its end.
unfoldable pub commit_batches :
    ℕ → Env → Repository → ℕ → ℕ → ℕ → List (Memory × MemoryScope) → Db → Option (Result ℕ × Db)
commit_batches zero e r now commit_every inserted records db = none
commit_batches (suc fuel) e r now commit_every inserted [] db = some (ok inserted, db)
commit_batches (suc fuel) e r now commit_every inserted (x ∷ records) db =
    let batch = take commit_every (x ∷ records) in
    let step = commit_batch e r now batch db in
    let rest =
      commit_batches fuel e r now commit_every (inserted + length batch)
        (drop commit_every (x ∷ records)) step.1 in
    elim step.0 [ err y ↦ some (err y, step.1) | ok _ ↦ rest ]

-- One round for each record and one more; the clock is read once.
unfoldable pub create_many :
    Env → Repository → List (Memory × MemoryScope) → ℕ → Db → Option (Result ℕ × Db)
create_many e r records commit_every db =
    commit_batches (suc (length records)) e r (e.now db.ticks) commit_every 0 records (tick db)

-- the database that a call leaves; one that does not end, as with batches of no record, inserts nothing
abbrev pub after_many : Db → Option (Result ℕ × Db) → Db
after_many db none = db
after_many db (some out) = out.1
