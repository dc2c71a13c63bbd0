-- ===== src/Repository/History/Keys.antt =====
-- The invariant of the five tables, kept by every write: the primary key, the version numbers, and
-- the columns that a table does not have.
use mathlib.Core.Path.{subst}
use yaadien.Prelude.{
  sym, ◌+◌, ◌++◌, ℕ, All, ◌≤◌, ◌≡◌, refl, inl, inr, true, List, [], ◌∷◌, arith, Bool-cases, ltb,
}
use yaadien.Prelude.Table.{row_count}
use yaadien.Model.{Ident, Text, Memory, MemoryScope}
use yaadien.Repository.Batches.{fact_row}
use yaadien.Repository.Batches.Induction.{insert_fact-cases, Keeps, create_many-keeps}
use yaadien.Db.{
  TableName, working_memory, episodic_memory, entity_profiles, procedural_memory, semantic_facts,
  Db, Env, rows, set_rows, tick, rows-tick,
}
use yaadien.Repository.{Repository, has_consolidated_at, is_target, row_in_scope}
use yaadien.Repository.Frame.{then_chunks-SameRows, set_rows_induction}
use yaadien.Repository.Lifecycle.{
  forget, purge_expired, erase_all, claim_consolidated, supersede, is_purgeable, is_unclaimed,
  is_live_target, tombstone, claim, supersede_row,
}
use yaadien.Repository.Write.{
  prepared, inserted, has_id, insert_row, create, update, is_current, overwrite, then_chunks,
  updated,
}
use yaadien.Repository.History.Tables.{
  IsTable, update_where-IsTable, delete_where-IsTable, append-IsTable,
}
use yaadien.Repository.History.{
  Call, creates, updates, forgets, claims, purges, erases, supersedes, creates_many, after,
  after_all,
}

abbrev pub IsValid : Db → Type 0
IsValid db = (u : TableName) → IsTable u (rows u db)

pub tick-IsValid : (db : Db) → IsValid db → IsValid (tick db)
tick-IsValid db h u = rw rows-tick (h u)

set_rows-IsValid :
    (t : TableName) (l : List Memory) (db : Db)
    → IsValid db
    → IsTable t l
    → IsValid (set_rows t l db)
set_rows-IsValid t l db h k = set_rows_induction IsTable t l db h k

forget-IsValid :
    (e : Env) (t : TableName) (i : Ident) (s : MemoryScope) (db : Db)
    → IsValid db
    → IsValid (forget e t i s db).1
unfolding forget
forget-IsValid e t i s db h u = ground (
  arith,
  h u,
  set_rows-IsValid t _ (tick db) (tick-IsValid db h)
      (update_where-IsTable (is_target i s) (tombstone (e.now db.ticks)) (λ m. refl) t (rows t db)
        (λ m k. ground arith) (h t))
      u,
)

claim-IsValid :
    (e : Env) (t : TableName) (i : Ident) (s : MemoryScope) (db : Db)
    → IsValid db
    → IsValid (claim_consolidated e t i s db).1
unfolding claim_consolidated
claim-IsValid e t i s db h u = ground (
  arith,
  h u,
  λ (c : has_consolidated_at t ≡ true).
      set_rows-IsValid t _ (tick db) (tick-IsValid db h)
        (update_where-IsTable (is_unclaimed i s) (claim (e.now db.ticks)) (λ m. refl) t (rows t db)
          (λ m k. ground arith) (h t))
        u,
)

supersede-IsValid :
    (e : Env) (l w : Ident) (x : Text) (s : MemoryScope) (db : Db)
    → IsValid db
    → IsValid (supersede e l w x s db).1
unfolding supersede
supersede-IsValid e l w x s db h u = ground (
  arith,
  h u,
  set_rows-IsValid semantic_facts _ (tick db) (tick-IsValid db h)
      (update_where-IsTable (is_live_target l s) (supersede_row w (e.now db.ticks) x) (λ m. refl)
        semantic_facts db.facts (λ m k. ground arith) (h semantic_facts))
      u,
)

purge_expired-IsValid :
    (t : TableName) (s : MemoryScope) (db : Db) → IsValid db → IsValid (purge_expired t s db).1
unfolding purge_expired
purge_expired-IsValid t s db h u = ground (
  arith,
  h u,
  set_rows-IsValid t _ db h (delete_where-IsTable (is_purgeable s) t (rows t db) (h t)) u,
)

erase_all-IsValid :
    (t : TableName) (s : MemoryScope) (db : Db) → IsValid db → IsValid (erase_all t s db).1
unfolding erase_all
erase_all-IsValid t s db h u = ground (
  arith,
  h u,
  set_rows-IsValid t _ db h (delete_where-IsTable (row_in_scope s) t (rows t db) (h t)) u,
)

then_chunks-IsValid :
    (e : Env) (r : Repository) (m : Memory) (s : MemoryScope) (db : Db)
    → IsValid db
    → IsValid (then_chunks e r m s db).1
then_chunks-IsValid e r m s db h u = rw (then_chunks-SameRows e r m s db u) (h u)

insert_row-IsValid :
    (e : Env) (r : Repository) (m : Memory) (s : MemoryScope) (db : Db)
    → 1 ≤ m.version
    → IsValid db
    → IsValid (insert_row e r m s db).1
unfolding insert_row
insert_row-IsValid e r m s db v h u =
    elim (Bool-cases (ltb 0 (row_count (has_id m.id) (rows r.table db)))) [
      | inl taken ↦ rw taken (h u)
      | inr free ↦ rw free (
          then_chunks-IsValid e r m s _
            (set_rows-IsValid r.table _ db h (
              append-IsTable r.table (rows r.table db) (inserted r m) (h r.table)
                (record { version = v; superseded = λ _. refl; consolidated = λ _. refl })
                (ground arith)))
            u)
    ]

create-IsValid :
    (e : Env) (r : Repository) (m : Memory) (s : MemoryScope) (db : Db)
    → IsValid db
    → IsValid (create e r m s db).1
unfolding create
create-IsValid e r m s db h u = ground (
  arith,
  h u,
  tick-IsValid db h u,
  insert_row-IsValid e r (prepared e s (e.now db.ticks) m) s (tick db) (omega arith)
      (tick-IsValid db h) u,
)

update-IsValid :
    (e : Env) (r : Repository) (m : Memory) (s : MemoryScope) (db : Db)
    → IsValid db
    → IsValid (update e r m s db).1
unfolding update
update-IsValid e r m s db h u = ground (
  arith,
  tick-IsValid db h u,
  h u,
  then_chunks-IsValid e r (updated e (e.now db.ticks) m) s _
      (set_rows-IsValid r.table _ (tick db) (tick-IsValid db h) (
        update_where-IsTable (is_current m s) (overwrite e r m (e.now db.ticks)) (λ m. refl) r.table
          (rows r.table db) (λ m k. ground arith) (h r.table)))
      u,
)

ticks-IsValid : (db : Db) (n : ℕ) → IsValid db → IsValid (record db { ticks = n })
ticks-IsValid db n h working_memory = h working_memory
ticks-IsValid db n h episodic_memory = h episodic_memory
ticks-IsValid db n h semantic_facts = h semantic_facts
ticks-IsValid db n h entity_profiles = h entity_profiles
ticks-IsValid db n h procedural_memory = h procedural_memory

insert_fact-IsValid :
    (e : Env) (r : Repository) (x : Memory × MemoryScope) → Keeps e r IsValid ticks-IsValid x
unfolding fact_row
insert_fact-IsValid e r (m, scope) now db h =
    let row = fact_row e r now m scope db in
    elim (insert_fact-cases e r now m scope db) [
      | inl k ↦ subst IsValid (sym k) h
      | inr (inl k) ↦ subst IsValid (sym k) (tick-IsValid db h)
      | inr (inr (free, k)) ↦ subst IsValid (sym k) (
          ticks-IsValid (set_rows semantic_facts (db.facts ++ row ∷ []) db) (db.ticks + 1) (
            set_rows-IsValid semantic_facts (db.facts ++ row ∷ []) db h (
              append-IsTable semantic_facts db.facts row (h semantic_facts)
                (record { version = omega arith; superseded = λ _. refl; consolidated = λ _. refl })
                free)))
    ]

insert_facts-IsValid :
    (e : Env) (r : Repository) (l : List (Memory × MemoryScope))
    → All (Keeps e r IsValid ticks-IsValid) l
insert_facts-IsValid e r [] = tt
insert_facts-IsValid e r (x ∷ l) = (insert_fact-IsValid e r x, insert_facts-IsValid e r l)

-- Every write call keeps the invariant, whether it returns or raises: no id stands twice in a
-- table, versions begin at 1, and no table carries a mark of a column that it does not have.
pub after-IsValid : (e : Env) (c : Call) (db : Db) → IsValid db → IsValid (after e c db)
unfolding after
after-IsValid e (creates r m s) db h = create-IsValid e r m s db h
after-IsValid e (updates r m s) db h = update-IsValid e r m s db h
after-IsValid e (forgets t i s) db h = forget-IsValid e t i s db h
after-IsValid e (claims t i s) db h = claim-IsValid e t i s db h
after-IsValid e (purges t s) db h = purge_expired-IsValid t s db h
after-IsValid e (erases t s) db h = erase_all-IsValid t s db h
after-IsValid e (supersedes l w x s) db h = supersede-IsValid e l w x s db h
after-IsValid e (creates_many r records k) db h =
    create_many-keeps e r IsValid ticks-IsValid records k db (insert_facts-IsValid e r records) h

-- From a database that satisfies the invariant (no id stands twice in a table, versions begin at
-- 1, no table carries a mark of a column that it does not have), every sequence of write calls,
-- whether they return or raise, leads to one that satisfies it.
pub after_all-IsValid :
    (e : Env) (cs : List Call) (db : Db) → IsValid db → IsValid (after_all e cs db)
unfolding after_all
after_all-IsValid e [] db h = h
after_all-IsValid e (c ∷ cs) db h = after_all-IsValid e cs (after e c db) (after-IsValid e c db h)
