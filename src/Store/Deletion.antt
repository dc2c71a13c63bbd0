-- ===== src/Store/Deletion.antt =====
-- `delete_memory`: the first of three tables that has the id.
use yaadien.Prelude.{ℕ, ◌+◌, ◌≡◌, ◌≢◌, List, arith, ltb, if◌then◌else◌}
use yaadien.Prelude.Table.{row_count, update_where, row_count-update_where, update_where_of_none}
use yaadien.Model.{Ident, Memory, MemoryScope, ok}
use yaadien.Db.{Db, Env}
use yaadien.Repository.{is_target}
use yaadien.Repository.Lifecycle.{forget, tombstone}
use yaadien.Store.{delete_memory, forget_first, as_count}

-- the live rows of a scope under an id, in one table
abbrev pub hits : Ident → MemoryScope → List Memory → ℕ
hits i scope l = row_count (is_target i scope) l

gone :
    (i : Ident) (scope : MemoryScope) (now : ℕ) (l : List Memory)
    → hits i scope (update_where (is_target i scope) (tombstone now) l) ≡ 0
gone i scope now l =
    row_count-update_where (is_target i scope) (is_target i scope) (tombstone now) l (λ m k. k)
      (λ m k. ground arith)

module _ (e : Env) (i : Ident) (scope : MemoryScope) (db : Db) (h : scope.agent_id ≢ 0) where
  -- In a scope with an agent, `delete_memory` returns 1 if the id names a live row of the scope in
  -- the facts, the profiles or the procedures, and 0 if in none. At most one table loses its live
  -- rows under the id: the facts, or else the profiles, or else the procedures. Messages and
  -- episodes stay as they are.
  pub delete_memory_lem :
      let db' = (delete_memory e i scope db).1 in
      ((delete_memory e i scope db).0
        ≡ ok (
            as_count (
              ltb 0
                (hits i scope db.facts + hits i scope db.profiles + hits i scope db.procedures))))
      × (hits i scope db'.facts ≡ 0)
      × (hits i scope db'.profiles
          ≡ (if ltb 0 (hits i scope db.facts) then hits i scope db.profiles else 0))
      × (hits i scope db'.procedures ≡ (
          if ltb 0 (hits i scope db.facts + hits i scope db.profiles)
          then hits i scope db.procedures
          else 0))
      × (db'.working ≡ db.working)
      × (db'.episodic ≡ db.episodic)
  unfolding delete_memory forget_first forget
  delete_memory_lem = ground (
    arith,
    gone i scope (e.now db.ticks) db.facts,
    gone i scope (e.now (db.ticks + 1)) db.profiles,
    gone i scope (e.now (db.ticks + 1 + 1)) db.procedures,
    update_where_of_none (is_target i scope) (tombstone (e.now db.ticks)) db.facts,
    update_where_of_none (is_target i scope) (tombstone (e.now (db.ticks + 1))) db.profiles,
  )
