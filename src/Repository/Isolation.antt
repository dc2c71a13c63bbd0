-- ===== src/Repository/Isolation.antt =====
-- No write reaches a row outside the scope of its call.
pub mod Reads
use yaadien.Prelude.{◌≡◌, refl, Bool, true, not, List, [], ◌∷◌, ◌++◌, arith}
use yaadien.Prelude.Table.{
  select, update_where, delete_where, select-update_where, select-delete_where, select-append,
}
use yaadien.Model.{Ident, Text, Memory, MemoryScope}
use yaadien.Scope.{columns}
use yaadien.Scope.Isolation.{in_scope_own}
use mathlib.Core.List.{append-nil}
use yaadien.Db.{TableName, semantic_facts, Db, Env, rows, set_rows, tick, rows-tick}
use yaadien.Repository.{Repository, row_in_scope, is_target}
use yaadien.Repository.Lifecycle.{
  forget, purge_expired, erase_all, claim_consolidated, supersede, is_purgeable, is_unclaimed,
  is_live_target, tombstone, claim, supersede_row,
}
use yaadien.Repository.Write.{
  stamp, prepared, inserted, insert_row, create, update, is_current, overwrite, then_chunks,
  updated,
}
use yaadien.Repository.Frame.{then_chunks-SameRows, set_rows_induction}

abbrev pub is_outside : MemoryScope → Memory → Bool
is_outside scope m = not (row_in_scope scope m)

-- In every table the rows outside the scope are the same, in the same order.
abbrev pub KeepsOutside : MemoryScope → Db → Db → Type 0
KeepsOutside scope db db' =
    (u : TableName) → select (is_outside scope) (rows u db') ≡ select (is_outside scope) (rows u db)

module _ (scope : MemoryScope) where
  set_rows-KeepsOutside :
      (t : TableName) (l : List Memory) (db : Db)
      → select (is_outside scope) l ≡ select (is_outside scope) (rows t db)
      → KeepsOutside scope db (set_rows t l db)
  set_rows-KeepsOutside t l db h =
      set_rows_induction
        (λ u new. select (is_outside scope) new ≡ select (is_outside scope) (rows u db)) t l db
        (λ u. refl) h

  tick-KeepsOutside : (db db' : Db) → KeepsOutside scope (tick db) db' → KeepsOutside scope db db'
  tick-KeepsOutside db db' h u = rw (← rows-tick u db) (h u)

  update_where-KeepsOutside :
      (p : Memory → Bool) (f : Memory → Memory) (t : TableName) (db : Db)
      → ((m : Memory) → p m ≡ true → row_in_scope scope m ≡ true)
      → ((m : Memory) → columns (f m) ≡ columns m)
      → KeepsOutside scope db (set_rows t (update_where p f (rows t db)) (tick db))
  update_where-KeepsOutside p f t db h same = tick-KeepsOutside db _ (
      set_rows-KeepsOutside t _ (tick db) (
        rw (rows-tick t db) (
          select-update_where (is_outside scope) p f (rows t db) (λ m k. ground (arith, h m))
            (λ m k. ground (arith, h m, same m)))))

  delete_where-KeepsOutside :
      (p : Memory → Bool) (t : TableName) (db : Db)
      → ((m : Memory) → p m ≡ true → row_in_scope scope m ≡ true)
      → KeepsOutside scope db (set_rows t (delete_where p (rows t db)) db)
  delete_where-KeepsOutside p t db h =
      set_rows-KeepsOutside t _ db
        (select-delete_where (is_outside scope) p (rows t db) (λ m k. ground (arith, h m)))

  pub forget-KeepsOutside :
      (e : Env) (t : TableName) (i : Ident) (db : Db)
      → KeepsOutside scope db (forget e t i scope db).1
  unfolding forget
  forget-KeepsOutside e t i db u = ground (
    arith,
    update_where-KeepsOutside (is_target i scope) (tombstone (e.now db.ticks)) t db
        (λ m h. ground arith) (λ m. refl) u,
  )

  pub purge_expired-KeepsOutside :
      (t : TableName) (db : Db) → KeepsOutside scope db (purge_expired t scope db).1
  unfolding purge_expired
  purge_expired-KeepsOutside t db u =
      ground (arith, delete_where-KeepsOutside (is_purgeable scope) t db (λ m h. ground arith) u)

  pub erase_all-KeepsOutside :
      (t : TableName) (db : Db) → KeepsOutside scope db (erase_all t scope db).1
  unfolding erase_all
  erase_all-KeepsOutside t db u =
      ground (arith, delete_where-KeepsOutside (row_in_scope scope) t db (λ m h. h) u)

  pub claim-KeepsOutside :
      (e : Env) (t : TableName) (i : Ident) (db : Db)
      → KeepsOutside scope db (claim_consolidated e t i scope db).1
  unfolding claim_consolidated
  claim-KeepsOutside e t i db u = ground (
    arith,
    update_where-KeepsOutside (is_unclaimed i scope) (claim (e.now db.ticks)) t db
        (λ m h. ground arith) (λ m. refl) u,
  )

  pub supersede-KeepsOutside :
      (e : Env) (loser winner : Ident) (reason : Text) (db : Db)
      → KeepsOutside scope db (supersede e loser winner reason scope db).1
  unfolding supersede
  supersede-KeepsOutside e loser winner reason db u = ground (
    arith,
    update_where-KeepsOutside (is_live_target loser scope)
        (supersede_row winner (e.now db.ticks) reason) semantic_facts db (λ m h. ground arith)
        (λ m. refl) u,
  )

  pub stamped : (m : Memory) → row_in_scope scope (stamp scope m) ≡ true
  stamped m = in_scope_own scope

  then_chunks-KeepsOutside :
      (e : Env) (r : Repository) (m : Memory) (db db' : Db)
      → KeepsOutside scope db db'
      → KeepsOutside scope db (then_chunks e r m scope db').1
  then_chunks-KeepsOutside e r m db db' h u = rw (then_chunks-SameRows e r m scope db' u) (h u)

  append-KeepsOutside :
      (m : Memory) (t : TableName) (db : Db)
      → row_in_scope scope m ≡ true
      → KeepsOutside scope db (set_rows t (rows t db ++ m ∷ []) db)
  append-KeepsOutside m t db h = set_rows-KeepsOutside t _ db (
      rw (select-append (is_outside scope) (rows t db) (m ∷ []))
        (unfold select in rw h (append-nil _)))

  insert_row-KeepsOutside :
      (e : Env) (r : Repository) (m : Memory) (db : Db)
      → row_in_scope scope m ≡ true
      → KeepsOutside scope db (insert_row e r m scope db).1
  unfolding insert_row
  insert_row-KeepsOutside e r m db h u = ground (
    arith,
    then_chunks-KeepsOutside e r m db _ (append-KeepsOutside (inserted r m) r.table db h) u,
  )

  pub create-KeepsOutside :
      (e : Env) (r : Repository) (m : Memory) (db : Db)
      → KeepsOutside scope db (create e r m scope db).1
  unfolding create
  create-KeepsOutside e r m db u = ground (
    arith,
    rows-tick u db,
    insert_row-KeepsOutside e r (prepared e scope (e.now db.ticks) m) (tick db) (stamped m) u,
  )

  pub update-KeepsOutside :
      (e : Env) (r : Repository) (m : Memory) (db : Db)
      → KeepsOutside scope db (update e r m scope db).1
  unfolding update
  update-KeepsOutside e r m db u = ground (
    arith,
    rows-tick u db,
    then_chunks-KeepsOutside e r (updated e (e.now db.ticks) m) db _
        (update_where-KeepsOutside (is_current m scope) (overwrite e r m (e.now db.ticks)) r.table
          db (λ m h. ground arith) (λ m. refl))
        u,
  )
