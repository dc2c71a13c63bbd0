-- ===== src/Repository/Locking.antt =====
-- Optimistic concurrency: `update` against the version of the row.
use yaadien.Prelude.{◌≡◌, ◌≢◌, arith}
use yaadien.Prelude.Table.{update_where, row_count, row_count-update_where}
use yaadien.Model.{Memory, MemoryScope, ok, err, stale_write}
use yaadien.Db.{Db, Env, rows, set_rows, tick, rows-set_rows_self}
use yaadien.Repository.{Repository}
use yaadien.Repository.Frame.{then_chunks-SameRows, then_chunks-ok}
use yaadien.Repository.Write.{update, is_current, overwrite, updated}

module _ (e : Env) (r : Repository) (m : Memory) (scope : MemoryScope) (db : Db)
    (h : scope.agent_id ≢ 0) where
  -- Without a live row of the scope that has the id and the version, `update` raises
  -- StaleWriteError, and nothing but the clock changes.
  pub update_stale :
      row_count (is_current m scope) (rows r.table db) ≡ 0
      → update e r m scope db ≡ (err stale_write, tick db)
  unfolding update
  update_stale k = ground arith

  -- Otherwise exactly these rows are overwritten, also if the chunk writes raise afterwards.
  pub update_current :
      row_count (is_current m scope) (rows r.table db) ≢ 0
      → rows r.table (update e r m scope db).1
        ≡ update_where (is_current m scope) (overwrite e r m (e.now db.ticks)) (rows r.table db)
  unfolding update
  update_current k =
      let new =
        update_where (is_current m scope) (overwrite e r m (e.now db.ticks)) (rows r.table db) in
      ground (
        arith,
        then_chunks-SameRows e r (updated e (e.now db.ticks) m) scope
            (set_rows r.table new (tick db)) r.table,
        rows-set_rows_self r.table new (tick db),
      )

  -- An `update` that returns has found a current row, and returns the next version.
  update_returns :
      {s : Memory}
      → (update e r m scope db).0 ≡ ok s
      → (row_count (is_current m scope) (rows r.table db) ≢ 0) × (s ≡ updated e (e.now db.ticks) m)
  unfolding update
  update_returns {s} k =
      let new =
        update_where (is_current m scope) (overwrite e r m (e.now db.ticks)) (rows r.table db) in
      (
        λ z. ground arith,
        ground (
          arith,
          then_chunks-ok e r (updated e (e.now db.ticks) m) scope (set_rows r.table new (tick db))
              {s = s},
        ),
      )

-- Of two writers that hold the same version of a row, the second loses: once an `update` in a
-- scope with an agent has returned, another one on the same repository and scope with the same id
-- and version raises StaleWriteError, whatever its content and its clock, and changes neither a
-- table of memories nor the chunks.
pub update-update :
    (e e' : Env) (r : Repository) (m n : Memory) (scope : MemoryScope) (db : Db) {s : Memory}
    → scope.agent_id ≢ 0
    → m.id ≡ n.id
    → m.version ≡ n.version
    → (update e r m scope db).0 ≡ ok s
    → let db' = (update e r m scope db).1 in update e' r n scope db' ≡ (err stale_write, tick db')
update-update e e' r m n scope db h i v k = update_stale e' r n scope (update e r m scope db).1 h (
    rw (update_current e r m scope db h (update_returns e r m scope db h k).0) (
      row_count-update_where (is_current n scope) (is_current m scope)
        (overwrite e r m (e.now db.ticks)) (rows r.table db) (λ x q. ground arith)
        (λ x q. ground arith)))
