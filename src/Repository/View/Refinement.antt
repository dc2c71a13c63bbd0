-- ===== src/Repository/View/Refinement.antt =====
-- The commands of one scope on a table refine those on a map from ids to rows.
use yaadien.Prelude.{ℕ, ◌≡◌, ◌≢◌, false, Option, if◌then◌else◌, ◌==◌, arith}
use yaadien.Prelude.Table.{update_where, row_count}
use yaadien.Model.{Ident, Memory, MemoryScope, ok, err, stale_write}
use yaadien.Db.{Db, Env, rows, set_rows, tick}
use yaadien.Repository.{Repository}
use yaadien.Repository.Write.{update, updated, overwrite, is_current, then_chunks}
use yaadien.Repository.View.{Command, perform, View, view, specify}

abbrev make_view : (Ident → Option Memory) → ℕ → View
make_view f n = record { find = f; ticks = n }

module _ (e : Env) (r : Repository) (scope : MemoryScope) (agent : scope.agent_id ≢ 0)
    (unchunked : r.chunk_repo ≡ false) where
  pub update_eq :
      (m : Memory) (db : Db)
      → update e r m scope db ≡ (
          if row_count (is_current m scope) (rows r.table db) == 0
          then (err stale_write, tick db)
          else (
            ok (updated e (e.now db.ticks) m),
            set_rows r.table
                (update_where
                  (is_current m scope)
                  (overwrite e r m (e.now db.ticks))
                  (rows r.table db))
                (tick db),
          ))
  unfolding update then_chunks
  update_eq m db = ground (arith, unchunked)

  -- the answer of a command, and the view after it
  abbrev Agrees : Command → Db → Type 0
  Agrees c db =
      ((perform e r scope c db).0 ≡ (specify e r c (view r scope db)).0)
      × (view r scope (perform e r scope c db).1 ≡ (specify e r c (view r scope db)).1)
