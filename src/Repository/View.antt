-- ===== src/Repository/View.antt =====
-- What the clients of one scope see of a table: `get_by_id`, `forget` and `update` of
-- src/agent_memory_sdk/repositories/base.py as commands, and the map from ids to rows that they work on.
pub mod Rows
pub mod Refinement
use yaadien.Prelude.{
  ℕ, ◌+◌, Bool, true, false, not, Option, none, some, List, [], ◌∷◌, is_none, if◌then◌else◌, ◌==◌,
}
use yaadien.Prelude.Table.{select, fetch_one}
use yaadien.Model.{Ident, Error, stale_write, Result, ok, err, Memory, MemoryScope}
use yaadien.Db.{Db, Env, rows}
use yaadien.Repository.{Repository, is_target}
use yaadien.Repository.Read.{get_by_id}
use yaadien.Repository.Lifecycle.{forget}
use yaadien.Repository.Write.{update, updated, overwrite}

pub data Command : Type 0 where
  reads removes : Ident → Command
  writes : Memory → Command

pub data Answer : Type 0 where
  found : Option Memory → Answer
  removed : Bool → Answer
  written : Memory → Answer
  refused : Error → Answer

abbrev pub answer {ℓ} : {A : Type ℓ} → (A → Answer) → Result A → Answer
answer f (ok a) = f a
answer f (err x) = refused x

-- a command on the database
unfoldable pub perform : Env → Repository → MemoryScope → Command → Db → Answer × Db
unfolding get_by_id
perform e r scope (reads i) db = (answer found (get_by_id r.table i scope db), db)
perform e r scope (removes i) db =
    let step = forget e r.table i scope db in (answer removed step.0, step.1)
perform e r scope (writes m) db =
    let step = update e r m scope db in (answer written step.0, step.1)

unfoldable pub perform_all : Env → Repository → MemoryScope → List Command → Db → List Answer
perform_all e r scope [] db = []
perform_all e r scope (c ∷ cs) db =
    let step = perform e r scope c db in step.0 ∷ perform_all e r scope cs step.1

-- the abstract state: the live rows by their ids, and the readings of the clock
pub record View : Type 0 where
  pub find : Ident → Option Memory
  pub ticks : ℕ

abbrev pub lookup : MemoryScope → List Memory → Ident → Option Memory
lookup scope l i = fetch_one (select (is_target i scope) l)

unfoldable pub view : Repository → MemoryScope → Db → View
view r scope db = record { find = lookup scope (rows r.table db); ticks = db.ticks }

-- the map with another value under an id
abbrev pub put : Ident → Option Memory → (Ident → Option Memory) → Ident → Option Memory
put i o f j = if i == j then o else f j

-- what `update` does to the row that it finds: nothing, unless the versions agree
abbrev pub specify_write : Env → Repository → Memory → View → Option Memory → Answer × View
specify_write e r m v none = (refused stale_write, record v { ticks = v.ticks + 1 })
specify_write e r m v (some row) =
    if row.version == m.version
    then (
      written (updated e (e.now v.ticks) m),
      record {
        find = put m.id (some (overwrite e r m (e.now v.ticks) row)) v.find;
        ticks = v.ticks + 1;
      },
    )
    else (refused stale_write, record v { ticks = v.ticks + 1 })

-- a command on the map
unfoldable pub specify : Env → Repository → Command → View → Answer × View
specify e r (reads i) v = (found (v.find i), v)
specify e r (removes i) v =
    (removed (not (is_none (v.find i))), record { find = put i none v.find; ticks = v.ticks + 1 })
specify e r (writes m) v = specify_write e r m v (v.find m.id)

unfoldable pub specify_all : Env → Repository → List Command → View → List Answer
specify_all e r [] v = []
specify_all e r (c ∷ cs) v = let step = specify e r c v in step.0 ∷ specify_all e r cs step.1
