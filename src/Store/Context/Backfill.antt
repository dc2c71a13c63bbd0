-- ===== src/Store/Context/Backfill.antt =====
-- What `_relevant_with_backfill` returns.
use yaadien.Prelude.{ℕ, ◌≤◌, ◌≡◌, ◌≢◌, refl, Bool, false, Option, none, List, [], take, min}
use yaadien.Filter.{build_metadata_filter}
use yaadien.Prelude.Table.{select, row_count}
use yaadien.Model.{Ident, Vector, MemoryScope, Memory}
use yaadien.Db.{Db, Env, rows}
use yaadien.Repository.{Repository}
use yaadien.Repository.Read.{page}
use yaadien.Repository.Write.{has_id}
use yaadien.Repository.History.Tables.{IsKeyed}
use yaadien.Repository.Listing.{shown, listing}
use yaadien.Store.Context.{relevant, is_fresh_id}

-- no id stands twice in the list
abbrev HasOnce : List Memory → Type 0
HasOnce l = (i : Ident) → row_count (has_id i) l ≤ 1

module _ (e : Env) (r : Repository) (scope : MemoryScope) (query_embedding : Option Vector)
    (top_k : ℕ) (db : Db) (agent : scope.agent_id ≢ 0)
    (order : (p : Memory → Bool) (l : List Memory) → row_count p (e.newest_first l) ≡ row_count p l)
    (keyed : IsKeyed (rows r.table db)) where
  -- the live rows of the scope that a listing shows
  abbrev pub test : Memory → Bool
  unfolding build_metadata_filter
  test = shown e r.table scope false 0 none [] db agent refl

  abbrev listed : List Memory
  unfolding build_metadata_filter
  listed = listing e r.table scope false 0 none [] db agent refl

  abbrev results : List Memory
  results = relevant e r scope query_embedding top_k db

  -- the rows that are listed for the backfill
  abbrev recent : ℕ → List Memory
  recent n = page (min n 1000) 0 listed

  backfilled : ℕ → ℕ → List Memory
  backfilled n needed = take needed (select (is_fresh_id results) (recent n))
