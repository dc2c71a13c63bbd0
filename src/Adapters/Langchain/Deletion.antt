-- ===== src/Adapters/Langchain/Deletion.antt =====
-- What `mdelete` of the key-value store takes away.
use yaadien.Prelude.{◌≢◌, ◌≤◌, true, false, List, [], ◌∷◌, length}
use yaadien.Model.{Text, Memory}
use yaadien.Db.{Db, Env, rows}
use yaadien.Repository.History.Tables.{IsKeyed}
use yaadien.Repository.Isolation.Reads.{NeverExpires}
use yaadien.Repository.Listing.Visible.{OrdersRows, visible}
use yaadien.Adapters.Json.{Python}
use yaadien.Adapters.Langchain.{KeyStore, table_of, has_key}

-- A list without the first row that has the key.
unfoldable pub remove_first : Python → Text → List Memory → List Memory
remove_first py key [] = []
remove_first py key (m ∷ l) =
    let rest = remove_first py key l in elim (has_key py key m) [ true ↦ l | false ↦ m ∷ rest ]

unfoldable pub remove_each : Python → List Text → List Memory → List Memory
unfolding remove_first
remove_each py [] l = l
remove_each py (key ∷ keys) l = remove_each py keys (remove_first py key l)

module _ (e : Env) (py : Python) (store : KeyStore) (order : OrdersRows e)
    (agent : store.scope.agent_id ≢ 0) where
  abbrev pub shown_rows : Db → List Memory
  shown_rows db = visible e (table_of store) store.scope db

  record IsStore (db : Db) : Type 0 where
    fresh : NeverExpires (rows (table_of store) db)
    keyed : IsKeyed (shown_rows db)
    short : length (shown_rows db) ≤ 1000
