-- ===== src/Adapters/Langchain/Insertion.antt =====
-- What `mset` of the key-value store does with a new key.
use yaadien.Repository.Isolation.Reads.{NeverExpires, list_all-SameRows}
use yaadien.Prelude.{◌≡◌, ◌≢◌, refl, ap, ◌∙◌, none, some, [], ◌∷◌, arith}
use yaadien.Model.{Text, Memory, ok, ◌>>=◌}
use yaadien.ContentHash.{content_hash}
use yaadien.Db.{Db, Env, rows, tick, rows-tick}
use yaadien.Repository.Frame.{SameRows}
use yaadien.Repository.Write.{find_duplicate}
use yaadien.Store.Pipeline.{Pipeline}
use yaadien.Adapters.Json.{Python}
use yaadien.Adapters.Langchain.{
  KeyStore, table_of, find_by_key, first_match, mget, create_row, set_value, mset,
}

module _ (e : Env) (p : Pipeline) (py : Python) (store : KeyStore) (key value : Text) (db : Db)
    (agent : store.scope.agent_id ≢ 0) where
  create_row-duplicate :
      (existing : Memory)
      → find_duplicate (table_of store) (content_hash e value) store.scope (tick db) ≡ some existing
      → create_row e p py store key value db ≡ (ok existing, tick (tick db))
  unfolding create_row
  create_row-duplicate existing h = ground (arith, h)

  set_value-duplicate :
      (existing : Memory)
      → find_duplicate (table_of store) (content_hash e value) store.scope (tick db) ≡ some existing
      → set_value e p py store key value none db ≡ (ok existing, tick (tick db))
  unfolding set_value
  set_value-duplicate existing h = create_row-duplicate existing h

  mset_duplicate :
      (existing : Memory)
      → find_by_key e py store key db ≡ ok none
      → find_duplicate (table_of store) (content_hash e value) store.scope (tick db) ≡ some existing
      → mset e p py store ((key, value) ∷ []) db ≡ (ok tt, tick (tick db))
  unfolding mset
  mset_duplicate existing absent h =
      rw (absent, set_value-duplicate existing h, mset)
        (ap (λ step. (ok tt, step.1)) (set_value-duplicate existing h))

  find_by_key-SameRows :
      (db' : Db)
      → NeverExpires (rows (table_of store) db)
      → SameRows db db'
      → find_by_key e py store key db' ≡ find_by_key e py store key db
  unfolding find_by_key
  find_by_key-SameRows db' fresh same =
      ap (λ found. found >>= λ l. ok (first_match py key l))
        (list_all-SameRows e (table_of store) store.scope 1000 0 0 none db db' fresh same)

  mget_absent :
      (db' : Db)
      → find_by_key e py store key db' ≡ ok none
      → mget e py store (key ∷ []) db' ≡ ok (none ∷ [])
  unfolding mget
  mget_absent db' h = rw (h, mget) refl

  -- In a scope with an agent and a table whose rows do not expire, an `mset` of a key that is not
  -- there, with a value that the dedup check of `create` finds under whatever key, returns and changes
  -- none of the five tables, and `mget` then gives None for the key.
  pub mset-duplicate :
      NeverExpires (rows (table_of store) db)
      → (existing : Memory) → find_by_key e py store key db ≡ ok none
      → find_duplicate (table_of store) (content_hash e value) store.scope (tick db) ≡ some existing
      → ((mset e p py store ((key, value) ∷ []) db).0 ≡ ok tt)
        × SameRows db (mset e p py store ((key, value) ∷ []) db).1
        × (mget e py store (key ∷ []) (mset e p py store ((key, value) ∷ []) db).1 ≡ ok (none ∷ []))
  mset-duplicate fresh existing absent h =
      let same : SameRows db (tick (tick db)) = λ u. rows-tick u (tick db) ∙ rows-tick u db in
      rw (mset_duplicate existing absent h) (
        refl,
        same,
        mget_absent (tick (tick db)) (find_by_key-SameRows (tick (tick db)) fresh same ∙ absent),
      )
