-- ===== src/Repository/Forgetting.antt =====
-- `forget`, `purge_expired` and `erase_all` against each other and against `get_by_id`.
use yaadien.Prelude.{
  ℕ, ◌+◌, ◌≡◌, refl, ◌≢◌, ◌↔◌, Bool, true, false, ◌&&◌, none, List, [], ◌∷◌, arith, ◌==◌, ltb,
  length, is_none,
}
use yaadien.Prelude.Table.{
  select, update_where, delete_where, row_count, row_count-update_where, length-update_where,
  length-delete_where, row_count-delete_where, select-delete_where, fetch_one,
}
use yaadien.Model.{Ident, Memory, MemoryScope, ok}
use yaadien.Db.{TableName, Db, Env, rows, tick, rows-set_rows_self}
use yaadien.Repository.{row_in_scope, is_target}
use yaadien.Repository.Lifecycle.{forget, purge_expired, erase_all, is_purgeable, tombstone}
use yaadien.Repository.Read.{get_by_id}

-- an id of the scope, tombstoned or not
abbrev pub is_named : Ident → MemoryScope → Memory → Bool
is_named i scope m = m.id == i && row_in_scope scope m

fetch_one-none_iff :
    (p : Memory → Bool) (l : List Memory) → (fetch_one (select p l) ≡ none) ↔ (row_count p l ≡ 0)
unfolding select row_count
fetch_one-none_iff p [] = ground arith
fetch_one-none_iff p (m ∷ l) = let ih = fetch_one-none_iff p l in ground (arith, ih.0, ih.1)

get_by_id_lem :
    (t : TableName) (i : Ident) (scope : MemoryScope) (db : Db)
    → scope.agent_id ≢ 0
    → get_by_id t i scope db ≡ ok (fetch_one (select (is_target i scope) (rows t db)))
unfolding get_by_id
get_by_id_lem t i scope db h = ground arith

forget_reports :
    (e : Env) (t : TableName) (i : Ident) (scope : MemoryScope) (db : Db)
    → scope.agent_id ≢ 0
    → (forget e t i scope db).0 ≡ ok (ltb 0 (row_count (is_target i scope) (rows t db)))
unfolding forget
forget_reports e t i scope db h = ground arith

module _ (e : Env) (t : TableName) (i : Ident) (scope : MemoryScope) (db : Db)
    (h : scope.agent_id ≢ 0) where
  pub rows-forget :
      rows t (forget e t i scope db).1
      ≡ update_where (is_target i scope) (tombstone (e.now db.ticks)) (rows t db)
  unfolding forget
  rows-forget = ground (
    arith,
    rows-set_rows_self t (update_where (is_target i scope) (tombstone (e.now db.ticks)) (rows t db))
        (tick db),
  )

  no_target_left : row_count (is_target i scope) (rows t (forget e t i scope db).1) ≡ 0
  no_target_left = rw rows-forget (
      row_count-update_where (is_target i scope) (is_target i scope) (tombstone (e.now db.ticks))
        (rows t db) (λ m k. k) (λ m k. ground arith))

  -- In a scope with an agent, `forget` reports True exactly when `get_by_id` finds the row.
  -- Afterwards `get_by_id` finds nothing, a second `forget` at any time reports False, and the
  -- table has as many rows as before.
  pub forget-get_by_id :
      (((forget e t i scope db).0 ≡ ok true) ↔ (get_by_id t i scope db ≢ ok none))
      × (get_by_id t i scope (forget e t i scope db).1 ≡ ok none)
      × ((e' : Env) → (forget e' t i scope (forget e t i scope db).1).0 ≡ ok false)
      × (length (rows t (forget e t i scope db).1) ≡ length (rows t db))
  forget-get_by_id = (
    (
      λ k. ground (arith, found, get_by_id_lem t i scope db h, forget_reports e t i scope db h),
      λ k. ground (arith, found, get_by_id_lem t i scope db h, forget_reports e t i scope db h),
    ),
    ground (arith, gone, get_by_id_lem t i scope db' h),
    λ e'. ground (arith, no_target_left, forget_reports e' t i scope db' h),
    rw rows-forget
        (length-update_where (is_target i scope) (tombstone (e.now db.ticks)) (rows t db)),
  )
    where
      db' : Db
      db' = (forget e t i scope db).1

      found :
          (fetch_one (select (is_target i scope) (rows t db)) ≡ none)
          ↔ (row_count (is_target i scope) (rows t db) ≡ 0)
      found = fetch_one-none_iff (is_target i scope) (rows t db)

      gone : fetch_one (select (is_target i scope) (rows t db')) ≡ none
      gone = (fetch_one-none_iff (is_target i scope) (rows t db')).1 no_target_left

abbrev pub is_live : Memory → Bool
is_live m = is_none m.deleted_at

module _ (t : TableName) (scope : MemoryScope) (db : Db) (h : scope.agent_id ≢ 0) where
  rows-purge_expired :
      rows t (purge_expired t scope db).1 ≡ delete_where (is_purgeable scope) (rows t db)
  unfolding purge_expired
  rows-purge_expired =
      ground (arith, rows-set_rows_self t (delete_where (is_purgeable scope) (rows t db)) db)

  purge_reports : (purge_expired t scope db).0 ≡ ok (row_count (is_purgeable scope) (rows t db))
  unfolding purge_expired
  purge_reports = ground arith

  -- In a scope with an agent, `purge_expired` reports how many rows went. No tombstone of the
  -- scope is left, and every row without a tombstone stays, expired or not, in its order.
  pub purge_expired_lem :
      (n : ℕ) × ((purge_expired t scope db).0 ≡ ok n)
      × (length (rows t (purge_expired t scope db).1) + n ≡ length (rows t db))
      × (row_count (is_purgeable scope) (rows t (purge_expired t scope db).1) ≡ 0)
      × (select is_live (rows t (purge_expired t scope db).1) ≡ select is_live (rows t db))
  purge_expired_lem = (
    row_count (is_purgeable scope) (rows t db),
    purge_reports,
    rw rows-purge_expired (length-delete_where (is_purgeable scope) (rows t db)),
    rw rows-purge_expired (row_count-delete_where (is_purgeable scope) (rows t db)),
    rw rows-purge_expired
        (select-delete_where is_live (is_purgeable scope) (rows t db) (λ m k. ground arith)),
  )

  rows-erase_all : rows t (erase_all t scope db).1 ≡ delete_where (row_in_scope scope) (rows t db)
  unfolding erase_all
  rows-erase_all =
      ground (arith, rows-set_rows_self t (delete_where (row_in_scope scope) (rows t db)) db)

  pub erase_reports : (erase_all t scope db).0 ≡ ok (row_count (row_in_scope scope) (rows t db))
  unfolding erase_all
  erase_reports = ground arith

  -- In a scope with an agent, `erase_all` of a repository reports how many rows went, and leaves
  -- no row of the scope, in whatever state.
  pub erase_all_lem :
      (n : ℕ) × ((erase_all t scope db).0 ≡ ok n)
      × (length (rows t (erase_all t scope db).1) + n ≡ length (rows t db))
      × (row_count (row_in_scope scope) (rows t (erase_all t scope db).1) ≡ 0)
  erase_all_lem = (
    row_count (row_in_scope scope) (rows t db),
    erase_reports,
    rw rows-erase_all (length-delete_where (row_in_scope scope) (rows t db)),
    rw rows-erase_all (row_count-delete_where (row_in_scope scope) (rows t db)),
  )

all_dead :
    (i : Ident) (scope : MemoryScope) (l : List Memory)
    → row_count (is_target i scope) l ≡ 0
    → row_count (is_named i scope) (delete_where (is_purgeable scope) l) ≡ 0
unfolding row_count delete_where
all_dead i scope [] h = refl
all_dead i scope (m ∷ l) h = ground (arith, all_dead i scope l)

-- In a scope with an agent, after `forget` and then `purge_expired` no row of the scope has the
-- id.
pub purge-forget :
    (e : Env) (t : TableName) (i : Ident) (scope : MemoryScope) (db : Db)
    → scope.agent_id ≢ 0
    → row_count (is_named i scope) (rows t (purge_expired t scope (forget e t i scope db).1).1) ≡ 0
purge-forget e t i scope db h =
    rw (rows-purge_expired t scope (forget e t i scope db).1 h)
      (all_dead i scope _ (no_target_left e t i scope db h))
