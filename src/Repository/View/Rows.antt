-- ===== src/Repository/View/Rows.antt =====
-- What an UPDATE does to a lookup by id.
use yaadien.Prelude.{
  ℕ, ◌≡◌, refl, Bool, true, not, Option, none, some, List, [], ◌∷◌, is_none, if◌then◌else◌, ◌==◌,
  arith, ltb,
}
use yaadien.Prelude.Table.{select, update_where, row_count}
use yaadien.Model.{Ident, Memory, MemoryScope}
use yaadien.Db.{Env}
use yaadien.Repository.{Repository, is_target}
use yaadien.Repository.Lifecycle.{tombstone}
use yaadien.Repository.Write.{overwrite, is_current, has_id}
use yaadien.Repository.History.Tables.{IsKeyed}
use yaadien.Repository.View.{lookup}

module _ (scope : MemoryScope) where
  pub lookup-tombstone :
      (n : ℕ) (k i : Ident) (l : List Memory)
      → lookup scope (update_where (is_target k scope) (tombstone n) l) i
        ≡ (if k == i then none else lookup scope l i)
  unfolding select update_where
  lookup-tombstone n k i [] = ground arith
  lookup-tombstone n k i (m ∷ l) = ground (arith, lookup-tombstone n k i l)

  pub row_count-lookup :
      (i : Ident) (l : List Memory)
      → ltb 0 (row_count (is_target i scope) l) ≡ not (is_none (lookup scope l i))
  unfolding select row_count
  row_count-lookup i [] = refl
  row_count-lookup i (m ∷ l) = ground (arith, row_count-lookup i l)

  module _ (e : Env) (r : Repository) (m : Memory) (now : ℕ) where
    -- the row after an update
    abbrev pub after_write : Option Memory → Option Memory
    after_write none = none
    after_write (some row) =
        some (if row.version == m.version then overwrite e r m now row else row)

    pub lookup-overwrite :
        (i : Ident) (l : List Memory)
        → lookup scope (update_where (is_current m scope) (overwrite e r m now) l) i
          ≡ (if m.id == i then after_write (lookup scope l m.id) else lookup scope l i)
    unfolding select update_where
    lookup-overwrite i [] = ground arith
    lookup-overwrite i (row ∷ l) = ground (arith, lookup-overwrite i l)

  none_current :
      (m : Memory) (i : Ident) (l : List Memory)
      → row_count (has_id i) l ≡ 0
      → i ≡ m.id
      → row_count (is_current m scope) l ≡ 0
  unfolding row_count
  none_current m i [] h s = refl
  none_current m i (row ∷ l) h s = ground (arith, none_current m i l)

  -- whether an update hits no row
  abbrev pub is_stale : Memory → Option Memory → Bool
  is_stale m none = true
  is_stale m (some row) = not (row.version == m.version)

  pub row_count-is_stale :
      (m : Memory) (l : List Memory)
      → IsKeyed l
      → (row_count (is_current m scope) l == 0) ≡ is_stale m (lookup scope l m.id)
  unfolding row_count select
  row_count-is_stale m [] k = refl
  row_count-is_stale m (row ∷ l) k =
      ground (arith, none_current m row.id l k.0, row_count-is_stale m l k.1)
