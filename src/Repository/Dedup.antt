-- ===== src/Repository/Dedup.antt =====
-- `create`: the dedup check, and what a later read finds.
use yaadien.Prelude.{
  ◌⊎◌, ℕ, ◌≡◌, refl, ◌≢◌, inl, inr, Bool, true, Option, none, some, List, [], ◌∷◌, ◌++◌, arith, All,
  Bool-cases, Option-cases,
}
use mathlib.Core.List.{Mem}
use mathlib.Core.Path.{subst}
use mathlib.Core.Option.{some-injective}
use yaadien.Repository.Search.Lookups.{All-both, All-Mem}
use yaadien.Prelude.Table.{All-select, All-select_of_All, select, row_count, fetch_one}
use yaadien.Model.{Memory, MemoryScope, ok, err, duplicate_key}
use yaadien.ContentHash.{content_hash}
use yaadien.Db.{TableName, Db, Env, rows, set_rows, tick, rows-set_rows_self, rows-tick}
use yaadien.Repository.{Repository, dedup_on_write}
use yaadien.Repository.Frame.{then_chunks-SameRows, then_chunks-ok}
use yaadien.Repository.Isolation.{stamped}
use yaadien.Repository.Write.{
  create, insert_row, find_duplicate, is_duplicate, prepared, inserted, has_id,
}

module _ (e : Env) (r : Repository) (m : Memory) (scope : MemoryScope) (db : Db) where
  insert_row_taken :
      row_count (has_id m.id) (rows r.table db) ≢ 0
      → insert_row e r m scope db ≡ (err duplicate_key, db)
  unfolding insert_row
  insert_row_taken k = ground arith

  rows-insert_row :
      row_count (has_id m.id) (rows r.table db) ≡ 0
      → rows r.table (insert_row e r m scope db).1 ≡ rows r.table db ++ inserted r m ∷ []
  unfolding insert_row
  rows-insert_row k =
      let new = rows r.table db ++ inserted r m ∷ [] in
      ground (
        arith,
        then_chunks-SameRows e r m scope (set_rows r.table new db) r.table,
        rows-set_rows_self r.table new db,
      )

  insert_row_returns :
      {s : Memory}
      → (insert_row e r m scope db).0 ≡ ok s
      → (row_count (has_id m.id) (rows r.table db) ≡ 0) × (s ≡ m)
  unfolding insert_row
  insert_row_returns {s} k =
      let new = rows r.table db ++ inserted r m ∷ [] in
      (ground arith, ground (arith, then_chunks-ok e r m scope (set_rows r.table new db) {s = s}))

module _ (e : Env) (r : Repository) (m : Memory) (scope : MemoryScope) (db : Db) where
  -- the record that a new row is made from
  abbrev pub fresh : Memory
  fresh = prepared e scope (e.now db.ticks) m

  abbrev pub duplicate : Option Memory
  duplicate = find_duplicate r.table (content_hash e m.content) scope db

  module _ (h : scope.agent_id ≢ 0) where
    -- A duplicate is returned as it stands, and no table changes.
    pub create-duplicate :
        (x : Memory) → duplicate ≡ some x → create e r m scope db ≡ (ok x, tick db)
    unfolding create
    create-duplicate x k = ground arith

    create_new : duplicate ≡ none → create e r m scope db ≡ insert_row e r fresh scope (tick db)
    unfolding create
    create_new k = ground arith

    -- In a scope with an agent, a `create` that returns has either found a duplicate, which it
    -- returns with no row of its table changed, or has appended one row made from the record that
    -- it returns, under an id that the table did not hold.
    pub create_returns :
        {s : Memory}
        → (create e r m scope db).0 ≡ ok s
        → ((duplicate ≡ some s) × (rows r.table (create e r m scope db).1 ≡ rows r.table db))
          ⊎ ((duplicate ≡ none)
              × (s ≡ fresh)
              × (row_count (has_id s.id) (rows r.table db) ≡ 0)
              × (rows r.table (create e r m scope db).1 ≡ rows r.table db ++ inserted r s ∷ []))
    create_returns {s} k = elim (Option-cases duplicate) [
      | inr (x, d) ↦
          inl
            (ground (arith, create-duplicate x d), rw (create-duplicate x d) (rows-tick r.table db))
      | inl d ↦
          let (free, same) =
            insert_row_returns e r fresh scope (tick db) {s = s} (rw (create_new d) at k) in
          inr (
            d,
            same,
            rw (same, ← rows-tick r.table db) free,
            rw
                (
                  create_new d,
                  rows-insert_row e r fresh scope (tick db) free,
                  rows-tick r.table db,
                  same,
                )
                refl,
          )
    ]

fetch_one-All :
    (P : Memory → Type 0) (l : List Memory) {x : Memory} → All P l → fetch_one l ≡ some x → P x
fetch_one-All P [] {x} h k = cc
fetch_one-All P (y ∷ l) {x} h k = subst P (some-injective y x k) h.0

-- The row that the dedup SELECT finds is one of the table, and is a duplicate.
pub find_duplicate_lem :
    (e : Env) (r : Repository) (m : Memory) (scope : MemoryScope) (db : Db) {x : Memory}
    → find_duplicate r.table (content_hash e m.content) scope db ≡ some x
    → Mem x (rows r.table db) × (is_duplicate r.table (content_hash e m.content) scope x ≡ true)
unfolding find_duplicate
find_duplicate_lem e r m scope db {x} k =
    let test = is_duplicate r.table (content_hash e m.content) scope in
    elim (Bool-cases (dedup_on_write r.table)) [
      | inr off ↦ absurd (ground (arith, k, off))
      | inl on ↦
          fetch_one-All (λ y. Mem y (rows r.table db) × (test y ≡ true))
            (select test (rows r.table db))
            (All-both (λ y. Mem y (rows r.table db)) (λ y. test y ≡ true)
              (select test (rows r.table db))
              (All-select_of_All (λ y. Mem y (rows r.table db)) test (rows r.table db)
                (All-Mem (rows r.table db)))
              (All-select test (rows r.table db)))
            (rw (on) at k)
    ]

fetch_one-append :
    (p : Memory → Bool) (l : List Memory) (x : Memory)
    → p x ≡ true
    → (y : Memory) × (fetch_one (select p (l ++ x ∷ [])) ≡ some y)
unfolding select
fetch_one-append p [] x h = (x, ground arith)
fetch_one-append p (m ∷ l) x h = elim (Bool-cases (p m)) [
  | inl e ↦ (m, ground arith)
  | inr e ↦ let (y, ih) = fetch_one-append p l x h in (y, ground arith)
]

inserted-is_duplicate :
    (e : Env) (r : Repository) (m : Memory) (scope : MemoryScope) (now : ℕ) (t : TableName)
    → m.deleted_at ≡ none
    → is_duplicate t (content_hash e m.content) scope (inserted r (prepared e scope now m)) ≡ true
inserted-is_duplicate e r m scope now t h = ground (arith, stamped scope m)

found_again :
    (e : Env) (r : Repository) (m : Memory) (scope : MemoryScope) (db : Db) {s : Memory}
    → scope.agent_id ≢ 0
    → dedup_on_write r.table ≡ true
    → m.deleted_at ≡ none
    → (create e r m scope db).0 ≡ ok s
    → (x : Memory) × (find_duplicate r.table
          (content_hash e m.content)
          scope
          (create e r m scope db).1
        ≡ some x)
unfolding find_duplicate
found_again e r m scope db {s} h d live k = elim (create_returns e r m scope db h {s = s} k) [
  | inl (found, same) ↦ (s, rw same found)
  | inr (_, same, _, new) ↦
      rw (new, d)
        (fetch_one-append (is_duplicate r.table (content_hash e m.content) scope) (rows r.table db)
          _ (rw same (inserted-is_duplicate e r m scope (e.now db.ticks) r.table live)))
]

-- In a table with the dedup check and a scope with an agent, a `create` of a record without
-- tombstone that has returned makes a further `create` of content with the same hash in the same
-- scope return a row that stands in the table, live, in the scope and with this hash, and leave the
-- database as it is but for the clock.
pub create-create :
    (e : Env) (r : Repository) (m n : Memory) (scope : MemoryScope) (db : Db) {s : Memory}
    → scope.agent_id ≢ 0
    → dedup_on_write r.table ≡ true
    → m.deleted_at ≡ none
    → content_hash e n.content ≡ content_hash e m.content
    → (create e r m scope db).0 ≡ ok s
    → let db' = (create e r m scope db).1 in
      (x : Memory) × (create e r n scope db' ≡ (ok x, tick db'))
      × Mem x (rows r.table db')
      × (is_duplicate r.table (content_hash e n.content) scope x ≡ true)
create-create e r m n scope db {s} h d live same k =
    let (x, found) = found_again e r m scope db {s = s} h d live k in
    let db' = (create e r m scope db).1 in
    let again : find_duplicate r.table (content_hash e n.content) scope db' ≡ some x =
      rw same found in
    let (there, duplicate_of) = find_duplicate_lem e r n scope db' {x = x} again in
    (x, create-duplicate e r n scope db' h x again, there, duplicate_of)
