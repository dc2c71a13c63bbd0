-- ===== src/Repository/Isolation/Reads.antt =====
-- What the reads of one scope see of the writes of another.
use yaadien.Prelude.{
  ◌≡◌, refl, ap, ◌∙◌, sym, Bool, true, false, none, some, List, [], ◌∷◌, All, arith, ℕ, Option, min,
}
use yaadien.Prelude.Table.{select, select-select}
use yaadien.Model.{Double, Memory, MemoryScope, ok, ◌>>=◌}
use yaadien.Filter.{Filter, Predicate, build_metadata_filter}
use yaadien.Scope.{in_scope, require_agent_id}
use mathlib.Core.Path.{fun_ext}
use yaadien.Db.{TableName, Db, Env, rows}
use yaadien.Repository.{row_in_scope}
use yaadien.Repository.Frame.{SameRows}
use yaadien.Repository.Read.{list_all, is_listed, page}
use yaadien.Repository.Isolation.{is_outside, KeepsOutside}

-- No row is in both scopes.
abbrev pub AreApart : MemoryScope → MemoryScope → Type 0
AreApart scope other = (m : Memory) → row_in_scope scope m ≡ true → is_outside other m ≡ true

-- no row expires
abbrev pub NeverExpires : List Memory → Type 0
NeverExpires l = All (λ m. m.expires_at ≡ none) l

-- Scopes with different threads are apart.
pub different_threads :
    (scope other : MemoryScope) (i j : ℕ)
    → scope.thread_id ≡ some i
    → other.thread_id ≡ some j
    → (i ≡ j → ⊥)
    → AreApart scope other
unfolding in_scope
different_threads scope other i j h k apart m inside = ground arith

-- The time of a listing does not matter if nothing expires.
pub select-ticks :
    (e : Env) (t : TableName) (scope : MemoryScope) (min_confidence : Double)
    (parts : List Predicate) (n k : ℕ) (l : List Memory)
    → NeverExpires l
    → select (is_listed e t scope false min_confidence parts n) l
      ≡ select (is_listed e t scope false min_confidence parts k) l
unfolding select
select-ticks e t scope min_confidence parts n k [] h = refl
select-ticks e t scope min_confidence parts n k (m ∷ l) h =
    ground (arith, select-ticks e t scope min_confidence parts n k l)

-- If nothing expires, a listing is the same on the same rows.
pub list_all-SameRows :
    (e : Env) (t : TableName) (scope : MemoryScope) (limit offset : ℕ) (min_confidence : Double)
    (metadata_filter : Option Filter) (db db' : Db)
    → NeverExpires (rows t db)
    → SameRows db db'
    → list_all e t scope limit offset false min_confidence metadata_filter db'
      ≡ list_all e t scope limit offset false min_confidence metadata_filter db
unfolding list_all
list_all-SameRows e t scope limit offset min_confidence metadata_filter db db' fresh same =
    ap
      (λ chosen. require_agent_id scope >>= λ _. build_metadata_filter metadata_filter >>= λ parts.
        ok (page (min limit 1000) offset (e.newest_first (chosen parts))))
      (fun_ext (λ parts.
        ap (select (is_listed e t scope false min_confidence parts db'.ticks)) (same t)
        ∙ select-ticks e t scope min_confidence parts db'.ticks db.ticks (rows t db) fresh))

module _ (e : Env) (t : TableName) (scope other : MemoryScope) (min_confidence : Double)
    (parts : List Predicate) (apart : AreApart scope other) where
  abbrev test : ℕ → Memory → Bool
  test ticks = is_listed e t scope false min_confidence parts ticks

  -- what a listing selects, from the rows outside the other scope alone
  listed-outside :
      (n : ℕ) (l : List Memory) → select (test n) (select (is_outside other) l) ≡ select (test n) l
  listed-outside n l =
      select-select (test n) (is_outside other) l (λ m shown. apart m (in_listing m n shown))
    where
      in_listing : (m : Memory) (n : ℕ) → test n m ≡ true → row_in_scope scope m ≡ true
      in_listing m n shown = ground arith

  pub select-KeepsOutside :
      (db db' : Db)
      → NeverExpires (rows t db)
      → KeepsOutside other db db'
      → select (test db'.ticks) (rows t db') ≡ select (test db.ticks) (rows t db)
  select-KeepsOutside db db' fresh kept =
      sym (listed-outside db'.ticks (rows t db'))
      ∙ ap (select (test db'.ticks)) (kept t)
      ∙ listed-outside db'.ticks (rows t db)
      ∙ select-ticks e t scope min_confidence parts db'.ticks db.ticks (rows t db) fresh

-- Where no row expires, a listing of one scope is the same before and after writes that keep what
-- lies outside a scope apart from it.
pub list_all-KeepsOutside :
    (e : Env) (t : TableName) (scope other : MemoryScope) (limit offset : ℕ)
    (min_confidence : Double) (metadata_filter : Option Filter) (db db' : Db)
    → AreApart scope other
    → NeverExpires (rows t db)
    → KeepsOutside other db db'
    → list_all e t scope limit offset false min_confidence metadata_filter db'
      ≡ list_all e t scope limit offset false min_confidence metadata_filter db
unfolding list_all
list_all-KeepsOutside e t scope other limit offset min_confidence metadata_filter db db' apart fresh
      kept =
    ap
      (λ chosen. require_agent_id scope >>= λ _. build_metadata_filter metadata_filter >>= λ parts.
        ok (page (min limit 1000) offset (e.newest_first (chosen parts))))
      (fun_ext
        (λ parts. select-KeepsOutside e t scope other min_confidence parts apart db db' fresh kept))
