-- ===== src/Repository/Listing.antt =====
-- `list_all`: what is on a page, and how the pages of a listing fit together.
pub mod Times
pub mod Visible
use yaadien.Prelude.{
  ℕ, ◌-◌, not, ◌≡◌, refl, sym, ◌∙◌, ◌≢◌, Bool, true, Option, List, [], ◌∷◌, arith, min, length,
  drop, All, All-take, All-drop, length-take, length-drop,
}
use yaadien.Prelude.Table.{select, row_count, row_count-length-select}
use yaadien.Model.{Double, Memory, MemoryScope, ok}
use yaadien.Scope.{require_agent_id}
use yaadien.Filter.{Filter, Predicate, build_metadata_filter}
use yaadien.Db.{TableName, Db, Env, rows}
use yaadien.Repository.Read.{list_all, is_listed, page}

none_fails : (p : Memory → Bool) (l : List Memory) → row_count (λ m. not (p m)) (select p l) ≡ 0
unfolding row_count select
none_fails p [] = refl
none_fails p (m ∷ l) = ground (arith, none_fails p l)

All-of_row_count :
    (p : Memory → Bool) (l : List Memory)
    → row_count (λ m. not (p m)) l ≡ 0
    → All (λ m. p m ≡ true) l
unfolding row_count
All-of_row_count p [] h = tt
All-of_row_count p (m ∷ l) h = ground (arith, All-of_row_count p l)

pub row_count-true : (l : List Memory) → row_count (λ m. true) l ≡ length l
unfolding row_count
row_count-true [] = refl
row_count-true (m ∷ l) = ground (arith, row_count-true l)

module _ (e : Env) (t : TableName) (scope : MemoryScope) (include_expired : Bool)
    (min_confidence : Double) (metadata_filter : Option Filter) (parts : List Predicate) (db : Db)
    (h : scope.agent_id ≢ 0) (built : build_metadata_filter metadata_filter ≡ ok parts) where
  -- the WHERE clause of the listing
  abbrev pub shown : Memory → Bool
  shown = is_listed e t scope include_expired min_confidence parts db.ticks

  -- the whole listing, newest first
  abbrev pub listing : List Memory
  listing = e.newest_first (select shown (rows t db))

  pub list_all-page :
      (limit offset : ℕ)
      → list_all e t scope limit offset include_expired min_confidence metadata_filter db
        ≡ ok (page (min limit 1000) offset listing)
  unfolding list_all require_agent_id
  list_all-page limit offset = rw built (ground arith)

  module _
      (order : (p : Memory → Bool) (l : List Memory)
        → row_count p (e.newest_first l) ≡ row_count p l) where
    listing-All : All (λ m. shown m ≡ true) listing
    listing-All =
        All-of_row_count shown listing
          (order (λ m. not (shown m)) (select shown (rows t db)) ∙ none_fails shown (rows t db))

    length-listing : length listing ≡ row_count shown (rows t db)
    length-listing =
        sym (row_count-true listing)
        ∙ order (λ m. true) (select shown (rows t db))
        ∙ row_count-true (select shown (rows t db))
        ∙ sym (row_count-length-select shown (rows t db))

    -- In a scope with an agent, a `list_all` whose filter compiles returns a page of rows that all
    -- pass its WHERE clause: in scope, without tombstone, not superseded, fresh unless expired
    -- rows are asked for, confident enough, and passed by the filter. The page has `min limit
    -- 1000` rows, or as many as pass behind the offset if these are fewer. It is assumed that
    -- ORDER BY keeps the number of rows that pass any test.
    pub list_all_lem :
        (limit offset : ℕ)
        → (l : List Memory) × (list_all e t scope limit offset include_expired min_confidence
              metadata_filter db
            ≡ ok l)
          × All (λ m. shown m ≡ true) l
          × (length l ≡ min (min limit 1000) (row_count shown (rows t db) - offset))
    list_all_lem limit offset = (
      page (min limit 1000) offset listing,
      list_all-page limit offset,
      All-take (λ m. shown m ≡ true) (min limit 1000) (drop offset listing)
          (All-drop (λ m. shown m ≡ true) offset listing listing-All),
      rw (length-take, length-drop, length-listing) refl,
    )
