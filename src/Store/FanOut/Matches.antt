-- ===== src/Store/FanOut/Matches.antt =====
-- What `MemoryStore.search` returns.
use mathlib.Core.List.{Mem}
use yaadien.Prelude.{
  ℕ, ◌≤◌, ◌≡◌, ◌≢◌, refl, Bool, true, false, Option, none, List, [], ◌∷◌, ◌++◌, map, length, take,
  All, All-append, All-take, length-take, arith,
}
use yaadien.Prelude.Table.{select, All-select, All-select_of_All}
use yaadien.Model.{Text, Vector, MemoryScope, Memory, ok}
use yaadien.Filter.{Filter, Predicate, build_metadata_filter}
use yaadien.Db.{TableName, Db, Env, rows}
use yaadien.Repository.Read.{is_listed}
use yaadien.Repository.History.Tables.{IsKeyed}
use yaadien.Repository.Search.{require_embedding}
use yaadien.Repository.Search.Sound.{Ranks}
use yaadien.Repository.Search.Routes.{RanksChunks, search_lem}
use yaadien.Store.Pipeline.{Pipeline, repository_of}
use yaadien.Repository.Search.Chunked.{default_request}
use yaadien.Store.FanOut.{
  SearchResult, result_of, is_match, sql_scope, search_tables, checked_query, search_store,
}

module _ (e : Env) (p : Pipeline) (v : Vector) (scope : MemoryScope) (max_results : ℕ)
    (metadata_filter : Option Filter) (db : Db) (parts : List Predicate)
    (agent : scope.agent_id ≢ 0) (embedded : require_embedding v ≡ ok tt)
    (built : build_metadata_filter metadata_filter ≡ ok parts) (ranks : Ranks e)
    (chunks : (s : MemoryScope) → RanksChunks e (default_request v s max_results metadata_filter))
    (keyed : (t : TableName) → IsKeyed (rows t db)) where
  -- a live row of its table in a scope, which passes the filter
  abbrev pub IsFoundIn : MemoryScope → SearchResult → Type 0
  IsFoundIn s r =
      (is_listed e r.record_type s false 0 parts db.ticks r.record_ ≡ true)
      × Mem r.record_ (rows r.record_type db)
      × (r.id ≡ r.record_.id)
      × (r.content ≡ r.record_.content)

  results-All :
      (s : MemoryScope) (t : TableName) (l : List Memory)
      → All (λ m. (is_listed e t s false 0 parts db.ticks m ≡ true) × Mem m (rows t db)) l
      → All (IsFoundIn s) (map (result_of t) l)
  results-All s t [] h = tt
  results-All s t (m ∷ l) h = ((h.0.0, h.0.1, refl, refl), results-All s t l h.1)

  search_tables_lem :
      (s : MemoryScope) (ts : List TableName)
      → s.agent_id ≢ 0
      → (l : List SearchResult) × (search_tables e p v s max_results metadata_filter ts db ≡ ok l)
        × All (IsFoundIn s) l
  unfolding search_tables
  search_tables_lem s [] a = ([], refl, tt)
  search_tables_lem s (t ∷ ts) a =
      let (found, h, shown, short, once) =
        search_lem e (repository_of p t) (default_request v s max_results metadata_filter) db parts
          a embedded built ranks (keyed t) none (chunks s) in
      let (rest, k, rest_shown) = search_tables_lem s ts a in
      (
        map (result_of t) found ++ rest,
        rw (h, k) refl,
        All-append (IsFoundIn s) (map (result_of t) found) rest (results-All s t found shown)
            rest_shown,
      )

  -- A search of the store whose query passes the checks returns at most `max_results` results. Each
  -- is made of a row that stands in the table it is labelled with, with the id and the content of the
  -- row, and this row is live, passes the filter, lies in the scope (without
  -- its thread, if the thread need not match), has the agent of the scope if that must match, and
  -- the thread of the scope, or none like it, if that must match. The assumptions are those of a
  -- search in a repository, for every table.
  pub search_store_lem :
      (query : Text) (record_types : Option (List Text)) (tables : List TableName)
      (exact_agent_match exact_thread_match : Bool)
      → checked_query p query record_types ≡ ok (tables, v)
      → (l : List SearchResult) × (search_store e p query scope record_types max_results
            metadata_filter exact_agent_match exact_thread_match db
          ≡ ok l)
        × (length l ≤ max_results)
        × All (IsFoundIn (sql_scope scope exact_thread_match)) l
        × All (λ r. is_match scope exact_agent_match exact_thread_match r ≡ true) l
  unfolding search_store
  search_store_lem query record_types tables by_agent by_thread checked =
      let (found, h, shown) = search_tables_lem (sql_scope scope by_thread) tables agent in
      let test = is_match scope by_agent by_thread in
      (
        take max_results (select test found),
        rw (checked, h) refl,
        omega (arith, length-take max_results (select test found)),
        All-take (IsFoundIn (sql_scope scope by_thread)) max_results (select test found)
            (All-select_of_All (IsFoundIn (sql_scope scope by_thread)) test found shown),
        All-take (λ r. test r ≡ true) max_results (select test found) (All-select test found),
      )
