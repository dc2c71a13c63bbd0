-- ===== src/Tests/Searches.antt =====
-- Searches, summaries and backfill on the test database.
use yaadien.Prelude.{
  Bool, ◌≡◌, ◌≢◌, ◌≤◌, ◌-◌, refl, inl, true, false, none, some, List, [], ◌∷◌, arith, codes, map,
  length, All, take,
}
use yaadien.Prelude.Table.{row_count, select}
use yaadien.Model.{Memory, Vector, ok, pos}
use yaadien.Filter.{build_metadata_filter}
use yaadien.Db.{TableName, semantic_facts, entity_profiles, rows}
use yaadien.Repository.{Repository}
use yaadien.Repository.History.Tables.{IsKeyed}
use yaadien.Repository.Search.{Request, require_embedding}
use yaadien.Repository.Search.Chunked.{default_request}
use yaadien.Repository.Search.Sound.{Ranks}
use yaadien.Store.Messages.{Summary, get_summary, format_message}
use yaadien.Store.Messages.Budget.{IsWithin, messages, get_summary_lem}
use yaadien.Store.Pipeline.{Pipeline}
use yaadien.Store.Context.Backfill.{test}
use yaadien.Store.FanOut.{SearchResult, search_store, checked_query, sql_scope, is_match}
use yaadien.Store.FanOut.Matches.{IsFoundIn, search_store_lem}
use yaadien.Tests.{env, scope_1, db_1, facts_repository}

abbrev query : Vector
query = (false, 3) ∷ []

-- a hybrid search by way of the chunks
abbrev request : Request
request = record (default_request query scope_1 2 none) { hybrid = true; query_text = codes "tea" }

abbrev chunked : Repository
chunked = record facts_repository { chunk_repo = true }

is_agent : scope_1.agent_id ≢ 0
is_agent h = omega arith

embedded : require_embedding query ≡ ok tt
unfolding require_embedding
embedded = refl

built : build_metadata_filter none ≡ ok []
unfolding build_metadata_filter
built = refl

ranks : Ranks env
ranks q l = inl (l, refl, λ p. refl)

keyed : (t : TableName) → IsKeyed (rows t db_1)
unfolding row_count
keyed t = ground arith

get_summary_lem_example :
    (s : Summary) × (get_summary env scope_1 (pos 0) (some (pos 2)) db_1 ≡ ok s)
    × IsWithin 2
        (map (format_message env) (
          take
            (length (messages env scope_1 db_1 is_agent) - 0)
            (messages env scope_1 db_1 is_agent)))
        s
get_summary_lem_example = get_summary_lem env scope_1 db_1 is_agent 0 2

abbrev listed_test : Memory → Bool
listed_test =
    test env facts_repository scope_1 (some query) 1 db_1 is_agent (λ p l. refl)
      (keyed semantic_facts)

abbrev searcher : Pipeline
searcher = record {
  settings = record facts_repository { embedding_provider = some (λ t. some query) };
  distance = λ v w. 0;
  resolver = none;
  resolver_k = 5;
  guard = none;
  integrity_k = 5;
  consolidator = λ l. none;
  every_n = 1;
}

checked :
    checked_query searcher (codes "tea") (some (codes "profiles" ∷ codes "facts" ∷ []))
    ≡ ok (semantic_facts ∷ entity_profiles ∷ [], query)
unfolding checked_query select
checked = refl

search_store_lem_example :
    (l : List SearchResult) × (search_store env searcher
        (codes "tea")
        scope_1
        (some (codes "profiles" ∷ codes "facts" ∷ []))
        3
        none
        true
        true
        db_1
      ≡ ok l)
    × (length l ≤ 3)
    × All
        (IsFoundIn env searcher query scope_1 3 none db_1 [] is_agent embedded built ranks
          (λ s l. (l, refl))
          keyed
          (sql_scope scope_1 true))
        l
    × All (λ r. is_match scope_1 true true r ≡ true) l
search_store_lem_example =
    search_store_lem env searcher query scope_1 3 none db_1 [] is_agent embedded built ranks
      (λ s l. (l, refl)) keyed (codes "tea") (some (codes "profiles" ∷ codes "facts" ∷ []))
      (semantic_facts ∷ entity_profiles ∷ []) true true checked
