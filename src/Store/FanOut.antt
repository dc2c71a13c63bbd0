-- ===== src/Store/FanOut.antt =====
-- `search` of src/agent_memory_sdk/store.py: one query over several repositories.
pub mod Matches
use yaadien.Prelude.{
  ℕ, Bool, true, false, ◌&&◌, ◌||◌, not, Option, none, some, List, [], ◌∷◌, ◌++◌, map, ◌==◌, take,
  if◌then◌else◌, codes, text_eq,
}
use yaadien.Prelude.Table.{select}
use yaadien.Model.{
  Ident, Text, Vector, Result, ok, err, value_error, provider_error, MemoryScope, Memory, ◌>>=◌,
}
use yaadien.Filter.{Filter}
use yaadien.Db.{
  TableName, working_memory, episodic_memory, semantic_facts, entity_profiles, procedural_memory,
  Db, Env,
}
use yaadien.Repository.Search.Chunked.{search}
use yaadien.Store.Pipeline.{Pipeline, repository_of}
use yaadien.Store.Messages.{is_space}
use yaadien.Repository.Search.Chunked.{default_request}

-- `not query or not query.strip()`
unfoldable pub is_blank : Text → Bool
is_blank [] = true
is_blank (c ∷ s) = is_space c && is_blank s

-- `_ALL_TYPES`, each name with the table of its repository
abbrev pub all_types : List (Text × TableName)
all_types =
    (codes "working", working_memory)
    ∷ (codes "episodic", episodic_memory)
    ∷ (codes "facts", semantic_facts)
    ∷ (codes "profiles", entity_profiles)
    ∷ (codes "procedures", procedural_memory)
    ∷ []

unfoldable pub has_name : Text → List Text → Bool
unfolding text_eq
has_name t [] = false
has_name t (u ∷ us) = if text_eq u t then true else has_name t us

-- `name in _TYPE_TO_ATTR`, of every name
unfoldable pub names_known : List Text → Bool
unfolding has_name
names_known [] = true
names_known (t ∷ ts) = has_name t (map (λ x. x.0) all_types) && names_known ts

-- The tables asked for, in the canonical order.
unfoldable pub resolve_types : Option (List Text) → Result (List TableName)
unfolding names_known has_name
resolve_types none = ok (map (λ x. x.1) all_types)
resolve_types (some names) =
    if names_known names
    then ok (map (λ x. x.1) (select (λ x. has_name x.0 names) all_types))
    else err value_error

-- `SearchResult`, whose id and content are the record's and whose distance is None
pub record SearchResult : Type 0 where
  pub id : Ident
  pub content : Text
  pub record_type : TableName
  pub record_ : Memory

abbrev pub result_of : TableName → Memory → SearchResult
result_of t m = record { id = m.id; content = m.content; record_type = t; record_ = m }

-- the scope of the statements
abbrev pub sql_scope : MemoryScope → Bool → MemoryScope
sql_scope scope exact_thread_match = record scope {
  thread_id = if exact_thread_match then scope.thread_id else none;
}

-- `a == b` on optional strings
abbrev pub same_option : Option Ident → Option Ident → Bool
same_option none none = true
same_option (some a) (some b) = a == b
same_option _ _ = false

-- what the filter behind the statements keeps
abbrev pub is_match : MemoryScope → Bool → Bool → SearchResult → Bool
is_match scope exact_agent_match exact_thread_match s =
    (not exact_agent_match || s.record_.agent_id == scope.agent_id)
    && (not exact_thread_match || same_option s.record_.thread_id scope.thread_id)

-- the loop over the tables
unfoldable pub search_tables :
    Env
    → Pipeline
    → Vector
    → MemoryScope
    → ℕ
    → Option Filter
    → List TableName
    → Db
    → Result (List SearchResult)
unfolding search
search_tables e p v scope max_results metadata_filter [] db = ok []
search_tables e p v scope max_results metadata_filter (t ∷ ts) db =
    search e (repository_of p t) (default_request v scope max_results metadata_filter) none db
    >>= λ records. search_tables e p v scope max_results metadata_filter ts db >>= λ rest.
        ok (map (result_of t) records ++ rest)

-- the vector of the query: without a provider an error of the store, and the provider's own where
-- it raises
unfoldable pub embed_query : Pipeline → Text → Result Vector
embed_query p query = elim p.settings.embedding_provider [
  | none ↦ err value_error
  | some provider ↦ elim (provider query) [ none ↦ err provider_error | some v ↦ ok v ]
]

-- the checks of a query, in the order in which they are made
unfoldable pub checked_query :
    Pipeline → Text → Option (List Text) → Result (List TableName × Vector)
unfolding is_blank resolve_types embed_query
checked_query p query record_types =
    if is_blank query then err value_error else elim p.settings.embedding_provider [
      | none ↦ err value_error
      | some provider ↦
          resolve_types record_types >>= λ tables. embed_query p query >>= λ v. ok (tables, v)
    ]

unfoldable pub search_store :
    Env
    → Pipeline
    → Text
    → MemoryScope
    → Option (List Text)
    → ℕ
    → Option Filter
    → Bool
    → Bool
    → Db
    → Result (List SearchResult)
unfolding checked_query search_tables
search_store e p query scope record_types max_results metadata_filter exact_agent_match
      exact_thread_match db =
    do
      checked ← checked_query p query record_types
      results ←
          search_tables e p checked.1 (sql_scope scope exact_thread_match) max_results
            metadata_filter checked.0 db
      ok (take max_results (select (is_match scope exact_agent_match exact_thread_match) results))
