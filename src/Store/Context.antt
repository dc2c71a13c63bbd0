-- ===== src/Store/Context.antt =====
-- `get_context_card` of src/agent_memory_sdk/store.py with its helpers. A callback gives `none` where it
-- raises.
pub mod Backfill
use yaadien.Prelude.{
  ℕ, zero, suc, ◌-◌, ◌+◌, Bool, true, false, ◌&&◌, ◌||◌, not, Option, none, some, List, [], ◌∷◌,
  ◌++◌, map, ltb, leb, ◌==◌, length, take, is_none, if◌then◌else◌, codes, text_eq,
}
use yaadien.Prelude.Table.{select, fetch_one}
use yaadien.Model.{
  ℤ, pos, negsuc, Ident, Text, Vector, Result, ok, err, value_error, MemoryScope, Memory, ◌>>=◌,
}
use yaadien.Filter.{Filter}
use yaadien.Db.{
  TableName, working_memory, semantic_facts, entity_profiles, table_eq, Db, Env, cosine, exact,
}
use yaadien.Repository.{Repository}
use yaadien.Repository.Read.{list_all}
use yaadien.Repository.Search.{Request, contains}
use yaadien.Repository.Search.Chunked.{search, default_request, found_or_none}
use yaadien.Store.Pipeline.{Pipeline, repository_of}
use mathlib.Core.List.{reverse}

-- `_LONG_TERM_ALIAS_TO_ATTR`
unfoldable pub long_term_attr : Text → Option TableName
unfolding text_eq
long_term_attr key =
    if text_eq key (codes "facts") || text_eq key (codes "semantic_facts")
    then some semantic_facts
    else if text_eq key (codes "profiles") || text_eq key (codes "entity_profiles")
    then some entity_profiles
    else none

-- the value of an entry of the wanted section
abbrev pub checked_minimum : ℤ → Result ℕ
checked_minimum (pos n) = ok n
checked_minimum (negsuc n) = err value_error

-- The loop of `_resolve_min_results`, with the minimum so far: the last entry of the section counts.
unfoldable pub resolve_min_results : List (Text × ℤ) → TableName → ℕ → Result ℕ
unfolding long_term_attr
resolve_min_results [] attr minimum = ok minimum
resolve_min_results ((key, value) ∷ rest) attr minimum = elim (long_term_attr key) [
  | none ↦ err value_error
  | some t ↦ elim (table_eq t attr) [
    | false ↦ resolve_min_results rest attr minimum
    | true ↦ checked_minimum value >>= λ n. resolve_min_results rest attr n
  ]
]

abbrev pub ids_of : List Memory → List Ident
ids_of l = map (λ m. m.id) l

-- the search of `_relevant_with_backfill`, which needs a query vector
unfoldable pub relevant : Env → Repository → MemoryScope → Option Vector → ℕ → Db → List Memory
unfolding search
relevant e r scope none top_k db = []
relevant e r scope (some []) top_k db = []
relevant e r scope (some (x ∷ v)) top_k db =
    found_or_none (search e r (default_request (x ∷ v) scope top_k none) none db)

-- The rows listed behind the results, without those that are among them. `seen` is the size of the
-- set of ids.
unfoldable pub distinct_ids : List Ident → List Ident
unfolding contains
distinct_ids [] = []
distinct_ids (i ∷ l) = let rest = distinct_ids l in if contains i rest then rest else i ∷ rest

abbrev pub is_fresh_id : List Memory → Memory → Bool
unfolding contains
is_fresh_id results m = not (contains m.id (ids_of results))

unfoldable pub backfill : List Memory → ℕ → List Memory → List Memory
unfolding contains
backfill results needed recent = results ++ take needed (select (is_fresh_id results) recent)

unfoldable pub relevant_with_backfill :
    Env → Repository → MemoryScope → Option Vector → ℕ → ℕ → Db → Result (List Memory)
unfolding relevant distinct_ids backfill list_all
relevant_with_backfill e r scope query_embedding top_k minimum db =
    let results = relevant e r scope query_embedding top_k db in
    let needed = minimum - length results in
    if leb minimum (length results)
    then ok results
    else (list_all e r.table scope (needed + length (distinct_ids (ids_of results))) 0 false 0 none
          db
        >>= λ recent. ok (backfill results needed recent))

-- `_assemble_long_term_sections`: a provider that raises leaves the sections by recency.
unfoldable pub assemble_long_term_sections :
    Env
    → Pipeline
    → MemoryScope
    → Text
    → List (Text × ℤ)
    → ℕ
    → Db
    → Result (List Memory × List Memory)
unfolding resolve_min_results relevant_with_backfill
assemble_long_term_sections e p scope query min_results_by_type top_k db =
    resolve_min_results min_results_by_type semantic_facts 0 >>= λ facts_min.
    resolve_min_results min_results_by_type entity_profiles 0 >>= λ profiles_min.
    elim p.settings.embedding_provider [
      | none ↦ err value_error
      | some provider ↦
          relevant_with_backfill e (repository_of p semantic_facts) scope (provider query) top_k
            facts_min db
          >>= λ facts.
              relevant_with_backfill e (repository_of p entity_profiles) scope (provider query)
                top_k profiles_min db
              >>= λ profiles. ok (facts, profiles)
    ]

-- `ContextCard`
pub record ContextCard : Type 0 where
  pub turns : List Memory
  pub turn_count : ℕ
  pub latest_at : Option ℕ
  pub summary : Option Text
  pub relevant_facts : Option (List Memory)
  pub relevant_profiles : Option (List Memory)

-- `if n < 1: raise ValueError`
abbrev pub at_least_one : ℤ → Result ℕ
at_least_one (pos zero) = err value_error
at_least_one (pos (suc n)) = ok (suc n)
at_least_one (negsuc n) = err value_error

-- A summarizer that is `none` itself is the no-op one. An empty summary counts as none.
abbrev pub summary_of : Option (List Memory → Option (Option Text)) → List Memory → Option Text
summary_of none turns = none
summary_of (some f) turns = elim (f turns) [
  | none ↦ none
  | some none ↦ none
  | some (some text) ↦ elim text [ [] ↦ none | c ∷ s ↦ some (c ∷ s) ]
]

abbrev pub latest : List Memory → Option ℕ
latest [] = none
latest (m ∷ l) = some m.created_at

-- `query and include_long_term`
abbrev pub wanted_query : Option Text → Bool → Option Text
wanted_query (some (c ∷ s)) true = some (c ∷ s)
wanted_query _ _ = none

abbrev pub both_sections : List Memory × List Memory → Option (List Memory) × Option (List Memory)
both_sections (facts, profiles) = (some facts, some profiles)

-- the two optional sections
unfoldable pub long_term :
    Env
    → Pipeline
    → MemoryScope
    → Option Text
    → List (Text × ℤ)
    → ℕ
    → Db
    → Result (Option (List Memory) × Option (List Memory))
unfolding assemble_long_term_sections
long_term e p scope none minima top_k db = ok (none, none)
long_term e p scope (some query) minima top_k db =
    assemble_long_term_sections e p scope query minima top_k db >>= λ sections.
    ok (both_sections sections)

unfoldable pub get_context_card :
    Env
    → Pipeline
    → Option (List Memory → Option (Option Text))
    → MemoryScope
    → ℤ
    → Option Text
    → Bool
    → List (Text × ℤ)
    → ℤ
    → Db
    → Result ContextCard
unfolding list_all long_term
get_context_card e p summarizer scope max_turns query include_long_term minima top_k db = do
  n ← at_least_one max_turns
  k ← at_least_one top_k
  recent ← list_all e working_memory scope n 0 false 0 none db
  sections ← long_term e p scope (wanted_query query include_long_term) minima k db
  ok (record {
    turns = reverse recent;
    turn_count = length (reverse recent);
    latest_at = latest recent;
    summary = summary_of summarizer (reverse recent);
    relevant_facts = sections.0;
    relevant_profiles = sections.1;
  })
