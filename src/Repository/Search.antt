-- ===== src/Repository/Search.antt =====
-- `search` of src/agent_memory_sdk/repositories/base.py over the rows of a table. The statements of one
-- call read one state of the database.
pub mod Chunked
pub mod Lookups
pub mod Results
pub mod Sound
pub mod Routes
pub mod Hybrid
use yaadien.Prelude.{
  ℕ, ◌+◌, ◌*◌, Bool, true, false, ◌&&◌, not, Option, none, some, List, [], ◌∷◌, map, ltb, min,
  is_none, take, if◌then◌else◌, ◌==◌,
}
use yaadien.Prelude.Table.{select}
use yaadien.Prelude.Sorting.{sort_stable}
use yaadien.Model.{
  Ident, Text, Double, Vector, Error, value_error, syntax_error, key_error, Result, ok, err, ◌>>=◌,
  MemoryScope, Memory,
}
use yaadien.Scope.{require_agent_id}
use yaadien.Filter.{Filter, Predicate, build_metadata_filter}
use yaadien.Db.{
  TableName, Db, Env, Chunk, Query, DistanceMetric, SearchMode, approx, exact, default, table_eq,
  rows,
}
use yaadien.Ranking.{keyword_tokens, overlap, rrf_k, rrf_fuse}
use yaadien.Repository.{Repository}
use yaadien.Repository.Chunks.{zero_vector, chunk_in_scope, has_chunk_id}
use yaadien.Repository.Read.{is_listed, holds_parts}
use yaadien.Repository.Write.{has_id}

-- the arguments of `search`, except `search_chunks`
pub record Request : Type 0 where
  pub query_embedding : Vector
  pub scope : MemoryScope
  pub top_k : ℕ
  pub metric : DistanceMetric
  pub mode : SearchMode
  pub include_expired : Bool
  pub min_confidence : Double
  pub metadata_filter : Option Filter
  pub hybrid : Bool
  pub query_text : Text

abbrev pub is_approx : SearchMode → Bool
is_approx approx = true
is_approx _ = false

abbrev is_empty : Vector → Bool
is_empty [] = true
is_empty (x ∷ v) = false

-- `if not query_embedding: raise ValueError`
unfoldable pub require_embedding : Vector → Result (Unit {0})
require_embedding v = if is_empty v then err value_error else ok tt

abbrev bool_eq : Bool → Bool → Bool
bool_eq true b = b
bool_eq false b = not b

-- equality of two serialized vectors
unfoldable pub vector_eq : Vector → Vector → Bool
vector_eq [] [] = true
vector_eq [] (y ∷ w) = false
vector_eq (x ∷ v) [] = false
vector_eq (x ∷ v) (y ∷ w) = bool_eq x.0 y.0 && x.1 == y.1 && vector_eq v w

-- `zero_vec_filter`
abbrev pub has_vector : Repository → Memory → Bool
has_vector r m = not (vector_eq m.embedding (zero_vector r.embedding_dim))

-- `dict.get` on a dict that was filled in the order of the list: the last entry of a key stands.
unfoldable pub find_last {ℓ} : {A : Type ℓ} → (A → Bool) → List A → Option A
find_last p [] = none
find_last p (x ∷ xs) =
    let rest = find_last p xs in if is_none rest then (if p x then some x else none) else rest

-- `id IN (…)`
unfoldable pub contains : Ident → List Ident → Bool
contains i [] = false
contains i (j ∷ l) = if j == i then true else contains i l

abbrev pub row_of : List Memory → Ident → Option Memory
row_of found i = find_last (has_id i) found

-- `[row_map[id_] for id_ in ids if id_ in row_map]`
unfoldable pub pick_present : List Memory → List Ident → List Memory
unfolding find_last
pick_present found [] = []
pick_present found (i ∷ ids) =
    let rest = pick_present found ids in elim (row_of found i) [ none ↦ rest | some m ↦ m ∷ rest ]

-- `[row_map[id_] for id_ in ids]`
unfoldable pub pick_all : List Memory → List Ident → Result (List Memory)
unfolding find_last
pick_all found [] = ok []
pick_all found (i ∷ ids) = elim (row_of found i) [
  | none ↦ err key_error
  | some m ↦ pick_all found ids >>= λ rest. ok (m ∷ rest)
]

-- `[id_ for id_ in ids if id_ in row_map]`
unfoldable pub live_ids : List Memory → List Ident → List Ident
unfolding find_last
live_ids found ids = select (λ i. not (is_none (row_of found i))) ids

-- `keyword_scores[i]`, of an id that has a row
abbrev pub keyword_score : Env → List Text → List Memory → Ident → ℕ
keyword_score e query found i = elim (row_of found i) [
  | none ↦ 0
  | some m ↦ overlap query (keyword_tokens e m.content)
]

unfoldable pub keyword_order : Env → List Text → List Memory → List Ident → List Ident
unfolding find_last overlap keyword_tokens
keyword_order e [] found live = live
keyword_order e (t ∷ query) found live =
    sort_stable
      (λ y x. ltb (keyword_score e (t ∷ query) found x) (keyword_score e (t ∷ query) found y)) live

-- What both searches return, from the ranked ids and the rows found for them. Without ids they
-- return before they read the rows.
unfoldable pub ranked_rows : Env → Request → ℕ → List Ident → List Memory → Result (List Memory)
unfolding pick_present pick_all live_ids keyword_order keyword_tokens rrf_fuse
ranked_rows e req top_k [] found = ok []
ranked_rows e req top_k (i ∷ ids) found =
    let live = live_ids found (i ∷ ids) in
    let keywords = keyword_order e (keyword_tokens e req.query_text) found live in
    if req.hybrid
    then pick_all found (take top_k (rrf_fuse e rrf_k live keywords))
    else ok (pick_present found (i ∷ ids))

-- The ranking statement of `search`, executed again without APPROX if Db2 does not know the word.
unfoldable pub rank_ids : Env → Request → List Memory → Result (List Memory)
rank_ids e req l =
    let query : Query = record {
      vector = req.query_embedding;
      metric = req.metric;
      approx = is_approx req.mode;
    } in
    elim (e.nearest query l) [
      | ok ranked ↦ ok ranked
      | err syntax_error ↦
          if is_approx req.mode
          then e.nearest (record query { approx = false }) l
          else err syntax_error
      | err x ↦ err x
    ]

abbrev pub live_among : List Ident → Memory → Bool
live_among ids m = contains m.id ids && is_none m.deleted_at

-- the part of `search` that the chunks are not asked in
unfoldable pub search_rows : Env → Repository → Request → Db → Result (List Memory)
unfolding require_agent_id require_embedding build_metadata_filter rank_ids contains ranked_rows
search_rows e r req db = do
  _ ← require_agent_id req.scope
  _ ← require_embedding req.query_embedding
  let top_k = min req.top_k 200
  parts ← build_metadata_filter req.metadata_filter
  let fetch_k = if req.hybrid then min (top_k * 4) 800 else top_k
  let test : Memory → Bool = λ m.
      is_listed e r.table req.scope req.include_expired req.min_confidence parts db.ticks m
      && has_vector r m
  ranked ← rank_ids e req (select test (rows r.table db))
  let ids = map (λ m. m.id) (take fetch_k ranked)
  ranked_rows e req top_k ids (select (live_among ids) (rows r.table db))
