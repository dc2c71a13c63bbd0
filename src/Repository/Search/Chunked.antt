-- ===== src/Repository/Search/Chunked.antt =====
-- Search by way of the chunks: `search_chunks` of src/agent_memory_sdk/repositories/chunks.py,
-- `_search_via_chunks` of base.py, and the `search` of base.py that chooses between the two.
use yaadien.Prelude.{
  false, ℕ, ◌*◌, Bool, ◌&&◌, Option, none, some, List, [], ◌∷◌, map, ltb, min, take, if◌then◌else◌,
  ◌==◌,
}
use yaadien.Prelude.Table.{select}
use yaadien.Prelude.Sorting.{sort_stable}
use yaadien.Model.{err, Ident, Double, Vector, Result, ok, ◌>>=◌, MemoryScope, Memory}
use yaadien.Scope.{require_agent_id}
use yaadien.Filter.{Filter, Predicate, build_metadata_filter}
use yaadien.Db.{
  TableName, Db, Env, Chunk, Query, DistanceMetric, SearchMode, table_eq, rows, cosine, exact,
}
use yaadien.Repository.{Repository}
use yaadien.Repository.Chunks.{chunk_in_scope, has_chunk_id}
use yaadien.Repository.Read.{is_listed}
use yaadien.Repository.Search.{
  Request, is_approx, require_embedding, find_last, contains, ranked_rows, search_rows,
}

-- the WHERE clause of the ranking statement of `search_chunks`
abbrev pub is_chunk_hit : TableName → MemoryScope → Chunk → Bool
is_chunk_hit t scope c = table_eq c.source_table t && chunk_in_scope scope c

-- The pairs of source id and distance, in rank order; a chunk without both is left out.
unfoldable pub chunk_pairs :
    Env → Query → List Chunk → List Chunk → List Chunk → List (Ident × Double)
unfolding find_last
chunk_pairs e query ranked measured [] = []
chunk_pairs e query ranked measured (c ∷ l) =
    let rest = chunk_pairs e query ranked measured l in
    elim (find_last (has_chunk_id c.id) ranked) [
      | none ↦ rest
      | some source ↦ elim (find_last (has_chunk_id c.id) measured) [
        | none ↦ rest
        | some d ↦ (source.source_id, e.chunk_distance query d) ∷ rest
      ]
    ]

abbrev chunk_ids : List Chunk → List Ident
chunk_ids l = map (λ c. c.id) l

-- the statement that reads the distances of the ranked chunks, and the pairs
unfoldable pub rank_pairs : Env → Query → List Chunk → List Chunk → List (Ident × Double)
unfolding contains chunk_pairs
rank_pairs e query chunks ranked =
    chunk_pairs e query ranked (select (λ c. contains c.id (chunk_ids ranked)) chunks) ranked

unfoldable pub search_chunks :
    Env
    → Vector
    → TableName
    → MemoryScope
    → ℕ
    → DistanceMetric
    → SearchMode
    → Db
    → Result (List (Ident × Double))
unfolding require_agent_id require_embedding rank_pairs
search_chunks e query_embedding source_table scope top_n metric mode db = do
  _ ← require_embedding query_embedding
  _ ← require_agent_id scope
  let query : Query = record { vector = query_embedding; metric = metric; approx = is_approx mode }
  hits ← e.nearest_chunks query (select (is_chunk_hit source_table scope) db.chunks)
  ok (rank_pairs e query db.chunks (take (min top_n 800) hits))

-- `if source_id not in seen or distance < seen[source_id]: seen[source_id] = distance`
unfoldable pub see : Ident → Double → List (Ident × Double) → List (Ident × Double)
see i d [] = (i, d) ∷ []
see i d ((j, s) ∷ seen) =
    let rest = see i d seen in
    if j == i then (j, (if ltb d s then d else s)) ∷ seen else (j, s) ∷ rest

-- the best distance of each source
unfoldable pub best_distances :
    List (Ident × Double) → List (Ident × Double) → List (Ident × Double)
unfolding see
best_distances seen [] = seen
best_distances seen ((i, d) ∷ hits) = best_distances (see i d seen) hits

abbrev pub nearer : Ident × Double → Ident × Double → Bool
nearer y x = ltb y.1 x.1

unfoldable pub ranked_sources : List (Ident × Double) → List Ident
unfolding best_distances
ranked_sources hits = map (λ s. s.0) (sort_stable nearer (best_distances [] hits))

abbrev pub listed_among :
    Env → Repository → Request → List Predicate → ℕ → List Ident → Memory → Bool
listed_among e r req parts ticks ids m =
    contains m.id ids
    && is_listed e r.table req.scope req.include_expired req.min_confidence parts ticks m

-- The parent rows of the ranked sources. Without sources there is no statement.
unfoldable pub fetch_sources :
    Env → Repository → Request → ℕ → List Ident → Db → Result (List Memory)
unfolding build_metadata_filter contains ranked_rows
fetch_sources e r req top_k [] db = ok []
fetch_sources e r req top_k (i ∷ ids) db = do
  parts ← build_metadata_filter req.metadata_filter
  ranked_rows e req top_k (i ∷ ids)
      (select (listed_among e r req parts db.ticks (i ∷ ids)) (rows r.table db))

-- the part behind the chunk hits
unfoldable pub search_sources :
    Env → Repository → Request → ℕ → List (Ident × Double) → Db → Result (List Memory)
unfolding ranked_sources fetch_sources
search_sources e r req top_k hits db =
    let all_ranked_ids = ranked_sources hits in
    fetch_sources e r req top_k (if req.hybrid then all_ranked_ids else take top_k all_ranked_ids)
      db

-- Without a chunk hit `_search_via_chunks` searches the rows.
unfoldable pub sources_or_rows :
    Env → Repository → Request → ℕ → List (Ident × Double) → Db → Result (List Memory)
unfolding search_sources search_rows
sources_or_rows e r req top_k [] db = search_rows e r (record req { top_k = top_k }) db
sources_or_rows e r req top_k (h ∷ hits) db = search_sources e r req top_k (h ∷ hits) db

unfoldable pub search_via_chunks : Env → Repository → Request → Db → Result (List Memory)
unfolding require_agent_id require_embedding search_chunks sources_or_rows
search_via_chunks e r req db = do
  _ ← require_embedding req.query_embedding
  _ ← require_agent_id req.scope
  let top_k = min req.top_k 200
  hits ←
      search_chunks e req.query_embedding r.table req.scope (min (top_k * 4) 800) req.metric
        req.mode db
  sources_or_rows e r req top_k hits db

-- `search_chunks=None` takes the chunks if there is a chunk repository.
unfoldable pub search : Env → Repository → Request → Option Bool → Db → Result (List Memory)
unfolding search_via_chunks search_rows
search e r req none db =
    if r.chunk_repo then search_via_chunks e r req db else search_rows e r req db
search e r req (some by_chunks) db =
    if by_chunks && r.chunk_repo then search_via_chunks e r req db else search_rows e r req db

-- the arguments of a `search` that gives a vector, a scope, `top_k` and a filter
abbrev pub default_request : Vector → MemoryScope → ℕ → Option Filter → Request
default_request v scope top_k metadata_filter = record {
  query_embedding = v;
  scope = scope;
  top_k = top_k;
  metric = cosine;
  mode = exact;
  include_expired = false;
  min_confidence = 0;
  metadata_filter = metadata_filter;
  hybrid = false;
  query_text = [];
}

-- A `search` that raises finds nothing.
abbrev pub found_or_none : Result (List Memory) → List Memory
found_or_none (ok l) = l
found_or_none (err x) = []
