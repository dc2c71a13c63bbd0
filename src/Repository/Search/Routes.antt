-- ===== src/Repository/Search/Routes.antt =====
-- The two routes of `search`: the chunks and the rows of the table.
use mathlib.Core.List.{Mem}
use yaadien.Prelude.{
  ℕ, ◌*◌, ◌≤◌, ◌≡◌, ◌≢◌, refl, Bool, true, false, ◌&&◌, Option, none, some, List, [], ◌∷◌, map, ltb,
  ◌==◌, if◌then◌else◌, arith, All, Bool-cases, inl, inr, length, take, min, length-take,
}
use yaadien.Prelude.Table.{select, row_count, All-select, All-select_of_All}
use yaadien.Prelude.Sorting.{sort_stable, row_count-sort_stable}
use yaadien.Model.{Ident, Double, Memory, Result, ok}
use yaadien.Scope.{require_agent_id}
use yaadien.Filter.{Predicate, build_metadata_filter}
use yaadien.Db.{Db, Env, Query, Chunk, rows}
use yaadien.Ranking.Fusion.{count_scored, count-map, IsDistinct}
use yaadien.Repository.{Repository}
use yaadien.Repository.Write.{has_id}
use yaadien.Repository.History.Tables.{IsKeyed}
use yaadien.Repository.Search.{Request, is_approx, require_embedding, row_of, search_rows}
use yaadien.Repository.Search.Lookups.{
  All-both, All-Mem, row_count-take, OnSome-map, find_last_lem, IsDistinct-of_count,
  count_of_IsDistinct,
}
use yaadien.Repository.Search.Results.{IsAnswer, ranked_rows_lem}
use yaadien.Repository.Search.Chunked.{
  is_chunk_hit, see, best_distances, nearer, ranked_sources, listed_among, fetch_sources,
  search_sources, sources_or_rows, rank_pairs, search_via_chunks, search,
}
use mathlib.Core.Path.{subst}
use yaadien.Repository.Search.Sound.{Ranks, listed, search_rows_lem}

count-see :
    (i j : Ident) (d : Double) (l : List (Ident × Double))
    → count_scored i (see j d l) ≡ (
        if j == i
        then (if ltb 0 (count_scored i l) then count_scored i l else 1)
        else count_scored i l)
unfolding row_count see
count-see i j d [] = ground arith
count-see i j d ((a, s) ∷ l) = ground (arith, count-see i j d l)

count-best_distances :
    (i : Ident) (seen hits : List (Ident × Double))
    → count_scored i seen ≤ 1
    → count_scored i (best_distances seen hits) ≤ 1
unfolding best_distances
count-best_distances i seen [] h = h
count-best_distances i seen ((j, d) ∷ hits) h =
    count-best_distances i (see j d seen) hits (ground (arith, count-see i j d seen, h))

-- A source is ranked once, however many of its chunks were hit.
ranked_sources-IsDistinct : (hits : List (Ident × Double)) → IsDistinct (ranked_sources hits)
unfolding ranked_sources
ranked_sources-IsDistinct hits =
    IsDistinct-of_count (map (λ s. s.0) (sort_stable nearer (best_distances [] hits))) (λ i. omega (
      arith,
      count-map i (sort_stable nearer (best_distances [] hits)),
      row_count-sort_stable nearer (λ s. s.0 == i) (best_distances [] hits),
      count-best_distances i [] hits (unfold row_count in omega arith),
    ))

take-IsDistinct : (n : ℕ) (l : List Ident) → IsDistinct l → IsDistinct (take n l)
take-IsDistinct n l d =
    IsDistinct-of_count (take n l)
      (λ i. omega (arith, row_count-take (λ j. j == i) n l, count_of_IsDistinct l d i))

if_of_true : (b : Bool) (l m : List Ident) → b ≡ true → (if b then l else m) ≡ l
if_of_true b l m h = rw h refl

if_of_false : (b : Bool) (l m : List Ident) → b ≡ false → (if b then l else m) ≡ m
if_of_false b l m h = rw h refl

IsAnswer-weaken :
    (P Q : Memory → Type 0) (k : ℕ) (result : Result (List Memory))
    → ((m : Memory) → P m → Q m)
    → IsAnswer P k result
    → IsAnswer Q k result
IsAnswer-weaken P Q k result f (l, h, all, short, keyed) = (l, h, weaken l all, short, keyed)
  where
    weaken : (l : List Memory) → All P l → All Q l
    weaken [] h = tt
    weaken (m ∷ l) (h, hs) = (f m h, weaken l hs)

-- Db2 accepts the ranking statement of this request on the chunks.
abbrev pub RanksChunks : Env → Request → Type 0
RanksChunks e req =
    (l : List Chunk)
    → (hits : List Chunk) × (e.nearest_chunks
          (record {
            vector = req.query_embedding;
            metric = req.metric;
            approx = is_approx req.mode;
          })
          l
        ≡ ok hits)

module _ (e : Env) (r : Repository) (req : Request) (db : Db) (parts : List Predicate)
    (agent : req.scope.agent_id ≢ 0) (embedded : require_embedding req.query_embedding ≡ ok tt)
    (built : build_metadata_filter req.metadata_filter ≡ ok parts) (ranks : Ranks e)
    (keyed : IsKeyed (rows r.table db)) where
  abbrev pub Shown : Memory → Type 0
  Shown m =
      (listed e r req db parts agent embedded built ranks keyed m ≡ true) × Mem m (rows r.table db)

  fetch_sources_lem :
      (k : ℕ) (ids : List Ident)
      → IsDistinct ids
      → (req.hybrid ≡ false → length ids ≤ k)
      → IsAnswer Shown k (fetch_sources e r req k ids db)
  unfolding fetch_sources
  fetch_sources_lem k [] d s = ([], refl, tt, omega arith, tt)
  fetch_sources_lem k (i ∷ ids) d s =
      let test = listed_among e r req parts db.ticks (i ∷ ids) in
      let found = select test (rows r.table db) in
      rw built (
        ranked_rows_lem e req k Shown found (i ∷ ids) d s (λ j q.
          let P = λ (m : Memory). (test m ≡ true) × Mem m (rows r.table db) in
          OnSome-map (λ m. P m × (has_id j m ≡ true)) Shown (λ m h. (ground (arith, h.0.0), h.0.1))
            (row_of found j)
            (find_last_lem P (has_id j) found (
              All-both (λ m. test m ≡ true) (λ m. Mem m (rows r.table db)) found
                (All-select test (rows r.table db))
                (All-select_of_All (λ m. Mem m (rows r.table db)) test (rows r.table db)
                  (All-Mem (rows r.table db)))))))

  search_sources_lem :
      (k : ℕ) (hits : List (Ident × Double)) → IsAnswer Shown k (search_sources e r req k hits db)
  unfolding search_sources
  search_sources_lem k hits = elim (Bool-cases req.hybrid) [
    | inl h ↦ rw (if_of_true req.hybrid (ranked_sources hits) (take k (ranked_sources hits)) h) (
        fetch_sources_lem k (ranked_sources hits) (ranked_sources-IsDistinct hits)
          (λ g. absurd (ground (arith, g, h))))
    | inr h ↦ rw (if_of_false req.hybrid (ranked_sources hits) (take k (ranked_sources hits)) h) (
        fetch_sources_lem k (take k (ranked_sources hits))
          (take-IsDistinct k (ranked_sources hits) (ranked_sources-IsDistinct hits))
          (λ g. omega (arith, length-take k (ranked_sources hits))))
  ]

  rows-IsAnswer :
      (k : ℕ) → IsAnswer Shown (min k 200) (search_rows e r (record req { top_k = k }) db)
  rows-IsAnswer k =
      IsAnswer-weaken _ Shown (min k 200) _ (λ m h. (ground (arith, h.0), h.1))
        (search_rows_lem e r (record req { top_k = k }) db parts agent embedded built ranks keyed)

  required : require_agent_id req.scope ≡ ok tt
  unfolding require_agent_id
  required = ground arith

  after_hits :
      (k : ℕ) (hits : List (Ident × Double))
      → IsAnswer Shown (min k 200) (sources_or_rows e r req (min k 200) hits db)
  unfolding sources_or_rows
  after_hits k [] =
      subst (λ n. IsAnswer Shown n (search_rows e r (record req { top_k = min k 200 }) db))
        (omega arith) (rows-IsAnswer (min k 200))
  after_hits k (h ∷ hits) = search_sources_lem (min k 200) (h ∷ hits)

  search_via_chunks_lem :
      RanksChunks e req → IsAnswer Shown (min req.top_k 200) (search_via_chunks e r req db)
  unfolding search_via_chunks
  search_via_chunks_lem chunks =
      let query : Query = record {
        vector = req.query_embedding;
        metric = req.metric;
        approx = is_approx req.mode;
      } in
      let (hits, h) = chunks (select (is_chunk_hit r.table req.scope) db.chunks) in
      rw (embedded, required, h)
        (after_hits req.top_k
          (rank_pairs e query db.chunks (take (min (min (min req.top_k 200 * 4) 800) 800) hits)))

  pub search_lem :
      (by_chunks : Option Bool)
      → RanksChunks e req
      → IsAnswer Shown (min req.top_k 200) (search e r req by_chunks db)
  unfolding search
  search_lem none chunks = elim (Bool-cases r.chunk_repo) [
    | inl h ↦ rw h (search_via_chunks_lem chunks)
    | inr h ↦ rw h (rows-IsAnswer req.top_k)
  ]
  search_lem (some b) chunks = elim (Bool-cases (b && r.chunk_repo)) [
    | inl h ↦ rw h (search_via_chunks_lem chunks)
    | inr h ↦ rw h (rows-IsAnswer req.top_k)
  ]
