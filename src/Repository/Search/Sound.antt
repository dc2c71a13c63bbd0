-- ===== src/Repository/Search/Sound.antt =====
-- What `search` returns on either of its routes: listed rows of the scope, each once, at most as many as
-- asked for.
use mathlib.Core.List.{Mem}
use yaadien.Prelude.{
  ℕ, ◌*◌, ◌≤◌, ◌<◌, ◌≡◌, ◌≢◌, ◌⊎◌, refl, Bool, true, false, not, ◌&&◌, ◌||◌, List, [], ◌∷◌, map,
  ◌==◌, if◌then◌else◌, arith, All, Bool-cases, inl, inr, length, take, min, length-take, ==_iff,
}
use yaadien.Prelude.Table.{select, row_count, All-select_of_All}
use yaadien.Model.{Ident, Memory, ok, err, syntax_error}
use yaadien.Scope.{require_agent_id}
use yaadien.Filter.{Predicate, build_metadata_filter}
use yaadien.Db.{Db, Env, Query, rows}
use yaadien.Ranking.Fusion.{count, IsDistinct}
use yaadien.Repository.{Repository}
use yaadien.Repository.Read.{is_listed}
use yaadien.Repository.Write.{has_id}
use yaadien.Repository.History.Tables.{IsKeyed}
use yaadien.Repository.Search.{
  Request, is_approx, require_embedding, has_vector, row_of, live_among, rank_ids, ranked_rows,
  search_rows,
}
use yaadien.Repository.Search.Lookups.{
  All-both, All-Mem, row_count-take, row_count-select, OnSome-map, find_last_lem,
  IsDistinct-of_count,
}
use yaadien.Repository.Search.Results.{IsFound, IsAnswer, ranked_rows_lem}

-- Db2 ranks the rows that it is given and drops none; it may refuse APPROX as a syntax error.
abbrev pub Ranks : Env → Type 0
Ranks e =
    (q : Query) (l : List Memory)
    → ((ranked : List Memory) × (e.nearest q l ≡ ok ranked)
        × ((p : Memory → Bool) → row_count p ranked ≡ row_count p l))
      ⊎ ((q.approx ≡ true) × (e.nearest q l ≡ err syntax_error))

abbrev implied : (Memory → Bool) → Ident → Memory → Bool
implied p i m = not (has_id i m) || p m

All-implied_of_none :
    (p : Memory → Bool) (i : Ident) (l : List Memory)
    → row_count (has_id i) l ≡ 0
    → All (λ m. implied p i m ≡ true) l
unfolding row_count
All-implied_of_none p i [] h = tt
All-implied_of_none p i (m ∷ l) h = ground (arith, All-implied_of_none p i l)

pub row_count-and :
    (q p : Memory → Bool) (l : List Memory) → row_count (λ m. q m && p m) l ≤ row_count q l
unfolding row_count
row_count-and q p [] = omega arith
row_count-and q p (m ∷ l) = ground (arith, row_count-and q p l)

-- Under distinct ids, what one row of an id passes all rows of the id pass.
All-implied_of_keyed :
    (p : Memory → Bool) (i : Ident) (l : List Memory)
    → IsKeyed l
    → 0 < row_count (λ m. has_id i m && p m) l
    → All (λ m. implied p i m ≡ true) l
unfolding row_count
All-implied_of_keyed p i [] k h = tt
All-implied_of_keyed p i (m ∷ l) k h = elim (Bool-cases (m.id == i)) [
  | inl e ↦
      let same = (==_iff m.id i).0 e in
      let alone : row_count (has_id i) l ≡ 0 = rw (← same) k.0 in
      (ground (arith, e, alone, row_count-and (has_id i) p l), All-implied_of_none p i l alone)
  | inr e ↦ (ground (arith, e), All-implied_of_keyed p i l k.1 (ground (arith, e)))
]

count-map_id : (i : Ident) (l : List Memory) → count i (map (λ m. m.id) l) ≡ row_count (has_id i) l
unfolding row_count
count-map_id i [] = refl
count-map_id i (m ∷ l) = ground (arith, count-map_id i l)

pub length-map_id : (l : List Memory) → length (map (λ m. m.id) l) ≡ length l
length-map_id [] = refl
length-map_id (m ∷ l) = omega (arith, length-map_id l)

pub row_count-of_keyed : (i : Ident) (l : List Memory) → IsKeyed l → row_count (has_id i) l ≤ 1
unfolding row_count
row_count-of_keyed i [] k = omega arith
row_count-of_keyed i (m ∷ l) k = ground (arith, row_count-of_keyed i l)

pub rank_ids_lem :
    (e : Env) (req : Request) (l : List Memory)
    → Ranks e
    → (ranked : List Memory) × (rank_ids e req l ≡ ok ranked)
      × ((p : Memory → Bool) → row_count p ranked ≡ row_count p l)
unfolding rank_ids
rank_ids_lem e req l ranks =
    let query : Query = record {
      vector = req.query_embedding;
      metric = req.metric;
      approx = is_approx req.mode;
    } in
    elim (ranks query l) [
      | inl (ranked, h, same) ↦ (ranked, rw (rank_ids, h) refl, same)
      | inr (a, h) ↦ elim (ranks (record query { approx = false }) l) [
        | inl (ranked, g, same) ↦ (ranked, rw (rank_ids, h, a, g) refl, same)
        | inr (b, g) ↦ absurd (ground (arith, b))
      ]
    ]

module _ (e : Env) (r : Repository) (req : Request) (db : Db) (parts : List Predicate)
    (agent : req.scope.agent_id ≢ 0) (embedded : require_embedding req.query_embedding ≡ ok tt)
    (built : build_metadata_filter req.metadata_filter ≡ ok parts) (ranks : Ranks e)
    (keyed : IsKeyed (rows r.table db)) where
  -- the WHERE clause that every search applies
  abbrev pub listed : Memory → Bool
  listed = is_listed e r.table req.scope req.include_expired req.min_confidence parts db.ticks

  abbrev pub ranked_test : Memory → Bool
  ranked_test m = listed m && has_vector r m

  -- a row of the table that the ranking statement goes through
  abbrev pub IsRanked : Memory → Type 0
  IsRanked m = (ranked_test m ≡ true) × Mem m (rows r.table db)

  -- the number of ids that the ranking statement fetches
  abbrev fetch_k : ℕ
  fetch_k = if req.hybrid then min (min req.top_k 200 * 4) 800 else min req.top_k 200

  module _ (ranked : List Memory)
      (same : (p : Memory → Bool)
        → row_count p ranked ≡ row_count p (select ranked_test (rows r.table db))) where
    abbrev pub fetched : List Ident
    fetched = map (λ m. m.id) (take fetch_k ranked)

    pub count-fetched :
        (i : Ident)
        → count i fetched ≤ row_count (λ m. has_id i m && ranked_test m) (rows r.table db)
    count-fetched i = omega (
      arith,
      count-map_id i (take fetch_k ranked),
      row_count-take (has_id i) fetch_k ranked,
      same (has_id i),
      row_count-select (has_id i) ranked_test (rows r.table db),
    )

    pub fetched-IsDistinct : IsDistinct fetched
    fetched-IsDistinct = IsDistinct-of_count fetched (λ i. omega (
      arith,
      count-fetched i,
      row_count-and (has_id i) ranked_test (rows r.table db),
      row_count-of_keyed i (rows r.table db) keyed,
    ))

    fetched-IsFound : IsFound IsRanked (select (live_among fetched) (rows r.table db)) fetched
    fetched-IsFound i pos =
        let P = λ (m : Memory). (implied ranked_test i m ≡ true) × Mem m (rows r.table db) in
        OnSome-map (λ m. P m × (has_id i m ≡ true)) IsRanked
          (λ m h. (ground (arith, h.0.0, h.1), h.0.1))
          (row_of (select (live_among fetched) (rows r.table db)) i)
          (find_last_lem P (has_id i) (select (live_among fetched) (rows r.table db)) (
            All-select_of_All P (live_among fetched) (rows r.table db) (
              All-both (λ m. implied ranked_test i m ≡ true) (λ m. Mem m (rows r.table db))
                (rows r.table db)
                (All-implied_of_keyed ranked_test i (rows r.table db) keyed
                  (omega (arith, count-fetched i, pos)))
                (All-Mem (rows r.table db)))))

    length-fetched : req.hybrid ≡ false → length fetched ≤ min req.top_k 200
    length-fetched h = rw h (
        omega (
          arith,
          length-map_id (take (min req.top_k 200) ranked),
          length-take (min req.top_k 200) ranked,
        ))

    pub search_rows_eq :
        rank_ids e req (select ranked_test (rows r.table db)) ≡ ok ranked
        → search_rows e r req db
          ≡ ranked_rows e req
              (min req.top_k 200)
              fetched
              (select (live_among fetched) (rows r.table db))
    unfolding search_rows require_agent_id
    search_rows_eq h = rw (embedded, built, h) (ground arith)

  pub search_rows_lem : IsAnswer IsRanked (min req.top_k 200) (search_rows e r req db)
  search_rows_lem =
      let (ranked, h, same) = rank_ids_lem e req (select ranked_test (rows r.table db)) ranks in
      rw (search_rows_eq ranked same h) (
        ranked_rows_lem e req (min req.top_k 200) IsRanked
          (select (live_among (fetched ranked same)) (rows r.table db)) (fetched ranked same)
          (fetched-IsDistinct ranked same) (length-fetched ranked same)
          (fetched-IsFound ranked same))
