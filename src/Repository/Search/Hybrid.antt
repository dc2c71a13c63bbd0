-- ===== src/Repository/Search/Hybrid.antt =====
-- A hybrid search whose query text has no tokens ranks by distance alone.
use yaadien.Prelude.{
  ℕ, zero, suc, ◌*◌, ◌≤◌, ◌<◌, ◌≡◌, ◌≢◌, refl, sym, ap, ◌∙◌, Bool, true, false, not, ◌&&◌, List, [],
  ◌∷◌, map, ◌==◌, arith, Bool-cases, inl, inr, length, take, min, length-take, take_of_length-le,
  is_none, ==_iff,
}
use yaadien.Prelude.Table.{select, row_count}
use yaadien.Model.{Ident, Memory, ok}
use yaadien.Filter.{Predicate, build_metadata_filter}
use yaadien.Db.{Db, Env, rows}
use yaadien.Ranking.{keyword_tokens, rrf_k}
use yaadien.Ranking.Fusion.{count, IsDistinct, IsDecreasing, rrf_fuse_self}
use yaadien.Repository.{Repository}
use yaadien.Repository.Write.{has_id}
use yaadien.Repository.History.Tables.{IsKeyed}
use yaadien.Repository.Search.{
  Request, require_embedding, find_last, contains, row_of, pick_present, live_ids, live_among,
  ranked_rows, rank_ids, search_rows,
}
use yaadien.Repository.Search.Lookups.{row_count-take}
use yaadien.Repository.Search.Results.{pick_all_lem}
use yaadien.Repository.Search.Sound.{
  Ranks, ranked_test, fetched, count-fetched, fetched-IsDistinct, search_rows_eq, rank_ids_lem,
  length-map_id,
}

-- every id of the list has a row
abbrev HasRows : List Memory → List Ident → Type 0
HasRows found ids = (i : Ident) → 0 < count i ids → is_none (row_of found i) ≡ false

select_all :
    (p : Ident → Bool) (l : List Ident)
    → ((i : Ident) → 0 < count i l → p i ≡ true)
    → select p l ≡ l
unfolding select row_count
select_all p [] h = refl
select_all p (i ∷ l) h =
    rw (h i (ground arith)) (ap (λ t. i ∷ t) (select_all p l (λ j q. h j (ground arith))))

find_last_of_count :
    (p : Memory → Bool) (l : List Memory) → 0 < row_count p l → is_none (find_last p l) ≡ false
unfolding find_last row_count
find_last_of_count p [] h = absurd (omega arith)
find_last_of_count p (m ∷ l) h = ground (arith, find_last_of_count p l)

contains_of_count : (i : Ident) (l : List Ident) → 0 < count i l → contains i l ≡ true
unfolding contains row_count
contains_of_count i [] h = absurd (omega arith)
contains_of_count i (j ∷ l) h = ground (arith, contains_of_count i l)

row_count_mono :
    (p q : Memory → Bool) (l : List Memory)
    → ((m : Memory) → p m ≡ true → q m ≡ true)
    → row_count p l ≤ row_count q l
unfolding row_count
row_count_mono p q [] h = omega arith
row_count_mono p q (m ∷ l) h = ground (arith, h m, row_count_mono p q l h)

-- Two tables of rows that agree on the ids give the same rows.
pick_present_same :
    (found other : List Memory) (ids : List Ident)
    → ((i : Ident) → 0 < count i ids → row_of found i ≡ row_of other i)
    → pick_present found ids ≡ pick_present other ids
unfolding pick_present
pick_present_same found other [] h = refl
pick_present_same found other (i ∷ ids) h =
    let rest = pick_present_same found other ids (λ j q. h j (unfold row_count in ground arith)) in
    let first = h i (unfold row_count in ground arith) in ground (arith, first, rest)

module _ (e : Env) (req : Request) (k : ℕ) (found : List Memory) where
  ranked_rows_plain :
      (ids : List Ident)
      → req.hybrid ≡ false
      → ranked_rows e req k ids found ≡ ok (pick_present found ids)
  unfolding ranked_rows pick_present
  ranked_rows_plain [] h = refl
  ranked_rows_plain (i ∷ ids) h = rw h refl

  ranked_rows_hybrid :
      (ids : List Ident)
      → req.hybrid ≡ true
      → keyword_tokens e req.query_text ≡ []
      → IsDistinct ids
      → HasRows found ids
      → IsDecreasing e rrf_k (length ids)
      → ranked_rows e req k ids found ≡ ok (pick_present found (take k ids))
  unfolding ranked_rows pick_present
  ranked_rows_hybrid [] h words d live dec =
      let none_left : take {A = Ident} k [] ≡ [] = take_of_length-le k [] (omega arith) in
      rw none_left refl
  ranked_rows_hybrid (i ∷ ids) h words d live dec =
      rw (h, words, all_live, rrf_fuse_self e rrf_k (i ∷ ids) d dec)
        (pick_all_lem found (take k (i ∷ ids))
          (λ j q. live j (omega (arith, row_count-take (λ x. x == j) k (i ∷ ids)))))
    where
      all_live : live_ids found (i ∷ ids) ≡ i ∷ ids
      all_live =
          unfold live_ids in
          select_all (λ j. not (is_none (row_of found j))) (i ∷ ids) (λ j q. ground (arith, live j))

-- a row under an id that has no tombstone
abbrev lives : Ident → Memory → Bool
lives i m = has_id i m && is_none m.deleted_at

row_of_live :
    (ids : List Ident) (i : Ident) (l : List Memory)
    → contains i ids ≡ true
    → row_of (select (live_among ids) l) i ≡ find_last (lives i) l
unfolding select find_last
row_of_live ids i [] h = refl
row_of_live ids i (m ∷ l) h = elim (Bool-cases (m.id == i)) [
  | inl e ↦
      let listed : contains m.id ids ≡ true = rw ((==_iff m.id i).0 e) h in
      ground (arith, row_of_live ids i l h, e, listed)
  | inr e ↦ ground (arith, row_of_live ids i l h, e)
]

take-map_id :
    (k f : ℕ) (l : List Memory)
    → k ≤ f
    → take k (map (λ m. m.id) (take f l)) ≡ map (λ m. m.id) (take k l)
take-map_id zero f l h = refl
take-map_id (suc k) zero l h = absurd (omega arith)
take-map_id (suc k) (suc f) [] h = refl
take-map_id (suc k) (suc f) (m ∷ l) h = ap (λ t. m.id ∷ t) (take-map_id k f l (omega arith))

module _ (e : Env) (r : Repository) (req : Request) (db : Db) (parts : List Predicate)
    (agent : req.scope.agent_id ≢ 0) (embedded : require_embedding req.query_embedding ≡ ok tt)
    (built : build_metadata_filter req.metadata_filter ≡ ok parts) (ranks : Ranks e)
    (keyed : IsKeyed (rows r.table db)) (words : keyword_tokens e req.query_text ≡ [])
    (decreasing : IsDecreasing e rrf_k 800) where
  abbrev plain : Request
  plain = record req { hybrid = false }

  abbrev blended : Request
  blended = record req { hybrid = true }

  abbrev top : ℕ
  top = min req.top_k 200

  module _ (ranked : List Memory)
      (same : (p : Memory → Bool)
        → row_count p ranked
          ≡ row_count p (
              select
                (ranked_test e r req db parts agent embedded built ranks keyed)
                (rows r.table db))) where
    abbrev near : List Ident
    near = fetched e r plain db parts agent embedded built ranks keyed ranked same

    abbrev far : List Ident
    far = fetched e r blended db parts agent embedded built ranks keyed ranked same

    near-far : take top far ≡ near
    near-far = take-map_id top (min (top * 4) 800) ranked (omega arith)

    abbrev found_of : List Ident → List Memory
    found_of ids = select (live_among ids) (rows r.table db)

    far-HasRows : HasRows (found_of far) far
    far-HasRows i pos =
        let test = ranked_test e r req db parts agent embedded built ranks keyed in
        let all = rows r.table db in
        rw (row_of_live far i all (contains_of_count i far pos)) (
          find_last_of_count (lives i) all (
            omega (
              arith,
              pos,
              count-fetched e r blended db parts agent embedded built ranks keyed ranked same i,
              row_count_mono (λ m. has_id i m && test m) (lives i) all (λ m h. ground (arith, h)),
            )))

    length-far : length far ≤ 800
    length-far = omega (
      arith,
      length-map_id (take (min (top * 4) 800) ranked),
      length-take (min (top * 4) 800) ranked,
    )

    far_of_near : (i : Ident) → 0 < count i near → 0 < count i far
    far_of_near i pos =
        let fewer : count i (take top far) ≤ count i far = row_count-take (λ j. j == i) top far in
        let same_near : count i (take top far) ≡ count i near = ap (count i) near-far in
        omega (arith, pos, fewer, same_near)

    same_rows : pick_present (found_of far) near ≡ pick_present (found_of near) near
    same_rows = pick_present_same (found_of far) (found_of near) near (λ i pos.
        row_of_live far i (rows r.table db) (contains_of_count i far (far_of_near i pos))
        ∙ sym (row_of_live near i (rows r.table db) (contains_of_count i near pos)))

    blended_rows :
        ranked_rows e blended top far (found_of far) ≡ ranked_rows e plain top near (found_of near)
    blended_rows =
        ranked_rows_hybrid e blended top (found_of far) far refl words
          (fetched-IsDistinct e r blended db parts agent embedded built ranks keyed ranked same)
          far-HasRows (λ a b p q s. decreasing a b p q (omega (arith, s, length-far)))
        ∙ ap (λ ids. ok (pick_present (found_of far) ids)) near-far
        ∙ ap (λ l. ok l) same_rows
        ∙ sym (ranked_rows_plain e plain top (found_of near) near refl)

  -- A hybrid search in the rows of a table whose query text has no tokens returns what the search
  -- without keywords returns: it fetches up to four times as many rows, fuses their ranking with
  -- itself, and takes the first. It is assumed that the rows have distinct ids, that the ranking
  -- statement keeps the rows it is given or refuses the word APPROX, and that twice the reciprocal
  -- of a rank is less the later the rank, up to rank 800.
  pub search_rows_hybrid :
      search_rows e r (record req { hybrid = true }) db
      ≡ search_rows e r (record req { hybrid = false }) db
  unfolding rank_ids
  search_rows_hybrid =
      let test = ranked_test e r req db parts agent embedded built ranks keyed in
      let (ranked, h, same) = rank_ids_lem e req (select test (rows r.table db)) ranks in
      search_rows_eq e r blended db parts agent embedded built ranks keyed ranked same h
      ∙ blended_rows ranked same
      ∙ sym (search_rows_eq e r plain db parts agent embedded built ranks keyed ranked same h)
