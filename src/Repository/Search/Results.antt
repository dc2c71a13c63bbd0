-- ===== src/Repository/Search/Results.antt =====
-- What `ranked_rows` returns: rows of the ids that were ranked, each once, and no more than asked for.
use yaadien.Prelude.{
  ℕ, ◌≤◌, ◌<◌, ◌≡◌, refl, Bool, true, false, not, none, some, List, [], ◌∷◌, ◌==◌, if◌then◌else◌,
  arith, All, Bool-cases, Option-cases, inl, inr, length, take, length-take, is_none, ==_iff,
}
use yaadien.Prelude.Table.{select, row_count}
use yaadien.Prelude.Sorting.{row_count-sort_stable}
use mathlib.Core.Path.{subst}
use yaadien.Model.{Ident, Text, Memory, Result, ok}
use yaadien.Db.{Env}
use yaadien.Ranking.{keyword_tokens, rrf_k, rrf_fuse}
use yaadien.Ranking.Fusion.{count, at_most_once, rrf_fuse_lem, IsDistinct}
use yaadien.Repository.Write.{has_id}
use yaadien.Repository.History.Tables.{IsKeyed}
use yaadien.Repository.Search.{
  Request, row_of, pick_present, pick_all, live_ids, keyword_order, ranked_rows,
}
use yaadien.Repository.Search.Lookups.{row_count-take, OnSome, find_last_lem, IsDistinct-of_count}

pick_present-none :
    (found : List Memory) (i : Ident) (ids : List Ident)
    → row_of found i ≡ none
    → pick_present found (i ∷ ids) ≡ pick_present found ids
unfolding pick_present
pick_present-none found i ids e = rw (pick_present, e) refl

pick_present-some :
    (found : List Memory) (i : Ident) (ids : List Ident) (m : Memory)
    → row_of found i ≡ some m
    → pick_present found (i ∷ ids) ≡ m ∷ pick_present found ids
unfolding pick_present
pick_present-some found i ids m e = ground (arith, e)

id_of_row : (found : List Memory) (i : Ident) (m : Memory) → row_of found i ≡ some m → m.id ≡ i
id_of_row found i m e =
    let h : OnSome (λ x. Unit × (has_id i x ≡ true)) (row_of found i) =
      find_last_lem (λ x. Unit) (has_id i) found (all found) in
    let g = subst (OnSome (λ x. Unit × (has_id i x ≡ true))) e h in (==_iff m.id i).0 g.1
  where
    all : (l : List Memory) → All (λ x. Unit {0}) l
    all [] = tt
    all (m ∷ l) = (tt, all l)

-- The rows picked are those of the ids, in their order.
count-pick_present :
    (found : List Memory) (ids : List Ident) (i : Ident)
    → row_count (has_id i) (pick_present found ids) ≤ count i ids
unfolding row_count
count-pick_present found [] i = unfold pick_present in omega arith
count-pick_present found (j ∷ ids) i = elim (Option-cases (row_of found j)) [
  | inl e ↦ rw (pick_present-none found j ids e) (ground (arith, count-pick_present found ids i))
  | inr (m, e) ↦
      rw (pick_present-some found j ids m e)
        (ground (arith, id_of_row found j m e, count-pick_present found ids i))
]

length-pick_present :
    (found : List Memory) (ids : List Ident) → length (pick_present found ids) ≤ length ids
length-pick_present found [] = unfold pick_present in omega arith
length-pick_present found (j ∷ ids) = elim (Option-cases (row_of found j)) [
  | inl e ↦ rw (pick_present-none found j ids e) (omega (arith, length-pick_present found ids))
  | inr (m, e) ↦
      rw (pick_present-some found j ids m e) (omega (arith, length-pick_present found ids))
]

pick_present-IsKeyed :
    (found : List Memory) (ids : List Ident) → IsDistinct ids → IsKeyed (pick_present found ids)
pick_present-IsKeyed found [] d = unfold pick_present in tt
pick_present-IsKeyed found (i ∷ ids) d = elim (Option-cases (row_of found i)) [
  | inl e ↦ rw (pick_present-none found i ids e) (pick_present-IsKeyed found ids d.1)
  | inr (m, e) ↦ rw (pick_present-some found i ids m e) (
    rw (id_of_row found i m e) (omega (arith, count-pick_present found ids i, d.0)),
    pick_present-IsKeyed found ids d.1,
  )
]

-- what a row must be that was found under a ranked id
abbrev pub IsFound : (Memory → Type 0) → List Memory → List Ident → Type 0
IsFound P found ids = (i : Ident) → 0 < count i ids → OnSome P (row_of found i)

All-pick_present :
    (P : Memory → Type 0) (found : List Memory) (ids : List Ident)
    → IsFound P found ids
    → All P (pick_present found ids)
All-pick_present P found [] h = unfold pick_present in tt
All-pick_present P found (i ∷ ids) h =
    let later : All P (pick_present found ids) =
      All-pick_present P found ids (λ j q. h j (unfold row_count in ground arith)) in
    let first : OnSome P (row_of found i) = h i (unfold row_count in ground arith) in
    elim (Option-cases (row_of found i)) [
      | inl e ↦ rw (pick_present-none found i ids e) later
      | inr (m, e) ↦ rw (pick_present-some found i ids m e) (subst (OnSome P) e first, later)
    ]

-- A search that picks only ids with a row raises no KeyError.
pub pick_all_lem :
    (found : List Memory) (ids : List Ident)
    → ((i : Ident) → 0 < count i ids → is_none (row_of found i) ≡ false)
    → pick_all found ids ≡ ok (pick_present found ids)
unfolding pick_all pick_present
pick_all_lem found [] h = refl
pick_all_lem found (i ∷ ids) h =
    let later = pick_all_lem found ids (λ j q. h j (unfold row_count in ground arith)) in
    let first = h i (unfold row_count in ground arith) in
    elim (Option-cases (row_of found i)) [
      | inl e ↦ ground (arith, e, first)
      | inr (m, e) ↦ rw (pick_all, e, later, pick_present-some found i ids m e) refl
    ]

count-select :
    (p : Ident → Bool) (l : List Ident) (i : Ident)
    → count i (select p l) ≡ (if p i then count i l else 0)
unfolding row_count select
count-select p [] i = ground arith
count-select p (j ∷ l) i = elim (Bool-cases (j == i)) [
  | inl e ↦ let same = (==_iff j i).0 e in rw same (ground (arith, count-select p l i))
  | inr e ↦ ground (arith, count-select p l i, e)
]

count-live_ids :
    (found : List Memory) (ids : List Ident) (i : Ident)
    → count i (live_ids found ids) ≡ (if is_none (row_of found i) then 0 else count i ids)
unfolding live_ids
count-live_ids found ids i =
    ground (arith, count-select (λ j. not (is_none (row_of found j))) ids i)

count-keyword_order :
    (e : Env) (query : List Text) (found : List Memory) (live : List Ident) (i : Ident)
    → count i (keyword_order e query found live) ≡ count i live
unfolding keyword_order
count-keyword_order e [] found live i = refl
count-keyword_order e (t ∷ query) found live i = row_count-sort_stable _ (λ j. j == i) live

-- A search returns at most `k` rows, under distinct ids, of which `P` holds.
abbrev pub IsAnswer : (Memory → Type 0) → ℕ → Result (List Memory) → Type 0
IsAnswer P k result = (l : List Memory) × (result ≡ ok l) × All P l × (length l ≤ k) × IsKeyed l

module _ (e : Env) (req : Request) (k : ℕ) (P : Memory → Type 0) (found : List Memory) where
  -- the hybrid ranking of ids
  abbrev fused : List Ident → List Ident
  fused ids =
      let live = live_ids found ids in
      rrf_fuse e rrf_k live (keyword_order e (keyword_tokens e req.query_text) found live)

  count-fused :
      (ids : List Ident) (i : Ident)
      → count i (fused ids) ≡ at_most_once (if is_none (row_of found i) then 0 else count i ids)
  count-fused ids i =
      let live = live_ids found ids in
      let words = keyword_tokens e req.query_text in
      let c1 = rrf_fuse_lem e rrf_k live (keyword_order e words found live) i in
      let c2 = count-keyword_order e words found live i in
      let c3 = count-live_ids found ids i in ground (arith, c1, c2, c3)

  abbrev fused_top : List Ident → List Ident
  fused_top ids = take k (fused ids)

  -- The best of the fused ranking are ids with a row, each once.
  count-fused_top :
      (ids : List Ident) (i : Ident)
      → count i (fused_top ids) ≤ at_most_once (if is_none (row_of found i) then 0 else count i ids)
  count-fused_top ids i =
      omega (arith, row_count-take (λ j. j == i) k (fused ids), count-fused ids i)

  pub ranked_rows_lem :
      (ids : List Ident)
      → IsDistinct ids
      → (req.hybrid ≡ false → length ids ≤ k)
      → IsFound P found ids
      → IsAnswer P k (ranked_rows e req k ids found)
  unfolding ranked_rows
  ranked_rows_lem [] d s h = ([], refl, tt, omega arith, tt)
  ranked_rows_lem (i ∷ ids) d s h = elim (Bool-cases req.hybrid) [
    | inr e ↦ rw e (
      pick_present found (i ∷ ids),
      refl,
      All-pick_present P found (i ∷ ids) h,
      omega (arith, length-pick_present found (i ∷ ids), s e),
      pick_present-IsKeyed found (i ∷ ids) d,
    )
    | inl e ↦ rw e (
      pick_present found (fused_top (i ∷ ids)),
      pick_all_lem found (fused_top (i ∷ ids)) (λ j q. ground (arith, count-fused_top (i ∷ ids) j)),
      All-pick_present P found (fused_top (i ∷ ids))
          (λ j q. h j (ground (arith, count-fused_top (i ∷ ids) j))),
      omega
          (arith, length-pick_present found (fused_top (i ∷ ids)), length-take k (fused (i ∷ ids))),
      pick_present-IsKeyed found (fused_top (i ∷ ids)) (
          IsDistinct-of_count (fused_top (i ∷ ids))
            (λ j. ground (arith, count-fused_top (i ∷ ids) j))),
    )
  ]
