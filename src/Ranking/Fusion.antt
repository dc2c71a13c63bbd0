-- ===== src/Ranking/Fusion.antt =====
-- What `_rrf_fuse` makes of two rankings.
use yaadien.Prelude.{
  ℕ, ◌+◌, ◌≤◌, ◌<◌, ◌≡◌, refl, sym, ap, ◌∙◌, false, List, [], ◌∷◌, ◌++◌, map, ltb, ◌==◌,
  if◌then◌else◌, length, arith, All,
}
use yaadien.Prelude.Table.{row_count, row_count-append}
use yaadien.Prelude.Sorting.{sort_stable, row_count-sort_stable, IsSorted, sort_stable_of_IsSorted}
use yaadien.Model.{Ident, Double}
use yaadien.Db.{Env}
use yaadien.Ranking.{add_score, score_all, higher, rrf_fuse}
use mathlib.Core.List.{append_assoc, append-nil}

-- how often an id stands in a ranking
abbrev pub count : Ident → List Ident → ℕ
count i l = row_count (λ j. j == i) l

abbrev pub count_scored : Ident → List (Ident × Double) → ℕ
count_scored i l = row_count (λ s. s.0 == i) l

abbrev pub at_most_once : ℕ → ℕ
at_most_once n = if ltb 0 n then 1 else 0

pub count-map :
    (i : Ident) (l : List (Ident × Double)) → count i (map (λ s. s.0) l) ≡ count_scored i l
unfolding row_count
count-map i [] = refl
count-map i (s ∷ l) = ground (arith, count-map i l)

-- An item scored more gains an entry only if it has none, so no id ever has two.
count-add_score :
    (e : Env) (i j : Ident) (x : Double) (l : List (Ident × Double))
    → count_scored i (add_score e j x l) ≡ (
        if j == i
        then (if ltb 0 (count_scored i l) then count_scored i l else 1)
        else count_scored i l)
unfolding row_count add_score
count-add_score e i j x [] = ground arith
count-add_score e i j x ((a, s) ∷ l) = ground (arith, count-add_score e i j x l)

count-score_all :
    (e : Env) (i : Ident) (k rank : ℕ) (order : List Ident) (scores : List (Ident × Double))
    → count_scored i scores ≤ 1
    → count_scored i (score_all e k rank order scores)
      ≡ at_most_once (count_scored i scores + count i order)
unfolding row_count score_all
count-score_all e i k rank [] scores h = ground arith
count-score_all e i k rank (j ∷ order) scores h =
    let next = add_score e j (e.reciprocal (k + rank)) scores in
    let added = count-add_score e i j (e.reciprocal (k + rank)) scores in
    let ih = count-score_all e i k (rank + 1) order next (ground arith) in ground arith

-- The fused ranking has every id of either ranking exactly once, and no other.
pub rrf_fuse_lem :
    (e : Env) (k : ℕ) (v w : List Ident) (i : Ident)
    → count i (rrf_fuse e k v w) ≡ at_most_once (count i v + count i w)
unfolding rrf_fuse
rrf_fuse_lem e k v w i =
    let first = score_all e k 1 v [] in
    let second = score_all e k 1 w first in
    let c1 : count_scored i first ≡ at_most_once (count_scored i [] + count i v) =
      count-score_all e i k 1 v [] (unfold row_count in omega arith) in
    let c2 = count-score_all e i k 1 w first (ground (arith, c1)) in
    count-map i (sort_stable higher second)
    ∙ row_count-sort_stable higher (λ s. s.0 == i) second
    ∙ c2
    ∙ (unfold row_count in ground (arith, c1))

-- the scores of a ranking alone, and of a ranking that was fused with itself
abbrev pub once : Env → ℕ → ℕ → Double
once e k rank = e.add 0 (e.reciprocal (k + rank))

abbrev pub twice : Env → ℕ → ℕ → Double
twice e k rank = e.add (once e k rank) (e.reciprocal (k + rank))

abbrev scored : (ℕ → Double) → ℕ → List Ident → List (Ident × Double)
scored f rank [] = []
scored f rank (i ∷ l) = (i, f rank) ∷ scored f (rank + 1) l

abbrev pub IsDistinct : List Ident → Type 0
IsDistinct [] = Unit
IsDistinct (i ∷ l) = (count i l ≡ 0) × IsDistinct l

-- no id of the list has an entry
abbrev AreNew : List Ident → List (Ident × Double) → Type 0
AreNew l scores = All (λ i. count_scored i scores ≡ 0) l

add_score_new :
    (e : Env) (i : Ident) (x : Double) (pre : List (Ident × Double))
    → count_scored i pre ≡ 0
    → add_score e i x pre ≡ pre ++ (i, e.add 0 x) ∷ []
unfolding row_count add_score
add_score_new e i x [] h = refl
add_score_new e i x ((j, s) ∷ pre) h = ground (arith, add_score_new e i x pre)

add_score_old :
    (e : Env) (i : Ident) (x s : Double) (pre post : List (Ident × Double))
    → count_scored i pre ≡ 0
    → add_score e i x (pre ++ (i, s) ∷ post) ≡ pre ++ (i, e.add s x) ∷ post
unfolding row_count add_score
add_score_old e i x s [] post h = ground arith
add_score_old e i x s ((j, r) ∷ pre) post h = ground (arith, add_score_old e i x s pre post)

still_new :
    (i : Ident) (s : Double) (pre : List (Ident × Double)) (l : List Ident)
    → count i l ≡ 0
    → AreNew l pre
    → AreNew l (pre ++ (i, s) ∷ [])
unfolding row_count
still_new i s pre [] h n = tt
still_new i s pre (j ∷ l) h n =
    ground (arith, row_count-append (λ t. t.0 == j) pre ((i, s) ∷ []), still_new i s pre l)

module _ (e : Env) (k : ℕ) where
  score_all_new :
      (rank : ℕ) (l : List Ident) (pre : List (Ident × Double))
      → IsDistinct l
      → AreNew l pre
      → score_all e k rank l pre ≡ pre ++ scored (once e k) rank l
  unfolding score_all
  score_all_new rank [] pre d n = sym (append-nil pre)
  score_all_new rank (i ∷ l) pre d n = rw (add_score_new e i (e.reciprocal (k + rank)) pre n.0) (
      score_all_new (rank + 1) l (pre ++ (i, once e k rank) ∷ []) d.1
        (still_new i (once e k rank) pre l d.0 n.1)
      ∙ append_assoc pre ((i, once e k rank) ∷ []) (scored (once e k) (rank + 1) l))

  score_all_again :
      (rank : ℕ) (l : List Ident) (pre : List (Ident × Double))
      → IsDistinct l
      → AreNew l pre
      → score_all e k rank l (pre ++ scored (once e k) rank l) ≡ pre ++ scored (twice e k) rank l
  unfolding score_all
  score_all_again rank [] pre d n = refl
  score_all_again rank (i ∷ l) pre d n =
      let next : Ident × Double = (i, twice e k rank) in
      rw
        (
          add_score_old e i (e.reciprocal (k + rank)) (once e k rank) pre
              (scored (once e k) (rank + 1) l) n.0,
          ← append_assoc pre (next ∷ []) (scored (once e k) (rank + 1) l),
          score_all_again (rank + 1) l (pre ++ next ∷ []) d.1
              (still_new i (twice e k rank) pre l d.0 n.1),
        )
        (append_assoc pre (next ∷ []) (scored (twice e k) (rank + 1) l))

  -- later ranks score less, up to the length of a ranking
  abbrev pub IsDecreasing : ℕ → Type 0
  IsDecreasing n = (r s : ℕ) → 1 ≤ r → r < s → s ≤ n → twice e k s < twice e k r

  below :
      (n r : ℕ) (i : Ident) (s : ℕ) (l : List Ident)
      → IsDecreasing n
      → 1 ≤ r
      → r < s
      → s + length l ≤ n + 1
      → All (λ y. higher y (i, twice e k r) ≡ false) (scored (twice e k) s l)
  below n r i s [] d p q u = tt
  below n r i s (j ∷ l) d p q u = (
    (let smaller = d r s p q (omega arith) in ground arith),
    below n r i (s + 1) l d p (omega arith) (omega arith),
  )

  scored-IsSorted :
      (n r : ℕ) (l : List Ident)
      → IsDecreasing n
      → 1 ≤ r
      → r + length l ≤ n + 1
      → IsSorted higher (scored (twice e k) r l)
  scored-IsSorted n r [] d p u = tt
  scored-IsSorted n r (i ∷ l) d p u = (
    below n r i (r + 1) l d p (omega arith) (omega arith),
    scored-IsSorted n (r + 1) l d (omega arith) (omega arith),
  )

  ids-scored : (f : ℕ → Double) (r : ℕ) (l : List Ident) → map (λ s. s.0) (scored f r l) ≡ l
  ids-scored f r [] = refl
  ids-scored f r (i ∷ l) = ap (λ t. i ∷ t) (ids-scored f (r + 1) l)

  -- A ranking without repetitions, fused with itself, stays as it is. It is assumed that twice the
  -- reciprocal of a later rank is less.
  pub rrf_fuse_self :
      (l : List Ident) → IsDistinct l → IsDecreasing (length l) → rrf_fuse e k l l ≡ l
  unfolding rrf_fuse
  rrf_fuse_self l d h =
      rw
        (
          score_all_new 1 l [] d (all_new l),
          score_all_again 1 l [] d (all_new l),
          sort_stable_of_IsSorted higher (scored (twice e k) 1 l)
              (scored-IsSorted (length l) 1 l h (omega arith) (omega arith)),
        )
        (ids-scored (twice e k) 1 l)
    where
      all_new : (l : List Ident) → AreNew l []
      all_new [] = tt
      all_new (i ∷ l) = (unfold row_count in refl, all_new l)
