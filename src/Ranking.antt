-- ===== src/Ranking.antt =====
-- The ranking functions of src/agent_memory_sdk/repositories/base.py: `_keyword_tokens` and
-- `_rrf_fuse`.
pub mod Fusion
use yaadien.Prelude.{
  ℕ, ◌+◌, Bool, true, false, ◌&&◌, ◌||◌, not, Option, none, some, List, [], ◌∷◌, map, ltb, leb,
  ◌==◌, if◌then◌else◌, text_eq,
}
use yaadien.Prelude.Table.{select, row_count}
use yaadien.Prelude.Sorting.{sort_stable}
use yaadien.Model.{Ident, Text, Double}
use yaadien.Db.{Env}

abbrev pub is_token_char : ℕ → Bool
is_token_char c = leb b'a' c && leb c b'z' || (leb b'0' c && leb c b'9')

abbrev pub starts_token : Text → Bool
starts_token [] = false
starts_token (c ∷ s) = is_token_char c

abbrev pub onto_first : ℕ → List Text → List Text
onto_first c [] = (c ∷ []) ∷ []
onto_first c (t ∷ ts) = (c ∷ t) ∷ ts

-- `re.findall(r"[a-z0-9]+", text)`
unfoldable pub find_tokens : Text → List Text
find_tokens [] = []
find_tokens (c ∷ s) =
    let rest = find_tokens s in
    if is_token_char c
    then (if starts_token s then onto_first c rest else (c ∷ []) ∷ rest)
    else rest

unfoldable pub has_token : Text → List Text → Bool
unfolding text_eq
has_token t [] = false
has_token t (u ∷ us) = if text_eq u t then true else has_token t us

-- The items of a `frozenset`, each once.
unfoldable pub distinct_tokens : List Text → List Text
unfolding has_token
distinct_tokens [] = []
distinct_tokens (t ∷ ts) =
    let rest = distinct_tokens ts in if has_token t rest then rest else t ∷ rest

unfoldable pub keyword_tokens : Env → Text → List Text
unfolding find_tokens distinct_tokens
keyword_tokens e text = distinct_tokens (find_tokens (e.lower text))

-- `len(query_tokens & tokens)`
unfoldable pub overlap : List Text → List Text → ℕ
unfolding has_token
overlap query tokens = row_count (λ t. has_token t tokens) query

-- `_RRF_K`
abbrev pub rrf_k : ℕ
rrf_k = 60

-- `scores[id_] = scores.get(id_, 0.0) + x`, in a dict that keeps the order of its first insertions
unfoldable pub add_score : Env → Ident → Double → List (Ident × Double) → List (Ident × Double)
add_score e i x [] = (i, e.add 0 x) ∷ []
add_score e i x ((j, s) ∷ scores) =
    let rest = add_score e i x scores in if j == i then (j, e.add s x) ∷ scores else (j, s) ∷ rest

-- `for rank, id_ in enumerate(order, start=rank)`
unfoldable pub score_all : Env → ℕ → ℕ → List Ident → List (Ident × Double) → List (Ident × Double)
unfolding add_score
score_all e k rank [] scores = scores
score_all e k rank (i ∷ order) scores =
    score_all e k (rank + 1) order (add_score e i (e.reciprocal (k + rank)) scores)

abbrev pub higher : Ident × Double → Ident × Double → Bool
higher y x = ltb x.1 y.1

unfoldable pub rrf_fuse : Env → ℕ → List Ident → List Ident → List Ident
unfolding score_all
rrf_fuse e k vector_order keyword_order =
    map (λ s. s.0)
      (sort_stable higher (score_all e k 1 keyword_order (score_all e k 1 vector_order [])))
