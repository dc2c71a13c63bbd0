-- ===== src/Chunking.antt =====
-- `_split_chunks` of src/agent_memory_sdk/repositories/base.py. Lengths are natural numbers, so a
-- negative size or overlap is not modelled.
pub mod Windows
use yaadien.Prelude.{
  ℕ, zero, suc, ◌+◌, ◌-◌, Bool, List, [], ◌∷◌, ltb, leb, if◌then◌else◌, length, take, drop,
}
use yaadien.Model.{Result, ok, err, value_error}

module _ {ℓ} {A : Type ℓ} where
  -- `text[start:end]`
  abbrev pub slice : List A → ℕ → ℕ → List A
  slice text start end = take (end - start) (drop start text)

  -- The `while` loop, from `start`. The fuel bounds the rounds; `split_chunks` gives one for each
  -- character, and one more.
  split_loop : ℕ → List A → ℕ → ℕ → ℕ → List (List A)
  split_loop zero text chunk_size step start = []
  split_loop (suc fuel) text chunk_size step start =
      let end = start + chunk_size in
      let chunk = slice text start end in
      let next = chunk ∷ split_loop fuel text chunk_size step (start + step) in
      if ltb start (length text) then (if leb (length text) end then chunk ∷ [] else next) else []

  unfoldable pub split_chunks : List A → ℕ → ℕ → Result (List (List A))
  unfolding split_loop
  split_chunks text chunk_size chunk_overlap =
      if ltb chunk_size 1
      then err value_error
      else if leb chunk_size chunk_overlap
      then err value_error
      else if leb (length text) chunk_size
      then ok (text ∷ [])
      else ok (split_loop (suc (length text)) text chunk_size (chunk_size - chunk_overlap) 0)
