-- ===== src/Chunking/Windows.antt =====
-- What the windows of `split_chunks` hold.
use yaadien.Prelude.{
  ℕ, zero, suc, ◌+◌, ◌-◌, ◌≤◌, ◌<◌, ◌≡◌, ◌∙◌, inl, inr, List, [], ◌∷◌, ◌++◌, arith, leb, lt→ltb,
  leb→le, Bool-cases, length, drop, length-take, length-drop, take_of_length-le, take-append-drop,
  drop-drop, drop-append_of_le, All, min,
}
use yaadien.Model.{ok, err, value_error}
use yaadien.Prelude.{◌↔◌, ◌⊎◌}
use yaadien.Chunking.{slice, split_loop, split_chunks}
use mathlib.Core.List.{append-nil}

module _ {ℓ} {A : Type ℓ} where
  -- What the chunks after the first add: each without the `overlap` characters that it repeats.
  abbrev pub additions : ℕ → List (List A) → List A
  additions overlap [] = []
  additions overlap (c ∷ cs) = drop overlap c ++ additions overlap cs

  abbrev pub rejoin : ℕ → List (List A) → List A
  rejoin overlap [] = []
  rejoin overlap (c ∷ cs) = c ++ additions overlap cs

  module _ (text : List A) (size overlap : ℕ) (h : overlap < size) where
    slice-append-drop :
        (start : ℕ) → slice text start (start + size) ++ drop (start + size) text ≡ drop start text
    slice-append-drop start =
        let e : start + size - start ≡ size = omega arith in
        rw (e, ← drop-drop start size text) (take-append-drop size (drop start text))

    length-slice :
        (start : ℕ) → length (slice text start (start + size)) ≡ min size (length text - start)
    length-slice start =
        omega (arith, length-take (start + size - start) (drop start text), length-drop start text)

    -- The last window reaches the end of the text.
    last_slice :
        (start : ℕ) → length text ≤ start + size → slice text start (start + size) ≡ drop start text
    last_slice start k =
        take_of_length-le _ (drop start text) (omega (arith, length-drop start text))

    loop-additions :
        (fuel start : ℕ)
        → length text < fuel + start
        → start + overlap < length text
        → additions overlap (split_loop fuel text size (size - overlap) start)
          ≡ drop (start + overlap) text
    unfolding split_loop
    loop-additions zero start f k = absurd (omega arith)
    loop-additions (suc fuel) start f k = elim (Bool-cases (leb (length text) (start + size))) [
      | inl e ↦
          rw (lt→ltb start (length text) (omega arith), e, last_slice start (leb→le _ _ e))
            (append-nil (drop overlap (drop start text)) ∙ drop-drop start overlap text)
      | inr e ↦
          let k' : start + size < length text = ground arith in
          let n : start + (size - overlap) + overlap ≡ start + size = omega arith in
          rw
            (
              lt→ltb start (length text) (omega arith),
              e,
              loop-additions fuel (start + (size - overlap)) (omega arith) (omega arith),
              n,
              ← drop-append_of_le overlap (slice text start (start + size))
                  (drop (start + size) text) (omega (arith, length-slice start)),
              slice-append-drop start,
            )
            (drop-drop start overlap text)
    ]

    loop-sizes :
        (fuel start : ℕ)
        → All (λ c. length c ≤ size) (split_loop fuel text size (size - overlap) start)
    unfolding split_loop
    loop-sizes zero start = tt
    loop-sizes (suc fuel) start =
        ground (arith, length-slice start, loop-sizes fuel (start + (size - overlap)))

    abbrev windows : List (List A)
    windows = split_loop (suc (length text)) text size (size - overlap) 0

    windows-shape :
        size < length text
        → windows
          ≡ slice text 0 (0 + size)
            ∷ split_loop (length text) text size (size - overlap) (0 + (size - overlap))
    unfolding split_loop
    windows-shape k = ground arith

    rejoin-windows : size < length text → rejoin overlap windows ≡ text
    rejoin-windows k =
        let n : 0 + (size - overlap) + overlap ≡ 0 + size = omega arith in
        rw
          (
            windows-shape k,
            loop-additions (length text) (0 + (size - overlap)) (omega arith) (omega arith),
            n,
          )
          (slice-append-drop 0)

    windows-nonempty : size < length text → 0 < length windows
    windows-nonempty k = rw (windows-shape k) (omega arith)

    -- With an overlap below the size the call succeeds. The chunks, each after the first without
    -- the `overlap` characters that it repeats, join to the text; no chunk is longer than the
    -- size, and there is at least one.
    pub split_chunks-rejoin :
        (cs : List (List A)) × (split_chunks text size overlap ≡ ok cs)
        × (rejoin overlap cs ≡ text)
        × All (λ c. length c ≤ size) cs
        × (0 < length cs)
    unfolding split_chunks
    split_chunks-rejoin = elim (Bool-cases (leb (length text) size)) [
      | inl short ↦ (text ∷ [], ground arith, append-nil text, (leb→le _ _ short, tt), omega arith)
      | inr long ↦
          let k : size < length text = ground arith in
          (
            windows,
            ground arith,
            rejoin-windows k,
            loop-sizes (suc (length text)) 0,
            windows-nonempty k,
          )
    ]

-- The call raises ValueError exactly if the size is 0 or not above the overlap, whatever the text.
pub split_chunks-refused :
    (text : List ℕ) (size overlap : ℕ)
    → (split_chunks text size overlap ≡ err value_error) ↔ ((size ≡ 0) ⊎ (size ≤ overlap))
unfolding split_chunks
split_chunks-refused text size overlap = ground arith
