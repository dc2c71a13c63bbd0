-- ===== src/Prelude/Sorting.antt =====
-- Python's `sorted`, which is stable, with the key as a test: `before y x` says that the key puts `y`
-- strictly in front of `x`.
use yaadien.Prelude.Tests.{if◌then◌else◌}
use yaadien.Prelude.Lists.{All}
use yaadien.Prelude.Table.{row_count}
use Prim.Native.Nat.{◌+◌}
use mathlib.Core.Path.{◌≡◌, refl, ap, ◌∙◌}
use mathlib.Core.Bool.{Bool, false}
use mathlib.Core.List.{List, [], ◌∷◌}
use native.Mathlib.Omega.{arith}

module _ {ℓ} {A : Type ℓ} (before : A → A → Bool) where
  -- An item goes in front of those that are equal to it: it stood in front of them.
  unfoldable pub insert_stable : A → List A → List A
  insert_stable x [] = x ∷ []
  insert_stable x (y ∷ ys) =
      let rest = insert_stable x ys in if before y x then y ∷ rest else x ∷ y ∷ ys

  unfoldable pub sort_stable : List A → List A
  unfolding insert_stable
  sort_stable [] = []
  sort_stable (x ∷ xs) = insert_stable x (sort_stable xs)

  row_count-insert_stable :
      (p : A → Bool) (x : A) (l : List A) → row_count p (insert_stable x l) ≡ row_count p (x ∷ l)
  unfolding row_count insert_stable
  row_count-insert_stable p x [] = refl
  row_count-insert_stable p x (y ∷ l) = ground (arith, row_count-insert_stable p x l)

  -- A sort keeps every item as often as it was.
  pub row_count-sort_stable :
      (p : A → Bool) (l : List A) → row_count p (sort_stable l) ≡ row_count p l
  unfolding row_count sort_stable
  row_count-sort_stable p [] = refl
  row_count-sort_stable p (x ∷ l) =
      row_count-insert_stable p x (sort_stable l)
      ∙ ap (λ n. (if p x then 1 else 0) + n) (row_count-sort_stable p l)

  -- No item stands behind one that it must precede.
  abbrev pub IsSorted : List A → Type ℓ
  IsSorted [] = Unit
  IsSorted (x ∷ l) = All (λ y. before y x ≡ false) l × IsSorted l

  head_stays : (x : A) (l : List A) → All (λ y. before y x ≡ false) l → insert_stable x l ≡ x ∷ l
  unfolding insert_stable
  head_stays x [] h = refl
  head_stays x (y ∷ l) h = rw h.0 refl

  -- What is sorted stays as it is.
  pub sort_stable_of_IsSorted : (l : List A) → IsSorted l → sort_stable l ≡ l
  unfolding sort_stable
  sort_stable_of_IsSorted [] h = refl
  sort_stable_of_IsSorted (x ∷ l) h =
      ap (insert_stable x) (sort_stable_of_IsSorted l h.1) ∙ head_stays x l h.0
