-- ===== src/Prelude/Table.antt =====
-- What the SQL statements of the repositories do to a table, a list of rows in insertion order:
-- SELECT, UPDATE and DELETE with a WHERE test, and the row count that the cursor reports.
use yaadien.Prelude.Tests.{if◌then◌else◌, Bool-cases}
use yaadien.Prelude.Lists.{length, All}
use Prim.Native.Nat.{ℕ, suc, ◌+◌, ◌≤◌}
use mathlib.Core.Path.{◌≡◌, refl, ap}
use mathlib.Core.Logic.{inl, inr}
use mathlib.Core.Bool.{Bool, true, false}
use mathlib.Core.Option.{Option, none, some}
use mathlib.Core.List.{List, [], ◌∷◌, ◌++◌, map}
use native.Mathlib.Omega.{arith}

module _ {ℓ} {A : Type ℓ} where
  -- SELECT … WHERE
  unfoldable pub select : (A → Bool) → List A → List A
  select p [] = []
  select p (x ∷ xs) = let rest = select p xs in if p x then x ∷ rest else rest

  -- UPDATE … SET … WHERE
  unfoldable pub update_where : (A → Bool) → (A → A) → List A → List A
  update_where p f [] = []
  update_where p f (x ∷ xs) = (if p x then f x else x) ∷ update_where p f xs

  -- DELETE FROM … WHERE
  unfoldable pub delete_where : (A → Bool) → List A → List A
  delete_where p [] = []
  delete_where p (x ∷ xs) = let rest = delete_where p xs in if p x then rest else x ∷ rest

  -- `cursor.rowcount` after an UPDATE or a DELETE
  unfoldable pub row_count : (A → Bool) → List A → ℕ
  row_count p [] = 0
  row_count p (x ∷ xs) = (if p x then 1 else 0) + row_count p xs

  -- `cursor.fetchone()`
  abbrev pub fetch_one : List A → Option A
  fetch_one [] = none
  fetch_one (x ∷ xs) = some x

  pub row_count-length-select : (p : A → Bool) (xs : List A) → row_count p xs ≡ length (select p xs)
  unfolding row_count select
  row_count-length-select p [] = refl
  row_count-length-select p (x ∷ xs) = ground (arith, row_count-length-select p xs)

  pub length-delete_where :
      (p : A → Bool) (xs : List A) → length (delete_where p xs) + row_count p xs ≡ length xs
  unfolding delete_where row_count
  length-delete_where p [] = refl
  length-delete_where p (x ∷ xs) = ground (arith, length-delete_where p xs)

  pub length-update_where :
      (p : A → Bool) (f : A → A) (xs : List A) → length (update_where p f xs) ≡ length xs
  unfolding update_where
  length-update_where p f [] = refl
  length-update_where p f (x ∷ xs) = ap suc (length-update_where p f xs)

  pub length-select-le : (p : A → Bool) (xs : List A) → length (select p xs) ≤ length xs
  unfolding select
  length-select-le p [] = omega arith
  length-select-le p (x ∷ xs) = ground (arith, length-select-le p xs)

  -- Every selected row passes the test.
  pub All-select : (p : A → Bool) (xs : List A) → All (λ x. p x ≡ true) (select p xs)
  unfolding select
  All-select p [] = tt
  All-select p (x ∷ xs) = elim (Bool-cases (p x)) [
    | inl e ↦ rw (e, select) (e, All-select p xs)
    | inr e ↦ rw (e, select) (All-select p xs)
  ]

  -- A property of all rows is one of the rows selected.
  pub All-select_of_All {κ} :
      (P : A → Type κ) (p : A → Bool) (xs : List A) → All P xs → All P (select p xs)
  unfolding select
  All-select_of_All P p [] h = tt
  All-select_of_All P p (x ∷ xs) h = elim (Bool-cases (p x)) [
    | inl e ↦ rw (e, select) (h.0, All-select_of_All P p xs h.1)
    | inr e ↦ rw (e, select) (All-select_of_All P p xs h.1)
  ]

  -- An UPDATE is invisible to a test that neither the old nor the new form of a hit row passes.
  pub select-update_where :
      (q p : A → Bool) (f : A → A) (xs : List A)
      → ((x : A) → p x ≡ true → q x ≡ false)
      → ((x : A) → p x ≡ true → q (f x) ≡ false)
      → select q (update_where p f xs) ≡ select q xs
  unfolding select update_where
  select-update_where q p f [] h k = refl
  select-update_where q p f (x ∷ xs) h k =
      ground (arith, h x, k x, select-update_where q p f xs h k)

  pub select-delete_where :
      (q p : A → Bool) (xs : List A)
      → ((x : A) → p x ≡ true → q x ≡ false)
      → select q (delete_where p xs) ≡ select q xs
  unfolding select delete_where
  select-delete_where q p [] h = refl
  select-delete_where q p (x ∷ xs) h = ground (arith, h x, select-delete_where q p xs h)

  -- After a DELETE no row passes its test.
  pub row_count-delete_where : (p : A → Bool) (xs : List A) → row_count p (delete_where p xs) ≡ 0
  unfolding row_count delete_where
  row_count-delete_where p [] = refl
  row_count-delete_where p (x ∷ xs) = ground (arith, row_count-delete_where p xs)

  -- After an UPDATE that makes its hits fail a stronger test, no row passes that test.
  pub row_count-update_where :
      (q p : A → Bool) (f : A → A) (xs : List A)
      → ((x : A) → q x ≡ true → p x ≡ true)
      → ((x : A) → p x ≡ true → q (f x) ≡ false)
      → row_count q (update_where p f xs) ≡ 0
  unfolding row_count update_where
  row_count-update_where q p f [] h k = refl
  row_count-update_where q p f (x ∷ xs) h k =
      ground (arith, h x, k x, row_count-update_where q p f xs h k)

  -- An UPDATE that hits no row changes nothing.
  pub update_where_of_none :
      (p : A → Bool) (f : A → A) (xs : List A) → row_count p xs ≡ 0 → update_where p f xs ≡ xs
  unfolding row_count update_where
  update_where_of_none p f [] h = refl
  update_where_of_none p f (x ∷ xs) h = ground (arith, update_where_of_none p f xs)

  pub select_of_none : (p : A → Bool) (xs : List A) → row_count p xs ≡ 0 → select p xs ≡ []
  unfolding row_count select
  select_of_none p [] h = refl
  select_of_none p (x ∷ xs) h = ground (arith, select_of_none p xs)

  pub select-append :
      (p : A → Bool) (xs ys : List A) → select p (xs ++ ys) ≡ select p xs ++ select p ys
  unfolding select
  select-append p [] ys = refl
  select-append p (x ∷ xs) ys = ground (arith, select-append p xs ys)

  pub row_count-append :
      (p : A → Bool) (xs ys : List A) → row_count p (xs ++ ys) ≡ row_count p xs + row_count p ys
  unfolding row_count
  row_count-append p [] ys = omega arith
  row_count-append p (x ∷ xs) ys = omega (arith, row_count-append p xs ys)

  -- A stronger test selects from the rows that a weaker one selected.
  pub select-select :
      (q p : A → Bool) (xs : List A)
      → ((x : A) → q x ≡ true → p x ≡ true)
      → select q (select p xs) ≡ select q xs
  unfolding select
  select-select q p [] h = refl
  select-select q p (x ∷ xs) h = ground (arith, h x, select-select q p xs h)

  -- An UPDATE leaves a column alone that it does not set.
  pub map-update_where {κ} :
      {B : Type κ} (g : A → B) (p : A → Bool) (f : A → A)
      → ((x : A) → g (f x) ≡ g x)
      → (xs : List A) → map g (update_where p f xs) ≡ map g xs
  unfolding update_where
  map-update_where g p f h [] = refl
  map-update_where g p f h (x ∷ xs) = elim (Bool-cases (p x)) [
    | inl e ↦ rw (e, h x, map-update_where g p f h xs) refl
    | inr e ↦ rw (e, map-update_where g p f h xs) refl
  ]
