-- ===== src/Repository/Search/Lookups.antt =====
-- Counting in lists of ids, and what a lookup in a dict gives.
use mathlib.Core.List.{Mem, mem-cons_of_mem, mem-cons_self}
use yaadien.Prelude.{
  ℕ, zero, suc, ◌≤◌, ◌≡◌, refl, Bool, true, ◌&&◌, Option, none, some, List, [], ◌∷◌, arith, All,
  Bool-cases, Option-cases, inl, inr, take,
}
use yaadien.Prelude.Table.{select, row_count}
use mathlib.Core.Path.{subst}
use yaadien.Model.{Ident}
use yaadien.Ranking.Fusion.{count, IsDistinct}
use yaadien.Repository.Search.{find_last}

module _ {ℓ} {A : Type ℓ} where
  pub row_count-take : (p : A → Bool) (n : ℕ) (l : List A) → row_count p (take n l) ≤ row_count p l
  unfolding row_count
  row_count-take p zero l = omega arith
  row_count-take p (suc n) [] = omega arith
  row_count-take p (suc n) (x ∷ l) = ground (arith, row_count-take p n l)

  pub row_count-select :
      (q p : A → Bool) (l : List A) → row_count q (select p l) ≡ row_count (λ x. q x && p x) l
  unfolding row_count select
  row_count-select q p [] = refl
  row_count-select q p (x ∷ l) = ground (arith, row_count-select q p l)

  pub All-both {κ μ} :
      (P : A → Type κ) (Q : A → Type μ) (l : List A) → All P l → All Q l → All (λ x. P x × Q x) l
  All-both P Q [] h k = tt
  All-both P Q (x ∷ l) h k = ((h.0, k.0), All-both P Q l h.1 k.1)

  All-Mem_of : (l m : List A) → ((x : A) → Mem x l → Mem x m) → All (λ x. Mem x m) l
  All-Mem_of [] m h = tt
  All-Mem_of (x ∷ l) m h = (h x mem-cons_self, All-Mem_of l m (λ y k. h y (mem-cons_of_mem x k)))

  pub All-Mem : (l : List A) → All (λ x. Mem x l) l
  All-Mem l = All-Mem_of l l (λ x h. h)

  -- a property of the value, if there is one
  abbrev pub OnSome {κ} : (A → Type κ) → Option A → Type κ
  OnSome P none = Unit
  OnSome P (some x) = P x

  pub OnSome-map {κ μ} :
      (P : A → Type κ) (Q : A → Type μ)
      → ((x : A) → P x → Q x)
      → (o : Option A) → OnSome P o
      → OnSome Q o
  OnSome-map P Q f none h = tt
  OnSome-map P Q f (some x) h = f x h

  -- What a dict gives under a key passes the test of the key and is one of the list.
  pub find_last_lem {κ} :
      (P : A → Type κ) (p : A → Bool) (l : List A)
      → All P l
      → OnSome (λ x. P x × (p x ≡ true)) (find_last p l)
  unfolding find_last
  find_last_lem P p [] h = tt
  find_last_lem P p (y ∷ l) h = elim (Option-cases (find_last p l)) [
    | inr (z, f) ↦
        let ih : OnSome (λ x. P x × (p x ≡ true)) (find_last p l) = find_last_lem P p l h.1 in
        rw f (subst (OnSome (λ x. P x × (p x ≡ true))) f ih)
    | inl f ↦ elim (Bool-cases (p y)) [ inl g ↦ rw (f, g) (h.0, g) | inr g ↦ rw (f, g) tt ]
  ]

pub IsDistinct-of_count : (l : List Ident) → ((i : Ident) → count i l ≤ 1) → IsDistinct l
unfolding row_count
IsDistinct-of_count [] h = tt
IsDistinct-of_count (i ∷ l) h =
    (ground (arith, h i), IsDistinct-of_count l (λ j. ground (arith, h j)))

pub count_of_IsDistinct : (l : List Ident) → IsDistinct l → (i : Ident) → count i l ≤ 1
unfolding row_count
count_of_IsDistinct [] h i = omega arith
count_of_IsDistinct (j ∷ l) h i = ground (arith, count_of_IsDistinct l h.1 i)
