-- ===== src/Repository/Listing/Times.antt =====
-- Rows of distinct times, which an ORDER BY created_at puts in one order.
use yaadien.Prelude.{
  ℕ, ◌≡◌, ◌≢◌, ◌<◌, refl, Bool, true, false, List, [], ◌∷◌, ◌++◌, All, All-append, arith,
  if◌then◌else◌, Bool-cases, inl, inr,
}
use yaadien.Prelude.Table.{select, row_count, update_where, All-select_of_All}
use yaadien.Model.{Memory}
use yaadien.Db.{Env}
use yaadien.Repository.Lifecycle.{tombstone}

-- No two rows have the same `created_at`.
abbrev pub HasTimes : List Memory → Type 0
HasTimes [] = Unit
HasTimes (m ∷ l) = All (λ x. x.created_at ≢ m.created_at) l × HasTimes l

-- What an ORDER BY does whose ties are in no particular order: it keeps the number of rows that pass
-- any test, and where no two rows have the same time, the rows that pass a test come in the order
-- that they have among all.
pub record OrdersTimes (e : Env) : Type 0 where
  pub counts :
      (q : Memory → Bool) (l : List Memory) → row_count q (e.newest_first l) ≡ row_count q l
  pub selects :
      (q : Memory → Bool) (l : List Memory)
      → HasTimes l
      → e.newest_first (select q l) ≡ select q (e.newest_first l)

pub HasTimes-select : (q : Memory → Bool) (l : List Memory) → HasTimes l → HasTimes (select q l)
unfolding select
HasTimes-select q [] h = tt
HasTimes-select q (m ∷ l) h = elim (Bool-cases (q m)) [
  | inl e ↦
      rw (e, select)
        (All-select_of_All (λ x. x.created_at ≢ m.created_at) q l h.0, HasTimes-select q l h.1)
  | inr e ↦ rw (e, select) (HasTimes-select q l h.1)
]

-- A row that is later than the others keeps the times distinct.
pub HasTimes-append :
    (l : List Memory) (m : Memory)
    → HasTimes l
    → All (λ x. x.created_at < m.created_at) l
    → HasTimes (l ++ m ∷ [])
HasTimes-append [] m h k = (tt, tt)
HasTimes-append (x ∷ l) m h k = (
  All-append (λ y. y.created_at ≢ x.created_at) l (m ∷ []) h.0 ((λ e. omega (arith, e, k.0)), tt),
  HasTimes-append l m h.1 k.1,
)

created_at-if_tombstone :
    (b : Bool) (now : ℕ) (m : Memory) → (if b then tombstone now m else m).created_at ≡ m.created_at
created_at-if_tombstone false now m = refl
created_at-if_tombstone true now m = refl

All-tombstone :
    (at : ℕ) (p : Memory → Bool) (now : ℕ) (l : List Memory)
    → All (λ x. x.created_at ≢ at) l
    → All (λ x. x.created_at ≢ at) (update_where p (tombstone now) l)
unfolding update_where
All-tombstone at p now [] h = tt
All-tombstone at p now (m ∷ l) h =
    (rw (created_at-if_tombstone (p m) now m) h.0, All-tombstone at p now l h.1)

pub HasTimes-tombstone :
    (p : Memory → Bool) (now : ℕ) (l : List Memory)
    → HasTimes l
    → HasTimes (update_where p (tombstone now) l)
unfolding update_where
HasTimes-tombstone p now [] h = tt
HasTimes-tombstone p now (m ∷ l) h = (
  rw (created_at-if_tombstone (p m) now m) (All-tombstone m.created_at p now l h.0),
  HasTimes-tombstone p now l h.1,
)
