-- ===== src/Repository/Batches/Whole.antt =====
-- `create_many` commits whole batches.
use yaadien.Prelude.{
  ℕ, zero, suc, ◌+◌, ◌*◌, ◌≤◌, ◌<◌, ◌≡◌, ◌⊎◌, refl, sym, ap, ◌∙◌, some, List, [], ◌∷◌, ◌++◌, take,
  drop, length, arith, inl, inr, length-take, length-drop, take-append-drop,
}
use yaadien.Model.{Result, Result-cases, Error, ok, err, MemoryScope, Memory}
use yaadien.Db.{Db, Env, tick}
use yaadien.Repository.{Repository}
use yaadien.Repository.Batches.{
  fact_row, insert_fact, insert_batch, commit_batch, commit_batches, create_many,
}
use mathlib.Core.Path.{subst}
use native.Mathlib.Nat.{suc-add, suc-mul, zero-mul}
use mathlib.Core.List.{append_assoc, append-nil}

abbrev pub Records : Type 0
Records = List (Memory × MemoryScope)

take-drop : (k n : ℕ) (l : Records) → take k l ++ take n (drop k l) ≡ take (k + n) l
take-drop zero n l = ground arith
take-drop (suc k) zero [] = rw (suc-add) refl
take-drop (suc k) (suc n) [] = rw (suc-add) refl
take-drop (suc k) n (x ∷ l) = rw suc-add (ap (λ r. x ∷ r) (take-drop k n l))

drop-drop : (k n : ℕ) (l : Records) → drop n (drop k l) ≡ drop (k + n) l
drop-drop zero n l = ground arith
drop-drop (suc k) zero [] = rw (suc-add) refl
drop-drop (suc k) (suc n) [] = rw (suc-add) refl
drop-drop (suc k) n (x ∷ l) = rw suc-add (drop-drop k n l)

next : (k j : ℕ) → k + j * k ≡ suc j * k
next k j = rw suc-mul (omega arith)

module _ (e : Env) (r : Repository) (now : ℕ) where
  -- the rows that the INSERTs make of the records, in their order; what is in the database matters only
  -- for a fresh id
  abbrev pub AreRows : List Memory → Records → Type 0
  AreRows [] [] = Unit
  AreRows (row ∷ rows) ((m, scope) ∷ l) =
      ((at : Db) × (row ≡ fact_row e r now m scope at)) × AreRows rows l
  AreRows _ _ = ⊥

  -- the fact table has grown at its end by the rows of these records
  abbrev pub Grows : Db → Db → Records → Type 0
  Grows db db' l = (new : List Memory) × (db'.facts ≡ db.facts ++ new) × AreRows new l

  AreRows-append :
      (rows more : List Memory) (l m : Records)
      → AreRows rows l
      → AreRows more m
      → AreRows (rows ++ more) (l ++ m)
  AreRows-append [] more [] m h k = k
  AreRows-append (row ∷ rows) more (x ∷ l) m h k = (h.0, AreRows-append rows more l m h.1 k)
  AreRows-append [] more (x ∷ l) m h k = elim h [ ]
  AreRows-append (row ∷ rows) more [] m h k = elim h [ ]

  Grows-trans : (a b c : Db) (l m : Records) → Grows a b l → Grows b c m → Grows a c (l ++ m)
  Grows-trans a b c l m (new, h, k) (more, g, q) =
      (new ++ more, g ∙ rw h (append_assoc a.facts new more), AreRows-append new more l m k q)

  -- the statements of a batch raise the error on these facts
  abbrev pub Refuses : Records → List Memory → Error → Type 0
  Refuses batch facts x =
      (at : Db) × (at.facts ≡ facts) × ((insert_batch e r now batch at).0 ≡ err x)

  -- Either all records are there and counted, or a batch has failed and those of the batches in front
  -- of it are there.
  abbrev pub IsWhole : ℕ → ℕ → Records → Db → Result ℕ × Db → Type 0
  IsWhole commit_every inserted records db out =
      ((out.0 ≡ ok (inserted + length records)) × Grows db out.1 records)
      ⊎ ((x : Error) × (j : ℕ) × (out.0 ≡ err x)
          × (j * commit_every < length records)
          × Grows db out.1 (take (j * commit_every) records)
          × Refuses (take commit_every (drop (j * commit_every) records)) out.1.facts x)

  insert_fact-Grows :
      (m : Memory) (scope : MemoryScope) (db : Db) (u : Unit {0})
      → (insert_fact e r now m scope db).0 ≡ ok u
      → Grows db (insert_fact e r now m scope db).1 ((m, scope) ∷ [])
  unfolding insert_fact fact_row
  insert_fact-Grows m scope db u h =
      (fact_row e r now m scope db ∷ [], ground arith, ((db, refl), tt))

  insert_batch-Grows :
      (batch : Records) (db : Db) (u : Unit {0})
      → (insert_batch e r now batch db).0 ≡ ok u
      → Grows db (insert_batch e r now batch db).1 batch
  unfolding insert_batch
  insert_batch-Grows [] db u h = ([], sym (append-nil db.facts), tt)
  insert_batch-Grows ((m, scope) ∷ batch) db u h =
      let step = insert_fact e r now m scope db in
      elim (Result-cases step.0) [
        | inl (v, q) ↦
            rw (insert_batch, q)
              (Grows-trans db step.1 (insert_batch e r now batch step.1).1 ((m, scope) ∷ []) batch
                (insert_fact-Grows m scope db v q)
                (insert_batch-Grows batch step.1 u (rw (insert_batch, q) at h)))
        | inr (x, q) ↦ absurd (ground (arith, h, q))
      ]

  commit_batch-Grows :
      (batch : Records) (db : Db) (u : Unit {0})
      → (commit_batch e r now batch db).0 ≡ ok u
      → Grows db (commit_batch e r now batch db).1 batch
  unfolding commit_batch
  commit_batch-Grows batch db u h =
      let step = insert_batch e r now batch db in
      elim (Result-cases step.0) [
        | inl (v, q) ↦ rw (commit_batch, q) (insert_batch-Grows batch db v q)
        | inr (x, q) ↦ absurd (ground (arith, h, q))
      ]

  -- A batch that fails leaves the facts as they were.
  commit_batch-same :
      (batch : Records) (db : Db) (x : Error)
      → (commit_batch e r now batch db).0 ≡ err x
      → ((commit_batch e r now batch db).1.facts ≡ db.facts)
        × ((insert_batch e r now batch db).0 ≡ err x)
  unfolding commit_batch
  commit_batch-same batch db x h = (ground (arith, h), ground (arith, h))

  then-IsWhole :
      (k inserted : ℕ) (l : Records) (a b : Db) (out : Result ℕ × Db)
      → Grows a b (take k l)
      → IsWhole k (inserted + length (take k l)) (drop k l) b out
      → IsWhole k inserted l a out
  then-IsWhole k inserted l a b out g (inl (h, rest)) = inl (
    h ∙ ap (λ n. ok n) (omega (arith, length-take k l, length-drop k l)),
    subst (Grows a out.1) (take-append-drop k l)
        (Grows-trans a b out.1 (take k l) (drop k l) g rest),
  )
  then-IsWhole k inserted l a b out g (inr (x, j, h, short, rest, refuses)) = inr (
    x,
    suc j,
    h,
    rw suc-mul (omega (arith, short, length-drop k l)),
    subst (Grows a out.1) (take-drop k (j * k) l ∙ ap (λ n. take n l) (next k j))
        (Grows-trans a b out.1 (take k l) (take (j * k) (drop k l)) g rest),
    subst (λ n. Refuses (take k n) out.1.facts x)
        (drop-drop k (j * k) l ∙ ap (λ n. drop n l) (next k j)) refuses,
  )

  commit_batches_lem :
      (k : ℕ)
      → 1 ≤ k
      → (fuel inserted : ℕ) (records : Records) (db : Db) → length records < fuel
      → (out : Result ℕ × Db) × (commit_batches fuel e r now k inserted records db ≡ some out)
        × IsWhole k inserted records db out
  unfolding commit_batches
  commit_batches_lem k pos zero inserted records db q = absurd (omega arith)
  commit_batches_lem k pos (suc fuel) inserted [] db q = (
    (ok inserted, db),
    refl,
    inl (ap (λ n. ok n) (omega arith), ([], sym (append-nil db.facts), tt)),
  )
  commit_batches_lem k pos (suc fuel) inserted (x ∷ records) db q =
      let l = x ∷ records in
      let step = commit_batch e r now (take k l) db in
      elim (Result-cases step.0) [
        | inl (u, h) ↦
            let (out, g, whole) =
              commit_batches_lem k pos fuel (inserted + length (take k l)) (drop k l) step.1
                (omega (arith, length-drop k l)) in
            (
              out,
              rw (commit_batches, h) g,
              then-IsWhole k inserted l db step.1 out (commit_batch-Grows (take k l) db u h) whole,
            )
        | inr (y, h) ↦ (
          (err y, step.1),
          rw (commit_batches, h) refl,
          inr (
            y,
            0,
            refl,
            rw zero-mul (omega arith),
            (
              [],
              (commit_batch-same (take k l) db y h).0 ∙ sym (append-nil db.facts),
              rw zero-mul tt,
            ),
            (
              db,
              sym (commit_batch-same (take k l) db y h).0,
              rw zero-mul (commit_batch-same (take k l) db y h).1,
            ),
          ),
        )
      ]

-- With batches of at least one record, `create_many` ends, and with one of two outcomes. Either it
-- returns the number of records and the facts have grown by the row of each, in their order; or it
-- raises the error of a batch, whose statements fail on the facts as they are left, and the facts have
-- grown by the rows of exactly the batches in front of it.
pub create_many-IsWhole :
    (e : Env) (r : Repository) (records : Records) (commit_every : ℕ) (db : Db)
    → 1 ≤ commit_every
    → (out : Result ℕ × Db) × (create_many e r records commit_every db ≡ some out)
      × IsWhole e r (e.now db.ticks) commit_every 0 records db out
unfolding create_many
create_many-IsWhole e r records commit_every db pos =
    commit_batches_lem e r (e.now db.ticks) commit_every pos (suc (length records)) 0 records
      (tick db) (omega arith)
