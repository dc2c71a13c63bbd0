-- ===== src/Scripts/ConsolidatePending/Exclusion.antt =====
-- Workers that have fetched the same rows: each row is consolidated once.
use yaadien.Prelude.{
  ℕ, ◌≡◌, ◌≢◌, refl, ◌∙◌, sym, Bool, true, false, Option, none, some, List, [], ◌∷◌, ◌++◌, All,
  arith, ltb, Bool-cases, inl, inr,
}
use yaadien.Prelude.Table.{row_count, update_where, update_where_of_none}
use yaadien.Model.{Ident, Memory, MemoryScope, Result-cases, ok}
use mathlib.Core.Path.{subst}
use yaadien.Db.{
  TableName, Db, Env, rows, set_rows, tick, table_eq, rows-tick, rows-set_rows_self,
  rows-set_rows_ne,
}
use yaadien.Repository.{Repository, has_consolidated_at}
use yaadien.Repository.Claims.{claim_reports, claim_takes}
use yaadien.Repository.Frame.{SameRows, then_chunks-SameRows, set_rows_induction}
use yaadien.Repository.Lifecycle.{claim_consolidated, is_unclaimed, claim}
use yaadien.Repository.Write.{create, insert_row, prepared, inserted}
use yaadien.Store.Pipeline.{Pipeline, repository_of}
use yaadien.Scripts.ConsolidatePending.{
  Consolidator, is_derived, store_derived, with_derived, process_record, process_batch,
}

-- A create leaves the other tables alone.
rows-create :
    (e : Env) (r : Repository) (m : Memory) (scope : MemoryScope) (db : Db) (u : TableName)
    → table_eq r.table u ≡ false
    → rows u (create e r m scope db).1 ≡ rows u db
unfolding create insert_row
rows-create e r m scope db u h =
    let new = prepared e scope (e.now db.ticks) m in
    let l = rows r.table (tick db) ++ inserted r new ∷ [] in
    ground (
      arith,
      rows-tick u db,
      rows-set_rows_ne r.table u l (tick db) h,
      then_chunks-SameRows e r new scope (set_rows r.table l (tick db)) u,
    )

derived_elsewhere :
    (u t : TableName) → is_derived u ≡ true → has_consolidated_at t ≡ true → table_eq u t ≡ false
derived_elsewhere u t h c = ground arith

row_count-claimed :
    (q p : Memory → Bool) (f : Memory → Memory) (l : List Memory)
    → ((m : Memory) → q (f m) ≡ false)
    → row_count q l ≡ 0
    → row_count q (update_where p f l) ≡ 0
unfolding row_count update_where
row_count-claimed q p f [] k h = refl
row_count-claimed q p f (m ∷ l) k h = ground (arith, k m, row_count-claimed q p f l k)

module _ (e : Env) (p : Pipeline) (t : TableName) (scope : MemoryScope) (h : scope.agent_id ≢ 0)
    (c : has_consolidated_at t ≡ true) where
  -- No row of the scope under the id is left to claim.
  abbrev pub IsTaken : Db → Ident → Type 0
  IsTaken db i = row_count (is_unclaimed i scope) (rows t db) ≡ 0

  claim-IsTaken :
      (i j : Ident) (db : Db) → IsTaken db i → IsTaken (claim_consolidated e t j scope db).1 i
  unfolding claim_consolidated
  claim-IsTaken i j db k =
      let new = update_where (is_unclaimed j scope) (claim (e.now db.ticks)) (rows t db) in
      ground (
        arith,
        rows-set_rows_self t new (tick db),
        row_count-claimed (is_unclaimed i scope) (is_unclaimed j scope) (claim (e.now db.ticks))
            (rows t db) (λ m. ground arith) k,
      )

  -- A claim of an id that is taken changes no table.
  claim-SameRows :
      (i : Ident) (db : Db) → IsTaken db i → SameRows db (claim_consolidated e t i scope db).1
  unfolding claim_consolidated
  claim-SameRows i db k u = ground (
    arith,
    update_where_of_none (is_unclaimed i scope) (claim (e.now db.ticks)) (rows t db) k,
    rows-tick u db,
    set_rows_induction (λ v l. l ≡ rows v (tick db)) t (rows t db) (tick db) (λ v. refl)
        (sym (rows-tick t db)) u,
  )

  rows-store_derived :
      (ds : List (Option TableName × Memory)) (db : Db)
      → rows t (store_derived e p scope ds db).1 ≡ rows t db
  unfolding store_derived
  rows-store_derived [] db = refl
  rows-store_derived ((none, m) ∷ ds) db = rows-store_derived ds db
  rows-store_derived ((some u, m) ∷ ds) db = elim (Bool-cases (is_derived u)) [
    | inr n ↦ rw (n, store_derived) (rows-store_derived ds db)
    | inl y ↦
        let step = create e (repository_of p u) m scope db in
        let kept = rows-create e (repository_of p u) m scope db t (derived_elsewhere u t y c) in
        elim (Result-cases step.0) [
          | inl (stored, k) ↦ rw (y, k, store_derived) (rows-store_derived ds step.1 ∙ kept)
          | inr (x, k) ↦ rw (y, k, store_derived) kept
        ]
  ]

  rows-with_derived :
      (derived : Option (List (Option TableName × Memory))) (db : Db)
      → rows t (with_derived e p scope derived db).1 ≡ rows t db
  unfolding with_derived
  rows-with_derived none db = refl
  rows-with_derived (some ds) db = elim (Result-cases (store_derived e p scope ds db).0) [
    | inl (stored, k) ↦ rw (k, with_derived) (rows-store_derived ds db)
    | inr (x, k) ↦ rw (k, with_derived) (rows-store_derived ds db)
  ]

  -- the table after a record is what its claim leaves
  rows-process_record :
      (consolidator : Consolidator) (m : Memory) (db : Db)
      → rows t (process_record e p consolidator t scope m db).1
        ≡ rows t (claim_consolidated e t m.id scope db).1
  unfolding process_record
  rows-process_record consolidator m db =
      let claimed = claim_reports e t m.id scope h c db in
      let step = claim_consolidated e t m.id scope db in
      elim (Bool-cases (ltb 0 (row_count (is_unclaimed m.id scope) (rows t db)))) [
        | inl y ↦ rw (claimed, y, process_record) (rows-with_derived (consolidator (m ∷ [])) step.1)
        | inr n ↦ rw (claimed, n, process_record) refl
      ]

  process_record-IsTaken :
      (consolidator : Consolidator) (m : Memory) (i : Ident) (db : Db)
      → IsTaken db i
      → IsTaken (process_record e p consolidator t scope m db).1 i
  process_record-IsTaken consolidator m i db k =
      rw (rows-process_record consolidator m db) (claim-IsTaken i m.id db k)

  process_record_takes :
      (consolidator : Consolidator) (m : Memory) (db : Db)
      → IsTaken (process_record e p consolidator t scope m db).1 m.id
  process_record_takes consolidator m db =
      rw (rows-process_record consolidator m db) (claim_takes e t m.id scope h c db)

  process_batch-IsTaken :
      (consolidator : Consolidator) (l : List Memory) (i : Ident) (db : Db)
      → IsTaken db i
      → IsTaken (process_batch e p consolidator t scope l db).1 i
  unfolding process_batch
  process_batch-IsTaken consolidator [] i db k = k
  process_batch-IsTaken consolidator (m ∷ l) i db k =
      let step = process_record e p consolidator t scope m db in
      let kept = process_record-IsTaken consolidator m i db k in
      let rest = process_batch-IsTaken consolidator l i step.1 kept in ground (arith, kept, rest)

  -- A batch that returns leaves none of its ids to claim.
  process_batch_takes :
      (consolidator : Consolidator) (l : List Memory) (db : Db) {n : ℕ}
      → (process_batch e p consolidator t scope l db).0 ≡ ok n
      → All (λ m. IsTaken (process_batch e p consolidator t scope l db).1 m.id) l
  unfolding process_batch
  process_batch_takes consolidator [] db returns = tt
  process_batch_takes consolidator (m ∷ l) db returns =
      let step = process_record e p consolidator t scope m db in
      let rest = process_batch e p consolidator t scope l step.1 in
      elim (Result-cases step.0) [
        | inr (x, k) ↦ absurd (ground (arith, k))
        | inl (done, k) ↦ elim (Result-cases rest.0) [
          | inr (x, r) ↦ absurd (ground (arith, k, r))
          | inl (n, r) ↦
              let same : (process_batch e p consolidator t scope (m ∷ l) db).1 ≡ rest.1 =
                rw (k, r, process_batch) refl in
              subst (λ d. All (λ x. IsTaken d x.id) (m ∷ l)) (sym same)
                (
                  process_batch-IsTaken consolidator l m.id step.1
                      (process_record_takes consolidator m db),
                  process_batch_takes consolidator l step.1 r,
                )
        ]
      ]

  -- A record whose id is taken is skipped, and no table changes.
  skipped :
      (consolidator : Consolidator) (m : Memory) (db : Db)
      → IsTaken db m.id
      → ((process_record e p consolidator t scope m db).0 ≡ ok false)
        × SameRows db (process_record e p consolidator t scope m db).1
  unfolding process_record
  skipped consolidator m db k =
      let nothing : (claim_consolidated e t m.id scope db).0 ≡ ok false =
        ground (arith, claim_reports e t m.id scope h c db, k) in
      rw (nothing, process_record) (refl, claim-SameRows m.id db k)

  rest-IsTaken :
      (consolidator : Consolidator) (m : Memory) (l : List Memory) (db : Db)
      → All (λ x. IsTaken db x.id) l
      → All (λ x. IsTaken (process_record e p consolidator t scope m db).1 x.id) l
  rest-IsTaken consolidator m [] db k = tt
  rest-IsTaken consolidator m (x ∷ l) db k =
      (process_record-IsTaken consolidator m x.id db k.0, rest-IsTaken consolidator m l db k.1)

  skipped_batch :
      (consolidator : Consolidator) (l : List Memory) (db : Db)
      → All (λ m. IsTaken db m.id) l
      → ((process_batch e p consolidator t scope l db).0 ≡ ok 0)
        × SameRows db (process_batch e p consolidator t scope l db).1
  unfolding process_batch
  skipped_batch consolidator [] db k = (refl, λ u. refl)
  skipped_batch consolidator (m ∷ l) db k =
      let step = process_record e p consolidator t scope m db in
      let first = skipped consolidator m db k.0 in
      let rest = skipped_batch consolidator l step.1 (rest-IsTaken consolidator m l db k.1) in
      rw (first.0, process_batch) (rw (rest.0) refl, λ u. rw (rest.0) (rest.1 u ∙ first.1 u))

  -- In a scope with an agent and a table with the column: once a worker's batch has returned, another
  -- worker that has fetched the same records, with whatever consolidator, processes none of them: it
  -- raises nothing, counts 0 and changes none of the five tables.
  pub process_batch-process_batch :
      (mine others : Consolidator) (l : List Memory) (db : Db) (n : ℕ)
      → (process_batch e p mine t scope l db).0 ≡ ok n
      → let db' = (process_batch e p mine t scope l db).1 in
        ((process_batch e p others t scope l db').0 ≡ ok 0)
        × SameRows db' (process_batch e p others t scope l db').1
  process_batch-process_batch mine others l db n returns =
      skipped_batch others l (process_batch e p mine t scope l db).1
        (process_batch_takes mine l db returns)
