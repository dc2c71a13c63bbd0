-- ===== src/Repository/Claims.antt =====
-- `_claim_consolidated` as a lock between consolidation workers.
use yaadien.Prelude.{
  ℕ, zero, suc, ◌≡◌, refl, ◌≢◌, Bool, true, false, List, [], ◌∷◌, arith, ltb, if◌then◌else◌,
}
use yaadien.Prelude.Table.{update_where, row_count, row_count-update_where}
use yaadien.Model.{Ident, MemoryScope, Result, ok, err}
use yaadien.Db.{TableName, Db, Env, rows, tick, rows-set_rows_self}
use yaadien.Repository.{has_consolidated_at}
use yaadien.Repository.Lifecycle.{claim_consolidated, is_unclaimed, claim}

-- Workers that try to claim one row, one after the other, in the order in which their statements
-- reach the database; each entry says whether that worker got the row.
unfoldable pub claim_attempts : Env → TableName → Ident → MemoryScope → ℕ → Db → List (Result Bool)
claim_attempts e t i scope zero db = []
claim_attempts e t i scope (suc n) db =
    let step = claim_consolidated e t i scope db in step.0 ∷ claim_attempts e t i scope n step.1

abbrev pub is_success : Result Bool → Bool
is_success (ok b) = b
is_success (err e) = false

module _ (e : Env) (t : TableName) (i : Ident) (scope : MemoryScope) (h : scope.agent_id ≢ 0)
    (c : has_consolidated_at t ≡ true) where
  pub claim_reports :
      (db : Db)
      → (claim_consolidated e t i scope db).0
        ≡ ok (ltb 0 (row_count (is_unclaimed i scope) (rows t db)))
  unfolding claim_consolidated
  claim_reports db = ground arith

  pub claim_takes :
      (db : Db)
      → row_count (is_unclaimed i scope) (rows t (claim_consolidated e t i scope db).1) ≡ 0
  unfolding claim_consolidated
  claim_takes db =
      let new = update_where (is_unclaimed i scope) (claim (e.now db.ticks)) (rows t db) in
      ground (
        arith,
        rows-set_rows_self t new (tick db),
        row_count-update_where (is_unclaimed i scope) (is_unclaimed i scope)
            (claim (e.now db.ticks)) (rows t db) (λ m k. k) (λ m k. ground arith),
      )

  none_left :
      (n : ℕ) (db : Db)
      → row_count (is_unclaimed i scope) (rows t db) ≡ 0
      → row_count is_success (claim_attempts e t i scope n db) ≡ 0
  unfolding row_count claim_attempts
  none_left zero db k = refl
  none_left (suc n) db k =
      ground
        (arith, claim_reports db, claim_takes db, none_left n (claim_consolidated e t i scope db).1)

  -- In a table with the column and a scope with an agent, of one or more workers that try to claim
  -- an id exactly one gets it if a row of the scope was unclaimed at first, and none if not.
  pub claim_attempts_exclusive :
      (n : ℕ) (db : Db)
      → row_count is_success (claim_attempts e t i scope (suc n) db)
        ≡ (if ltb 0 (row_count (is_unclaimed i scope) (rows t db)) then 1 else 0)
  unfolding row_count claim_attempts
  claim_attempts_exclusive n db =
      ground (
        arith,
        claim_reports db,
        none_left n (claim_consolidated e t i scope db).1 (claim_takes db),
      )
