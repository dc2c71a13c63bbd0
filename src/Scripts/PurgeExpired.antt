-- ===== src/Scripts/PurgeExpired.antt =====
-- scripts/purge_expired.py: the purge of all tables, and its dry run.
use yaadien.Prelude.{ℕ, List}
use yaadien.Prelude.Table.{row_count}
use yaadien.Model.{Result, ok, err, MemoryScope}
use yaadien.Scope.{require_agent_id}
use yaadien.Db.{TableName, Db, rows}
use yaadien.Repository.Lifecycle
use yaadien.Repository.Lifecycle.{is_purgeable}
use yaadien.Store.Erasure.{all_tables, for_tables, purge_expired, sum_counts}

-- `SELECT COUNT(*) … WHERE deleted_at IS NOT NULL AND {scope_sql}`
unfoldable pub count_tombstoned : TableName → MemoryScope → Db → Result ℕ × Db
unfolding require_agent_id
count_tombstoned t scope db = elim (require_agent_id scope) [
  | err x ↦ (err x, db)
  | ok _ ↦ (ok (row_count (is_purgeable scope) (rows t db)), db)
]

-- `--dry-run`: the counts of the tables
unfoldable pub dry_run : MemoryScope → Db → Result (List (TableName × ℕ)) × Db
unfolding count_tombstoned for_tables
dry_run scope db = for_tables (λ t d. count_tombstoned t scope d) all_tables db

-- the counts of the tables with their sum
abbrev pub totalled : Result (List (TableName × ℕ)) → Result (List (TableName × ℕ) × ℕ)
unfolding sum_counts
totalled (ok counts) = ok (counts, sum_counts counts)
totalled (err x) = err x

unfoldable pub purge_run : MemoryScope → Db → Result (List (TableName × ℕ) × ℕ) × Db
unfolding purge_expired sum_counts
purge_run scope db = let step = purge_expired scope db in (totalled step.0, step.1)
