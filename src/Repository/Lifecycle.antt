-- ===== src/Repository/Lifecycle.antt =====
-- The lifecycle statements of src/agent_memory_sdk/repositories: `forget`, `soft_delete`,
-- `purge_expired`, `erase_all` and `_claim_consolidated` of base.py, `supersede` of facts.py.
use yaadien.Prelude.{ℕ, ◌+◌, Bool, ◌&&◌, some, is_none, not, ltb, if◌then◌else◌, ◌==◌, take}
use yaadien.Prelude.Table.{update_where, delete_where, row_count}
use yaadien.Model.{Ident, Text, Result, ok, err, not_implemented, MemoryScope, Memory}
use yaadien.Scope.{require_agent_id}
use yaadien.Db.{TableName, Db, Env, rows, set_rows, tick}
use yaadien.Repository.{row_in_scope, is_target, has_consolidated_at}

-- `bool(affected > 0)` of a row count
abbrev pub affected : ℕ → Bool
affected n = ltb 0 n

abbrev pub tombstone : ℕ → Memory → Memory
tombstone now m = record m { deleted_at = some now; updated_at = now; version = m.version + 1 }

unfoldable pub forget : Env → TableName → Ident → MemoryScope → Db → Result Bool × Db
unfolding require_agent_id
forget e t record_id scope db = elim (require_agent_id scope) [
  | err x ↦ (err x, db)
  | ok _ ↦
      let hit = is_target record_id scope in
      (
        ok (affected (row_count hit (rows t db))),
        set_rows t (update_where hit (tombstone (e.now db.ticks)) (rows t db)) (tick db),
      )
]

unfoldable pub soft_delete : Env → TableName → Ident → MemoryScope → Db → Result Bool × Db
unfolding forget
soft_delete = forget

-- `deleted_at IS NOT NULL AND {scope_sql}`
abbrev pub is_purgeable : MemoryScope → Memory → Bool
is_purgeable scope m = not (is_none m.deleted_at) && row_in_scope scope m

unfoldable pub purge_expired : TableName → MemoryScope → Db → Result ℕ × Db
unfolding require_agent_id
purge_expired t scope db = elim (require_agent_id scope) [
  | err x ↦ (err x, db)
  | ok _ ↦ (
    ok (row_count (is_purgeable scope) (rows t db)),
    set_rows t (delete_where (is_purgeable scope) (rows t db)) db,
  )
]

unfoldable pub erase_all : TableName → MemoryScope → Db → Result ℕ × Db
unfolding require_agent_id
erase_all t scope db = elim (require_agent_id scope) [
  | err x ↦ (err x, db)
  | ok _ ↦ (
    ok (row_count (row_in_scope scope) (rows t db)),
    set_rows t (delete_where (row_in_scope scope) (rows t db)) db,
  )
]

-- `id = ? AND {scope_sql} AND consolidated_at IS NULL`
abbrev pub is_unclaimed : Ident → MemoryScope → Memory → Bool
is_unclaimed record_id scope m =
    m.id == record_id && row_in_scope scope m && is_none m.consolidated_at

abbrev pub claim : ℕ → Memory → Memory
claim now m = record m { consolidated_at = some now }

unfoldable pub claim_consolidated : Env → TableName → Ident → MemoryScope → Db → Result Bool × Db
unfolding require_agent_id
claim_consolidated e t record_id scope db =
    if has_consolidated_at t
    then elim (require_agent_id scope) [
      | err x ↦ (err x, db)
      | ok _ ↦
          let hit = is_unclaimed record_id scope in
          (
            ok (affected (row_count hit (rows t db))),
            set_rows t (update_where hit (claim (e.now db.ticks)) (rows t db)) (tick db),
          )
    ]
    else (err not_implemented, db)

-- `… AND deleted_at IS NULL AND superseded_at IS NULL`
abbrev pub is_live_target : Ident → MemoryScope → Memory → Bool
is_live_target record_id scope m = is_target record_id scope m && is_none m.superseded_at

abbrev pub supersede_row : Ident → ℕ → Text → Memory → Memory
supersede_row winner_id now reason m = record m {
  superseded_by = some winner_id;
  superseded_at = some now;
  supersede_reason = some (take 255 reason);
  updated_at = now;
  version = m.version + 1;
}

unfoldable pub supersede : Env → Ident → Ident → Text → MemoryScope → Db → Result Bool × Db
unfolding require_agent_id
supersede e loser_id winner_id reason scope db = elim (require_agent_id scope) [
  | err x ↦ (err x, db)
  | ok _ ↦
      let hit = is_live_target loser_id scope in
      let change = supersede_row winner_id (e.now db.ticks) reason in
      (
        ok (affected (row_count hit db.facts)),
        record db { facts = update_where hit change db.facts; ticks = db.ticks + 1 },
      )
]
