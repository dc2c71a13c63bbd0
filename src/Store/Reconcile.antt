-- ===== src/Store/Reconcile.antt =====
-- `reconcile` of src/agent_memory_sdk/store.py.
pub mod Decisions
pub mod Contradiction
use yaadien.Prelude.{
  ℕ, Bool, true, false, not, ◌&&◌, Option, none, some, List, [], ◌∷◌, ◌==◌, if◌then◌else◌, min,
}
use yaadien.Model.{Ident, Text, Result, ok, err, value_error, Memory, MemoryScope}
use yaadien.Db.{TableName, semantic_facts, Db, Env}
use yaadien.Repository.Lifecycle.{supersede}
use yaadien.Repository.Read.{list_all}
use yaadien.Store.{MemoryType, alias_facts, alias_semantic_facts}

pub record SupersedeDecision : Type 0 where
  pub winner_id : Ident
  pub loser_id : Ident
  pub reason : Text

-- `id in candidate_ids`
unfoldable pub is_candidate : Ident → List Memory → Bool
is_candidate i [] = false
is_candidate i (m ∷ l) = if m.id == i then true else is_candidate i l

-- guards (a) and (b)
abbrev pub is_acceptable : List Memory → SupersedeDecision → Bool
is_acceptable candidates d = not (d.winner_id == d.loser_id) && is_candidate d.winner_id candidates

-- The loop over the decisions. The result is `applied`; an exception of `supersede` is logged.
unfoldable pub apply_decisions :
    Env → List Memory → MemoryScope → List SupersedeDecision → Db → List SupersedeDecision × Db
apply_decisions e candidates scope [] db = ([], db)
apply_decisions e candidates scope (d ∷ ds) db = elim (is_acceptable candidates d) [
  | false ↦ apply_decisions e candidates scope ds db
  | true ↦
      let step = supersede e d.loser_id d.winner_id d.reason scope db in
      elim step.0 [
        | ok true ↦ let rest = apply_decisions e candidates scope ds step.1 in (d ∷ rest.0, rest.1)
        | ok false ↦ apply_decisions e candidates scope ds step.1
        | err x ↦ apply_decisions e candidates scope ds step.1
      ]
]

-- `memory_type in ("facts", "semantic_facts")`
abbrev pub is_facts : MemoryType → Bool
is_facts alias_facts = true
is_facts alias_semantic_facts = true
is_facts _ = false

-- `reconciler` is the configured callback, `none` where it raises.
unfoldable pub reconcile :
    Env
    → (List Memory → Option (List SupersedeDecision))
    → MemoryType
    → MemoryScope
    → ℕ
    → Db
    → Result (List SupersedeDecision) × Db
unfolding apply_decisions
reconcile e reconciler memory_type scope limit db = elim (is_facts memory_type) [
  | false ↦ (err value_error, db)
  | true ↦ elim (list_all e semantic_facts scope (min limit 1000) 0 false 0 none db) [
    | err x ↦ (err x, db)
    | ok candidates ↦ elim (reconciler candidates) [
      | none ↦ (ok [], db)
      | some decisions ↦
          let step = apply_decisions e candidates scope decisions db in (ok step.0, step.1)
    ]
  ]
]
