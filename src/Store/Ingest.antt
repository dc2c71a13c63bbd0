-- ===== src/Store/Ingest.antt =====
-- `remember` of src/agent_memory_sdk/store.py, with `_resolve_and_act` and
-- `_run_consolidator`.
pub mod Safety
pub mod Outcome
pub mod Default
use yaadien.Prelude.{
  ℕ, Bool, true, false, ◌&&◌, Option, none, some, List, [], ◌∷◌, map, ◌==◌, if◌then◌else◌,
}
use yaadien.Model.{
  Ident, Text, Double, Vector, Result, ok, err, integrity_rejection, MemoryScope, MemoryOrigin,
  Memory, consolidation, ingest_resolver,
}
use yaadien.Db.{
  TableName, working_memory, episodic_memory, procedural_memory, semantic_facts, entity_profiles,
  Db, Env,
}
use yaadien.Repository.{Repository}
use yaadien.Repository.Lifecycle.{forget}
use yaadien.Repository.Read.{get_by_id}
use yaadien.Repository.Write.{create, update}
use yaadien.Store.Pipeline.{
  IngestAction, IngestDecision, IntegrityDecision, Pipeline, StoreState, accept, add,
  candidate_embedding, delete_target, guard_context, is_procedural, noop, provided, quarantine,
  reject, repository_of, run_integrity_guard, similar, update_target,
}
use yaadien.Store.Throttle.{Key, should_consolidate}

-- `decision.target_id`, where an empty string counts as none
abbrev pub given : Option Ident → Option Ident
given none = none
given (some i) = elim (i == 0) [ true ↦ none | false ↦ some i ]

-- a call that returns, with the flag `did_add`
abbrev pub flagged : Bool → Result Memory × Db → Result (Memory × Bool) × Db
flagged b (ok m, db) = (ok (m, b), db)
flagged b (err x, db) = (err x, db)

-- the fields that an UPDATE decision copies from the candidate to the target
abbrev pub merged : Memory → Memory → Memory
merged m target = record target {
  content = m.content;
  metadata = m.metadata;
  embedding = m.embedding;
  confidence = m.confidence;
  origin = ingest_resolver;
}

-- The UPDATE branch, on what `get_by_id` has found: without a target the candidate is added.
unfoldable pub merge_into :
    Env
    → Pipeline
    → TableName
    → Memory
    → MemoryScope
    → Result (Option Memory)
    → Db
    → Result (Memory × Bool) × Db
merge_into e p t m scope (err x) db = (err x, db)
merge_into e p t m scope (ok none) db = flagged true (create e (repository_of p t) m scope db)
merge_into e p t m scope (ok (some target)) db =
    flagged false (update e (repository_of p t) (merged m target) scope db)

-- The DELETE branch: the candidate comes back whether a row was found or not.
abbrev pub keep_candidate : Memory → Result Bool × Db → Result (Memory × Bool) × Db
keep_candidate m (ok found, db) = (ok (m, false), db)
keep_candidate m (err x, db) = (err x, db)

unfoldable pub act :
    Env
    → Pipeline
    → TableName
    → Memory
    → MemoryScope
    → IngestAction
    → Option Ident
    → Db
    → Result (Memory × Bool) × Db
unfolding merge_into
act e p t m scope add target db = flagged true (create e (repository_of p t) m scope db)
act e p t m scope update_target none db = flagged true (create e (repository_of p t) m scope db)
act e p t m scope update_target (some i) db = merge_into e p t m scope (get_by_id t i scope db) db
act e p t m scope delete_target none db = (ok (m, false), db)
act e p t m scope delete_target (some i) db = keep_candidate m (forget e t i scope db)
act e p t m scope noop target db = (ok (m, false), db)

-- An exception of the resolver counts as the decision ADD.
unfoldable pub act_on :
    Env
    → Pipeline
    → TableName
    → Memory
    → MemoryScope
    → Option IngestDecision
    → Db
    → Result (Memory × Bool) × Db
unfolding act
act_on e p t m scope none db = act e p t m scope add none db
act_on e p t m scope (some d) db = act e p t m scope d.action (given d.target_id) db

unfoldable pub resolve_and_act :
    Env
    → Pipeline
    → (Memory → List (Memory × Double) → Option IngestDecision)
    → TableName
    → Memory
    → MemoryScope
    → Db
    → Result (Memory × Bool) × Db
unfolding act_on similar
resolve_and_act e p resolver t m scope db =
    act_on e p t m scope (resolver m (similar e p t m scope db)) db

-- The loop over what the consolidator derives: a record of no known type is skipped, and a write
-- that raises is logged.
unfoldable pub persist_derived :
    Env → Pipeline → MemoryScope → List (Option TableName × Memory) → Db → Db
persist_derived e p scope [] db = db
persist_derived e p scope ((none, m) ∷ ds) db = persist_derived e p scope ds db
persist_derived e p scope ((some t, m) ∷ ds) db =
    persist_derived e p scope ds
      (create e (repository_of p t) (record m { origin = consolidation }) scope db).1

abbrev pub derived_or_none :
    Option (List (Option TableName × Memory)) → List (Option TableName × Memory)
derived_or_none none = []
derived_or_none (some derived) = derived

-- A consolidator that raises has nothing to persist.
unfoldable pub run_consolidator : Env → Pipeline → List Memory → MemoryScope → Db → Db
unfolding persist_derived
run_consolidator e p raw scope db =
    persist_derived e p scope (derived_or_none (p.consolidator raw)) db

abbrev pub is_consolidated_table : TableName → Bool
is_consolidated_table working_memory = true
is_consolidated_table episodic_memory = true
is_consolidated_table _ = false

-- the write of a record that has passed the guard
unfoldable pub write_record :
    Env → Pipeline → TableName → Memory → MemoryScope → Db → Result (Memory × Bool) × Db
unfolding resolve_and_act
write_record e p t m scope db = elim p.resolver [
  | none ↦ flagged true (create e (repository_of p t) m scope db)
  | some resolver ↦ resolve_and_act e p resolver t m scope db
]

-- the call of the consolidator, if it is due
unfoldable pub consolidate_if :
    Env → Pipeline → Memory → MemoryScope → Bool × List (Key × ℕ) → Db → StoreState
unfolding run_consolidator
consolidate_if e p stored scope (false, counters) db = record { db = db; counters = counters }
consolidate_if e p stored scope (true, counters) db = record {
  db = run_consolidator e p (stored ∷ []) scope db;
  counters = counters;
}

-- what follows a write: the throttle is asked only if a row was added to one of the two tables
unfoldable pub then_consolidate :
    Env
    → Pipeline
    → TableName
    → MemoryScope
    → Result (Memory × Bool) × Db
    → List (Key × ℕ)
    → Result Memory × StoreState
unfolding consolidate_if should_consolidate
then_consolidate e p t scope (err x, db) counters = (err x, record { db = db; counters = counters })
then_consolidate e p t scope (ok (stored, false), db) counters =
    (ok stored, record { db = db; counters = counters })
then_consolidate e p t scope (ok (stored, true), db) counters = (
  ok stored,
  (if is_consolidated_table t
      then consolidate_if e p stored scope (should_consolidate p.every_n scope counters) db
      else record { db = db; counters = counters }),
)

-- the part of `remember` behind the guard
unfoldable pub after_guard :
    Env
    → Pipeline
    → TableName
    → MemoryScope
    → StoreState
    → Result Memory
    → Result Memory × StoreState
unfolding write_record then_consolidate
after_guard e p t scope s (err x) = (err x, s)
after_guard e p t scope s (ok checked) =
    then_consolidate e p t scope (write_record e p t checked scope s.db) s.counters

-- The table stands for the type of the record.
unfoldable pub remember :
    Env → Pipeline → TableName → Memory → MemoryScope → StoreState → Result Memory × StoreState
unfolding run_integrity_guard after_guard
remember e p t m scope s = after_guard e p t scope s (run_integrity_guard e p t m scope s.db)
