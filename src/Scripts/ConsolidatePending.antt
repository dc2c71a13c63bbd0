-- ===== src/Scripts/ConsolidatePending.antt =====
-- scripts/consolidate_pending.py: a worker that claims pending rows, consolidates them, and runs the
-- reconciler between batches.
pub mod Exclusion
use yaadien.Prelude.{
  ℕ, zero, suc, ◌+◌, ◌&&◌, Bool, true, false, Option, none, some, List, [], ◌∷◌, ◌++◌, ltb, ◌==◌,
  is_none, take, codes, text_eq, if◌then◌else◌,
}
use yaadien.Prelude.Table.{select}
use yaadien.Model.{Ident, Text, Result, ok, err, value_error, MemoryScope, Memory, ◌>>=◌}
use yaadien.Scope.{require_agent_id}
use yaadien.Db.{
  TableName, working_memory, episodic_memory, semantic_facts, entity_profiles, procedural_memory,
  Db, Env, rows,
}
use yaadien.Repository.{row_in_scope}
use yaadien.Repository.Lifecycle.{claim_consolidated}
use yaadien.Repository.Write.{create}
use yaadien.Store.{alias_facts}
use yaadien.Store.Messages.{is_space}
use yaadien.Store.Pipeline.{Pipeline, repository_of}
use yaadien.Store.Reconcile.{SupersedeDecision, reconcile}
use mathlib.Core.List.{reverse}
use Prim.Native.Nat.{◌%◌}

-- `{scope_sql} AND deleted_at IS NULL AND consolidated_at IS NULL`
abbrev pub is_pending : MemoryScope → Memory → Bool
is_pending scope m = row_in_scope scope m && is_none m.deleted_at && is_none m.consolidated_at

-- `any_order` is the order in which Db2 gives rows without an ORDER BY.
unfoldable pub fetch_pending :
    (List Memory → List Memory) → TableName → MemoryScope → ℕ → Db → Result (List Memory)
unfolding require_agent_id
fetch_pending any_order t scope batch_size db = do
  _ ← require_agent_id scope
  ok (take batch_size (any_order (select (is_pending scope) (rows t db))))

-- What a consolidator derives, each with the table of its type; it gives `none` where it raises.
abbrev pub Consolidator : Type 0
Consolidator = List Memory → Option (List (Option TableName × Memory))

-- the three types that the script stores
abbrev pub is_derived : TableName → Bool
is_derived semantic_facts = true
is_derived entity_profiles = true
is_derived procedural_memory = true
is_derived _ = false

-- The loop over the derived records: one of another type is skipped, and a write that raises ends it.
unfoldable pub store_derived :
    Env → Pipeline → MemoryScope → List (Option TableName × Memory) → Db → Result (Unit {0}) × Db
unfolding create
store_derived e p scope [] db = (ok tt, db)
store_derived e p scope ((none, m) ∷ ds) db = store_derived e p scope ds db
store_derived e p scope ((some t, m) ∷ ds) db =
    let step = create e (repository_of p t) m scope db in
    let skipped = store_derived e p scope ds db in
    let rest = store_derived e p scope ds step.1 in
    elim (is_derived t) [
      | false ↦ skipped
      | true ↦ elim step.0 [ err x ↦ (err x, step.1) | ok stored ↦ rest ]
    ]

-- A consolidator that raises ends the script; the claim stays.
abbrev pub with_derived :
    Env → Pipeline → MemoryScope → Option (List (Option TableName × Memory)) → Db → Result Bool × Db
unfolding store_derived
with_derived e p scope none db = (err value_error, db)
with_derived e p scope (some derived) db =
    let step = store_derived e p scope derived db in
    elim step.0 [ err x ↦ (err x, step.1) | ok _ ↦ (ok true, step.1) ]

unfoldable pub process_record :
    Env → Pipeline → Consolidator → TableName → MemoryScope → Memory → Db → Result Bool × Db
unfolding claim_consolidated store_derived
process_record e p consolidator t scope m db =
    let step = claim_consolidated e t m.id scope db in
    let stored = with_derived e p scope (consolidator (m ∷ [])) step.1 in
    elim step.0 [
      | err x ↦ (err x, step.1)
      | ok claimed ↦ elim claimed [ false ↦ (ok false, step.1) | true ↦ stored ]
    ]

-- `if …: processed += 1`
abbrev pub one_more : Bool → ℕ → ℕ
one_more true n = suc n
one_more false n = n

-- the loop over the fetched records, with the number of those that this worker has processed
unfoldable pub process_batch :
    Env → Pipeline → Consolidator → TableName → MemoryScope → List Memory → Db → Result ℕ × Db
unfolding process_record
process_batch e p consolidator t scope [] db = (ok 0, db)
process_batch e p consolidator t scope (m ∷ l) db =
    let step = process_record e p consolidator t scope m db in
    let rest = process_batch e p consolidator t scope l step.1 in
    elim step.0 [
      | err x ↦ (err x, step.1)
      | ok done ↦ elim rest.0 [ err x ↦ (err x, rest.1) | ok n ↦ (ok (one_more done n), rest.1) ]
    ]

-- the options of the command line, with the classes that they name
pub record Options : Type 0 where
  pub batch_size : ℕ
  pub memory_types : Text
  pub consolidator : Consolidator
  pub reconciler : Option (List Memory → Option (List SupersedeDecision))
  pub dedup_every_n : ℕ

-- `text.split(",")`, with the field so far in reverse
unfoldable pub split_commas : Text → Text → List Text
split_commas acc [] = reverse acc ∷ []
split_commas acc (c ∷ s) =
    let next = split_commas [] s in
    let more = split_commas (c ∷ acc) s in if c == b',' then reverse acc ∷ next else more

unfoldable pub strip_left : Text → Text
strip_left [] = []
strip_left (c ∷ s) = let rest = strip_left s in if is_space c then rest else c ∷ s

-- `text.strip()`
abbrev pub strip : Text → Text
unfolding strip_left
strip s = reverse (strip_left (reverse (strip_left s)))

-- `type_to_repo`
abbrev pub type_to_table : Text → Option TableName
unfolding text_eq
type_to_table name =
    if text_eq name (codes "working")
    then some working_memory
    else if text_eq name (codes "episodic")
    then some episodic_memory
    else none

-- Without a reconciler there are no runs of it.
abbrev pub dedup_period : Options → ℕ
dedup_period o = elim o.reconciler [ none ↦ 0 | some r ↦ o.dedup_every_n ]

-- `dedup_every_n > 0 and batches_completed % dedup_every_n == 0`
abbrev pub is_dedup_due : ℕ → ℕ → Bool
is_dedup_due n batches = ltb 0 n && batches % n == 0

-- The run of the reconciler; what it raises is reported and forgotten.
abbrev pub reconciled :
    Env → Option (List Memory → Option (List SupersedeDecision)) → MemoryScope → Db → Db
unfolding reconcile
reconciled e none scope db = db
reconciled e (some reconciler) scope db = (reconcile e reconciler alias_facts scope 200 db).1

-- The work on the memory types of the option, with the number of batches so far. The result counts
-- the batches.
unfoldable pub process_types :
    Env
    → Pipeline
    → (List Memory → List Memory)
    → Options
    → MemoryScope
    → List Text
    → ℕ
    → Db
    → Result ℕ × Db
unfolding fetch_pending process_batch text_eq reconcile strip_left
process_types e p any_order o scope [] batches db = (ok batches, db)
process_types e p any_order o scope (name ∷ names) batches db =
    let skipped = process_types e p any_order o scope names batches db in
    elim (type_to_table (strip name)) [
      | none ↦ skipped
      | some t ↦ elim (fetch_pending any_order t scope o.batch_size db) [
        | err x ↦ (err x, db)
        | ok records ↦
            let step = process_batch e p o.consolidator t scope records db in
            let db' =
              if is_dedup_due (dedup_period o) (suc batches)
              then reconciled e o.reconciler scope step.1
              else step.1 in
            let rest = process_types e p any_order o scope names (suc batches) db' in
            elim step.0 [ err x ↦ (err x, step.1) | ok processed ↦ rest ]
      ]
    ]

-- A period above 2 is refused before anything is done.
unfoldable pub main :
    Env
    → Pipeline
    → (List Memory → List Memory)
    → Options
    → Ident
    → Option Ident
    → Db
    → Result ℕ × Db
unfolding split_commas process_types
main e p any_order o agent_id tenant_id db =
    if ltb 2 o.dedup_every_n
    then (err value_error, db)
    else process_types e p any_order o
        (record { tenant_id = tenant_id; agent_id = agent_id; user_id = none; thread_id = none })
        (split_commas [] o.memory_types) 0 db
