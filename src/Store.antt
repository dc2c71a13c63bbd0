-- ===== src/Store.antt =====
-- `MemoryStore` of src/agent_memory_sdk/store.py: the names of its repositories, and the calls that it
-- hands on to one of them.
pub mod Erasure
pub mod Throttle
pub mod Reconcile
pub mod Deletion
pub mod Pipeline
pub mod Ingest
pub mod Export
pub mod Import
pub mod Messages
pub mod Context
pub mod FanOut
pub mod Entry
use yaadien.Prelude.{ℕ, Bool, true, false, Option, none, some, List, [], ◌∷◌}
use yaadien.Model.{Ident, Result, ok, err, value_error, MemoryScope}
use yaadien.Db.{
  TableName, working_memory, episodic_memory, semantic_facts, entity_profiles, procedural_memory,
  Db, Env,
}
use yaadien.Repository.Lifecycle

-- A `memory_type` argument: the eight strings of `_ALIAS_TO_ATTR`, or another one.
pub data MemoryType : Type 0 where
  alias_working alias_episodic alias_facts alias_semantic_facts alias_profiles : MemoryType
  alias_entity_profiles alias_procedures alias_procedural : MemoryType
  unknown : Ident → MemoryType

-- `_ALIAS_TO_ATTR`, each attribute given as the table of its repository, and the error for the rest
unfoldable pub resolve_repo : MemoryType → Result TableName
resolve_repo alias_working = ok working_memory
resolve_repo alias_episodic = ok episodic_memory
resolve_repo alias_facts = ok semantic_facts
resolve_repo alias_semantic_facts = ok semantic_facts
resolve_repo alias_profiles = ok entity_profiles
resolve_repo alias_entity_profiles = ok entity_profiles
resolve_repo alias_procedures = ok procedural_memory
resolve_repo alias_procedural = ok procedural_memory
resolve_repo (unknown s) = err value_error

-- One call after another, the second on what the first returned; an exception ends the method.
abbrev pub and_then {ℓ κ} :
    {A : Type ℓ} {B : Type κ} → Result A × Db → (A → Db → Result B × Db) → Result B × Db
and_then (ok a, db) f = f a db
and_then (err e, db) f = (err e, db)

unfoldable pub forget : Env → Ident → MemoryType → MemoryScope → Db → Result Bool × Db
unfolding resolve_repo
forget e record_id memory_type scope db = elim (resolve_repo memory_type) [
  | err x ↦ (err x, db)
  | ok t ↦ Lifecycle.forget e t record_id scope db
]

-- `1 if found else 0` of a call that may raise
abbrev pub as_count : Bool → ℕ
as_count true = 1
as_count false = 0

unfoldable pub delete_message : Env → Ident → MemoryScope → Db → Result ℕ × Db
delete_message e message_id scope db =
    and_then (Lifecycle.forget e working_memory message_id scope db)
      (λ found d. (ok (as_count found), d))

-- The first of the tables in which `forget` finds the id.
unfoldable pub forget_first : Env → Ident → MemoryScope → List TableName → Db → Result ℕ × Db
forget_first e memory_id scope [] db = (ok 0, db)
forget_first e memory_id scope (t ∷ ts) db =
    and_then (Lifecycle.forget e t memory_id scope db)
      (λ found d. elim found [ true ↦ (ok 1, d) | false ↦ forget_first e memory_id scope ts d ])

unfoldable pub delete_memory : Env → Ident → MemoryScope → Db → Result ℕ × Db
unfolding forget_first
delete_memory e memory_id scope db =
    forget_first e memory_id scope (semantic_facts ∷ entity_profiles ∷ procedural_memory ∷ []) db
