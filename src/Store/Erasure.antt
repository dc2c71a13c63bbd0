-- ===== src/Store/Erasure.antt =====
-- The hard deletes of src/agent_memory_sdk/store.py over all tables: `purge_expired`, `erase_all`,
-- `delete_user`, `delete_agent` and `delete_thread`.
pub mod Everywhere
use yaadien.Prelude.{ℕ, ◌+◌, Bool, true, false, Option, none, some, List, [], ◌∷◌}
use yaadien.Model.{Ident, Result, ok, err, MemoryScope}
use yaadien.Db.{
  TableName, working_memory, episodic_memory, semantic_facts, entity_profiles, procedural_memory,
  Db, Env, tick,
}
use yaadien.Repository.Lifecycle
use yaadien.Repository.Chunks.{erase_by_scope}
use yaadien.Store.{and_then}

-- the repositories in the order in which the methods go through them
abbrev pub all_tables : List TableName
all_tables =
    working_memory ∷ episodic_memory ∷ semantic_facts ∷ entity_profiles ∷ procedural_memory ∷ []

-- `for repo in (…): results[repo._TABLE] = call(repo)`
unfoldable pub for_tables :
    (TableName → Db → Result ℕ × Db) → List TableName → Db → Result (List (TableName × ℕ)) × Db
for_tables call [] db = (ok [], db)
for_tables call (t ∷ ts) db =
    and_then (call t db)
      (λ n d. and_then (for_tables call ts d) (λ counts d'. (ok ((t, n) ∷ counts), d')))

unfoldable pub purge_expired : MemoryScope → Db → Result (List (TableName × ℕ)) × Db
unfolding for_tables
purge_expired scope db = for_tables (λ t d. Lifecycle.purge_expired t scope d) all_tables db

-- `rows_deleted` is in two parts: the five memory tables, and `memory_chunks`.
pub record ErasureReport : Type 0 where
  pub rows_deleted : List (TableName × ℕ)
  pub chunks_deleted : ℕ
  pub total_deleted : ℕ
  pub erased_at : ℕ

-- `sum(rows_deleted.values())`
unfoldable pub sum_counts : List (TableName × ℕ) → ℕ
sum_counts [] = 0
sum_counts ((t, n) ∷ counts) = n + sum_counts counts

unfoldable pub erase_all : Env → MemoryScope → Db → Result ErasureReport × Db
unfolding for_tables sum_counts
erase_all e scope db =
    and_then (for_tables (λ t d. Lifecycle.erase_all t scope d) all_tables db) (λ counts d.
      and_then (erase_by_scope scope d) (λ n d'. (
        ok (record {
          rows_deleted = counts;
          chunks_deleted = n;
          total_deleted = sum_counts counts + n;
          erased_at = e.now d'.ticks;
        }),
        tick d',
      )))

-- the `cascade=False` part of `delete_user` and of `delete_agent`
unfoldable pub erase_profiles : Env → MemoryScope → Db → Result ErasureReport × Db
erase_profiles e scope db = and_then (Lifecycle.erase_all entity_profiles scope db) (λ n d. (
  ok (record {
    rows_deleted =
        (working_memory, 0)
        ∷ (episodic_memory, 0)
        ∷ (semantic_facts, 0)
        ∷ (entity_profiles, n)
        ∷ (procedural_memory, 0)
        ∷ [];
    chunks_deleted = 0;
    total_deleted = n;
    erased_at = e.now d.ticks;
  }),
  tick d,
))

abbrev pub user_scope : Ident → Ident → Option Ident → MemoryScope
user_scope user_id agent_id tenant_id = record {
  tenant_id = tenant_id;
  agent_id = agent_id;
  user_id = some user_id;
  thread_id = none;
}

unfoldable pub delete_user :
    Env → Ident → Ident → Option Ident → Bool → Db → Result ErasureReport × Db
unfolding erase_all erase_profiles
delete_user e user_id agent_id tenant_id true db =
    erase_all e (user_scope user_id agent_id tenant_id) db
delete_user e user_id agent_id tenant_id false db =
    erase_profiles e (user_scope user_id agent_id tenant_id) db

abbrev pub agent_scope : Ident → Option Ident → MemoryScope
agent_scope agent_id tenant_id = record {
  tenant_id = tenant_id;
  agent_id = agent_id;
  user_id = none;
  thread_id = none;
}

unfoldable pub delete_agent : Env → Ident → Option Ident → Bool → Db → Result ErasureReport × Db
unfolding erase_all erase_profiles
delete_agent e agent_id tenant_id true db = erase_all e (agent_scope agent_id tenant_id) db
delete_agent e agent_id tenant_id false db = erase_profiles e (agent_scope agent_id tenant_id) db

unfoldable pub delete_thread : Env → MemoryScope → Db → Result ErasureReport × Db
unfolding erase_all
delete_thread e scope db = erase_all e scope db
