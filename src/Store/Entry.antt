-- ===== src/Store/Entry.antt =====
-- The methods of src/agent_memory_sdk/store.py that write by way of `remember`: `add_messages`,
-- `add_memory`, `add_user` and `add_agent`.
pub mod Profiles
use yaadien.Prelude.{Bool, true, false, Option, none, some, List, [], ◌∷◌, codes}
use yaadien.Model.{
  Ident, Text, Result, ok, err, value_error, key_error, MemoryScope, Memory, direct_write,
  extraction,
}
use yaadien.Db.{TableName, working_memory, semantic_facts, entity_profiles, Db, Env, tick}
use yaadien.Repository.Read.{list_all}
use yaadien.Repository.Write.{create, update}
use yaadien.Store.Pipeline.{Pipeline, StoreState, repository_of}
use yaadien.Store.Ingest.{remember, derived_or_none}

-- A new record with the defaults of `_MemoryBase`. Until it is stored it has no times, for which 0
-- stands.
abbrev pub new_record : Env → Ident → MemoryScope → Text → Text → Memory
new_record e i scope content metadata = record {
  id = i;
  tenant_id = scope.tenant_id;
  agent_id = scope.agent_id;
  user_id = scope.user_id;
  thread_id = scope.thread_id;
  content = content;
  metadata = metadata;
  embedding = [];
  confidence = e.one;
  content_hash = none;
  created_at = 0;
  updated_at = 0;
  expires_at = none;
  version = 1;
  deleted_at = none;
  consolidated_at = none;
  origin = direct_write;
  quarantined = false;
  superseded_by = none;
  superseded_at = none;
  supersede_reason = none;
}

-- the id of the caller, or a fresh one
abbrev pub id_or_fresh : Env → Option Ident → Db → Ident
id_or_fresh e none db = e.uuid db.ticks
id_or_fresh e (some i) db = i

abbrev pub tick_state : StoreState → StoreState
tick_state s = record s { db = tick s.db }

-- A message dict. `metadata` is the text of its metadata with the other keys merged in.
pub record Message : Type 0 where
  pub id : Option Ident
  pub content : Option Text
  pub metadata : Text

-- the scope columns that `add_messages` gives a record: only the agent
abbrev pub agent_only : MemoryScope → MemoryScope
agent_only scope = record {
  tenant_id = none;
  agent_id = scope.agent_id;
  user_id = none;
  thread_id = none;
}

abbrev pub message_record : Env → Message → Text → MemoryScope → Db → Memory
message_record e msg content scope db =
    new_record e (id_or_fresh e msg.id db) (agent_only scope) content msg.metadata

-- one round of the loop: a message without content is a KeyError
unfoldable pub add_message :
    Env → Pipeline → Message → MemoryScope → StoreState → Result Memory × StoreState
unfolding remember
add_message e p msg scope s = elim msg.content [
  | none ↦ (err key_error, s)
  | some content ↦
      remember e p working_memory (message_record e msg content scope s.db) scope (tick_state s)
]

-- The loop over the messages. What was written before an error stays.
unfoldable pub add_each :
    Env → Pipeline → List Message → MemoryScope → StoreState → Result (List Memory) × StoreState
unfolding add_message
add_each e p [] scope s = (ok [], s)
add_each e p (msg ∷ msgs) scope s =
    let step = add_message e p msg scope s in
    let rest = add_each e p msgs scope step.1 in
    elim step.0 [
      | err x ↦ (err x, step.1)
      | ok stored ↦ elim rest.0 [ err x ↦ (err x, rest.1) | ok more ↦ (ok (stored ∷ more), rest.1) ]
    ]

-- The loop over what the extractor derives: a record of no known type is skipped, and a write that
-- raises is logged.
unfoldable pub persist_extracted :
    Env → Pipeline → MemoryScope → List (Option TableName × Memory) → Db → Db
unfolding create
persist_extracted e p scope [] db = db
persist_extracted e p scope ((none, m) ∷ ds) db = persist_extracted e p scope ds db
persist_extracted e p scope ((some t, m) ∷ ds) db =
    persist_extracted e p scope ds
      (create e (repository_of p t) (record m { origin = extraction }) scope db).1

abbrev pub Extractor : Type 0
Extractor = List Memory → MemoryScope → Option (List (Option TableName × Memory))

abbrev pub ids_in : List Memory → List Ident
ids_in [] = []
ids_in (m ∷ l) = m.id ∷ ids_in l

-- An extractor that is `none` is the no-op one, and one that raises has nothing to persist.
unfoldable pub extract :
    Env → Pipeline → Option Extractor → Bool → List Memory → MemoryScope → StoreState → StoreState
unfolding persist_extracted
extract e p none wanted stored scope s = s
extract e p (some f) false stored scope s = s
extract e p (some f) true stored scope s = record s {
  db = persist_extracted e p scope (derived_or_none (f stored scope)) s.db;
}

unfoldable pub add_messages :
    Env
    → Pipeline
    → Option Extractor
    → List Message
    → MemoryScope
    → Bool
    → StoreState
    → Result (List Ident) × StoreState
unfolding add_each extract
add_messages e p extractor messages scope extract_memories s =
    let step = add_each e p messages scope s in
    elim step.0 [
      | err x ↦ (err x, step.1)
      | ok stored ↦ (ok (ids_in stored), extract e p extractor extract_memories stored scope step.1)
    ]

-- the id of what a call returns
abbrev pub with_id : Result Memory × StoreState → Result Ident × StoreState
with_id (ok m, s) = (ok m.id, s)
with_id (err x, s) = (err x, s)

unfoldable pub add_memory :
    Env
    → Pipeline
    → Text
    → MemoryScope
    → Option Ident
    → Text
    → StoreState
    → Result Ident × StoreState
unfolding remember
add_memory e p content scope memory_id metadata s = with_id (
    remember e p semantic_facts (new_record e (id_or_fresh e memory_id s.db) scope content metadata)
      scope (tick_state s))

-- The profile that the listing found gets the new text, or a new profile is remembered.
unfoldable pub upsert_profile :
    Env
    → Pipeline
    → Text
    → MemoryScope
    → Result (List Memory)
    → StoreState
    → Result Ident × StoreState
unfolding remember
upsert_profile e p profile_text scope (err x) s = (err x, s)
upsert_profile e p profile_text scope (ok []) s = with_id (
    remember e p entity_profiles (new_record e (e.uuid s.db.ticks) scope profile_text (codes "{}"))
      scope (tick_state s))
upsert_profile e p profile_text scope (ok (m ∷ l)) s =
    let step =
      update e (repository_of p entity_profiles) (record m { content = profile_text }) scope s.db in
    with_id (step.0, record s { db = step.1 })

abbrev pub newest_profile : Env → MemoryScope → Db → Result (List Memory)
newest_profile e scope db = list_all e entity_profiles scope 1 0 false 0 none db

abbrev pub user_scope : Ident → MemoryScope → MemoryScope
user_scope user_id scope = record scope { user_id = some user_id; thread_id = none }

unfoldable pub add_user :
    Env → Pipeline → Ident → Text → Option MemoryScope → StoreState → Result Ident × StoreState
unfolding list_all
add_user e p user_id profile_text none s = (err value_error, s)
add_user e p user_id profile_text (some scope) s =
    upsert_profile e p profile_text (user_scope user_id scope)
      (newest_profile e (user_scope user_id scope) s.db) s

-- the tenant of an optional scope
abbrev pub tenant_of : Option MemoryScope → Option Ident
tenant_of none = none
tenant_of (some scope) = scope.tenant_id

abbrev pub agent_scope : Ident → Option MemoryScope → MemoryScope
agent_scope agent_id scope = record {
  tenant_id = tenant_of scope;
  agent_id = agent_id;
  user_id = none;
  thread_id = none;
}

unfoldable pub add_agent :
    Env → Pipeline → Ident → Text → Option MemoryScope → StoreState → Result Ident × StoreState
unfolding list_all
add_agent e p agent_id profile_text scope s =
    upsert_profile e p profile_text (agent_scope agent_id scope)
      (newest_profile e (agent_scope agent_id scope) s.db) s
