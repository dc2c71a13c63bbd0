-- ===== src/Tests/Adapters.antt =====
-- The adapters on the test database.
use yaadien.Prelude.{◌≡◌, ◌≢◌, refl, ℕ, none, some, Option, List, [], ◌∷◌, arith, codes, text_eq}
use yaadien.Prelude.Table.{select}
use yaadien.Model.{ℤ, Text, ok, Memory}
use yaadien.Scope.{in_scope}
use yaadien.Db.{semantic_facts, rows, Db}
use yaadien.Repository.History.Tenancy.{is_agent}
use yaadien.Repository.Listing.Visible.{OrdersRows}
use yaadien.Repository.Read.{holds_parts}
use yaadien.Repository.Frame.{SameRows}
use yaadien.Repository.Write.{find_duplicate}
use yaadien.ContentHash.{content_hash}
use yaadien.Adapters.Langchain.Insertion.{mset-duplicate}
use yaadien.Store.{alias_facts}
use yaadien.Adapters.Json.{Json, string, object, array, Items, nil, item, Fields, end, field}
use yaadien.Adapters.McpServer.{Arguments}
use yaadien.Adapters.McpServer.Isolation.{ToolCall, serve, serve-agent}
use yaadien.Adapters.AgentFramework
use yaadien.Adapters.AgentFramework.Messages.{Message, dict}
use yaadien.Adapters.AgentFramework.Sessions.{get_messages-after_run}
use yaadien.Adapters.OpenaiAgents.History.{Command, gets, pops, clears}
use yaadien.Adapters.Langchain.{KeyStore, table_of, has_key, find_by_key, mset, mget, key_metadata}
use yaadien.Adapters.Langchain.Deletion.{remove_each, shown_rows}
use yaadien.Adapters.Langchain.Messages.{
  BaseMessage, Construction, Constructors, MessageClass, human, function, metadata_to_message, ai,
  kept_call, message_to_metadata, metadata_to_message,
}
use yaadien.Adapters.Json.{get}
use yaadien.Tests.{env, scope_1, db_1, row}
use yaadien.Tests.Ingestion.{pipeline, state}
use yaadien.Tests.Json.{python}

-- a client of agent 1, who stores a fact and forgets another
abbrev stores : Arguments
stores = record {
  agent_id = some 1;
  user_id = none;
  thread_id = some 0;
  tenant_id = none;
  memory_type = some alias_facts;
  content = some (codes "likes cocoa");
  metadata = none;
  record_id = some 11;
  query_embedding = none;
  top_k = none;
  limit = none;
}

abbrev requests : List ToolCall
requests = (codes "remember", stores) ∷ (codes "forget", stores) ∷ (codes "dance", stores) ∷ []

not_agent_2 : ◌≢◌ {A = Option ℕ} (some 1) (some 2)
not_agent_2 h = ground arith

serve-agent_example :
    select (is_agent 2) (rows semantic_facts (serve env pipeline requests state).1.db)
    ≡ select (is_agent 2) db_1.facts
serve-agent_example =
    serve-agent env pipeline requests state 2 semantic_facts
      (not_agent_2, (not_agent_2, (not_agent_2, tt)))

abbrev hello : Message
hello = dict (field (codes "text") (string (codes "hello")) end)

-- the call of a session in the given thread
abbrev run_in : ℕ → AgentFramework.RunState
run_in thread = record {
  thread_id = some thread;
  user_id = none;
  tenant_id = none;
  query_embedding = none;
  messages = [];
  request = some hello;
  response = none;
}

abbrev provider : AgentFramework.ContextProvider
provider = record { agent_id = 1; max_turns = ℤ.pos 20; top_k = 5 }

get_messages-after_run_example :
    AgentFramework.get_messages env python 1
      (some 8)
      (run_in 8)
      (AgentFramework.after_run env pipeline python provider none [] (run_in 7) state).1.db
    ≡ AgentFramework.get_messages env python 1 (some 8) (run_in 8) db_1
unfolding AgentFramework.provider_scope
get_messages-after_run_example =
    get_messages-after_run env pipeline python provider none [] (run_in 7) (run_in 8) state 1 7 8
      refl (λ h. ground arith) (refl, tt)

env-OrdersRows : OrdersRows env
env-OrdersRows = record { counts = λ q l. refl; selects = λ q l. refl }

is_agent_1 : scope_1.agent_id ≢ 0
is_agent_1 h = ground arith

abbrev commands : List Command
commands = pops ∷ gets none ∷ clears ∷ pops ∷ []

-- A namespace, and a table with two rows under one key.
abbrev settings : KeyStore
settings = record { scope = scope_1; namespace = codes "facts" }

abbrev theme : ℕ → Text → Memory
theme i value = record (row i value) { metadata = key_metadata python settings (codes "theme") }

abbrev with_themes : List Memory
with_themes = theme 51 (codes "dark") ∷ theme 52 (codes "light") ∷ []

abbrev db_themes : Db
db_themes = record db_1 { facts = with_themes }

two_themes :
    (shown_rows env python settings env-OrdersRows is_agent_1 db_themes ≡ with_themes)
    × (remove_each python (codes "theme" ∷ []) with_themes ≡ theme 52 (codes "light") ∷ [])
unfolding select in_scope remove_each table_of python is_agent_1 env-OrdersRows holds_parts has_key
two_themes = (refl, refl)

-- constructors that take every argument
abbrev dict_of : Json → Fields
dict_of (object fields) = fields
dict_of j = end

abbrev calls_of_items : Items → List Fields
calls_of_items nil = []
calls_of_items (item j rest) = dict_of j ∷ calls_of_items rest

abbrev calls_of : Option Json → List Fields
calls_of (some (array items)) = calls_of_items items
calls_of j = []

abbrev message_of : Construction → BaseMessage
message_of c = record {
  class = c.class;
  content = c.content;
  additional_kwargs = dict_of c.additional_kwargs;
  response_metadata = c.response_metadata;
  tool_call_id = c.tool_call_id;
  tool_calls = calls_of c.tool_calls;
  id = none;
  name = none;
}

-- a FunctionMessage without a name is refused
abbrev made : MessageClass → BaseMessage → Option BaseMessage
made function m = none
made _ m = some m

abbrev build : Constructors
build c = made c.class (message_of c)

-- a message of the model that calls a tool
abbrev calling : BaseMessage
calling = record {
  class = ai;
  content = array nil;
  additional_kwargs = end;
  response_metadata = object end;
  tool_call_id = none;
  tool_calls = kept_call end ∷ [];
  id = some (codes "m1");
  name = none;
}

-- A function message comes back as a human one.
function_lost :
    (m : BaseMessage) × (metadata_to_message python build
        (codes "4")
        (message_to_metadata (record calling { class = function }))
      ≡ some m)
    × (m.class ≡ human)
unfolding metadata_to_message message_to_metadata kept_call get text_eq python
function_lost = (_, refl, refl)

-- a fact with the hash of its content
abbrev hashed : Memory
unfolding content_hash
hashed = record (row 12 (codes "likes coffee")) {
  content_hash = some (content_hash env (codes "likes coffee"));
}

abbrev db_hashed : Db
unfolding content_hash
db_hashed = record db_1 { facts = hashed ∷ [] }

-- A second key for a value that is there.
mset-duplicate_example :
    let pairs : List (Text × Text) = (codes "favourite", codes "likes coffee") ∷ [] in
    ((mset env pipeline python settings pairs db_hashed).0 ≡ ok tt)
    × SameRows db_hashed (mset env pipeline python settings pairs db_hashed).1
    × (mget env python settings
          (codes "favourite" ∷ [])
          (mset env pipeline python settings pairs db_hashed).1
        ≡ ok (none ∷ []))
unfolding find_by_key find_duplicate select in_scope table_of python content_hash holds_parts
    has_key
mset-duplicate_example =
    mset-duplicate env pipeline python settings (codes "favourite") (codes "likes coffee") db_hashed
      is_agent_1 (refl, tt) hashed refl refl
