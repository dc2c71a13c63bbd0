-- ===== src/Adapters/OpenaiAgents.antt =====
-- `Db2Session` of src/agent_memory_sdk/adapters/openai_agents.py: the messages of a run as rows of the
-- working memory.
pub mod History
use yaadien.Prelude.{ℕ, zero, suc, Bool, false, Option, none, some, List, [], ◌∷◌, map, codes}
use yaadien.Model.{ℤ, pos, negsuc, Ident, Text, Vector, Result, ok, err, ◌>>=◌, MemoryScope, Memory}
use yaadien.Db.{Db, Env, working_memory, episodic_memory}
use yaadien.Repository.Lifecycle.{forget}
use yaadien.Repository.Read.{list_all}
use yaadien.Repository.Search.Chunked.{search, default_request}
use yaadien.Store.Pipeline.{Pipeline, StoreState, repository_of}
use yaadien.Store.Ingest.{remember}
use yaadien.Store.Entry.{tick_state}
use yaadien.Store.Messages.{slice}
use yaadien.Adapters.{fresh_record, forget_each}
use yaadien.Adapters.Json.{Json, string, object, Fields, end, field, Python, get, get_or}
use mathlib.Core.List.{reverse}

unfoldable pub msg_to_content : Python → Fields → Text
msg_to_content py message = py.dumps (object message)

-- a text that is no JSON counts as a message of the user
abbrev loaded_or_user : Text → Option Json → Json
loaded_or_user content none =
    object
      (field (codes "role") (string (codes "user")) (field (codes "content") (string content) end))
loaded_or_user content (some message) = message

unfoldable pub content_to_msg : Python → Text → Json
content_to_msg py content = loaded_or_user content (py.loads content)

-- The scope of a session: `session_id` is the thread.
unfoldable pub session_scope : Ident → Option Ident → Option Ident → Option Ident → MemoryScope
session_scope agent_id session_id user_id tenant_id = record {
  agent_id = agent_id;
  thread_id = session_id;
  user_id = user_id;
  tenant_id = tenant_id;
}

-- `{"role": message.get("role", "unknown")}`
abbrev pub item_metadata : Python → Fields → Text
unfolding get
item_metadata py message =
    py.dumps
      (object (field (codes "role") (get_or (string (codes "unknown")) (codes "role") message) end))

unfoldable pub persist_message :
    Env → Pipeline → Python → MemoryScope → Fields → StoreState → Result Memory × StoreState
unfolding remember msg_to_content
persist_message e p py scope message s =
    remember e p working_memory
      (fresh_record e scope (msg_to_content py message) (item_metadata py message) s.db) scope
      (tick_state s)

-- an exception ends the loop and leaves what is written
unfoldable pub add_items :
    Env
    → Pipeline
    → Python
    → MemoryScope
    → List Fields
    → StoreState
    → Result (Unit {0}) × StoreState
unfolding persist_message
add_items e p py scope [] s = (ok tt, s)
add_items e p py scope (message ∷ l) s =
    let step = persist_message e p py scope message s in
    let rest = add_items e p py scope l step.1 in
    elim step.0 [ err x ↦ (err x, step.1) | ok stored ↦ rest ]

-- `-limit`
abbrev negated : ℤ → ℤ
negated (pos zero) = pos 0
negated (pos (suc n)) = negsuc n
negated (negsuc n) = pos (suc n)

-- `rows[-limit:]`, if there is a limit
abbrev pub newest_items {ℓ} : {A : Type ℓ} → Option ℤ → List A → List A
unfolding slice
newest_items none l = l
newest_items (some limit) l = slice (negated limit) none l

unfoldable pub get_items : Env → Python → MemoryScope → Option ℤ → Db → Result (List Json)
unfolding list_all slice content_to_msg
get_items e py scope limit db = do
  newest_first ← list_all e working_memory scope 1000 0 false 0 none db
  ok (map (λ m. content_to_msg py m.content) (newest_items limit (reverse newest_first)))

-- Whether the row was still there for `forget` does not matter.
abbrev pub popped_result : Json → Result Bool × Db → Result (Option Json) × Db
popped_result message (ok found, db) = (ok (some message), db)
popped_result message (err x, db) = (err x, db)

unfoldable pub pop_row : Env → Python → MemoryScope → List Memory → Db → Result (Option Json) × Db
unfolding forget content_to_msg
pop_row e py scope [] db = (ok none, db)
pop_row e py scope (m ∷ l) db =
    popped_result (content_to_msg py m.content) (forget e working_memory m.id scope db)

unfoldable pub pop_item : Env → Python → MemoryScope → Db → Result (Option Json) × Db
unfolding list_all pop_row
pop_item e py scope db = elim (list_all e working_memory scope 1 0 false 0 none db) [
  | err x ↦ (err x, db)
  | ok rows ↦ pop_row e py scope rows db
]

unfoldable pub clear_session : Env → MemoryScope → Db → Result (Unit {0}) × Db
unfolding list_all forget_each
clear_session e scope db = elim (list_all e working_memory scope 1000 0 false 0 none db) [
  | err x ↦ (err x, db)
  | ok rows ↦ forget_each e scope rows db
]

-- the scope without its thread
abbrev recall_scope : MemoryScope → MemoryScope
recall_scope scope = record scope { thread_id = none }

unfoldable pub recall_episodes :
    Env → Pipeline → MemoryScope → Vector → ℕ → Db → Result (List Memory)
unfolding search
recall_episodes e p scope query_embedding top_k db =
    search e (repository_of p episodic_memory)
      (default_request query_embedding (recall_scope scope) top_k none) none db
