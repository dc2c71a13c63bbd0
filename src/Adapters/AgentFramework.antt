-- ===== src/Adapters/AgentFramework.antt =====
-- src/agent_memory_sdk/adapters/agent_framework.py: the context provider and the history provider. One
-- provider serves all sessions of an agent; what belongs to a session comes with each call.
pub mod Messages
pub mod Sessions
use yaadien.Prelude.{
  Bool, true, false, Option, none, some, List, [], ◌∷◌, ◌++◌, map, ◌==◌, codes, is_none, ℕ,
}
use yaadien.Model.{ℤ, Ident, Text, Vector, Result, ok, err, ◌>>=◌, MemoryScope, Memory}
use yaadien.Db.{Db, Env, working_memory, semantic_facts}
use yaadien.Repository.Read.{list_all}
use yaadien.Repository.Search.Chunked.{search, default_request}
use yaadien.Store.Pipeline.{Pipeline, StoreState, repository_of}
use yaadien.Store.Ingest.{remember}
use yaadien.Store.Entry.{tick_state}
use yaadien.Store.Messages.{join_lines}
use yaadien.Store.Context.{ContextCard, get_context_card}
use yaadien.Adapters.{fresh_record}
use yaadien.Adapters.Json.{string, object, Fields, end, field, Python, get, get_or, str, fields_of}
use yaadien.Adapters.AgentFramework.Messages.{
  Message, message_role, message_to_content, content_to_message_dict,
}
use mathlib.Core.List.{reverse}

-- What a call carries: the `state` dict with the keys that are read. A missing key is `none`.
pub record RunState : Type 0 where
  pub thread_id : Option Ident
  pub user_id : Option Ident
  pub tenant_id : Option Ident
  pub query_embedding : Option Vector
  pub messages : List Message
  pub request : Option Message
  pub response : Option Message

-- a session with its attributes, as far as it has them
pub record Session : Type 0 where
  pub session_id : Option Ident
  pub id : Option Ident

abbrev present : Option Message → List Message
present none = []
present (some m) = m ∷ []

-- `context_messages` are the messages of the context, none if it has no such attribute.
unfoldable pub extract_turn_messages : List Message → RunState → List Message
extract_turn_messages context_messages state = elim state.messages [
  | m ∷ l ↦ m ∷ l
  | [] ↦ elim (present state.request ++ present state.response) [
    | m ∷ l ↦ m ∷ l
    | [] ↦ context_messages
  ]
]

pub record ContextProvider : Type 0 where
  pub agent_id : Ident
  pub max_turns : ℤ
  pub top_k : ℕ

-- `a or b` on strings that may be None
abbrev or_else : Option Ident → Option Ident → Option Ident
or_else none b = b
or_else (some i) b = elim (i == 0) [ true ↦ b | false ↦ some i ]

abbrev session_thread : Option Ident → Option Session → Option Ident
session_thread (some i) session = some i
session_thread none none = none
session_thread none (some session) = or_else session.session_id session.id

unfoldable pub provider_scope : ContextProvider → Option Session → RunState → MemoryScope
provider_scope provider session state = record {
  agent_id = provider.agent_id;
  thread_id = session_thread state.thread_id session;
  user_id = state.user_id;
  tenant_id = state.tenant_id;
}

-- what is added to the instructions of a context, each with its source
abbrev pub Instructions : Type 0
Instructions = List (Text × Text)

-- `f"{role}: {content}"`
abbrev pub turn_line : Python → Memory → Text
unfolding get
turn_line py m =
    str py (get_or (string (codes "user")) (codes "role") (fields_of (py.loads m.metadata)))
    ++ (codes ": " ++ m.content)

abbrev pub turn_instructions : Python → List Memory → Instructions
unfolding join_lines
turn_instructions py [] = []
turn_instructions py (m ∷ l) =
    (codes "agent-memory-sdk:working", join_lines (map (turn_line py) (m ∷ l))) ∷ []

abbrev pub summary_instructions : Option Text → Instructions
summary_instructions none = []
summary_instructions (some text) = (codes "agent-memory-sdk:summary", text) ∷ []

abbrev pub fact_instructions : List Memory → Instructions
unfolding join_lines
fact_instructions [] = []
fact_instructions (m ∷ l) =
    (codes "agent-memory-sdk:facts", join_lines (map (λ f. codes "- " ++ f.content) (m ∷ l))) ∷ []

-- the facts near the vector of the call, if it brings one
unfoldable facts_near :
    Env → Pipeline → ContextProvider → MemoryScope → Option Vector → Db → Result (List Memory)
unfolding search
facts_near e p provider scope none db = ok []
facts_near e p provider scope (some []) db = ok []
facts_near e p provider scope (some (x ∷ v)) db =
    search e (repository_of p semantic_facts) (default_request (x ∷ v) scope provider.top_k none)
      none db

-- Behind the context card: the instructions are there even where the search raises.
unfoldable with_card :
    Env
    → Pipeline
    → Python
    → ContextProvider
    → MemoryScope
    → Option Vector
    → Result ContextCard
    → Db
    → Result (Unit {0}) × Instructions
unfolding facts_near
with_card e p py provider scope v (err x) db = (err x, [])
with_card e p py provider scope v (ok card) db =
    let first = turn_instructions py card.turns ++ summary_instructions card.summary in
    elim (facts_near e p provider scope v db) [
      | err x ↦ (err x, first)
      | ok facts ↦ (ok tt, first ++ fact_instructions facts)
    ]

unfoldable pub before_run :
    Env
    → Pipeline
    → Python
    → Option (List Memory → Option (Option Text))
    → ContextProvider
    → Option Session
    → RunState
    → Db
    → Result (Unit {0}) × Instructions
unfolding provider_scope get_context_card with_card
before_run e p py summarizer provider session state db =
    let scope = provider_scope provider session state in
    with_card e p py provider scope state.query_embedding
      (get_context_card e p summarizer scope provider.max_turns none false [] (ℤ.pos 5) db) db

-- `{"role": …}`
abbrev pub role_metadata : Python → Message → Text
unfolding message_role
role_metadata py m = py.dumps (object (field (codes "role") (string (message_role py m)) end))

-- one row per message; an exception ends the loop and leaves what is written
unfoldable pub persist_messages :
    Env
    → Pipeline
    → Python
    → MemoryScope
    → List Message
    → StoreState
    → Result (Unit {0}) × StoreState
unfolding remember message_to_content message_role
persist_messages e p py scope [] s = (ok tt, s)
persist_messages e p py scope (m ∷ l) s =
    let new = fresh_record e scope (message_to_content py m) (role_metadata py m) s.db in
    let step = remember e p working_memory new scope (tick_state s) in
    let rest = persist_messages e p py scope l step.1 in
    elim step.0 [ err x ↦ (err x, step.1) | ok stored ↦ rest ]

unfoldable pub after_run :
    Env
    → Pipeline
    → Python
    → ContextProvider
    → Option Session
    → List Message
    → RunState
    → StoreState
    → Result (Unit {0}) × StoreState
unfolding provider_scope extract_turn_messages persist_messages
after_run e p py provider session context_messages state s =
    persist_messages e p py (provider_scope provider session state)
      (extract_turn_messages context_messages state) s

-- `MemoryStoreHistoryProvider._scope_for`
unfoldable pub history_scope : Ident → Option Ident → RunState → MemoryScope
history_scope agent_id session_id state = record {
  agent_id = agent_id;
  thread_id = session_id;
  user_id = state.user_id;
  tenant_id = state.tenant_id;
}

-- the messages of the rows; one that raises is left out
unfoldable pub readable : Python → List Memory → List Fields
unfolding content_to_message_dict
readable py [] = []
readable py (m ∷ l) =
    let rest = readable py l in
    elim (content_to_message_dict py m.content) [ none ↦ rest | some fields ↦ fields ∷ rest ]

unfoldable pub get_messages :
    Env → Python → Ident → Option Ident → RunState → Db → Result (List Fields)
unfolding list_all readable history_scope
get_messages e py agent_id session_id state db = do
  newest_first ←
      list_all e working_memory (history_scope agent_id session_id state) 1000 0 false 0 none db
  ok (readable py (reverse newest_first))

unfoldable pub save_messages :
    Env
    → Pipeline
    → Python
    → Ident
    → Option Ident
    → List Message
    → RunState
    → StoreState
    → Result (Unit {0}) × StoreState
unfolding history_scope persist_messages
save_messages e p py agent_id session_id messages state s =
    persist_messages e p py (history_scope agent_id session_id state) messages s
