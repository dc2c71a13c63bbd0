-- ===== src/Adapters/McpServer.antt =====
-- src/agent_memory_sdk/adapters/mcp_server.py: the four tools and their dispatcher. The schemas that
-- the mcp package checks, and the texts of its replies, are not modelled; a reply is a value with
-- what the text shows.
pub mod Isolation
use yaadien.Prelude.{
  ℕ, Bool, true, false, Option, none, some, List, [], ◌∷◌, map, ◌==◌, min, codes, text_eq,
  if◌then◌else◌,
}
use yaadien.Model.{
  Ident, Text, Vector, Error, key_error, Result, ok, err, ◌>>=◌, MemoryScope, Memory,
}
use yaadien.Db.{TableName, Db, Env}
use yaadien.Repository.Read.{list_all}
use yaadien.Repository.Search.Chunked.{search, default_request}
use yaadien.Store
use yaadien.Store.{MemoryType, alias_working, resolve_repo}
use yaadien.Store.Pipeline.{Pipeline, StoreState, repository_of}
use yaadien.Store.Ingest.{remember}
use yaadien.Store.Entry.{tick_state}
use yaadien.Adapters.{fresh_record}
use mathlib.Core.List.{reverse}

-- The dict of arguments that a client sends. A key that is missing is `none`. `metadata` is the text
-- of its object.
pub record Arguments : Type 0 where
  pub agent_id : Option Ident
  pub user_id : Option Ident
  pub thread_id : Option Ident
  pub tenant_id : Option Ident
  pub memory_type : Option MemoryType
  pub content : Option Text
  pub metadata : Option Text
  pub record_id : Option Ident
  pub query_embedding : Option Vector
  pub top_k : Option ℕ
  pub limit : Option ℕ

-- `args[key]`
abbrev required {ℓ} : {A : Type ℓ} → Option A → Result A
required none = err key_error
required (some a) = ok a

-- `args.get(key, fallback)`
abbrev pub or_default {ℓ} : {A : Type ℓ} → A → Option A → A
or_default a none = a
or_default a (some b) = b

-- `value or None` on a string
abbrev or_none : Option Ident → Option Ident
or_none none = none
or_none (some i) = if i == 0 then none else some i

unfoldable pub build_scope : Ident → Arguments → MemoryScope
build_scope agent_id args = record {
  agent_id = agent_id;
  user_id = or_none args.user_id;
  thread_id = or_none args.thread_id;
  tenant_id = or_none args.tenant_id;
}

-- `_record_to_dict`; `memory_type` is the name of the class, for which the table stands
pub record RecordDict : Type 0 where
  pub id : Ident
  pub memory_type : TableName
  pub content : Text
  pub metadata : Text
  pub created_at : ℕ
  pub updated_at : ℕ
  pub expires_at : Option ℕ
  pub version : ℕ

abbrev pub record_to_dict : TableName → Memory → RecordDict
record_to_dict t m = record {
  id = m.id;
  memory_type = t;
  content = m.content;
  metadata = m.metadata;
  created_at = m.created_at;
  updated_at = m.updated_at;
  expires_at = m.expires_at;
  version = m.version;
}

-- the one text that a tool sends back
pub data Reply : Type 0 where
  unknown_tool : Text → Reply
  unknown_memory_type : MemoryType → Reply
  failed : Error → Reply
  remembered : Ident → MemoryType → Text → Reply
  status : Ident → Bool → Reply
  records : List RecordDict → Reply

abbrev memory_type_of : Arguments → MemoryType
memory_type_of args = or_default alias_working args.memory_type

-- what `remember` has stored, as a reply
abbrev remembered_reply : MemoryType → Text → Result Memory × StoreState → Result Reply × StoreState
remembered_reply t content (ok m, s) = (ok (remembered m.id t content), s)
remembered_reply t content (err x, s) = (err x, s)

-- `_tool_remember` behind the reading of its arguments
unfoldable remember_in :
    Env
    → Pipeline
    → MemoryScope
    → Text
    → Text
    → MemoryType
    → Result TableName
    → StoreState
    → Result Reply × StoreState
unfolding remember
remember_in e p scope content metadata memory_type (err x) s =
    (ok (unknown_memory_type memory_type), s)
remember_in e p scope content metadata memory_type (ok t) s =
    remembered_reply memory_type content
      (remember e p t (fresh_record e scope content metadata s.db) scope (tick_state s))

unfoldable pub tool_remember : Env → Pipeline → Arguments → StoreState → Result Reply × StoreState
unfolding build_scope remember_in resolve_repo
tool_remember e p args s = elim args.agent_id [
  | none ↦ (err key_error, s)
  | some agent_id ↦ elim args.content [
    | none ↦ (err key_error, s)
    | some content ↦
        remember_in e p (build_scope agent_id args) content (or_default (codes "{}") args.metadata)
          (memory_type_of args) (resolve_repo (memory_type_of args)) s
  ]
]

-- the rows of `recall`: by similarity, or the newest in chronological order without a vector
unfoldable recall_rows :
    Env → Pipeline → TableName → MemoryScope → ℕ → Option Vector → Db → Result (List Memory)
unfolding search list_all
recall_rows e p t scope top_k (some (x ∷ v)) db =
    search e (repository_of p t) (default_request (x ∷ v) scope top_k none) none db
recall_rows e p t scope top_k (some []) db =
    list_all e t scope top_k 0 false 0 none db >>= λ rows. ok (reverse rows)
recall_rows e p t scope top_k none db =
    list_all e t scope top_k 0 false 0 none db >>= λ rows. ok (reverse rows)

-- a reading tool behind the look-up of its repository
abbrev reply_of : MemoryType → Result TableName → (TableName → Result (List Memory)) → Result Reply
reply_of memory_type (err x) read = ok (unknown_memory_type memory_type)
reply_of memory_type (ok t) read = read t >>= λ rows. ok (records (map (record_to_dict t) rows))

unfoldable pub tool_recall : Env → Pipeline → Arguments → Db → Result Reply
unfolding build_scope recall_rows resolve_repo
tool_recall e p args db = do
  agent_id ← required args.agent_id
  reply_of (memory_type_of args) (resolve_repo (memory_type_of args)) (λ t.
      recall_rows e p t (build_scope agent_id args) (or_default 5 args.top_k) args.query_embedding
        db)

-- An exception of the store comes back as an error text, here as from the dispatcher.
abbrev status_reply : Ident → Result Bool × Db → Result Reply × Db
status_reply i (ok found, db) = (ok (status i found), db)
status_reply i (err x, db) = (ok (failed x), db)

unfoldable pub tool_forget : Env → Arguments → Db → Result Reply × Db
unfolding build_scope Store.forget
tool_forget e args db = elim args.agent_id [
  | none ↦ (err key_error, db)
  | some agent_id ↦ elim args.record_id [
    | none ↦ (err key_error, db)
    | some record_id ↦
        status_reply record_id
          (Store.forget e record_id (memory_type_of args) (build_scope agent_id args) db)
  ]
]

unfoldable pub tool_list : Env → Arguments → Db → Result Reply
unfolding build_scope list_all resolve_repo
tool_list e args db = do
  agent_id ← required args.agent_id
  reply_of (memory_type_of args) (resolve_repo (memory_type_of args)) (λ t.
      list_all e t (build_scope agent_id args) (min (or_default 20 args.limit) 100) 0 false 0 none
        db)

-- `except Exception` of the dispatcher
abbrev caught : Result Reply → Reply
caught (ok reply) = reply
caught (err x) = failed x

-- `call_tool`: every call is answered, whatever it raises.
unfoldable pub call_tool : Env → Pipeline → Text → Arguments → StoreState → Reply × StoreState
unfolding tool_remember tool_recall tool_forget tool_list text_eq
call_tool e p name args s =
    if text_eq name (codes "remember")
    then (let step = tool_remember e p args s in (caught step.0, step.1))
    else if text_eq name (codes "recall")
    then (caught (tool_recall e p args s.db), s)
    else if text_eq name (codes "forget")
    then (let step = tool_forget e args s.db in (caught step.0, record s { db = step.1 }))
    else if text_eq name (codes "list_memories")
    then (caught (tool_list e args s.db), s)
    else (unknown_tool name, s)
