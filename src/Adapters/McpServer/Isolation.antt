-- ===== src/Adapters/McpServer/Isolation.antt =====
-- What the clients of an MCP server can reach.
use yaadien.Prelude.{
  ◌≡◌, ◌≢◌, suc, length, inl, inr, Bool-cases, Option-cases, refl, ap, ◌∙◌, Bool, some, List, [],
  ◌∷◌, codes, text_eq, All,
}
use yaadien.Prelude.Table.{select}
use yaadien.Model.{Ident, Text, Result, Result-cases, ok, err, Memory, MemoryScope}
use yaadien.Db.{TableName, Db, Env, rows, rows-tick}
use yaadien.Repository.Isolation.{forget-KeepsOutside}
use yaadien.Repository.Lifecycle
use yaadien.Repository.History.{forgets, after}
use yaadien.Repository.History.Tenancy.{is_agent, KeepsOutside-agent}
use yaadien.Repository.History.Keys.{IsValid, after-IsValid, tick-IsValid}
use yaadien.Store
use yaadien.Store.{MemoryType, resolve_repo}
use yaadien.Store.Pipeline.{Pipeline, StoreState}
use yaadien.Store.Ingest.{remember}
use yaadien.Store.Ingest.Safety.{remember-KeepsOutside, remember-IsValid}
use yaadien.Store.Entry.{tick_state}
use yaadien.Adapters.{fresh_record}
use yaadien.Adapters.McpServer.{
  Arguments, Reply, build_scope, remembered_reply, remember_in, tool_remember, status_reply,
  tool_forget, call_tool, or_default, memory_type_of,
}

-- A request as it reaches the server: the name of a tool and its arguments.
abbrev pub ToolCall : Type 0
ToolCall = Text × Arguments

-- The requests of all clients, one after the other; the replies and the state that they leave.
unfoldable pub serve : Env → Pipeline → List ToolCall → StoreState → List Reply × StoreState
serve e p [] s = ([], s)
serve e p (r ∷ rs) s =
    let step = call_tool e p r.0 r.1 s in
    let rest = serve e p rs step.1 in (step.0 ∷ rest.0, rest.1)

state_of-remembered_reply :
    (t : MemoryType) (content : Text) (step : Result Memory × StoreState)
    → (remembered_reply t content step).1 ≡ step.1
state_of-remembered_reply t content (ok m, s) = refl
state_of-remembered_reply t content (err x, s) = refl

db_of-status_reply : (i : Ident) (step : Result Bool × Db) → (status_reply i step).1 ≡ step.1
db_of-status_reply i (ok found, db) = refl
db_of-status_reply i (err x, db) = refl

no_condition : (rs : List ToolCall) → All (λ r. (i : Ident) → r.1.agent_id ≡ some i → Unit {0}) rs
no_condition [] = tt
no_condition (r ∷ rs) = (λ i k. tt, no_condition rs)

other_agents :
    (a : Ident) (rs : List ToolCall)
    → All (λ r. r.1.agent_id ≢ some a) rs
    → All (λ r. (i : Ident) → r.1.agent_id ≡ some i → (build_scope i r.1).agent_id ≢ a) rs
unfolding build_scope
other_agents a [] h = tt
other_agents a (r ∷ rs) h = (λ i k same. h.0 (k ∙ ap some same), other_agents a rs h.1)

length-serve :
    (e : Env) (p : Pipeline) (rs : List ToolCall) (s : StoreState)
    → length (serve e p rs s).0 ≡ length rs
unfolding serve
length-serve e p [] s = refl
length-serve e p (r ∷ rs) s = ap suc (length-serve e p rs (call_tool e p r.0 r.1 s).1)

-- What a remember and a forget in an allowed scope keep is kept by the tools, which write in no other
-- way.
module _ (e : Env) (p : Pipeline) (Allowed : MemoryScope → Type 0) (Q : Db → Type 0)
    (keep_remember : (t : TableName) (m : Memory) (scope : MemoryScope) (s : StoreState)
      → Allowed scope
      → Q s.db
      → Q (remember e p t m scope (tick_state s)).1.db)
    (keep_forget : (t : TableName) (i : Ident) (scope : MemoryScope) (db : Db)
      → Allowed scope
      → Q db
      → Q (Lifecycle.forget e t i scope db).1) where
  remember_in-keeps :
      (scope : MemoryScope) (content metadata : Text) (memory_type : MemoryType)
      (found : Result TableName) (s : StoreState)
      → Allowed scope
      → Q s.db
      → Q (remember_in e p scope content metadata memory_type found s).1.db
  unfolding remember_in
  remember_in-keeps scope content metadata memory_type (err x) s a h = h
  remember_in-keeps scope content metadata memory_type (ok t) s a h =
      let step = remember e p t (fresh_record e scope content metadata s.db) scope (tick_state s) in
      rw (state_of-remembered_reply memory_type content step)
        (keep_remember t (fresh_record e scope content metadata s.db) scope s a h)

  tool_remember-keeps :
      (args : Arguments) (s : StoreState)
      → ((i : Ident) → args.agent_id ≡ some i → Allowed (build_scope i args))
      → Q s.db
      → Q (tool_remember e p args s).1.db
  unfolding tool_remember
  tool_remember-keeps args s a h = elim (Option-cases args.agent_id) [
    | inl n ↦ rw (n, tool_remember) h
    | inr (i, n) ↦ elim (Option-cases args.content) [
      | inl k ↦ rw (n, k, tool_remember) h
      | inr (content, k) ↦
          rw (n, k, tool_remember)
            (remember_in-keeps (build_scope i args) content (or_default (codes "{}") args.metadata)
              (memory_type_of args) (resolve_repo (memory_type_of args)) s (a i n) h)
    ]
  ]

  forget-keeps :
      (i : Ident) (memory_type : MemoryType) (scope : MemoryScope) (db : Db)
      → Allowed scope
      → Q db
      → Q (Store.forget e i memory_type scope db).1
  unfolding Store.forget
  forget-keeps i memory_type scope db a h = elim (Result-cases (resolve_repo memory_type)) [
    | inl (t, k) ↦ rw (k, Store.forget) (keep_forget t i scope db a h)
    | inr (x, k) ↦ rw (k, Store.forget) h
  ]

  tool_forget-keeps :
      (args : Arguments) (db : Db)
      → ((i : Ident) → args.agent_id ≡ some i → Allowed (build_scope i args))
      → Q db
      → Q (tool_forget e args db).1
  unfolding tool_forget
  tool_forget-keeps args db a h = elim (Option-cases args.agent_id) [
    | inl n ↦ rw (n, tool_forget) h
    | inr (i, n) ↦ elim (Option-cases args.record_id) [
      | inl k ↦ rw (n, k, tool_forget) h
      | inr (record_id, k) ↦
          let scope = build_scope i args in
          rw
            (
              n,
              k,
              tool_forget,
              db_of-status_reply record_id
                  (Store.forget e record_id (memory_type_of args) scope db),
            )
            (forget-keeps record_id (memory_type_of args) scope db (a i n) h)
    ]
  ]

  call_tool-keeps :
      (name : Text) (args : Arguments) (s : StoreState)
      → ((i : Ident) → args.agent_id ≡ some i → Allowed (build_scope i args))
      → Q s.db
      → Q (call_tool e p name args s).1.db
  unfolding call_tool
  call_tool-keeps name args s a h =
      let stored = tool_remember-keeps args s a h in
      let forgotten = tool_forget-keeps args s.db a h in
      elim (Bool-cases (text_eq name (codes "remember"))) [
        | inl k ↦ rw k stored
        | inr k ↦ elim (Bool-cases (text_eq name (codes "recall"))) [
          | inl l ↦ rw (k, l) h
          | inr l ↦ elim (Bool-cases (text_eq name (codes "forget"))) [
            | inl f ↦ rw (k, l, f) forgotten
            | inr f ↦ elim (Bool-cases (text_eq name (codes "list_memories"))) [
              | inl g ↦ rw (k, l, f, g) h
              | inr g ↦ rw (k, l, f, g) h
            ]
          ]
        ]
      ]

  pub serve-keeps :
      (rs : List ToolCall) (s : StoreState)
      → All (λ r. (i : Ident) → r.1.agent_id ≡ some i → Allowed (build_scope i r.1)) rs
      → Q s.db
      → Q (serve e p rs s).1.db
  unfolding serve
  serve-keeps [] s a h = h
  serve-keeps (r ∷ rs) s a h =
      serve-keeps rs (call_tool e p r.0 r.1 s).1 a.1 (call_tool-keeps r.0 r.1 s a.0 h)

-- Whatever requests the clients of a server send, in whatever order, with whatever arguments and
-- callbacks: if none of them names the agent, the rows of the agent stay the same, in the same
-- order, in each of the five tables.
pub serve-agent :
    (e : Env) (p : Pipeline) (rs : List ToolCall) (s : StoreState) (a : Ident) (u : TableName)
    → All (λ r. r.1.agent_id ≢ some a) rs
    → select (is_agent a) (rows u (serve e p rs s).1.db) ≡ select (is_agent a) (rows u s.db)
unfolding after build_scope
serve-agent e p rs s a u h =
    serve-keeps e p (λ scope. scope.agent_id ≢ a)
      (λ db. select (is_agent a) (rows u db) ≡ select (is_agent a) (rows u s.db))
      (λ t m scope s' other k.
        KeepsOutside-agent scope a u (tick_state s').db
          (remember e p t m scope (tick_state s')).1.db other
          (remember-KeepsOutside e p t m scope (tick_state s'))
        ∙ ap (select (is_agent a)) (rows-tick u s'.db)
        ∙ k)
      (λ t i scope db other k.
        KeepsOutside-agent scope a u db (Lifecycle.forget e t i scope db).1 other
          (forget-KeepsOutside scope e t i db)
        ∙ k)
      rs s (other_agents a rs h) refl

-- Whatever requests the clients of a server send, every request gets a reply, and a database that
-- satisfies the invariant of the tables is left as one that satisfies it.
pub serve-IsValid :
    (e : Env) (p : Pipeline) (rs : List ToolCall) (s : StoreState)
    → IsValid s.db
    → IsValid (serve e p rs s).1.db × (length (serve e p rs s).0 ≡ length rs)
unfolding after
serve-IsValid e p rs s h = (
  serve-keeps e p (λ scope. Unit) IsValid
      (λ t m scope s' _ k. remember-IsValid e p t m scope (tick_state s') (tick-IsValid s'.db k))
      (λ t i scope db _ k. after-IsValid e (forgets t i scope) db k) rs s (no_condition rs) h,
  length-serve e p rs s,
)
