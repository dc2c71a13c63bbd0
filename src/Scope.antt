-- ===== src/Scope.antt =====
-- `MemoryScope` as a WHERE clause: `_require_agent_id` and `_scope_predicates` of
-- src/agent_memory_sdk/repositories/base.py.
pub mod Isolation
use yaadien.Prelude.{
  Bool, true, ◌&&◌, Option, none, some, List, [], ◌∷◌, ◌++◌, ◌==◌, opt_is, if◌then◌else◌,
}
use yaadien.Model.{Ident, Result, ok, err, value_error, MemoryScope, Memory}

pub data Column : Type 0 where
  tenant_id agent_id user_id thread_id : Column

-- `if not scope.agent_id: raise ValueError`
unfoldable pub require_agent_id : MemoryScope → Result (Unit {0})
require_agent_id scope = if scope.agent_id == 0 then err value_error else ok tt

-- the part and the parameter that a column adds, if the scope gives it
abbrev pub predicate : Column → Option Ident → List (Column × Ident)
predicate c none = []
predicate c (some v) = (c, v) ∷ []

-- One entry for each `column = ?` part, with the parameter bound to it; the parts are ANDed.
unfoldable pub scope_predicates : MemoryScope → List (Column × Ident)
scope_predicates scope =
    (Column.agent_id, scope.agent_id)
    ∷ (predicate Column.tenant_id scope.tenant_id
        ++ (predicate Column.user_id scope.user_id ++ predicate Column.thread_id scope.thread_id))

-- The scope columns of a row; `agent_id` is never NULL.
pub record ScopeColumns : Type 0 where
  pub tenant : Option Ident
  pub agent : Ident
  pub user : Option Ident
  pub thread : Option Ident

abbrev pub column : ScopeColumns → Column → Option Ident
column r Column.tenant_id = r.tenant
column r Column.agent_id = some r.agent
column r Column.user_id = r.user
column r Column.thread_id = r.thread

-- How Db2 evaluates the ANDed parts on a row.
unfoldable pub holds_all : ScopeColumns → List (Column × Ident) → Bool
holds_all r [] = true
holds_all r ((c, v) ∷ ps) = opt_is (column r c) v && holds_all r ps

-- `WHERE {scope_sql}` with its parameters
unfoldable pub in_scope : MemoryScope → ScopeColumns → Bool
unfolding scope_predicates holds_all
in_scope scope r = holds_all r (scope_predicates scope)

abbrev pub columns : Memory → ScopeColumns
columns m = record {
  tenant = m.tenant_id;
  agent = m.agent_id;
  user = m.user_id;
  thread = m.thread_id;
}
