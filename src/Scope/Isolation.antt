-- ===== src/Scope/Isolation.antt =====
-- Which rows a scope admits.
use yaadien.Prelude.{◌≡◌, ◌↔◌, true, Option, none, some, arith}
use yaadien.Model.{Ident, MemoryScope}
use yaadien.Scope.{ScopeColumns, in_scope}

-- An absent scope field admits every value, a given one only itself.
abbrev pub Admits : Option Ident → Option Ident → Type 0
Admits none c = Unit
Admits (some v) c = c ≡ some v

pub record IsWithin (s : MemoryScope) (r : ScopeColumns) : Type 0 where
  pub agent : r.agent ≡ s.agent_id
  pub tenant : Admits s.tenant_id r.tenant
  pub user : Admits s.user_id r.user
  pub thread : Admits s.thread_id r.thread

-- The WHERE clause of a scope passes exactly the rows of its agent whose tenant, user and thread
-- columns equal each value that the scope gives.
pub in_scope_iff : (s : MemoryScope) (r : ScopeColumns) → (in_scope s r ≡ true) ↔ IsWithin s r
unfolding in_scope
in_scope_iff s r = (λ h. ground arith, λ w. ground arith)

abbrev pub Narrows : Option Ident → Option Ident → Type 0
Narrows narrow none = Unit
Narrows narrow (some v) = narrow ≡ some v

pub record IsNarrower (s t : MemoryScope) : Type 0 where
  pub agent : s.agent_id ≡ t.agent_id
  pub tenant : Narrows s.tenant_id t.tenant_id
  pub user : Narrows s.user_id t.user_id
  pub thread : Narrows s.thread_id t.thread_id

-- A scope that repeats another's fields and adds more sees no row that the other does not see.
pub in_scope-IsNarrower :
    (s t : MemoryScope) (r : ScopeColumns)
    → IsNarrower s t
    → in_scope s r ≡ true
    → in_scope t r ≡ true
unfolding in_scope
in_scope-IsNarrower s t r n h = ground arith

-- A row that carries the columns of a scope is in that scope.
pub in_scope_own :
    (s : MemoryScope)
    → in_scope s (record {
      tenant = s.tenant_id;
      agent = s.agent_id;
      user = s.user_id;
      thread = s.thread_id;
    })
      ≡ true
unfolding in_scope
in_scope_own s = ground arith

-- Rows of different agents are never in one scope.
pub in_scope-agent :
    (s : MemoryScope) (r : ScopeColumns) → in_scope s r ≡ true → r.agent ≡ s.agent_id
in_scope-agent s r h = ((in_scope_iff s r).0 h).agent
