-- ===== src/Repository/History.antt =====
-- Histories: any sequence of write calls on the repositories, each with its own scope or scopes, as they
-- reach the database from the clients of one store or of several.
pub mod Tenancy
pub mod Tables
pub mod Keys
use yaadien.Prelude.{ℕ, List, [], ◌∷◌, map}
use yaadien.Repository.Batches.{create_many, after_many}
use yaadien.Model.{Ident, Text, Memory, MemoryScope}
use yaadien.Db.{TableName, Db, Env}
use yaadien.Repository.{Repository}
use yaadien.Repository.Lifecycle.{forget, purge_expired, erase_all, claim_consolidated, supersede}
use yaadien.Repository.Write.{create, update}

pub data Call : Type 0 where
  creates updates : Repository → Memory → MemoryScope → Call
  forgets claims : TableName → Ident → MemoryScope → Call
  purges erases : TableName → MemoryScope → Call
  supersedes : Ident → Ident → Text → MemoryScope → Call
  creates_many : Repository → List (Memory × MemoryScope) → ℕ → Call

-- the scopes that a call writes in
abbrev pub scopes_of : Call → List MemoryScope
scopes_of (creates r m s) = s ∷ []
scopes_of (updates r m s) = s ∷ []
scopes_of (forgets t i s) = s ∷ []
scopes_of (claims t i s) = s ∷ []
scopes_of (purges t s) = s ∷ []
scopes_of (erases t s) = s ∷ []
scopes_of (supersedes l w x s) = s ∷ []
scopes_of (creates_many r records k) = map (λ x. x.1) records

-- The database that a call leaves, whether it returns or raises.
unfoldable pub after : Env → Call → Db → Db
after e (creates r m s) db = (create e r m s db).1
after e (updates r m s) db = (update e r m s db).1
after e (forgets t i s) db = (forget e t i s db).1
after e (claims t i s) db = (claim_consolidated e t i s db).1
after e (purges t s) db = (purge_expired t s db).1
after e (erases t s) db = (erase_all t s db).1
after e (supersedes l w x s) db = (supersede e l w x s db).1
after e (creates_many r records k) db = after_many db (create_many e r records k db)

unfoldable pub after_all : Env → List Call → Db → Db
after_all e [] db = db
after_all e (c ∷ cs) db = after_all e cs (after e c db)
