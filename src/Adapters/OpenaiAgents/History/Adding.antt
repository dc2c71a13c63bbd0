-- ===== src/Adapters/OpenaiAgents/History/Adding.antt =====
-- `add_items` of a session: what it stores is what a later `get_items` lists first.
use yaadien.Prelude.{ℕ, ◌+◌, ◌≡◌, ◌≢◌, ◌<◌, ◌≤◌, List, [], ◌∷◌, ◌++◌, All}
use yaadien.Prelude.Table.{row_count}
use yaadien.Model.{Memory, MemoryScope}
use yaadien.Db.{working_memory, Db, Env, tick, set_rows}
use yaadien.Repository.{Repository}
use yaadien.Repository.Write.{has_id, inserted, prepared}
use yaadien.Repository.Isolation.Reads.{NeverExpires}
use yaadien.Repository.Listing.Times.{HasTimes}
use yaadien.Repository.History.Tables.{IsKeyed}
use yaadien.Store.Pipeline.{Pipeline, repository_of}
use yaadien.Store.Ingest.Default.{IsDefault}
use yaadien.Adapters.{fresh_record}
use yaadien.Adapters.Json.{Fields, Python}
use yaadien.Adapters.OpenaiAgents.{msg_to_content, item_metadata}

-- Times and ids do not repeat, and `ORDER BY created_at DESC` puts the row of the latest time first.
pub record Advances (e : Env) : Type 0 where
  pub later : (i j : ℕ) → i < j → e.now i < e.now j
  pub unique : (i j : ℕ) → e.uuid i ≡ e.uuid j → i ≡ j
  pub first :
      (m : Memory) (l : List Memory)
      → All (λ x. x.created_at < m.created_at) l
      → e.newest_first (l ++ m ∷ []) ≡ m ∷ e.newest_first l

-- The ids and the times are distinct, and no row expires, is of the future, or has an id that is still to be drawn.
pub record IsOpen (e : Env) (db : Db) : Type 0 where
  pub fresh : NeverExpires db.working
  pub times : HasTimes db.working
  pub keyed : IsKeyed db.working
  pub past : All (λ x. x.created_at < e.now db.ticks) db.working
  pub free : (n : ℕ) → db.ticks ≤ n → row_count (has_id (e.uuid n)) db.working ≡ 0

module _ (e : Env) (p : Pipeline) (scope : MemoryScope) (default : IsDefault p)
    (agent : scope.agent_id ≢ 0) where
  abbrev working_repository : Repository
  working_repository = repository_of p working_memory

  module _ (py : Python) where
    -- the record of a message as it is stored, and its row
    abbrev stored : Fields → Db → Memory
    stored message db =
        prepared e scope (e.now (db.ticks + 1))
          (fresh_record e scope (msg_to_content py message) (item_metadata py message) db)

    abbrev after_message : Fields → Db → Db
    after_message message db =
        set_rows working_memory (db.working ++ inserted working_repository (stored message db) ∷ [])
          (tick (tick db))

    module _ (clock : Advances e) (message : Fields) (db : Db) (open_db : IsOpen e db) where
      abbrev row : Memory
      row = inserted working_repository (stored message db)
