-- ===== src/Adapters/OpenaiAgents/History/Refinement.antt =====
-- The commands of a session refine those on a list of messages.
use yaadien.Prelude.{◌≡◌, ◌≢◌, List, map}
use yaadien.Model.{MemoryScope}
use yaadien.Db.{working_memory, Db, Env}
use yaadien.Repository.History.Tables.{IsKeyed}
use yaadien.Repository.Isolation.Reads.{NeverExpires}
use yaadien.Adapters.Json.{Json, Python}
use yaadien.Adapters.OpenaiAgents.{content_to_msg}
use yaadien.Adapters.OpenaiAgents.History.{Command, perform, specify}
use yaadien.Repository.Listing.Times.{OrdersTimes, HasTimes}
use yaadien.Repository.Listing.Visible.{visible}

module _ (e : Env) (py : Python) (scope : MemoryScope) (order : OrdersTimes e)
    (agent : scope.agent_id ≢ 0) where
  -- The messages of the session, the newest first.
  abbrev pub log : Db → List Json
  log db = map (λ m. content_to_msg py m.content) (visible e working_memory scope db)

  record IsSession (db : Db) : Type 0 where
    fresh : NeverExpires db.working
    times : HasTimes db.working
    keyed : IsKeyed (visible e working_memory scope db)

  -- the answer of a command, the messages and the rows after it
  record Agrees (c : Command) (db : Db) : Type 0 where
    same_answer : (perform e py scope c db).0 ≡ (specify c (log db)).0
    same_log : log (perform e py scope c db).1 ≡ (specify c (log db)).1
    session : IsSession (perform e py scope c db).1
