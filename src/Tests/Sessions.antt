-- ===== src/Tests/Sessions.antt =====
-- A session on the test database, with a default store, and an order that is that of the rows read
-- backwards.
use yaadien.Prelude.{◌≢◌, false, List, [], ◌∷◌, none, some, arith, codes}
use yaadien.Db.{Env}
use yaadien.Store.Pipeline.{Pipeline}
use yaadien.Adapters.Json.{string, Fields, end, field}
use yaadien.Adapters.OpenaiAgents.History.{Command, gets, pops}
use yaadien.Tests.{env, scope_1, facts_repository}
use yaadien.Tests.Ingestion.{pipeline}
use mathlib.Core.List.{reverse}

abbrev ordered : Env
ordered = record env { newest_first = reverse }

abbrev plain : Pipeline
plain = record pipeline {
  settings = record facts_repository { chunk_repo = false };
  resolver = none;
  consolidator = λ l. some [];
}

is_agent_1 : scope_1.agent_id ≢ 0
is_agent_1 h = ground arith

abbrev greeting : Fields
greeting = field (codes "role") (string (codes "user")) (field (codes "content") (string []) end)

abbrev calls : List Command
calls = pops ∷ gets none ∷ []
