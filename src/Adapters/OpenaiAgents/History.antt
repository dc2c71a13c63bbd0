-- ===== src/Adapters/OpenaiAgents/History.antt =====
-- A session of src/agent_memory_sdk/adapters/openai_agents.py as its users see it: `get_items`,
-- `pop_item` and `clear_session` as commands, and the list of messages that they work on.
pub mod Adding
pub mod Refinement
use yaadien.Prelude.{Option, none, some, List, [], ◌∷◌, take, drop}
use yaadien.Model.{ℤ, Error, Result, ok, err, MemoryScope}
use yaadien.Db.{Db, Env}
use yaadien.Adapters.Json.{Json, Python}
use yaadien.Adapters.OpenaiAgents.{get_items, pop_item, clear_session, newest_items}
use mathlib.Core.List.{reverse}

pub data Command : Type 0 where
  gets : Option ℤ → Command
  pops clears : Command

pub data Answer : Type 0 where
  items : List Json → Answer
  popped : Option Json → Answer
  cleared : Answer
  refused : Error → Answer

abbrev answer {ℓ} : {A : Type ℓ} → (A → Answer) → Result A → Answer
answer f (ok a) = f a
answer f (err x) = refused x

unfoldable pub perform : Env → Python → MemoryScope → Command → Db → Answer × Db
unfolding get_items pop_item clear_session
perform e py scope (gets limit) db = (answer items (get_items e py scope limit db), db)
perform e py scope pops db = let step = pop_item e py scope db in (answer popped step.0, step.1)
perform e py scope clears db =
    let step = clear_session e scope db in (answer (λ _. cleared) step.0, step.1)

unfoldable pub perform_all : Env → Python → MemoryScope → List Command → Db → List Answer
perform_all e py scope [] db = []
perform_all e py scope (c ∷ cs) db =
    let step = perform e py scope c db in step.0 ∷ perform_all e py scope cs step.1

-- A command on the messages of a session, the newest first. Only the 1000 newest can be listed and
-- cleared.
unfoldable pub specify : Command → List Json → Answer × List Json
specify (gets limit) log = (items (newest_items limit (reverse (take 1000 log))), log)
specify pops [] = (popped none, [])
specify pops (message ∷ log) = (popped (some message), log)
specify clears log = (cleared, drop 1000 log)

unfoldable pub specify_all : List Command → List Json → List Answer
specify_all [] log = []
specify_all (c ∷ cs) log = let step = specify c log in step.0 ∷ specify_all cs step.1
