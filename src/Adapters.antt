-- ===== src/Adapters.antt =====
-- src/agent_memory_sdk/adapters: what a memory store looks like behind the interfaces of agent
-- frameworks. The frameworks themselves are not modelled.
pub mod McpServer
pub mod Json
pub mod AgentFramework
pub mod OpenaiAgents
pub mod Langchain
use yaadien.Prelude.{Bool, List, [], ◌∷◌}
use yaadien.Model.{Text, Result, ok, err, MemoryScope, Memory}
use yaadien.Db.{Env, Db, working_memory}
use yaadien.Repository.Lifecycle.{forget}
use yaadien.Store.Entry.{new_record, agent_only}

-- `WorkingMemory(agent_id=…, content=…, metadata=…)` and its siblings: a fresh id, and no other
-- column of the scope
abbrev pub fresh_record : Env → MemoryScope → Text → Text → Db → Memory
fresh_record e scope content metadata db =
    new_record e (e.uuid db.ticks) (agent_only scope) content metadata

-- The loop of `clear_session` and of `clear`: each row is forgotten, and an exception ends it.
unfoldable pub forget_each : Env → MemoryScope → List Memory → Db → Result (Unit {0}) × Db
unfolding forget
forget_each e scope [] db = (ok tt, db)
forget_each e scope (m ∷ l) db =
    let step = forget e working_memory m.id scope db in
    let rest = forget_each e scope l step.1 in
    elim step.0 [ err x ↦ (err x, step.1) | ok found ↦ rest ]
