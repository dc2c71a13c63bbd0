-- ===== src/Tests/Ingestion.antt =====
-- `remember` on the test database.
use yaadien.Prelude.{◌≢◌, some, [], ◌∷◌, arith, codes}
use yaadien.Prelude.Table.{row_count}
use yaadien.Db.{semantic_facts}
use yaadien.Repository.Isolation.{KeepsOutside}
use yaadien.Repository.History.Keys.{IsValid}
use yaadien.Store.Pipeline.{Pipeline, StoreState, update_target, quarantine}
use yaadien.Store.Ingest.{remember}
use yaadien.Store.Ingest.Safety.{remember-KeepsOutside}
use yaadien.Tests.{env, scope_1, db_1, coffee, row, facts_repository}

-- a resolver that merges everything into one fact, and a consolidator that repeats what it gets
abbrev pub pipeline : Pipeline
pipeline = record {
  settings = facts_repository;
  distance = λ v w. 0;
  resolver = some (λ m l. some (record { action = update_target; target_id = some 11 }));
  resolver_k = 5;
  guard = some (λ m o l. some quarantine);
  integrity_k = 5;
  consolidator = λ l. some ((some semantic_facts, row 15 (codes "derived")) ∷ []);
  every_n = 1;
}

abbrev pub state : StoreState
state = record { db = db_1; counters = [] }

remember-KeepsOutside_example :
    KeepsOutside scope_1 db_1 (remember env pipeline semantic_facts coffee scope_1 state).1.db
remember-KeepsOutside_example =
    remember-KeepsOutside env pipeline semantic_facts coffee scope_1 state

pub db_1-IsValid : IsValid db_1
unfolding row_count
db_1-IsValid u = ground arith

is_agent_1 : scope_1.agent_id ≢ 0
is_agent_1 = λ h. omega arith
