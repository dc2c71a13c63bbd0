-- ===== src/Tests/Scripts.antt =====
-- The maintenance scripts on the test database.
use yaadien.Prelude.{◌≡◌, ◌≢◌, refl, some, [], ◌∷◌, arith, codes}
use yaadien.Prelude.Table.{row_count, select}
use yaadien.Model.{ok}
use yaadien.Scope.{in_scope}
use yaadien.Db.{working_memory, semantic_facts}
use yaadien.Repository.Frame.{SameRows}
use yaadien.Repository.Write.{find_duplicate, insert_row, then_chunks}
use yaadien.ContentHash.{content_hash}
use yaadien.Scripts.ConsolidatePending.{Consolidator, process_batch}
use yaadien.Scripts.ConsolidatePending.Exclusion.{process_batch-process_batch}
use yaadien.Tests.{env, scope_1, db_1, row}
use yaadien.Tests.Ingestion.{pipeline}

abbrev derives : Consolidator
derives l = some ((some semantic_facts, row 61 (codes "derived")) ∷ [])

is_agent_1 : scope_1.agent_id ≢ 0
is_agent_1 h = ground arith

one_processed :
    (process_batch env pipeline derives working_memory scope_1 db_1.working db_1).0 ≡ ok 1
unfolding process_batch row_count in_scope find_duplicate select content_hash insert_row then_chunks
one_processed = refl

process_batch-process_batch_example :
    let db' = (process_batch env pipeline derives working_memory scope_1 db_1.working db_1).1 in
    ((process_batch env pipeline derives working_memory scope_1 db_1.working db').0 ≡ ok 0)
    × SameRows db' (process_batch env pipeline derives working_memory scope_1 db_1.working db').1
process_batch-process_batch_example =
    process_batch-process_batch env pipeline working_memory scope_1 is_agent_1 refl derives derives
      db_1.working db_1 1 one_processed
