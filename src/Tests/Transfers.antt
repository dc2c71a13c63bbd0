-- ===== src/Tests/Transfers.antt =====
-- Listings of chunks, imports and batches on the test database.
use yaadien.Prelude.{ℕ, ◌≡◌, refl, true, none, some, List, [], ◌∷◌, ◌++◌, arith, codes}
use yaadien.Model.{Memory, Result, MemoryScope}
use yaadien.Scope.{columns}
use yaadien.Db.{Db, semantic_facts, episodic_memory}
use yaadien.Repository.Isolation.{KeepsOutside}
use yaadien.Repository.Batches.{create_many}
use yaadien.Repository.Batches.Whole.{IsWhole, create_many-IsWhole}
use yaadien.Store.Pipeline.{Pipeline}
use yaadien.Store.Export.{memory_record, chunk_record}
use yaadien.Store.Import.{Raw, exported, untyped, import_scope}
use yaadien.Store.Import.Safety.{import_scope-KeepsOutside}
use yaadien.Store.Import.Mixed.{Fails, import_scope-Fails}
use yaadien.Tests.{env, scope_1, scope_2, db_1, tea, foreign, row, chunk_of_tea, facts_repository}

abbrev plain : Pipeline
plain = record {
  settings = record facts_repository { chunk_repo = true };
  distance = λ v w. 0;
  resolver = none;
  resolver_k = 5;
  guard = none;
  integrity_k = 5;
  consolidator = λ l. none;
  every_n = 1;
}

abbrev stream : List Raw
stream =
    exported (memory_record episodic_memory (row 51 (codes "seen")))
    ∷ exported (chunk_record chunk_of_tea)
    ∷ untyped
    ∷ []

import_scope-KeepsOutside_example :
    KeepsOutside scope_1 db_1 (import_scope env plain stream scope_1 db_1).1
import_scope-KeepsOutside_example = import_scope-KeepsOutside env plain scope_1 stream db_1

import_scope-Fails_example : Fails (
    import_scope env plain
      (exported (memory_record semantic_facts tea) ∷ (exported (chunk_record chunk_of_tea) ∷ [])
        ++ exported (memory_record semantic_facts foreign) ∷ untyped ∷ [])
      scope_1
      db_1)
import_scope-Fails_example =
    import_scope-Fails env plain scope_1 1 (exported (memory_record semantic_facts foreign))
      (columns foreign) refl refl (exported (memory_record semantic_facts tea)) (columns tea)
      (exported (chunk_record chunk_of_tea) ∷ []) (untyped ∷ []) db_1 refl refl

-- The second record has the id of a row that is there.
abbrev two_facts : List (Memory × MemoryScope)
two_facts = (row 61 (codes "new"), scope_1) ∷ (tea, scope_2) ∷ []

create_many-IsWhole_example :
    (out : Result ℕ × Db) × (create_many env facts_repository two_facts 1 db_1 ≡ some out)
    × IsWhole env facts_repository (env.now db_1.ticks) 1 0 two_facts db_1 out
create_many-IsWhole_example =
    create_many-IsWhole env facts_repository two_facts 1 db_1 (omega arith)
