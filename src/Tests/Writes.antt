-- ===== src/Tests/Writes.antt =====
-- Writes and reads on the test database.
use mathlib.Core.List.{Mem}
use yaadien.Repository.Write.{is_duplicate}
use yaadien.Prelude.{
  ℕ, true, ◌≡◌, ◌≢◌, refl, Bool, false, ◌&&◌, List, [], arith, codes, ltb, map, ◌==◌,
}
use yaadien.Prelude.Table.{select, row_count}
use yaadien.Model.{Memory, Double, ok, err, stale_write}
use yaadien.Filter.{Predicate}
use yaadien.Scope.{in_scope}
use yaadien.ContentHash.{content_hash}
use yaadien.Db.{semantic_facts, Db, rows, tick}
use yaadien.Repository.Write.{create, update, then_chunks, find_duplicate, insert_row}
use yaadien.Repository.Read.{is_listed}
use yaadien.Repository.Lifecycle.{forget, supersede, is_live_target}
use yaadien.Repository.Locking.{update-update}
use yaadien.Repository.Dedup.{create-create, fresh}
use yaadien.Repository.Supersession.{supersede_lem}
use yaadien.Tests.{env, scope_1, db_1, tea, row, facts_repository}

is_agent_1 : scope_1.agent_id ≢ 0
is_agent_1 = λ h. omega arith

abbrev after_update : Db
after_update = (update env facts_repository tea scope_1 db_1).1

update-update_example :
    update env facts_repository tea scope_1 after_update ≡ (err stale_write, tick after_update)
unfolding update in_scope row_count then_chunks
update-update_example =
    update-update env env facts_repository tea tea scope_1 db_1 is_agent_1 refl refl refl

abbrev cocoa : Memory
cocoa = row 14 (codes "likes cocoa")

abbrev after_create : Db
after_create = (create env facts_repository cocoa scope_1 db_1).1

create-create_example :
    (x : Memory) × (create env facts_repository cocoa scope_1 after_create
      ≡ (ok x, tick after_create))
    × Mem x (rows semantic_facts after_create)
    × (is_duplicate semantic_facts (content_hash env cocoa.content) scope_1 x ≡ true)
unfolding create in_scope find_duplicate select content_hash insert_row row_count then_chunks
create-create_example =
    create-create env facts_repository cocoa cocoa scope_1 db_1 is_agent_1 refl refl refl refl

abbrev stored : Memory
stored = fresh env facts_repository cocoa scope_1 db_1

abbrev after_forget : Db
after_forget = (forget env semantic_facts 11 scope_1 db_1).1

supersede_lem_example :
    let db' = (supersede env 11 12 (codes "newer") scope_1 db_1).1 in
    ((supersede env 11 12 (codes "newer") scope_1 db_1).0
      ≡ ok (ltb 0 (row_count (is_live_target 11 scope_1) db_1.facts)))
    × ((parts : List Predicate) (include_expired : Bool) (min_confidence : Double) (ticks : ℕ)
        → row_count
            (λ m.
              m.id == 11
              && is_listed env semantic_facts scope_1 include_expired min_confidence parts ticks m)
            db'.facts
          ≡ 0)
    × (row_count (is_live_target 11 scope_1) db'.facts ≡ 0)
    × (map (λ m. m.deleted_at) db'.facts ≡ map (λ m. m.deleted_at) db_1.facts)
supersede_lem_example = supersede_lem env 11 12 (codes "newer") scope_1 db_1 is_agent_1

abbrev passes : Memory → Bool
passes = is_listed env semantic_facts scope_1 false 1 [] db_1.ticks
