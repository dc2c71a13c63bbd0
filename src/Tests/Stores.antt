-- ===== src/Tests/Stores.antt =====
-- Calls of a store on the test database.
use yaadien.Prelude.{
  ◌+◌, ◌*◌, ◌≡◌, ◌≢◌, ◌<◌, refl, true, Option, none, some, List, [], ◌∷◌, arith, codes, map, All,
}
use yaadien.Prelude.Table.{row_count, select}
use yaadien.Model.{Memory, ok}
use yaadien.Scope.{in_scope}
use yaadien.Db.{TableName, rows}
use yaadien.Repository.{row_in_scope}
use yaadien.Repository.Read.{list_all}
use yaadien.Repository.Chunks.{chunk_in_scope}
use yaadien.Store.{alias_facts}
use yaadien.Store.Erasure.{ErasureReport, erase_all, delete_user}
use yaadien.Store.Erasure.Everywhere.{erase_all_everywhere, delete_user_lem, is_user_row, size}
use yaadien.Store.Reconcile.{
  apply_decisions, is_candidate, SupersedeDecision, reconcile, is_acceptable,
}
use yaadien.Store.Reconcile.Contradiction.{beats, apply_decisions_contradiction}
use yaadien.Store.Reconcile.Decisions.{reconcile_lem, unbeaten, IsEachOnce}
use yaadien.Store.Throttle.{counter, key_of}
use yaadien.Store.Throttle.Cadence.{throttle, calls_of, fired_for, throttle_cadence}
use yaadien.Tests.{env, scope_1, scope_2, db_1, tea, coffee}

is_agent_1 : scope_1.agent_id ≢ 0
is_agent_1 = λ h. omega arith

erase_all_everywhere_example :
    let db' = (erase_all env scope_1 db_1).1 in
    (r : ErasureReport) × ((erase_all env scope_1 db_1).0 ≡ ok r)
    × ((u : TableName) → row_count (row_in_scope scope_1) (rows u db') ≡ 0)
    × (row_count (chunk_in_scope scope_1) db'.chunks ≡ 0)
    × (r.total_deleted + size db' ≡ size db_1)
erase_all_everywhere_example = erase_all_everywhere env scope_1 db_1 is_agent_1

delete_user_lem_example :
    row_count
      (is_user_row 5 1)
      (rows TableName.semantic_facts (delete_user env 5 1 none true db_1).1)
    ≡ 0
delete_user_lem_example = delete_user_lem env 5 1 db_1 is_agent_1 TableName.semantic_facts

-- a reconciler that finds each of two facts beaten by the other
abbrev contrary : List Memory → Option (List SupersedeDecision)
contrary l = some (
    record { winner_id = 12; loser_id = 11; reason = codes "newer" }
    ∷ record { winner_id = 11; loser_id = 12; reason = codes "older" }
    ∷ [])

reconcile_lem_example :
    let db' = (reconcile env contrary alias_facts scope_1 200 db_1).1 in
    (applied : List SupersedeDecision) × ((reconcile env contrary alias_facts scope_1 200 db_1).0
      ≡ ok applied)
    × All (λ d. is_acceptable (tea ∷ coffee ∷ []) d ≡ true) applied
    × All (λ d. unbeaten d.loser_id scope_1 db'.facts ≡ 0) applied
    × IsEachOnce applied
    × (map (λ m. m.deleted_at) db'.facts ≡ map (λ m. m.deleted_at) db_1.facts)
unfolding list_all in_scope select
reconcile_lem_example =
    reconcile_lem env (tea ∷ coffee ∷ []) scope_1 is_agent_1 contrary alias_facts 200 db_1 refl refl

throttle_cadence_example :
    let run = throttle 3 (scope_1 ∷ scope_2 ∷ scope_1 ∷ scope_1 ∷ scope_1 ∷ []) [] in
    (counter (key_of scope_1) run.1 < 3)
    × (fired_for (key_of scope_1) run.0 * 3 + counter (key_of scope_1) run.1 ≡ 4)
unfolding counter calls_of
throttle_cadence_example =
    throttle_cadence 3 (key_of scope_1) (scope_1 ∷ scope_2 ∷ scope_1 ∷ scope_1 ∷ scope_1 ∷ []) []
      (omega arith) (omega arith)

apply_decisions_contradiction_example :
    let batch = beats 12 11 (codes "newer") ∷ beats 11 12 (codes "older") ∷ [] in
    let step = apply_decisions env (tea ∷ coffee ∷ []) scope_1 batch db_1 in
    (step.0 ≡ batch)
    × (unbeaten 12 scope_1 step.1.facts ≡ 0)
    × (unbeaten 11 scope_1 step.1.facts ≡ 0)
unfolding is_candidate in_scope row_count
apply_decisions_contradiction_example =
    apply_decisions_contradiction env (tea ∷ coffee ∷ []) scope_1 is_agent_1 12 11 (codes "newer")
      (codes "older") db_1 (λ h. omega arith) refl refl (λ h. omega arith) (λ h. omega arith)
