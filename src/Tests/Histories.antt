-- ===== src/Tests/Histories.antt =====
-- Histories on the test database.
use yaadien.Prelude.{All, ◌≡◌, ◌≢◌, refl, List, [], ◌∷◌, arith, codes}
use yaadien.Prelude.Table.{select, row_count}
use yaadien.Db.{semantic_facts, rows}
use yaadien.Repository.History.{
  Call, forgets, purges, erases, creates_many, supersedes, updates, after_all,
}
use yaadien.Db.{working_memory}
use yaadien.Repository.History.Tenancy.{is_agent, after_all-agent}
use yaadien.Scope.{in_scope}
use yaadien.Repository.History.Keys.{IsValid, after_all-IsValid}
use yaadien.Repository.Claims.{claim_attempts_exclusive, claim_attempts, is_success}
use yaadien.Repository.View.{Command, reads, removes, writes}
use yaadien.Tests.{env, scope_1, db_1, tea, facts_repository}

abbrev calls : List Call
calls =
    updates facts_repository tea scope_1
    ∷ supersedes 12 11 (codes "newer") scope_1
    ∷ forgets semantic_facts 13 scope_1
    ∷ purges semantic_facts scope_1
    ∷ erases semantic_facts scope_1
    ∷ creates_many facts_repository ((tea, scope_1) ∷ []) 500
    ∷ []

after_all-agent_example :
    select (is_agent 2) (rows semantic_facts (after_all env calls db_1))
    ≡ select (is_agent 2) (rows semantic_facts db_1)
after_all-agent_example =
    after_all-agent env calls db_1 2 semantic_facts (one, (one, (one, (one, (one, (one, tt))))))
  where
    other : scope_1.agent_id ≢ 2
    other = λ h. omega arith

    one : All (λ s. s.agent_id ≢ 2) (scope_1 ∷ [])
    one = (other, tt)

db_1-IsValid : IsValid db_1
unfolding row_count
db_1-IsValid u = ground arith

after_all-IsValid_example : IsValid (after_all env calls db_1)
after_all-IsValid_example = after_all-IsValid env calls db_1 db_1-IsValid

claim_attempts_exclusive_example :
    row_count is_success (claim_attempts env working_memory 21 scope_1 4 db_1) ≡ 1
unfolding row_count in_scope
claim_attempts_exclusive_example =
    claim_attempts_exclusive env working_memory 21 scope_1 (λ h. omega arith) refl 3 db_1

abbrev commands : List Command
commands =
    reads 11
    ∷ writes (record tea { content = codes "likes green tea" })
    ∷ writes tea
    ∷ removes 11
    ∷ reads 11
    ∷ []
