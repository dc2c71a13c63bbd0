-- ===== src/Store/Erasure/Everywhere.antt =====
-- What the hard deletes leave in all tables, and what their reports count.
use yaadien.Prelude.{
  ℕ, ◌+◌, ◌≡◌, refl, sym, ◌∙◌, ◌≢◌, Bool, true, ◌&&◌, none, List, [], ◌∷◌, arith, ◌==◌, length,
  opt_is,
}
use yaadien.Prelude.Table.{row_count, delete_where, row_count-delete_where, length-delete_where}
use yaadien.Model.{Ident, Memory, MemoryScope, ok}
use yaadien.Scope.{in_scope, scope_predicates, holds_all}
use yaadien.Db.{
  TableName, working_memory, episodic_memory, semantic_facts, entity_profiles, procedural_memory,
  Db, Env, rows,
}
use yaadien.Repository.{row_in_scope}
use yaadien.Repository.Chunks.{erase_by_scope, chunk_in_scope}
use yaadien.Repository.Lifecycle
use yaadien.Store.Erasure.{
  erase_all, for_tables, sum_counts, ErasureReport, delete_user, user_scope,
}

-- the rows of all six tables
abbrev pub size : Db → ℕ
size db =
    length db.working
    + length db.episodic
    + length db.facts
    + length db.profiles
    + length db.procedures
    + length db.chunks

abbrev pub erased : MemoryScope → List Memory → List Memory
erased scope l = delete_where (row_in_scope scope) l

module _ (e : Env) (scope : MemoryScope) (db : Db) (h : scope.agent_id ≢ 0) where
  abbrev pub erased_db : Db
  erased_db = record {
    working = erased scope db.working;
    episodic = erased scope db.episodic;
    facts = erased scope db.facts;
    profiles = erased scope db.profiles;
    procedures = erased scope db.procedures;
    chunks = delete_where (chunk_in_scope scope) db.chunks;
    ticks = db.ticks + 1;
  }

  abbrev pub counted : List Memory → ℕ
  counted l = row_count (row_in_scope scope) l

  erase_all-db : (erase_all e scope db).1 ≡ erased_db
  unfolding erase_all for_tables Lifecycle.erase_all erase_by_scope
  erase_all-db = ground arith

  abbrev pub report_of : ErasureReport
  report_of = record {
    rows_deleted =
        (working_memory, counted db.working)
        ∷ (episodic_memory, counted db.episodic)
        ∷ (semantic_facts, counted db.facts)
        ∷ (entity_profiles, counted db.profiles)
        ∷ (procedural_memory, counted db.procedures)
        ∷ [];
    chunks_deleted = row_count (chunk_in_scope scope) db.chunks;
    total_deleted =
        counted db.working
        + (counted db.episodic
            + (counted db.facts + (counted db.profiles + (counted db.procedures + 0))))
        + row_count (chunk_in_scope scope) db.chunks;
    erased_at = e.now db.ticks;
  }

  erase_all-report : (erase_all e scope db).0 ≡ ok report_of
  unfolding erase_all for_tables Lifecycle.erase_all erase_by_scope sum_counts
  erase_all-report = ground arith

  all_gone : (u : TableName) → row_count (row_in_scope scope) (rows u erased_db) ≡ 0
  all_gone working_memory = row_count-delete_where (row_in_scope scope) db.working
  all_gone episodic_memory = row_count-delete_where (row_in_scope scope) db.episodic
  all_gone semantic_facts = row_count-delete_where (row_in_scope scope) db.facts
  all_gone entity_profiles = row_count-delete_where (row_in_scope scope) db.profiles
  all_gone procedural_memory = row_count-delete_where (row_in_scope scope) db.procedures

  -- In a scope with an agent, `erase_all` of the store returns a report. No row of the scope is
  -- left in any of the five memory tables, whatever its state, and no chunk of the scope; the
  -- total is the number of rows that went from the six tables together.
  pub erase_all_everywhere :
      (r : ErasureReport) × ((erase_all e scope db).0 ≡ ok r)
      × ((u : TableName) → row_count (row_in_scope scope) (rows u (erase_all e scope db).1) ≡ 0)
      × (row_count (chunk_in_scope scope) (erase_all e scope db).1.chunks ≡ 0)
      × (r.total_deleted + size (erase_all e scope db).1 ≡ size db)
  erase_all_everywhere = (
    report_of,
    erase_all-report,
    (λ u. rw erase_all-db (all_gone u)),
    rw erase_all-db (row_count-delete_where (chunk_in_scope scope) db.chunks),
    rw erase_all-db (
        omega (
          arith,
          length-delete_where (row_in_scope scope) db.working,
          length-delete_where (row_in_scope scope) db.episodic,
          length-delete_where (row_in_scope scope) db.facts,
          length-delete_where (row_in_scope scope) db.profiles,
          length-delete_where (row_in_scope scope) db.procedures,
          length-delete_where (chunk_in_scope scope) db.chunks,
        )),
  )

-- the rows of a user of an agent, in whatever tenant
abbrev pub is_user_row : Ident → Ident → Memory → Bool
is_user_row user_id agent_id m = opt_is m.user_id user_id && m.agent_id == agent_id

user_row_in_scope :
    (user_id agent_id : Ident) (m : Memory)
    → row_in_scope (user_scope user_id agent_id none) m ≡ is_user_row user_id agent_id m
unfolding in_scope holds_all scope_predicates
user_row_in_scope user_id agent_id m = ground arith

row_count-same :
    (p q : Memory → Bool) (l : List Memory)
    → ((m : Memory) → p m ≡ q m)
    → row_count p l ≡ row_count q l
unfolding row_count
row_count-same p q [] h = refl
row_count-same p q (m ∷ l) h = ground (arith, h m, row_count-same p q l h)

-- For an agent that is not the empty string, a cascading `delete_user` without a tenant leaves no
-- row of the user under the agent in any of the five tables, of whatever tenant.
pub delete_user_lem :
    (e : Env) (user_id agent_id : Ident) (db : Db)
    → agent_id ≢ 0
    → (u : TableName)
    → row_count
        (is_user_row user_id agent_id)
        (rows u (delete_user e user_id agent_id none true db).1)
      ≡ 0
unfolding delete_user
delete_user_lem e user_id agent_id db h u =
    let scope = user_scope user_id agent_id none in
    sym (
      row_count-same (row_in_scope scope) (is_user_row user_id agent_id) _
        (user_row_in_scope user_id agent_id))
    ∙ (erase_all_everywhere e scope db h).2 u
