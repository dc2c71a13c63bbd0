-- ===== src/Repository/History/Tenancy.antt =====
-- Histories of other agents leave an agent's rows alone.
use mathlib.Core.Path.{subst}
use mathlib.Core.List.{append-nil}
use yaadien.Prelude.{
  inl, inr, ◌+◌, ◌++◌, ℕ, map, ◌≡◌, refl, sym, ◌∙◌, ap, ◌≢◌, Bool, true, List, [], ◌∷◌, ◌==◌, arith,
  All,
}
use yaadien.Prelude.Table.{select, select-append, select-select}
use yaadien.Model.{Ident, Memory, MemoryScope}
use yaadien.Scope.{columns}
use yaadien.Scope.Isolation.{in_scope-agent}
use yaadien.Db.{
  TableName, working_memory, episodic_memory, semantic_facts, entity_profiles, procedural_memory,
  Db, Env, rows, set_rows,
}
use yaadien.Repository.{Repository}
use yaadien.Repository.Batches.{fact_row}
use yaadien.Repository.Batches.Induction.{insert_fact-cases, Keeps, create_many-keeps}
use yaadien.Repository.Isolation.{
  is_outside, KeepsOutside, forget-KeepsOutside, purge_expired-KeepsOutside, erase_all-KeepsOutside,
  claim-KeepsOutside, supersede-KeepsOutside, create-KeepsOutside, update-KeepsOutside,
}
use yaadien.Repository.History.{
  Call, creates, updates, forgets, claims, purges, erases, supersedes, creates_many, scopes_of,
  after, after_all,
}

abbrev pub is_agent : Ident → Memory → Bool
is_agent a m = m.agent_id == a

other_agent :
    (s : MemoryScope) (a : Ident) (m : Memory)
    → s.agent_id ≢ a
    → is_agent a m ≡ true
    → is_outside s m ≡ true
other_agent s a m h k = ground (arith, in_scope-agent s (columns m))

-- What keeps the rows outside a scope keeps the rows of the other agents.
pub KeepsOutside-agent :
    (s : MemoryScope) (a : Ident) (u : TableName) (db db' : Db)
    → s.agent_id ≢ a
    → KeepsOutside s db db'
    → select (is_agent a) (rows u db') ≡ select (is_agent a) (rows u db)
KeepsOutside-agent s a u db db' h k =
    sym (select-select (is_agent a) (is_outside s) (rows u db') (λ m. other_agent s a m h))
    ∙ ap (select (is_agent a)) (k u)
    ∙ select-select (is_agent a) (is_outside s) (rows u db) (λ m. other_agent s a m h)

-- In every table the rows of the agent are the same, in the same order.
abbrev pub SameAgent : Ident → Db → Db → Type 0
SameAgent a db db' =
    (u : TableName) → select (is_agent a) (rows u db') ≡ select (is_agent a) (rows u db)

ticks-SameAgent :
    (a : Ident) (base db : Db) (n : ℕ)
    → SameAgent a base db
    → SameAgent a base (record db { ticks = n })
ticks-SameAgent a base db n h working_memory = h working_memory
ticks-SameAgent a base db n h episodic_memory = h episodic_memory
ticks-SameAgent a base db n h semantic_facts = h semantic_facts
ticks-SameAgent a base db n h entity_profiles = h entity_profiles
ticks-SameAgent a base db n h procedural_memory = h procedural_memory

facts-SameAgent :
    (a : Ident) (base db : Db) (facts : List Memory)
    → SameAgent a base db
    → select (is_agent a) facts ≡ select (is_agent a) db.facts
    → SameAgent a base (set_rows semantic_facts facts db)
facts-SameAgent a base db facts h k working_memory = h working_memory
facts-SameAgent a base db facts h k episodic_memory = h episodic_memory
facts-SameAgent a base db facts h k semantic_facts = k ∙ h semantic_facts
facts-SameAgent a base db facts h k entity_profiles = h entity_profiles
facts-SameAgent a base db facts h k procedural_memory = h procedural_memory

select_other : (a : Ident) (m : Memory) → m.agent_id ≢ a → select (is_agent a) (m ∷ []) ≡ []
unfolding select
select_other a m h = ground arith

-- An INSERT of `create_many` in the scope of another agent adds a row of that agent.
insert_fact-SameAgent :
    (e : Env) (r : Repository) (a : Ident) (base : Db) (x : Memory × MemoryScope)
    → (x.1).agent_id ≢ a
    → Keeps e r (SameAgent a base) (ticks-SameAgent a base) x
unfolding fact_row
insert_fact-SameAgent e r a base (m, scope) h now db same =
    let row = fact_row e r now m scope db in
    elim (insert_fact-cases e r now m scope db) [
      | inl k ↦ subst (SameAgent a base) (sym k) same
      | inr (inl k) ↦
          subst (SameAgent a base) (sym k) (ticks-SameAgent a base db (db.ticks + 1) same)
      | inr (inr (free, k)) ↦ subst (SameAgent a base) (sym k) (
          ticks-SameAgent a base (set_rows semantic_facts (db.facts ++ row ∷ []) db) (db.ticks + 1)
            (facts-SameAgent a base db (db.facts ++ row ∷ []) same (
              select-append (is_agent a) db.facts (row ∷ [])
              ∙ ap (λ l. select (is_agent a) db.facts ++ l) (select_other a row h)
              ∙ append-nil (select (is_agent a) db.facts))))
    ]

-- Whatever a write call in scopes of other agents is and however it ends, it leaves the rows of the
-- agent.
after-SameAgent :
    (e : Env) (c : Call) (db : Db) (a : Ident)
    → All (λ s. s.agent_id ≢ a) (scopes_of c)
    → SameAgent a db (after e c db)
unfolding after
after-SameAgent e (creates r m s) db a h u =
    KeepsOutside-agent s a u db _ h.0 (create-KeepsOutside s e r m db)
after-SameAgent e (updates r m s) db a h u =
    KeepsOutside-agent s a u db _ h.0 (update-KeepsOutside s e r m db)
after-SameAgent e (forgets t i s) db a h u =
    KeepsOutside-agent s a u db _ h.0 (forget-KeepsOutside s e t i db)
after-SameAgent e (claims t i s) db a h u =
    KeepsOutside-agent s a u db _ h.0 (claim-KeepsOutside s e t i db)
after-SameAgent e (purges t s) db a h u =
    KeepsOutside-agent s a u db _ h.0 (purge_expired-KeepsOutside s t db)
after-SameAgent e (erases t s) db a h u =
    KeepsOutside-agent s a u db _ h.0 (erase_all-KeepsOutside s t db)
after-SameAgent e (supersedes l w x s) db a h u =
    KeepsOutside-agent s a u db _ h.0 (supersede-KeepsOutside s e l w x db)
after-SameAgent e (creates_many r records k) db a h u =
    create_many-keeps e r (SameAgent a db) (ticks-SameAgent a db) records k db (inserts records h)
      (λ v. refl) u
  where
    inserts :
        (l : List (Memory × MemoryScope))
        → All (λ s. s.agent_id ≢ a) (map (λ x. x.1) l)
        → All (Keeps e r (SameAgent a db) (ticks-SameAgent a db)) l
    inserts [] h = tt
    inserts (x ∷ l) h = (insert_fact-SameAgent e r a db x h.0, inserts l h.1)

-- Whatever sequence of write calls is made in scopes of other agents, with whatever ids and
-- outcomes, the rows of an agent stay the same, in the same order, in each of the five tables.
pub after_all-agent :
    (e : Env) (cs : List Call) (db : Db) (a : Ident) (u : TableName)
    → All (λ c. All (λ s. s.agent_id ≢ a) (scopes_of c)) cs
    → select (is_agent a) (rows u (after_all e cs db)) ≡ select (is_agent a) (rows u db)
unfolding after_all
after_all-agent e [] db a u h = refl
after_all-agent e (c ∷ cs) db a u h =
    after_all-agent e cs (after e c db) a u h.1 ∙ after-SameAgent e c db a h.0 u
