-- ===== src/Store/Ingest/Safety.antt =====
-- What `remember` keeps, whatever the callbacks answer.
use yaadien.Prelude.{
  ℕ, refl, ◌∙◌, Bool, true, false, Option, none, some, List, [], ◌∷◌, Bool-cases, Option-cases, inl,
  inr,
}
use yaadien.Model.{Ident, Double, Result, ok, err, Memory, MemoryScope, consolidation}
use yaadien.Db.{TableName, Db, Env}
use yaadien.Repository.Lifecycle.{forget}
use yaadien.Repository.Write.{create, update}
use yaadien.Repository.Isolation.{KeepsOutside}
use yaadien.Repository.History.{creates, updates, forgets, after}
use yaadien.Repository.Isolation.{create-KeepsOutside, update-KeepsOutside, forget-KeepsOutside}
use yaadien.Repository.History.Keys.{IsValid, after-IsValid}
use yaadien.Repository.Read.{get_by_id}
use yaadien.Store.Throttle.{Key, should_consolidate}
use yaadien.Store.Pipeline.{
  Pipeline, StoreState, IngestAction, add, update_target, delete_target, noop, IngestDecision,
  repository_of, similar, run_integrity_guard,
}
use yaadien.Store.Ingest.{
  after_guard, derived_or_none, merge_into, keep_candidate, act_on, consolidate_if,
  is_consolidated_table, flagged, merged, act, resolve_and_act, given, persist_derived,
  run_consolidator, write_record, then_consolidate, remember,
}

-- A relation between databases that every write in a scope keeps.
module _ (e : Env) (p : Pipeline) (scope : MemoryScope) (P : Db → Type 0)
    (keep_create : (t : TableName) (m : Memory) (db : Db)
      → P db
      → P (create e (repository_of p t) m scope db).1)
    (keep_update : (t : TableName) (m : Memory) (db : Db)
      → P db
      → P (update e (repository_of p t) m scope db).1)
    (keep_forget : (t : TableName) (i : Ident) (db : Db) → P db → P (forget e t i scope db).1) where
  flagged-keeps : (b : Bool) (step : Result Memory × Db) → P step.1 → P (flagged b step).1
  flagged-keeps b (ok m, db) h = h
  flagged-keeps b (err x, db) h = h

  merge_into-keeps :
      (t : TableName) (m : Memory) (r : Result (Option Memory)) (db : Db)
      → P db
      → P (merge_into e p t m scope r db).1
  unfolding merge_into
  merge_into-keeps t m (err x) db h = h
  merge_into-keeps t m (ok none) db h = flagged-keeps true _ (keep_create t m db h)
  merge_into-keeps t m (ok (some target)) db h =
      flagged-keeps false _ (keep_update t (merged m target) db h)

  kept-keeps : (m : Memory) (step : Result Bool × Db) → P step.1 → P (keep_candidate m step).1
  kept-keeps m (ok b, db) h = h
  kept-keeps m (err x, db) h = h

  act-keeps :
      (t : TableName) (m : Memory) (a : IngestAction) (target : Option Ident) (db : Db)
      → P db
      → P (act e p t m scope a target db).1
  unfolding act
  act-keeps t m add target db h = flagged-keeps true _ (keep_create t m db h)
  act-keeps t m update_target none db h = flagged-keeps true _ (keep_create t m db h)
  act-keeps t m update_target (some i) db h = merge_into-keeps t m (get_by_id t i scope db) db h
  act-keeps t m delete_target none db h = h
  act-keeps t m delete_target (some i) db h = kept-keeps m _ (keep_forget t i db h)
  act-keeps t m noop target db h = h

  resolve_and_act-keeps :
      (resolver : Memory → List (Memory × Double) → Option IngestDecision) (t : TableName)
      (m : Memory) (db : Db)
      → P db
      → P (resolve_and_act e p resolver t m scope db).1
  unfolding resolve_and_act act_on
  resolve_and_act-keeps resolver t m db h = decided t m (resolver m (similar e p t m scope db)) db h
    where
      decided :
          (t : TableName) (m : Memory) (d : Option IngestDecision) (db : Db)
          → P db
          → P (act_on e p t m scope d db).1
      decided t m none db h = act-keeps t m add none db h
      decided t m (some d) db h = act-keeps t m d.action (given d.target_id) db h

  write_record-keeps :
      (t : TableName) (m : Memory) (db : Db) → P db → P (write_record e p t m scope db).1
  unfolding write_record
  write_record-keeps t m db h = elim (Option-cases p.resolver) [
    | inl n ↦ rw (n, write_record) (flagged-keeps true _ (keep_create t m db h))
    | inr (resolver, n) ↦ rw (n, write_record) (resolve_and_act-keeps resolver t m db h)
  ]

  persist_derived-keeps :
      (ds : List (Option TableName × Memory)) (db : Db) → P db → P (persist_derived e p scope ds db)
  unfolding persist_derived
  persist_derived-keeps [] db h = h
  persist_derived-keeps ((none, m) ∷ ds) db h = persist_derived-keeps ds db h
  persist_derived-keeps ((some t, m) ∷ ds) db h =
      persist_derived-keeps ds _ (keep_create t (record m { origin = consolidation }) db h)

  then_consolidate-keeps :
      (t : TableName) (step : Result (Memory × Bool) × Db) (counters : List (Key × ℕ))
      → P step.1
      → P (then_consolidate e p t scope step counters).1.db
  unfolding then_consolidate consolidate_if run_consolidator
  then_consolidate-keeps t (err x, db) counters h = h
  then_consolidate-keeps t (ok (stored, false), db) counters h = h
  then_consolidate-keeps t (ok (stored, true), db) counters h =
      elim (Bool-cases (is_consolidated_table t)) [
        | inr n ↦ rw (n, then_consolidate) h
        | inl y ↦
            rw (y, then_consolidate) (due stored (should_consolidate p.every_n scope counters) db h)
      ]
    where
      due :
          (stored : Memory) (b : Bool × List (Key × ℕ)) (db : Db)
          → P db
          → P (consolidate_if e p stored scope b db).db
      due stored (false, counters) db h = h
      due stored (true, counters) db h =
          persist_derived-keeps (derived_or_none (p.consolidator (stored ∷ []))) db h

  after_guard-keeps :
      (t : TableName) (s : StoreState) (r : Result Memory)
      → P s.db
      → P (after_guard e p t scope s r).1.db
  unfolding after_guard
  after_guard-keeps t s (err x) h = h
  after_guard-keeps t s (ok m) h =
      then_consolidate-keeps t (write_record e p t m scope s.db) s.counters
        (write_record-keeps t m s.db h)

  remember-keeps :
      (t : TableName) (m : Memory) (s : StoreState) → P s.db → P (remember e p t m scope s).1.db
  unfolding remember
  remember-keeps t m s h = after_guard-keeps t s (run_integrity_guard e p t m scope s.db) h

module _ (e : Env) (p : Pipeline) (t : TableName) (m : Memory) (scope : MemoryScope)
    (s : StoreState) where
  -- Whatever the guard, the search, the resolver and the consolidator answer, and whether they
  -- raise, a `remember` leaves every row outside its scope in place, in all five tables.
  pub remember-KeepsOutside : KeepsOutside scope s.db (remember e p t m scope s).1.db
  unfolding after
  remember-KeepsOutside =
      remember-keeps e p scope (λ db. KeepsOutside scope s.db db)
        (λ u n db h v. create-KeepsOutside scope e (repository_of p u) n db v ∙ h v)
        (λ u n db h v. update-KeepsOutside scope e (repository_of p u) n db v ∙ h v)
        (λ u i db h v. forget-KeepsOutside scope e u i db v ∙ h v) t m s (λ v. refl)

  -- Whatever the guard, the search, the resolver and the consolidator answer, and whether they
  -- raise, a `remember` leads from a database that satisfies the invariant of the tables to one
  -- that satisfies it.
  pub remember-IsValid : IsValid s.db → IsValid (remember e p t m scope s).1.db
  unfolding after
  remember-IsValid h =
      remember-keeps e p scope IsValid
        (λ u n db k. after-IsValid e (creates (repository_of p u) n scope) db k)
        (λ u n db k. after-IsValid e (updates (repository_of p u) n scope) db k)
        (λ u i db k. after-IsValid e (forgets u i scope) db k) t m s h
