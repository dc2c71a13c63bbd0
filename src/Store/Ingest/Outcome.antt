-- ===== src/Store/Ingest/Outcome.antt =====
-- What `remember` returns.
use yaadien.Prelude.{
  ℕ, ◌≡◌, refl, Bool, true, false, Option, none, some, List, ◌∙◌, sym, ap, Option-cases, inl, inr,
}
use yaadien.Model.{Ident, Result, ok, err, Memory, MemoryScope}
use yaadien.Db.{TableName, Db, Env}
use yaadien.Repository.Read.{get_by_id}
use yaadien.Store.Throttle.{Key}
use yaadien.Store.Pipeline.{
  Pipeline, StoreState, IngestAction, IngestDecision, add, update_target, delete_target, noop,
  run_integrity_guard, guard_context, similar, candidate_embedding,
}
use yaadien.Store.Ingest.{
  given, act, then_consolidate, write_record, after_guard, remember, resolve_and_act, act_on,
  merge_into,
}

abbrev without_flag : Result (Memory × Bool) → Result Memory
without_flag (ok (m, b)) = ok m
without_flag (err x) = err x

then_consolidate-result :
    (e : Env) (p : Pipeline) (t : TableName) (scope : MemoryScope)
    (step : Result (Memory × Bool) × Db) (counters : List (Key × ℕ))
    → (then_consolidate e p t scope step counters).0 ≡ without_flag step.0
unfolding then_consolidate
then_consolidate-result e p t scope (err x, db) counters = refl
then_consolidate-result e p t scope (ok (m, false), db) counters = refl
then_consolidate-result e p t scope (ok (m, true), db) counters = refl

module _ (e : Env) (p : Pipeline)
    (consolidator : List Memory → Option (List (Option TableName × Memory))) (every_n : ℕ)
    (t : TableName) (scope : MemoryScope) (s : StoreState) where
  abbrev other : Pipeline
  other = record p { consolidator = consolidator; every_n = every_n }

  guard-other :
      (m : Memory)
      → run_integrity_guard e other t m scope s.db ≡ run_integrity_guard e p t m scope s.db
  unfolding run_integrity_guard guard_context
  guard-other m = refl

  merge_into-other :
      (m : Memory) (r : Result (Option Memory)) (db : Db)
      → merge_into e other t m scope r db ≡ merge_into e p t m scope r db
  unfolding merge_into
  merge_into-other m (err x) db = refl
  merge_into-other m (ok none) db = refl
  merge_into-other m (ok (some target)) db = refl

  act-other :
      (m : Memory) (a : IngestAction) (target : Option Ident) (db : Db)
      → act e other t m scope a target db ≡ act e p t m scope a target db
  unfolding act
  act-other m add target db = refl
  act-other m update_target none db = refl
  act-other m update_target (some i) db = merge_into-other m (get_by_id t i scope db) db
  act-other m delete_target none db = refl
  act-other m delete_target (some i) db = refl
  act-other m noop target db = refl

  act_on-other :
      (m : Memory) (d : Option IngestDecision) (db : Db)
      → act_on e other t m scope d db ≡ act_on e p t m scope d db
  unfolding act_on
  act_on-other m none db = act-other m add none db
  act_on-other m (some d) db = act-other m d.action (given d.target_id) db

  similar-other : (m : Memory) → similar e other t m scope s.db ≡ similar e p t m scope s.db
  unfolding similar candidate_embedding
  similar-other m = refl

  write_record-other :
      (m : Memory) → write_record e other t m scope s.db ≡ write_record e p t m scope s.db
  unfolding write_record resolve_and_act
  write_record-other m = elim (Option-cases p.resolver) [
    | inl n ↦ rw (n, write_record) refl
    | inr (resolver, n) ↦
        rw (n, write_record)
          (ap (λ l. act_on e other t m scope (resolver m l) s.db) (similar-other m)
            ∙ act_on-other m (resolver m (similar e p t m scope s.db)) s.db)
  ]

  after_guard-other :
      (r : Result Memory) → (after_guard e other t scope s r).0 ≡ (after_guard e p t scope s r).0
  unfolding after_guard
  after_guard-other (err x) = refl
  after_guard-other (ok m) =
      then_consolidate-result e other t scope (write_record e other t m scope s.db) s.counters
      ∙ ap (λ step. without_flag step.0) (write_record-other m)
      ∙ sym (then_consolidate-result e p t scope (write_record e p t m scope s.db) s.counters)

  -- Neither the consolidator, which may raise or answer anything, nor the throttle has a say in what
  -- a `remember` returns: the stored record or the exception is the same with any other.
  pub remember-consolidator :
      (m : Memory) → (remember e other t m scope s).0 ≡ (remember e p t m scope s).0
  unfolding remember
  remember-consolidator m =
      ap (λ r. (after_guard e other t scope s r).0) (guard-other m)
      ∙ after_guard-other (run_integrity_guard e p t m scope s.db)
