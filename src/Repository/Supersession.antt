-- ===== src/Repository/Supersession.antt =====
-- `supersede` is neither `forget` nor a delete.
use yaadien.Prelude.{ℕ, ◌≡◌, refl, ◌≢◌, Bool, ◌&&◌, List, arith, ◌==◌, ltb, map}
use yaadien.Prelude.Table.{update_where, row_count, row_count-update_where, map-update_where}
use yaadien.Model.{Ident, Text, Double, MemoryScope, ok}
use yaadien.Filter.{Predicate}
use yaadien.Db.{semantic_facts, Db, Env}
use yaadien.Repository.Lifecycle.{supersede, is_live_target, supersede_row}
use yaadien.Repository.Read.{is_listed}

module _ (e : Env) (loser winner : Ident) (reason : Text) (scope : MemoryScope) (db : Db)
    (h : scope.agent_id ≢ 0) where
  abbrev pub superseding : Db
  superseding = (supersede e loser winner reason scope db).1

  facts-supersede :
      superseding.facts
      ≡ update_where
          (is_live_target loser scope)
          (supersede_row winner (e.now db.ticks) reason)
          db.facts
  unfolding supersede
  facts-supersede = ground arith

  supersede_reports :
      (supersede e loser winner reason scope db).0
      ≡ ok (ltb 0 (row_count (is_live_target loser scope) db.facts))
  unfolding supersede
  supersede_reports = ground arith

  -- In a scope with an agent, `supersede` reports True exactly when the scope has a live row under
  -- the loser's id that nothing supersedes yet. Afterwards no listing in the scope shows a row
  -- under that id, whatever its filter, confidence bound and age, and no such live row is left to
  -- supersede. No tombstone is set or cleared.
  pub supersede_lem :
      ((supersede e loser winner reason scope db).0
        ≡ ok (ltb 0 (row_count (is_live_target loser scope) db.facts)))
      × ((parts : List Predicate) (include_expired : Bool) (min_confidence : Double) (ticks : ℕ)
          → row_count
              (λ m.
                m.id == loser
                && is_listed e semantic_facts scope include_expired min_confidence parts ticks m)
              superseding.facts
            ≡ 0)
      × (row_count (is_live_target loser scope) superseding.facts ≡ 0)
      × (map (λ m. m.deleted_at) superseding.facts ≡ map (λ m. m.deleted_at) db.facts)
  supersede_lem =
      let p = is_live_target loser scope in
      let f = supersede_row winner (e.now db.ticks) reason in
      (
        supersede_reports,
        (λ parts x c ticks. rw facts-supersede (
            row_count-update_where
              (λ m. m.id == loser && is_listed e semantic_facts scope x c parts ticks m) p f
              db.facts (λ m k. ground arith) (λ m k. ground arith))),
        rw facts-supersede (row_count-update_where p p f db.facts (λ m k. k) (λ m k. ground arith)),
        rw facts-supersede (map-update_where (λ m. m.deleted_at) p f (λ m. refl) db.facts),
      )
