-- ===== src/Store/Reconcile/Decisions.antt =====
-- Which decisions `reconcile` applies, and what it leaves.
use yaadien.Prelude.{
  ℕ, ◌≡◌, refl, ◌≢◌, Bool, true, false, Option, none, List, [], ◌∷◌, map, arith, ◌==◌, ltb,
  Bool-cases, Option-cases, inl, inr, All, min, ◌∙◌,
}
use yaadien.Prelude.Table.{row_count, update_where, map-update_where, row_count-update_where}
use yaadien.Model.{Ident, Text, ok, Memory, MemoryScope}
use yaadien.Db.{semantic_facts, Db, Env}
use yaadien.Repository.Lifecycle.{supersede, is_live_target, supersede_row}
use yaadien.Repository.Read.{list_all}
use yaadien.Store.{MemoryType}
use yaadien.Store.Reconcile.{SupersedeDecision, is_acceptable, apply_decisions, reconcile, is_facts}

-- the rows of a scope under an id that are live and not superseded
abbrev pub unbeaten : Ident → MemoryScope → List Memory → ℕ
unbeaten i scope l = row_count (is_live_target i scope) l

-- Superseding a row makes no row live.
unbeaten-update_where :
    (i j w : Ident) (now : ℕ) (reason : Text) (scope : MemoryScope) (l : List Memory)
    → unbeaten i scope l ≡ 0
    → unbeaten i scope (update_where (is_live_target j scope) (supersede_row w now reason) l) ≡ 0
unfolding row_count update_where
unbeaten-update_where i j w now reason scope [] h = refl
unbeaten-update_where i j w now reason scope (m ∷ l) h =
    ground (arith, unbeaten-update_where i j w now reason scope l)

-- the decisions on a loser
abbrev pub is_on : Ident → SupersedeDecision → Bool
is_on i d = d.loser_id == i

-- No two decisions of the list are on one loser.
abbrev pub IsEachOnce : List SupersedeDecision → Type 0
IsEachOnce [] = Unit
IsEachOnce (d ∷ ds) = (row_count (is_on d.loser_id) ds ≡ 0) × IsEachOnce ds

module _ (e : Env) (candidates : List Memory) (scope : MemoryScope) (h : scope.agent_id ≢ 0) where
  supersede-ok :
      (l w : Ident) (reason : Text) (db : Db)
      → (supersede e l w reason scope db).0 ≡ ok (ltb 0 (unbeaten l scope db.facts))
  unfolding supersede
  supersede-ok l w reason db = ground arith

  pub supersede-facts :
      (l w : Ident) (reason : Text) (db : Db)
      → (supersede e l w reason scope db).1.facts
        ≡ update_where (is_live_target l scope) (supersede_row w (e.now db.ticks) reason) db.facts
  unfolding supersede
  supersede-facts l w reason db = ground arith

  beaten :
      (l w : Ident) (reason : Text) (db : Db)
      → unbeaten l scope (supersede e l w reason scope db).1.facts ≡ 0
  beaten l w reason db = rw supersede-facts (
      row_count-update_where (is_live_target l scope) (is_live_target l scope)
        (supersede_row w (e.now db.ticks) reason) db.facts (λ m k. k) (λ m k. ground arith))

  still_beaten :
      (i l w : Ident) (reason : Text) (db : Db)
      → unbeaten i scope db.facts ≡ 0
      → unbeaten i scope (supersede e l w reason scope db).1.facts ≡ 0
  still_beaten i l w reason db k =
      rw supersede-facts (unbeaten-update_where i l w (e.now db.ticks) reason scope db.facts k)

  same_tombstones :
      (l w : Ident) (reason : Text) (db : Db)
      → map (λ m. m.deleted_at) (supersede e l w reason scope db).1.facts
        ≡ map (λ m. m.deleted_at) db.facts
  same_tombstones l w reason db = rw supersede-facts (
      map-update_where (λ m. m.deleted_at) (is_live_target l scope)
        (supersede_row w (e.now db.ticks) reason) (λ m. refl) db.facts)

  -- a decision that the loop applies, and one that it passes over
  pub apply-taken :
      (d : SupersedeDecision) (ds : List SupersedeDecision) (db : Db)
      → is_acceptable candidates d ≡ true
      → unbeaten d.loser_id scope db.facts ≢ 0
      → let rest =
          apply_decisions e candidates scope ds
            (supersede e d.loser_id d.winner_id d.reason scope db).1 in
        apply_decisions e candidates scope (d ∷ ds) db ≡ (d ∷ rest.0, rest.1)
  unfolding apply_decisions
  apply-taken d ds db a k = ground (arith, supersede-ok d.loser_id d.winner_id d.reason db)

  apply-missed :
      (d : SupersedeDecision) (ds : List SupersedeDecision) (db : Db)
      → is_acceptable candidates d ≡ true
      → unbeaten d.loser_id scope db.facts ≡ 0
      → apply_decisions e candidates scope (d ∷ ds) db
        ≡ apply_decisions e candidates scope ds
            (supersede e d.loser_id d.winner_id d.reason scope db).1
  unfolding apply_decisions
  apply-missed d ds db a k = ground (arith, supersede-ok d.loser_id d.winner_id d.reason db)

  apply-refused :
      (d : SupersedeDecision) (ds : List SupersedeDecision) (db : Db)
      → is_acceptable candidates d ≡ false
      → apply_decisions e candidates scope (d ∷ ds) db ≡ apply_decisions e candidates scope ds db
  unfolding apply_decisions
  apply-refused d ds db a = ground arith

  -- On an id with no unbeaten row nothing is applied, and no unbeaten row appears.
  apply-beaten :
      (i : Ident) (ds : List SupersedeDecision) (db : Db)
      → unbeaten i scope db.facts ≡ 0
      → let step = apply_decisions e candidates scope ds db in
        (row_count (is_on i) step.0 ≡ 0) × (unbeaten i scope step.1.facts ≡ 0)
  unfolding row_count
  apply-beaten i [] db k = unfold apply_decisions in (refl, k)
  apply-beaten i (d ∷ ds) db k =
      let next = (supersede e d.loser_id d.winner_id d.reason scope db).1 in
      let ih = apply-beaten i ds next (still_beaten i d.loser_id d.winner_id d.reason db k) in
      elim (Bool-cases (is_acceptable candidates d)) [
        | inr a ↦ rw (apply-refused d ds db a) (apply-beaten i ds db k)
        | inl a ↦ elim (Bool-cases (unbeaten d.loser_id scope db.facts == 0)) [
          | inl z ↦ rw (apply-missed d ds db a (ground arith)) ih
          | inr z ↦ rw (apply-taken d ds db a (ground arith)) (elim (Bool-cases (is_on i d)) [
            | inl f ↦ ground arith
            | inr f ↦ (ground (arith, ih.0), ih.1)
          ])
        ]
      ]

  -- No two applied decisions are on one loser, each has passed the guards, and no applied loser
  -- keeps an unbeaten row.
  pub apply_lem :
      (ds : List SupersedeDecision) (db : Db)
      → let step = apply_decisions e candidates scope ds db in
        All (λ d. is_acceptable candidates d ≡ true) step.0
        × All (λ d. unbeaten d.loser_id scope step.1.facts ≡ 0) step.0
        × IsEachOnce step.0
        × (map (λ m. m.deleted_at) step.1.facts ≡ map (λ m. m.deleted_at) db.facts)
  apply_lem [] db = unfold apply_decisions in (tt, tt, tt, refl)
  apply_lem (d ∷ ds) db =
      let next = (supersede e d.loser_id d.winner_id d.reason scope db).1 in
      let ih = apply_lem ds next in
      elim (Bool-cases (is_acceptable candidates d)) [
        | inr a ↦ rw (apply-refused d ds db a) (apply_lem ds db)
        | inl a ↦ elim (Bool-cases (unbeaten d.loser_id scope db.facts == 0)) [
          | inl z ↦
              rw (apply-missed d ds db a (ground arith))
                (ih.0, ih.1, ih.2, ih.3 ∙ same_tombstones d.loser_id d.winner_id d.reason db)
          | inr z ↦
              let gone =
                apply-beaten d.loser_id ds next (beaten d.loser_id d.winner_id d.reason db) in
              rw (apply-taken d ds db a (ground arith)) (
                (a, ih.0),
                (gone.1, ih.1),
                (gone.0, ih.2),
                ih.3 ∙ same_tombstones d.loser_id d.winner_id d.reason db,
              )
        ]
      ]

  -- For facts and a scope with an agent, a `reconcile` whose listing of the candidates succeeds
  -- returns, whether the reconciler answers or raises. Every decision that it reports has a winner
  -- other than its loser and among the candidates, no two are on one loser, and no reported loser
  -- has a live row of the scope left that nothing supersedes. No tombstone is set or cleared.
  pub reconcile_lem :
      (reconciler : List Memory → Option (List SupersedeDecision)) (memory_type : MemoryType)
      (limit : ℕ) (db : Db)
      → is_facts memory_type ≡ true
      → list_all e semantic_facts scope (min limit 1000) 0 false 0 none db ≡ ok candidates
      → let db' = (reconcile e reconciler memory_type scope limit db).1 in
        (applied : List SupersedeDecision) × ((reconcile e reconciler memory_type scope limit db).0
          ≡ ok applied)
        × All (λ d. is_acceptable candidates d ≡ true) applied
        × All (λ d. unbeaten d.loser_id scope db'.facts ≡ 0) applied
        × IsEachOnce applied
        × (map (λ m. m.deleted_at) db'.facts ≡ map (λ m. m.deleted_at) db.facts)
  unfolding reconcile
  reconcile_lem reconciler memory_type limit db f k = elim (Option-cases (reconciler candidates)) [
    | inl n ↦ rw (f, k, n, reconcile) ([], refl, tt, tt, tt, refl)
    | inr (ds, n) ↦
        let step = apply_decisions e candidates scope ds db in
        let (guarded, lost, once, same) = apply_lem ds db in
        rw (f, k, n, reconcile) (step.0, refl, guarded, lost, once, same)
  ]
