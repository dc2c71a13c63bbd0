-- ===== src/Store/Reconcile/Contradiction.antt =====
-- Two decisions that contradict each other, in one batch of `reconcile`.
use yaadien.Prelude.{ℕ, ◌≡◌, ◌≢◌, refl, ap, ◌∙◌, true, List, [], ◌∷◌, arith}
use yaadien.Prelude.Table.{row_count, update_where}
use yaadien.Model.{Ident, Text, Memory, MemoryScope}
use yaadien.Db.{Db, Env}
use yaadien.Repository.Lifecycle.{supersede, is_live_target, supersede_row}
use yaadien.Store.Reconcile.{SupersedeDecision, is_candidate, apply_decisions}
use yaadien.Store.Reconcile.Decisions.{unbeaten, apply-taken, apply_lem, supersede-facts}

-- Superseding one id leaves the rows of another one alone.
unbeaten-other :
    (i j w : Ident) (now : ℕ) (reason : Text) (scope : MemoryScope) (l : List Memory)
    → i ≢ j
    → unbeaten i scope (update_where (is_live_target j scope) (supersede_row w now reason) l)
      ≡ unbeaten i scope l
unfolding row_count update_where
unbeaten-other i j w now reason scope [] h = refl
unbeaten-other i j w now reason scope (m ∷ l) h =
    ground (arith, unbeaten-other i j w now reason scope l h)

abbrev pub beats : Ident → Ident → Text → SupersedeDecision
beats a b reason = record { winner_id = a; loser_id = b; reason = reason }

module _ (e : Env) (candidates : List Memory) (scope : MemoryScope) (h : scope.agent_id ≢ 0)
    (a b : Ident) (x y : Text) (db : Db) where
  none_follow :
      (d : Db)
      → (beats a b x ∷ beats b a y ∷ (apply_decisions e candidates scope [] d).0)
        ≡ beats a b x ∷ beats b a y ∷ []
  unfolding apply_decisions
  none_follow d = refl

  -- In a scope with an agent, if two different candidates each have a live row of the scope that nothing supersedes, and the
  -- batch is that the first beats the second and then that the second beats the first, the loop
  -- applies both decisions: afterwards neither has such a row left.
  pub apply_decisions_contradiction :
      a ≢ b
      → is_candidate a candidates ≡ true
      → is_candidate b candidates ≡ true
      → unbeaten a scope db.facts ≢ 0
      → unbeaten b scope db.facts ≢ 0
      → let step = apply_decisions e candidates scope (beats a b x ∷ beats b a y ∷ []) db in
        (step.0 ≡ beats a b x ∷ beats b a y ∷ [])
        × (unbeaten a scope step.1.facts ≡ 0)
        × (unbeaten b scope step.1.facts ≡ 0)
  apply_decisions_contradiction n ca cb ua ub =
      let batch : List SupersedeDecision = beats a b x ∷ beats b a y ∷ [] in
      let next : Db = (supersede e b a x scope db).1 in
      let still : unbeaten a scope next.facts ≢ 0 =
        rw
          (
            supersede-facts e candidates scope h b a x db,
            unbeaten-other a b a (e.now db.ticks) x scope db.facts n,
          )
          ua in
      let same : (apply_decisions e candidates scope batch db).0 ≡ batch =
        ap (λ step. step.0)
          (apply-taken e candidates scope h (beats a b x) (beats b a y ∷ []) db (ground arith) ub)
        ∙ ap (λ step. beats a b x ∷ step.0)
            (apply-taken e candidates scope h (beats b a y) [] next (ground arith) still)
        ∙ none_follow (supersede e a b y scope next).1 in
      let lost = (apply_lem e candidates scope h batch db).1 in
      let (lost_b, (lost_a, _)) = rw same at lost in (same, lost_a, lost_b)
