-- ===== src/Migrator/Executed.antt =====
-- What it means that statements and files were executed, in terms of the single statements.
use yaadien.Prelude.{
  ◌≡◌, ◌⊎◌, refl, ap, sym, Bool, true, false, Option, none, some, List, [], ◌∷◌, ◌++◌, Option-cases,
  inl, inr, map, arith,
}
use mathlib.Core.Path.{subst}
use yaadien.Model.{Ident, Text, Error, Result, ok, err, migration_error, statement_error, ◌>>=◌}
use yaadien.Migrator.{MigrationFile, Schema, split_statements, run_statements}

abbrev pub versions : List MigrationFile → List Ident
versions fs = map (λ f. f.version) fs

module _ {S : Type 0} (exec : Text → S → Option S) where
  -- Every statement has succeeded, in the order of the list, from the first state to the second.
  abbrev pub AllRun : List Text → S → S → Type 0
  AllRun [] s t = s ≡ t
  AllRun (q ∷ qs) s t = (s' : S) × (exec q s ≡ some s') × AllRun qs s' t

  -- The statements in front of one have succeeded, and that one has failed in the state reached.
  abbrev pub Stops : List Text → S → S → Type 0
  Stops qs s t =
      (before after : List Text) × (q : Text) × (before ++ q ∷ after ≡ qs)
      × AllRun before s t
      × (exec q t ≡ none)

  -- All statements of all files have succeeded.
  abbrev pub Applies : List MigrationFile → S → S → Type 0
  Applies [] s t = s ≡ t
  Applies (f ∷ fs) s t = (s' : S) × AllRun (split_statements f.sql) s s' × Applies fs s' t

  module _ (roll_back : S → S → S) (records : Ident → S → Bool) where
    -- how a run of statements ends
    abbrev pub IsRun : List Text → S → Bool × S → Type 0
    IsRun qs s ran = ((ran.0 ≡ true) × AllRun qs s ran.1) ⊎ ((ran.0 ≡ false) × Stops qs s ran.1)

    run_statements-some :
        (q : Text) (qs : List Text) (s s' : S)
        → exec q s ≡ some s'
        → run_statements exec roll_back records (q ∷ qs) s
          ≡ run_statements exec roll_back records qs s'
    unfolding run_statements
    run_statements-some q qs s s' h = rw (h, run_statements) refl

    run_statements-none :
        (q : Text) (qs : List Text) (s : S)
        → exec q s ≡ none
        → run_statements exec roll_back records (q ∷ qs) s ≡ (false, s)
    unfolding run_statements
    run_statements-none q qs s h = rw (h, run_statements) refl

    IsRun-later :
        (q : Text) (qs : List Text) (s s' : S) (ran : Bool × S)
        → exec q s ≡ some s'
        → IsRun qs s' ran
        → IsRun (q ∷ qs) s ran
    IsRun-later q qs s s' ran h (inl (good, all)) = inl (good, (s', h, all))
    IsRun-later q qs s s' ran h (inr (bad, (before, after, p, split, all, fails))) =
        inr (bad, (q ∷ before, after, p, ap (λ l. q ∷ l) split, (s', h, all), fails))

    pub run_statements_lem :
        (qs : List Text) (s : S) → IsRun qs s (run_statements exec roll_back records qs s)
    run_statements_lem [] s = unfold run_statements in inl (refl, refl)
    run_statements_lem (q ∷ qs) s = elim (Option-cases (exec q s)) [
      | inl h ↦
          subst (IsRun (q ∷ qs) s) (sym (run_statements-none q qs s h))
            (inr (refl, ([], qs, q, refl, refl, h)))
      | inr (s', h) ↦ subst (IsRun (q ∷ qs) s) (sym (run_statements-some q qs s s' h)) (
          IsRun-later q qs s s' (run_statements exec roll_back records qs s') h
            (run_statements_lem qs s'))
    ]

    -- A file fails in a state: at one of its statements, or all of them succeed and its version is
    -- not recorded. What was reached is rolled back.
    abbrev pub Fails : MigrationFile → S → Error → S → Type 0
    Fails f s x s' =
        (reached : S) × (s' ≡ roll_back s reached)
        × (((x ≡ migration_error) × Stops (split_statements f.sql) s reached)
            ⊎ ((x ≡ statement_error)
                × AllRun (split_statements f.sql) s reached
                × (records f.version reached ≡ false)))

    -- How a loop over files ends that has applied some and has the others left: it returns the
    -- versions if none is left, and raises the error of the first one left.
    abbrev pub Ends :
        List MigrationFile → List MigrationFile → S → Result (List Ident) × Schema S → Type 0
    Ends done [] s out = (out.0 ≡ ok (versions done)) × (out.1.objects ≡ s)
    Ends done (f ∷ fs) s out = (x : Error) × (out.0 ≡ err x) × Fails f s x out.1.objects

    pub Ends-later :
        (f : MigrationFile) (done left : List MigrationFile) (s : S)
        (rest : Result (List Ident) × Schema S)
        → Ends done left s rest
        → Ends (f ∷ done) left s (rest.0 >>= (λ vs. ok (f.version ∷ vs)), rest.1)
    Ends-later f done [] s rest (h, k) = (ap (λ r. r >>= (λ vs. ok (f.version ∷ vs))) h, k)
    Ends-later f done (g ∷ left) s rest (x, h, k) =
        (x, ap (λ r. r >>= (λ vs. ok (f.version ∷ vs))) h, k)

    -- A run that returned has no file left.
    pub left-ok :
        (done left : List MigrationFile) (s : S) (out : Result (List Ident) × Schema S)
        {vs : List Ident}
        → Ends done left s out
        → out.0 ≡ ok vs
        → left ≡ []
    left-ok done [] s out k h = refl
    left-ok done (f ∷ left) s out {vs} (x, e, k) h = absurd (ground (arith, e, h))
