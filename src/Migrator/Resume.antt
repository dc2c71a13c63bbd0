-- ===== src/Migrator/Resume.antt =====
-- Where a run of the migrator stops, and where the next one goes on.
use yaadien.Prelude.{
  Bool, ◌≡◌, refl, ap, sym, ◌∙◌, false, Option, List, [], ◌∷◌, ◌++◌, arith, Bool-cases, inl, inr,
}
use yaadien.Prelude.Table.{select}
use yaadien.Model.{Ident, Text, ok}
use yaadien.Migrator.{
  MigrationFile, Schema, Database, tracked, is_applied, pending_files, bootstrap, apply_pending,
  run,
}
use mathlib.Core.Path.{subst}
use yaadien.Migrator.Executed.{versions, Applies, Ends}
use yaadien.Migrator.Rerun.{
  is_applied-append-left, pending-applied, pending-new, apply_pending_lem, run-bootstrapped,
}

-- No two files have the same version, as no two files of a directory have the same name.
abbrev pub HasDistinctVersions : List MigrationFile → Type 0
HasDistinctVersions [] = Unit
HasDistinctVersions (f ∷ files) =
    (is_applied f.version (versions files) ≡ false) × HasDistinctVersions files

is_applied-append-other :
    (v : Ident) (l m : List Ident) → is_applied v l ≡ false → is_applied v (l ++ m) ≡ is_applied v m
unfolding is_applied
is_applied-append-other v [] m h = refl
is_applied-append-other v (x ∷ l) m h = ground (arith, is_applied-append-other v l m)

-- What is pending after two lists of versions is pending after the second of what is after the first.
pending-append :
    (a b : List Ident) (files : List MigrationFile)
    → pending_files (a ++ b) files ≡ pending_files b (pending_files a files)
unfolding pending_files select
pending-append a b [] = refl
pending-append a b (f ∷ files) = elim (Bool-cases (is_applied f.version a)) [
  | inl old ↦
      pending-applied (a ++ b) f files (is_applied-append-left f.version a b old)
      ∙ pending-append a b files
      ∙ ap (pending_files b) (sym (pending-applied a f files old))
  | inr new ↦ elim (Bool-cases (is_applied f.version b)) [
    | inl later ↦
        pending-applied (a ++ b) f files (is_applied-append-other f.version a b new ∙ later)
        ∙ pending-append a b files
        ∙ sym (pending-applied b f (pending_files a files) later)
        ∙ ap (pending_files b) (sym (pending-new a f files new))
    | inr never ↦
        pending-new (a ++ b) f files (is_applied-append-other f.version a b new ∙ never)
        ∙ ap (λ l. f ∷ l) (pending-append a b files)
        ∙ sym (pending-new b f (pending_files a files) never)
        ∙ ap (pending_files b) (sym (pending-new a f files new))
  ]
]

pending-none : (files : List MigrationFile) → pending_files [] files ≡ files
unfolding pending_files select is_applied
pending-none [] = refl
pending-none (f ∷ files) = ap (λ l. f ∷ l) (pending-none files)

-- A version that none of the files has leaves all of them pending.
pending-other :
    (v : Ident) (files : List MigrationFile)
    → is_applied v (versions files) ≡ false
    → pending_files (v ∷ []) files ≡ files
unfolding is_applied select
pending-other v [] h = unfold pending_files in refl
pending-other v (f ∷ files) h =
    pending-new (v ∷ []) f files (ground (arith, h))
    ∙ ap (λ l. f ∷ l) (pending-other v files (ground (arith, h)))

-- After the first of a list of files with distinct versions the others are pending.
pending-rest :
    (done left : List MigrationFile)
    → HasDistinctVersions (done ++ left)
    → pending_files (versions done) (done ++ left) ≡ left
pending-rest [] left h = pending-none left
pending-rest (f ∷ done) left h =
    pending-applied (f.version ∷ versions done) f (done ++ left) (unfold is_applied in ground arith)
    ∙ pending-append (f.version ∷ []) (versions done) (done ++ left)
    ∙ ap (pending_files (versions done)) (pending-other f.version (done ++ left) h.0)
    ∙ pending-rest done left h.1

absent-pending :
    (v : Ident) (a : List Ident) (files : List MigrationFile)
    → is_applied v (versions files) ≡ false
    → is_applied v (versions (pending_files a files)) ≡ false
unfolding is_applied select
absent-pending v a [] h = unfold pending_files in refl
absent-pending v a (f ∷ files) h =
    let rest = absent-pending v a files (ground (arith, h)) in
    elim (Bool-cases (is_applied f.version a)) [
      | inl old ↦ rw (pending-applied a f files old) rest
      | inr new ↦ rw (pending-new a f files new) (ground (arith, h, rest))
    ]

distinct-pending :
    (a : List Ident) (files : List MigrationFile)
    → HasDistinctVersions files
    → HasDistinctVersions (pending_files a files)
unfolding select
distinct-pending a [] h = unfold pending_files in tt
distinct-pending a (f ∷ files) h = elim (Bool-cases (is_applied f.version a)) [
  | inl old ↦ rw (pending-applied a f files old) (distinct-pending a files h.1)
  | inr new ↦
      rw (pending-new a f files new)
        (absent-pending f.version a files h.0, distinct-pending a files h.1)
]

module _ {S : Type 0} (exec : Text → S → Option S) (roll_back : S → S → S)
    (records : Ident → S → Bool) where
  -- On a directory, with a database whose table of versions is there or can be created, a `run` gets
  -- through a first part of the pending files in their order: all their statements have succeeded, one
  -- after the other, and their versions, and no others, are recorded behind the old ones, so that the
  -- next run has exactly the other files pending. If there are none, it returns the versions. If there
  -- are, the first of them has failed, and only what the roll back leaves of it is there: either one
  -- of its statements failed, those in front of it having succeeded, and `run` raises MigrationError,
  -- or its statements succeeded and its version was not recorded, and `run` raises that error.
  pub run_lem :
      (files : List MigrationFile) (db : Database S) (schema : Schema S)
      → HasDistinctVersions files
      → bootstrap exec roll_back records db ≡ ok schema
      → let result = (run exec roll_back records files db).0 in
        (done left : List MigrationFile) × (t : S) × (end : Schema S) × (done ++ left
          ≡ pending_files schema.applied files)
        × ((run exec roll_back records files db).1 ≡ tracked end)
        × (end.applied ≡ schema.applied ++ versions done)
        × (pending_files end.applied files ≡ left)
        × Applies exec done schema.objects t
        × Ends exec roll_back records done left t (result, end)
  run_lem files db schema distinct there =
      let (done, left, t, split, recorded, applies, ends) =
        apply_pending_lem exec roll_back records files schema in
      let same = run-bootstrapped exec roll_back records files db schema there in
      let out = apply_pending exec roll_back records files schema in
      let apart : HasDistinctVersions (done ++ left) =
        subst HasDistinctVersions (sym split) (distinct-pending schema.applied files distinct) in
      (
        done,
        left,
        t,
        out.1,
        split,
        ap (λ r. r.1) same,
        recorded,
        ap (λ l. pending_files l files) recorded
            ∙ pending-append schema.applied (versions done) files
            ∙ ap (pending_files (versions done)) (sym split)
            ∙ pending-rest done left apart,
        applies,
        subst (λ r. Ends exec roll_back records done left t (r, out.1)) (sym (ap (λ r. r.0) same))
            ends,
      )
