-- ===== src/Migrator/Rerun.antt =====
-- What a run of the migrator has applied, and what a second run does.
use yaadien.Prelude.{
  Bool, ◌≡◌, ◌⊎◌, refl, ap, sym, ◌∙◌, true, false, Option, List, [], ◌∷◌, ◌++◌, map, arith,
  Bool-cases, inl, inr,
}
use yaadien.Prelude.Table.{select}
use yaadien.Model.{
  Result, Ident, Text, Error, Result-cases, ok, err, migration_error, statement_error, ◌>>=◌,
}
use yaadien.Migrator.{
  MigrationFile, Schema, Database, tracked, is_applied, pending_files, split_statements,
  run_statements, apply_file, after_file, apply_files, bootstrap, apply_pending, run, statuses,
  status,
}
use yaadien.Migrator.Executed.{
  versions, AllRun, Fails, Applies, Ends, Ends-later, left-ok, run_statements_lem,
}
use mathlib.Core.Path.{subst}
use mathlib.Core.List.{append_assoc, append-nil}

pub is_applied-append-left :
    (v : Ident) (l m : List Ident) → is_applied v l ≡ true → is_applied v (l ++ m) ≡ true
unfolding is_applied
is_applied-append-left v [] m h = ground arith
is_applied-append-left v (x ∷ l) m h = ground (arith, is_applied-append-left v l m)

is_applied-append-right :
    (v : Ident) (l m : List Ident) → is_applied v m ≡ true → is_applied v (l ++ m) ≡ true
unfolding is_applied
is_applied-append-right v [] m h = h
is_applied-append-right v (x ∷ l) m h = ground (arith, is_applied-append-right v l m h)

first : (v : Ident) (l : List Ident) → is_applied v (v ∷ l) ≡ true
unfolding is_applied
first v l = ground arith

later : (v w : Ident) (l : List Ident) → is_applied v l ≡ true → is_applied v (w ∷ l) ≡ true
unfolding is_applied
later v w l h = ground arith

-- Once the pending files of a list are applied, nothing of the list is pending.
none_pending :
    (applied more : List Ident) (files : List MigrationFile)
    → ((v : Ident)
        → is_applied v (versions (pending_files applied files)) ≡ true
        → is_applied v more ≡ true)
    → pending_files (applied ++ more) files ≡ []
unfolding pending_files select
none_pending applied more [] k = refl
none_pending applied more (f ∷ files) k = elim (Bool-cases (is_applied f.version applied)) [
  | inl old ↦
      rw (is_applied-append-left f.version applied more old)
        (none_pending applied more files (λ v h. k v (rw (old, pending_files, select) h)))
  | inr new ↦
      rw
        (is_applied-append-right f.version applied more
          (k f.version (rw (new, pending_files, select) (first f.version _))))
        (none_pending applied more files
          (λ v h. k v (rw (new, pending_files, select) (later v f.version _ h))))
]

pub pending-applied :
    (applied : List Ident) (f : MigrationFile) (files : List MigrationFile)
    → is_applied f.version applied ≡ true
    → pending_files applied (f ∷ files) ≡ pending_files applied files
unfolding pending_files select
pending-applied applied f files h = rw (h, select) refl

pub pending-new :
    (applied : List Ident) (f : MigrationFile) (files : List MigrationFile)
    → is_applied f.version applied ≡ false
    → pending_files applied (f ∷ files) ≡ f ∷ pending_files applied files
unfolding pending_files select
pending-new applied f files h = rw (h, select) refl

-- Where nothing is pending, all files have the status of applied ones.
statuses-none_pending :
    (applied : List Ident) (files : List MigrationFile)
    → pending_files applied files ≡ []
    → statuses applied files ≡ map (λ f. (f.version, true)) files
unfolding statuses
statuses-none_pending applied [] h = refl
statuses-none_pending applied (f ∷ files) h = elim (Bool-cases (is_applied f.version applied)) [
  | inl old ↦
      rw (old, statuses)
        (ap (λ l. (f.version, true) ∷ l)
          (statuses-none_pending applied files (sym (pending-applied applied f files old) ∙ h)))
  | inr new ↦
      let kept : f ∷ pending_files applied files ≡ [] = sym (pending-new applied f files new) ∙ h in
      absurd (ground (arith, kept))
]

module _ {S : Type 0} (exec : Text → S → Option S) (roll_back : S → S → S)
    (records : Ident → S → Bool) where
  -- A file whose statements all succeed and that is recorded, and one that fails.
  apply_file-cases :
      (f : MigrationFile) (db : Schema S)
      → ((s : S) × (apply_file exec roll_back records f db
            ≡ (ok tt, record { objects = s; applied = db.applied ++ f.version ∷ [] }))
          × AllRun exec (split_statements f.sql) db.objects s)
        ⊎ ((x : Error) × (s : S) × (apply_file exec roll_back records f db
              ≡ (err x, record { objects = s; applied = db.applied }))
            × Fails exec roll_back records f db.objects x s)
  unfolding apply_file
  apply_file-cases f db =
      let ran = run_statements exec roll_back records (split_statements f.sql) db.objects in
      let left = roll_back db.objects ran.1 in
      elim (run_statements_lem exec roll_back records (split_statements f.sql) db.objects) [
        | inr (h, stops) ↦
            inr (migration_error, left, rw (h, apply_file) refl, (ran.1, refl, inl (refl, stops)))
        | inl (h, all) ↦ elim (Bool-cases (records f.version ran.1)) [
          | inl k ↦ inl (ran.1, rw (h, k, apply_file) refl, all)
          | inr k ↦
              inr (
                statement_error,
                left,
                rw (h, k, apply_file) refl,
                (ran.1, refl, inr (refl, all, k)),
              )
        ]
      ]

  apply-good :
      (f : MigrationFile) (fs : List MigrationFile) (db next : Schema S)
      → apply_file exec roll_back records f db ≡ (ok tt, next)
      → apply_files exec roll_back records (f ∷ fs) db ≡ (
        (apply_files exec roll_back records fs next).0 >>= (λ vs. ok (f.version ∷ vs)),
        (apply_files exec roll_back records fs next).1,
      )
  unfolding apply_files
  apply-good f fs db next h =
      ap
        (λ step.
          after_file exec roll_back records f step (apply_files exec roll_back records fs step.1))
        h

  apply-bad :
      (f : MigrationFile) (fs : List MigrationFile) (db next : Schema S) (x : Error)
      → apply_file exec roll_back records f db ≡ (err x, next)
      → apply_files exec roll_back records (f ∷ fs) db ≡ (err x, next)
  unfolding apply_files
  apply-bad f fs db next x h =
      ap
        (λ step.
          after_file exec roll_back records f step (apply_files exec roll_back records fs step.1))
        h

  -- what a loop over pending files has done
  abbrev pub Progress : List MigrationFile → Schema S → Result (List Ident) × Schema S → Type 0
  Progress fs db out =
      (done left : List MigrationFile) × (t : S) × (done ++ left ≡ fs)
      × (out.1.applied ≡ db.applied ++ versions done)
      × Applies exec done db.objects t
      × Ends exec roll_back records done left t out

  -- The files that the loop gets through, and whether it stops before the end.
  apply_files_lem :
      (fs : List MigrationFile) (db : Schema S)
      → Progress fs db (apply_files exec roll_back records fs db)
  apply_files_lem [] db =
      unfold apply_files in
      ([], [], db.objects, refl, sym (append-nil db.applied), refl, (refl, refl))
  apply_files_lem (f ∷ fs) db = elim (apply_file-cases f db) [
    | inr (x, s, h, fails) ↦
        let next : Schema S = record { objects = s; applied = db.applied } in
        subst (Progress (f ∷ fs) db) (sym (apply-bad f fs db next x h))
          ([], f ∷ fs, db.objects, refl, sym (append-nil db.applied), refl, (x, refl, fails))
    | inl (s, h, all) ↦
        let next : Schema S = record { objects = s; applied = db.applied ++ f.version ∷ [] } in
        let (done, left, t, split, recorded, applies, end) = apply_files_lem fs next in
        subst (Progress (f ∷ fs) db) (sym (apply-good f fs db next h)) (
          f ∷ done,
          left,
          t,
          ap (λ l. f ∷ l) split,
          recorded ∙ append_assoc db.applied (f.version ∷ []) (versions done),
          (s, all, applies),
          Ends-later exec roll_back records f done left t
              (apply_files exec roll_back records fs next) end,
        )
  ]

  -- Behind the creation of the table, a run gets through a first part of the pending files in their
  -- order, all of whose statements succeed, and records the versions of these files and no others. It
  -- returns these versions if that is all of the pending files, and otherwise raises the error of the
  -- next one.
  pub apply_pending_lem :
      (files : List MigrationFile) (db : Schema S)
      → Progress (pending_files db.applied files) db (apply_pending exec roll_back records files db)
  unfolding apply_pending
  apply_pending_lem files db = apply_files_lem (pending_files db.applied files) db

  nothing_left :
      (files : List MigrationFile) (db : Schema S) {vs : List Ident}
      → (apply_pending exec roll_back records files db).0 ≡ ok vs
      → pending_files (apply_pending exec roll_back records files db).1.applied files ≡ []
  nothing_left files db {vs} h =
      let (done, left, t, split, recorded, applies, end) = apply_pending_lem files db in
      let out = apply_pending exec roll_back records files db in
      let whole : left ≡ [] = left-ok exec roll_back records done left t out {vs = vs} end h in
      let same : done ≡ pending_files db.applied files =
        sym (append-nil done) ∙ ap (λ l. done ++ l) (sym whole) ∙ split in
      rw (recorded, same)
        (none_pending db.applied (versions (pending_files db.applied files)) files (λ v k. k))

  pub run-bootstrapped :
      (files : List MigrationFile) (db : Database S) (schema : Schema S)
      → bootstrap exec roll_back records db ≡ ok schema
      → run exec roll_back records files db ≡ (
        (apply_pending exec roll_back records files schema).0,
        tracked (apply_pending exec roll_back records files schema).1,
      )
  unfolding run
  run-bootstrapped files db schema k = rw (k, run) refl

  run-not_bootstrapped :
      (files : List MigrationFile) (db : Database S) (x : Error)
      → bootstrap exec roll_back records db ≡ err x
      → run exec roll_back records files db ≡ (err x, db)
  unfolding run
  run-not_bootstrapped files db x k = rw (k, run) refl

  -- A run that returned has found or created the table, and left it with nothing pending.
  run-ok :
      (files : List MigrationFile) (db : Database S) {vs : List Ident}
      → (run exec roll_back records files db).0 ≡ ok vs
      → (schema : Schema S) × ((run exec roll_back records files db).1 ≡ tracked schema)
        × (pending_files schema.applied files ≡ [])
  run-ok files db {vs} h = elim (Result-cases (bootstrap exec roll_back records db)) [
    | inr (x, k) ↦
        let refused : err x ≡ ok vs = sym (ap (λ r. r.0) (run-not_bootstrapped files db x k)) ∙ h in
        absurd (ground (arith, refused))
    | inl (schema, k) ↦
        let same = run-bootstrapped files db schema k in
        (
          (apply_pending exec roll_back records files schema).1,
          ap (λ r. r.1) same,
          nothing_left files schema {vs = vs} (sym (ap (λ r. r.0) same) ∙ h),
        )
  ]

  -- After a `run` that has returned, another `run` on the same files applies nothing and changes
  -- nothing, and `status` reports every file as applied and changes nothing.
  pub run-run :
      (files : List MigrationFile) (db : Database S) {vs : List Ident}
      → (run exec roll_back records files db).0 ≡ ok vs
      → (run exec roll_back records files (run exec roll_back records files db).1
          ≡ (ok [], (run exec roll_back records files db).1))
        × (status exec roll_back records files (run exec roll_back records files db).1
            ≡ (map (λ f. (f.version, true)) files, (run exec roll_back records files db).1))
  run-run files db {vs} h =
      let (schema, end, none_left) = run-ok files db {vs = vs} h in
      rw end (
        (unfold run bootstrap apply_pending apply_files in rw none_left refl),
        (unfold status bootstrap in
            ap (λ l. (l, tracked schema)) (statuses-none_pending schema.applied files none_left)),
      )
