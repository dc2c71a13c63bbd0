-- ===== src/Store/Import/Mixed.antt =====
-- Streams that `import_scope` refuses.
use yaadien.Prelude.{
  ◌≡◌, refl, ap, Bool, false, ◌&&◌, none, some, List, [], ◌∷◌, ◌++◌, ◌==◌, arith, inl, inr,
}
use yaadien.Model.{Ident, Error, Result, Result-cases, err, scope_mismatch, MemoryScope}
use yaadien.Scope.{ScopeColumns}
use yaadien.Db.{Db, Env}
use yaadien.Store.Pipeline.{Pipeline}
use yaadien.Store.Import.{
  Raw, Counts, no_counts, same_column, check_columns, checked_import, import_round, import_all,
  import_scope, raw_columns, next_source,
}

-- a record of the agent `a` with the tenant, the user and the thread of the scope
abbrev pub belongs : MemoryScope → Ident → ScopeColumns → Bool
belongs scope a c =
    same_column c.tenant scope.tenant_id
    && same_column c.user scope.user_id
    && same_column c.thread scope.thread_id
    && c.agent == a

-- The call ends in an error.
abbrev pub Fails : {A : Type 0} → Result A × Db → Type 0
Fails step = (x : Error) × (step.0 ≡ err x)

module _ (e : Env) (p : Pipeline) (scope : MemoryScope) (a : Ident) (raw : Raw) (c : ScopeColumns)
    (read : raw_columns raw ≡ some c) (foreign : belongs scope a c ≡ false) where
  refused : check_columns scope (some a) c ≡ err scope_mismatch
  unfolding check_columns
  refused = ground (arith, foreign)

  import_all-Fails :
      (pre post : List Raw) (counts : Counts) (db : Db)
      → Fails (import_all e p (pre ++ raw ∷ post) scope (some a) counts db)
  unfolding import_all import_round checked_import
  import_all-Fails [] post counts db = (scope_mismatch, rw (import_all, read, refused) refl)
  import_all-Fails (r ∷ pre) post counts db =
      let step = checked_import e p r scope counts (raw_columns r) (some a) db in
      elim (Result-cases step.0) [
        | inl (n, q) ↦ rw (import_all, q) (import_all-Fails pre post n step.1)
        | inr (x, q) ↦ (x, rw (import_all, q) refl)
      ]

  -- A stream is refused if some record behind the first has another agent than the first, or another
  -- tenant, user or thread than the target scope, wherever it stands in the stream.
  pub import_scope-Fails :
      (first : Raw) (f : ScopeColumns) (pre post : List Raw) (db : Db)
      → raw_columns first ≡ some f
      → f.agent ≡ a
      → Fails (import_scope e p (first ∷ (pre ++ raw ∷ post)) scope db)
  unfolding import_scope import_all import_round
  import_scope-Fails first f pre post db h same =
      let step = checked_import e p first scope no_counts (raw_columns first) none db in
      let source : next_source none first ≡ some a = rw (next_source, h) (ap (λ i. some i) same) in
      elim (Result-cases step.0) [
        | inl (n, q) ↦ rw (import_all, q, source) (import_all-Fails pre post n step.1)
        | inr (x, q) ↦ (x, rw (import_all, q) refl)
      ]
