-- ===== src/Migrator/Validate/Complete.antt =====
-- When `validate` accepts a schema.
use yaadien.Prelude.{
  ◌≡◌, ◌↔◌, refl, Bool, true, not, List, [], ◌∷◌, ◌++◌, map, arith, All, Bool-cases, inl, inr,
}
use yaadien.Prelude.Table.{select}
use yaadien.Model.{Text, ok}
use yaadien.Migrator.Validate.{
  Required, Catalog, Missing, is_member, has_object, missing_tables, is_present, missing_objects,
  missing, verdict, validate, missing_column, missing_index, missing_table,
}

-- every required object of every table that is required and there
abbrev pub HasObjects : (Text → Bool) → List (Text × Text) → List (Text × List Text) → Type 0
HasObjects present existing =
    All (λ entry. present entry.0 ≡ true → All (λ c. has_object entry.0 c existing ≡ true) entry.1)

pub record IsComplete (req : Required) (cat : Catalog) : Type 0 where
  pub tables : All (λ t. is_member t cat.tables ≡ true) req.tables
  pub columns : HasObjects (is_present req cat) cat.columns req.columns
  pub indexes : HasObjects (is_present req cat) cat.indexes req.indexes

-- Nothing is reported exactly if every name passes the test.
module _ (report : Text → Missing) (p : Text → Bool) where
  none_reported :
      (l : List Text) → (map report (select (λ c. not (p c)) l) ≡ []) ↔ All (λ c. p c ≡ true) l
  unfolding select
  none_reported [] = (λ h. tt, λ h. refl)
  none_reported (c ∷ l) = elim (Bool-cases (p c)) [
    | inl e ↦ rw e (λ h. (refl, (none_reported l).0 h), λ h. (none_reported l).1 h.1)
    | inr e ↦ rw e (λ h. absurd (ground (arith, h)), λ h. absurd (ground (arith, h)))
  ]

append-nil_iff : (l m : List Missing) → (l ++ m ≡ []) ↔ ((l ≡ []) × (m ≡ []))
append-nil_iff [] m = (λ h. (refl, h), λ h. h.1)
append-nil_iff (x ∷ l) m = (λ h. absurd (ground (arith, h)), λ h. absurd (ground (arith, h)))

module _ (report : Text → Text → Missing) (present : Text → Bool)
    (existing : List (Text × Text)) where
  no_missing_objects :
      (l : List (Text × List Text))
      → (missing_objects report present existing l ≡ []) ↔ HasObjects present existing l
  unfolding missing_objects
  no_missing_objects [] = (λ h. tt, λ h. refl)
  no_missing_objects ((t, names) ∷ l) =
      let later = no_missing_objects l in
      let here = none_reported (report t) (λ c. has_object t c existing) names in
      let both =
        append-nil_iff (map (report t) (select (λ c. not (has_object t c existing)) names))
          (missing_objects report present existing l) in
      elim (Bool-cases (present t)) [
        | inl e ↦ rw e (
          (λ h. (λ q. here.0 (both.0 h).0, later.0 (both.0 h).1)),
          (λ h. both.1 (here.1 (h.0 refl), later.1 h.1)),
        )
        | inr e ↦ rw e ((λ h. (λ q. absurd (ground (arith, q)), later.0 h)), (λ h. later.1 h.1))
      ]

verdict_iff : (l : List Missing) → (verdict l ≡ ok tt) ↔ (l ≡ [])
verdict_iff [] = (λ h. refl, λ h. refl)
verdict_iff (x ∷ l) = (λ h. absurd (ground (arith, h)), λ h. absurd (ground (arith, h)))

-- `validate` accepts a schema exactly if every required table exists and each of these has the columns
-- and the indexes that are required of it; otherwise it raises.
pub validate_iff :
    (req : Required) (cat : Catalog) → (validate req cat ≡ ok tt) ↔ IsComplete req cat
unfolding validate missing missing_tables
validate_iff req cat =
    let accepted = verdict_iff (missing req cat) in
    let tables = none_reported missing_table (λ t. is_member t cat.tables) req.tables in
    let present = is_present req cat in
    let columns = no_missing_objects missing_column present cat.columns req.columns in
    let indexes = no_missing_objects missing_index present cat.indexes req.indexes in
    let objects =
      append-nil_iff (missing_objects missing_column present cat.columns req.columns)
        (missing_objects missing_index present cat.indexes req.indexes) in
    let all = append-nil_iff (missing_tables req cat) (
      missing_objects missing_column present cat.columns req.columns
      ++ missing_objects missing_index present cat.indexes req.indexes) in
    (
      (λ h.
          let parts = all.0 (accepted.0 h) in
          let rest = objects.0 parts.1 in
          record {
            tables = tables.0 parts.0;
            columns = columns.0 rest.0;
            indexes = indexes.0 rest.1;
          }),
      (λ h.
          accepted.1
            (all.1 (tables.1 h.tables, objects.1 (columns.1 h.columns, indexes.1 h.indexes)))),
    )
