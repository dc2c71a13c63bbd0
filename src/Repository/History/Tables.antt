-- ===== src/Repository/History/Tables.antt =====
-- Tables whose rows are well formed under distinct ids, through the SQL statements.
use yaadien.Prelude.{◌≤◌, ◌≡◌, refl, Bool, false, none, List, [], ◌∷◌, ◌++◌, arith, All, All-append}
use yaadien.Prelude.Table.{update_where, delete_where, row_count, row_count-append}
use yaadien.Model.{Ident, Memory}
use yaadien.Db.{TableName}
use yaadien.Repository.{has_supersession, has_consolidated_at}
use yaadien.Repository.Write.{has_id}

abbrev pub IsKeyed : List Memory → Type 0
IsKeyed [] = Unit
IsKeyed (m ∷ l) = (row_count (has_id m.id) l ≡ 0) × IsKeyed l

-- A row of table `t`: versions begin at 1, and only the tables that have the column carry a
-- supersession or a claim.
pub record IsRow (t : TableName) (m : Memory) : Type 0 where
  pub version : 1 ≤ m.version
  pub superseded : has_supersession t ≡ false → m.superseded_at ≡ none
  pub consolidated : has_consolidated_at t ≡ false → m.consolidated_at ≡ none

abbrev pub IsTable : TableName → List Memory → Type 0
IsTable t l = IsKeyed l × All (IsRow t) l

module _ (p : Memory → Bool) (f : Memory → Memory) (same : (m : Memory) → (f m).id ≡ m.id) where
  row_count-update_where_ids :
      (i : Ident) (l : List Memory)
      → row_count (has_id i) (update_where p f l) ≡ row_count (has_id i) l
  unfolding row_count update_where
  row_count-update_where_ids i [] = refl
  row_count-update_where_ids i (m ∷ l) = ground (arith, same m, row_count-update_where_ids i l)

  pub update_where-IsTable :
      (t : TableName) (l : List Memory)
      → ((m : Memory) → IsRow t m → IsRow t (f m))
      → IsTable t l
      → IsTable t (update_where p f l)
  unfolding update_where
  update_where-IsTable t [] keep h = h
  update_where-IsTable t (m ∷ l) keep h =
      ground
        (arith, same m, keep m, row_count-update_where_ids m.id l, update_where-IsTable t l keep)

row_count-delete_where_zero :
    (q p : Memory → Bool) (l : List Memory) → row_count q l ≡ 0 → row_count q (delete_where p l) ≡ 0
unfolding row_count delete_where
row_count-delete_where_zero q p [] h = refl
row_count-delete_where_zero q p (m ∷ l) h = ground (arith, row_count-delete_where_zero q p l)

pub delete_where-IsTable :
    (p : Memory → Bool) (t : TableName) (l : List Memory)
    → IsTable t l
    → IsTable t (delete_where p l)
unfolding delete_where
delete_where-IsTable p t [] h = h
delete_where-IsTable p t (m ∷ l) h =
    ground (arith, row_count-delete_where_zero (has_id m.id) p l, delete_where-IsTable p t l)

pub IsKeyed-append :
    (l : List Memory) (m : Memory)
    → IsKeyed l
    → row_count (has_id m.id) l ≡ 0
    → IsKeyed (l ++ m ∷ [])
unfolding row_count
IsKeyed-append [] m h k = ground arith
IsKeyed-append (x ∷ l) m h k =
    ground (arith, IsKeyed-append l m, row_count-append (has_id x.id) l (m ∷ []))

pub append-IsTable :
    (t : TableName) (l : List Memory) (m : Memory)
    → IsTable t l
    → IsRow t m
    → row_count (has_id m.id) l ≡ 0
    → IsTable t (l ++ m ∷ [])
append-IsTable t l m h k new =
    (IsKeyed-append l m h.0 new, All-append (IsRow t) l (m ∷ []) h.1 (k, tt))
