-- ===== src/Repository/Listing/Visible.antt =====
-- The rows that a `list_all` without bounds goes through, the newest first, and what a `forget` leaves of
-- them.
use yaadien.Prelude.{
  ℕ, ◌≡◌, ◌≢◌, ◌≤◌, refl, ap, ◌∙◌, Bool, true, false, not, ◌&&◌, none, List, [], ◌∷◌, ◌+◌, ltb, All,
  arith, take, min, Bool-cases, inl, inr,
}
use yaadien.Prelude.Table.{select, row_count, update_where}
use yaadien.Model.{Ident, Memory, MemoryScope, ok}
use yaadien.Db.{TableName, Db, Env, rows}
use yaadien.Repository.{is_target, row_in_scope}
use yaadien.Repository.Lifecycle.{forget, tombstone}
use yaadien.Repository.Forgetting.{rows-forget}
use yaadien.Repository.Read.{is_listed, list_all}
use yaadien.Repository.Listing.{list_all-page}
use yaadien.Filter.{build_metadata_filter}
use yaadien.Repository.Write.{has_id}
use yaadien.Repository.History.Tables.{IsKeyed}
use yaadien.Repository.Isolation.Reads.{NeverExpires}
use yaadien.Repository.Listing.Times.{HasTimes, OrdersTimes, HasTimes-select, HasTimes-tombstone}
use yaadien.Repository.Search.Lookups.{row_count-select}
use yaadien.Repository.Search.Sound.{row_count-and, row_count-of_keyed}

-- What a stable ORDER BY does: it keeps the number of rows that pass any test, and the rows that
-- pass a test come in the order that they have among all.
pub record OrdersRows (e : Env) : Type 0 where
  pub counts :
      (q : Memory → Bool) (l : List Memory) → row_count q (e.newest_first l) ≡ row_count q l
  pub selects :
      (q : Memory → Bool) (l : List Memory)
      → e.newest_first (select q l) ≡ select q (e.newest_first l)

IsKeyed-of_counts : (l : List Memory) → ((i : Ident) → row_count (has_id i) l ≤ 1) → IsKeyed l
unfolding row_count
IsKeyed-of_counts [] h = tt
IsKeyed-of_counts (m ∷ l) h =
    (ground (arith, h m.id), IsKeyed-of_counts l (λ i. ground (arith, h i)))

-- An id that is not there selects all rows by its absence.
pub select-absent :
    (i : Ident) (l : List Memory)
    → row_count (has_id i) l ≡ 0
    → select (λ m. not (has_id i m)) l ≡ l
unfolding select row_count
select-absent i [] h = refl
select-absent i (m ∷ l) h = ground (arith, select-absent i l)

NeverExpires-tombstone :
    (p : Memory → Bool) (now : ℕ) (l : List Memory)
    → NeverExpires l
    → NeverExpires (update_where p (tombstone now) l)
unfolding update_where
NeverExpires-tombstone p now [] h = tt
NeverExpires-tombstone p now (m ∷ l) h = ground (arith, NeverExpires-tombstone p now l)

-- A row that is hit stops to pass the test, and has the mark; of the others those without the mark
-- pass.
record Marks (q q' p h : Memory → Bool) (f : Memory → Memory) (m : Memory) : Type 0 where
  hit : p m ≡ true → (q (f m) ≡ false) × (h m ≡ true)
  miss : p m ≡ false → q m ≡ (not (h m) && q' m)

select-marked :
    (q q' p h : Memory → Bool) (f : Memory → Memory) (l : List Memory)
    → All (Marks q q' p h f) l
    → select q (update_where p f l) ≡ select (λ m. not (h m)) (select q' l)
unfolding select update_where
select-marked q q' p h f [] marks = refl
select-marked q q' p h f (m ∷ l) marks =
    ground (arith, marks.0.hit, marks.0.miss, select-marked q q' p h f l marks.1)

ap2 : {A B C : Type 0} (f : A → B → C) {a a' : A} {b b' : B} → a ≡ a' → b ≡ b' → f a b ≡ f a' b'
ap2 f h k = rw (h, k) refl

module _ (e : Env) (t : TableName) (scope : MemoryScope) where
  abbrev pub is_visible : ℕ → Memory → Bool
  is_visible ticks = is_listed e t scope false 0 [] ticks

  abbrev pub visible : Db → List Memory
  visible db = e.newest_first (select (is_visible db.ticks) (rows t db))

  hidden_by_tombstone :
      (i : Ident) (now n : ℕ) (m : Memory)
      → is_target i scope m ≡ true
      → (is_visible n (tombstone now m) ≡ false) × (has_id i m ≡ true)
  hidden_by_tombstone i now n m h = (ground arith, ground arith)

  -- A row that is no target is visible unless it has the id.
  visible_if_no_target :
      (i : Ident) (n k : ℕ) (m : Memory)
      → m.expires_at ≡ none
      → is_target i scope m ≡ false
      → is_visible n m ≡ (not (has_id i m) && is_visible k m)
  visible_if_no_target i n k m fresh h = elim (Bool-cases (has_id i m)) [
    | inl same ↦ rw (same) (elim (Bool-cases (row_in_scope scope m)) [
      | inr outside ↦ rw outside refl
      | inl inside ↦ ground (arith, h, same, inside)
    ])
    | inr other ↦ rw (other, fresh) refl
  ]

  select-tombstone :
      (i : Ident) (now n k : ℕ) (l : List Memory)
      → NeverExpires l
      → select (is_visible n) (update_where (is_target i scope) (tombstone now) l)
        ≡ select (λ m. not (has_id i m)) (select (is_visible k) l)
  select-tombstone i now n k l fresh =
      select-marked (is_visible n) (is_visible k) (is_target i scope) (has_id i) (tombstone now) l
        (marks i now n k l fresh)
    where
      marks :
          (i : Ident) (now n k : ℕ) (l : List Memory)
          → NeverExpires l
          → All
              (Marks (is_visible n) (is_visible k) (is_target i scope) (has_id i) (tombstone now))
              l
      marks i now n k [] h = tt
      marks i now n k (m ∷ l) h = (
        record { hit = hidden_by_tombstone i now n m; miss = visible_if_no_target i n k m h.0 },
        marks i now n k l h.1,
      )

  module _ (agent : scope.agent_id ≢ 0) where
    ticks-forget : (i : Ident) (db : Db) → (forget e t i scope db).1.ticks ≡ db.ticks + 1
    unfolding forget
    ticks-forget i db = ground arith

    pub visible-forget :
        (i : Ident) (db : Db)
        → NeverExpires (rows t db)
        → let shown = select (is_visible db.ticks) (rows t db) in
          e.newest_first (select (λ m. not (has_id i m)) shown)
            ≡ select (λ m. not (has_id i m)) (e.newest_first shown)
          → visible (forget e t i scope db).1 ≡ select (λ m. not (has_id i m)) (visible db)
    visible-forget i db fresh same =
        ap2 (λ n l. e.newest_first (select (is_visible n) l)) (ticks-forget i db)
          (rows-forget e t i scope db agent)
        ∙ ap e.newest_first
            (select-tombstone i (e.now db.ticks) (db.ticks + 1) db.ticks (rows t db) fresh)
        ∙ same

    -- With the newest row forgotten, the rest is what is listed.
    pub forget_newest :
        (order : OrdersTimes e) (m : Memory) (l : List Memory) (db : Db)
        → NeverExpires (rows t db)
        → HasTimes (rows t db)
        → visible db ≡ m ∷ l
        → IsKeyed (m ∷ l)
        → visible (forget e t m.id scope db).1 ≡ l
    unfolding select
    forget_newest order m l db fresh times first keyed =
        let test = is_visible db.ticks in
        let timed = HasTimes-select test (rows t db) times in
        let same = order.selects (λ x. not (has_id m.id x)) (select test (rows t db)) timed in
        visible-forget m.id db fresh same
        ∙ ap (select (λ x. not (has_id m.id x))) first
        ∙ ground (arith, select-absent m.id l)

    pub forget-NeverExpires :
        (i : Ident) (db : Db)
        → NeverExpires (rows t db)
        → NeverExpires (rows t (forget e t i scope db).1)
    forget-NeverExpires i db fresh =
        rw (rows-forget e t i scope db agent)
          (NeverExpires-tombstone (is_target i scope) (e.now db.ticks) (rows t db) fresh)

    pub forget-HasTimes :
        (i : Ident) (db : Db) → HasTimes (rows t db) → HasTimes (rows t (forget e t i scope db).1)
    forget-HasTimes i db times =
        rw (rows-forget e t i scope db agent)
          (HasTimes-tombstone (is_target i scope) (e.now db.ticks) (rows t db) times)

    pub forget-ok : (i : Ident) (db : Db) → (b : Bool) × ((forget e t i scope db).0 ≡ ok b)
    unfolding forget
    forget-ok i db = (ltb 0 (row_count (is_target i scope) (rows t db)), ground arith)

    -- Distinct ids in the table are distinct in the listing.
    pub visible-IsKeyed :
        ((q : Memory → Bool) (l : List Memory) → row_count q (e.newest_first l) ≡ row_count q l)
        → (db : Db) → IsKeyed (rows t db)
        → IsKeyed (visible db)
    visible-IsKeyed counts db keyed = IsKeyed-of_counts (visible db) (λ i. omega (
      arith,
      counts (has_id i) (select (is_visible db.ticks) (rows t db)),
      row_count-select (has_id i) (is_visible db.ticks) (rows t db),
      row_count-and (has_id i) (is_visible db.ticks) (rows t db),
      row_count-of_keyed i (rows t db) keyed,
    ))

    pub list_all-visible :
        (n : ℕ) (db : Db)
        → list_all e t scope n 0 false 0 none db ≡ ok (take (min n 1000) (visible db))
    unfolding build_metadata_filter
    list_all-visible n db = list_all-page e t scope false 0 none [] db agent refl n 0
