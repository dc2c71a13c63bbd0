-- ===== src/Store/Entry/Profiles.antt =====
-- What `add_user` and `add_agent` do to a profile that is there.
use yaadien.Prelude.{
  ◌≡◌, ◌≢◌, ◌<◌, refl, ap, sym, ◌∙◌, Bool, true, false, none, some, List, [], ◌∷◌, if◌then◌else◌,
  ◌==◌, arith, Option-cases, inl, inr, All, take,
}
use yaadien.Prelude.Table.{select, row_count}
use yaadien.Model.{Ident, Text, Memory, MemoryScope, Result, ok, err}
use yaadien.Filter.{build_metadata_filter}
use yaadien.Db.{entity_profiles, Env, rows}
use yaadien.Repository.Write.{update, overwrite, is_current}
use yaadien.Repository.History.Tables.{IsKeyed}
use yaadien.Repository.Listing.{shown, listing, list_all-page, list_all_lem}
use yaadien.Repository.Search.Lookups.{row_count-select, row_count-take}
use yaadien.Repository.Search.Sound.{row_count-and}
use mathlib.Core.Path.{subst}
use yaadien.Repository.View.{lookup}
use yaadien.Repository.View.Rows.{lookup-overwrite, after_write, row_count-is_stale, is_stale}
use yaadien.Repository.View.Refinement.{update_eq}
use yaadien.Store.Pipeline.{Pipeline, StoreState, repository_of}
use yaadien.Store.Entry.{with_id, upsert_profile, newest_profile, user_scope, add_user}

abbrev rows_of : Result (List Memory) → List Memory
rows_of (ok l) = l
rows_of (err x) = []

abbrev id_of : Result Memory → Result Ident
id_of (ok m) = ok m.id
id_of (err x) = err x

id_of-with_id : (x : Result Memory) (s : StoreState) → (with_id (x, s)).0 ≡ id_of x
id_of-with_id (ok m) s = refl
id_of-with_id (err x) s = refl

state_of-with_id : (x : Result Memory) (s : StoreState) → (with_id (x, s)).1 ≡ s
state_of-with_id (ok m) s = refl
state_of-with_id (err x) s = refl

-- The first row of a page counts.
head_counts :
    (q : Memory → Bool) (m : Memory) (l rest : List Memory)
    → l ≡ m ∷ rest
    → q m ≡ true
    → 0 < row_count q l
unfolding row_count
head_counts q m l rest h k = rw h (ground (arith, k))

module _ (e : Env) (p : Pipeline) (scope : MemoryScope) (s : StoreState)
    (agent : scope.agent_id ≢ 0) (unchunked : p.settings.chunk_repo ≡ false)
    (order : (q : Memory → Bool) (l : List Memory) → row_count q (e.newest_first l) ≡ row_count q l)
    (keyed : IsKeyed s.db.profiles) where
  abbrev listed : List Memory
  unfolding build_metadata_filter
  listed = listing e entity_profiles scope false 0 none [] s.db agent refl

  -- the profile that the listing gives is current
  newest_current :
      (m : Memory) (l : List Memory)
      → newest_profile e scope s.db ≡ ok (m ∷ l)
      → 0 < row_count (is_current m scope) s.db.profiles
  unfolding build_metadata_filter
  newest_current m l h =
      let q = is_current m scope in
      let test = shown e entity_profiles scope false 0 none [] s.db agent refl in
      let (found, at, all_shown, size) =
        list_all_lem e entity_profiles scope false 0 none [] s.db agent refl order 1 0 in
      let first : found ≡ m ∷ l = ap rows_of (sym at ∙ h) in
      let paged : take 1 listed ≡ m ∷ l =
        ap rows_of
          (sym (list_all-page e entity_profiles scope false 0 none [] s.db agent refl 1 0) ∙ h) in
      let shown_first : All (λ x. test x ≡ true) (m ∷ l) =
        subst (All (λ x. test x ≡ true)) first all_shown in
      let current : q m ≡ true = ground (arith, shown_first.0) in
      omega (
        arith,
        head_counts q m (take 1 listed) l paged current,
        row_count-take q 1 listed,
        order q (select test s.db.profiles),
        row_count-select q test s.db.profiles,
        row_count-and q test s.db.profiles,
      )

  -- an update of a current row: its id comes back, and the lookup finds the new content
  update_current :
      (m : Memory) (text : Text)
      → 0 < row_count (is_current m scope) s.db.profiles
      → let step =
          update e (repository_of p entity_profiles) (record m { content = text }) scope s.db in
        (id_of step.0 ≡ ok m.id)
        × ((row : Memory) × (lookup scope (rows entity_profiles step.1) m.id ≡ some row)
            × (row.content ≡ text))
  update_current m text pos =
      let r = repository_of p entity_profiles in
      let new : Memory = record m { content = text } in
      let now = e.now s.db.ticks in
      let fresh : (row_count (is_current m scope) s.db.profiles == 0) ≡ false =
        ground (arith, pos) in
      let stale = row_count-is_stale scope m s.db.profiles keyed in
      elim (Option-cases (lookup scope s.db.profiles m.id)) [
        | inl h ↦ absurd (ground (arith, fresh, stale ∙ ap (is_stale scope m) h))
        | inr (row, h) ↦
            let same : (row.version == m.version) ≡ true =
              ground (arith, sym fresh ∙ stale ∙ ap (is_stale scope m) h) in
            let found_row : (if m.id == m.id
                  then after_write scope e r new now (lookup scope s.db.profiles m.id)
                  else lookup scope s.db.profiles m.id)
                ≡ some (overwrite e r new now row) =
              ground (arith, h, same) in
            let after = lookup-overwrite scope e r new now m.id s.db.profiles in
            rw (update_eq e r scope agent unchunked new s.db, fresh)
              (refl, (overwrite e r new now row, after ∙ found_row, refl))
      ]

  upsert_found :
      (m : Memory) (l : List Memory) (text : Text)
      → 0 < row_count (is_current m scope) s.db.profiles
      → let step = upsert_profile e p text scope (ok (m ∷ l)) s in
        (step.0 ≡ ok m.id)
        × ((row : Memory) × (lookup scope step.1.db.profiles m.id ≡ some row)
            × (row.content ≡ text))
  unfolding upsert_profile
  upsert_found m l text pos =
      let step =
        update e (repository_of p entity_profiles) (record m { content = text }) scope s.db in
      let done : StoreState = record s { db = step.1 } in
      let updated_row = update_current m text pos in
      let seen = updated_row.1 in
      (
        id_of-with_id step.0 done ∙ updated_row.0,
        (seen.0, rw (state_of-with_id step.0 done) seen.1, seen.2),
      )

-- If a user of the agent and the tenant has a live profile, `add_user` returns the id of the newest,
-- which then has the given text. It is assumed that the rows have
-- distinct ids, that ORDER BY keeps the number of rows that pass any test and that the store does
-- not chunk.
pub add_user_lem :
    (e : Env) (p : Pipeline) (user_id : Ident) (text : Text) (scope : MemoryScope) (s : StoreState)
    → scope.agent_id ≢ 0
    → p.settings.chunk_repo ≡ false
    → ((q : Memory → Bool) (l : List Memory) → row_count q (e.newest_first l) ≡ row_count q l)
    → IsKeyed s.db.profiles
    → (m : Memory) (l : List Memory) → newest_profile e (user_scope user_id scope) s.db ≡ ok (m ∷ l)
    → let step = add_user e p user_id text (some scope) s in
      (step.0 ≡ ok m.id)
      × ((row : Memory) × (lookup (user_scope user_id scope) step.1.db.profiles m.id ≡ some row)
          × (row.content ≡ text))
unfolding add_user
add_user_lem e p user_id text scope s agent unchunked order keyed m l h =
    let mine = user_scope user_id scope in
    rw h (
      upsert_found e p mine s agent unchunked order keyed m l text
        (newest_current e p mine s agent unchunked order keyed m l h))
