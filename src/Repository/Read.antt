-- ===== src/Repository/Read.antt =====
-- `get_by_id` and `list_all` of src/agent_memory_sdk/repositories/base.py.
use yaadien.Prelude.{
  ℕ, Bool, true, false, ◌&&◌, Option, none, some, List, [], ◌∷◌, ltb, leb, min, is_none, take, drop,
}
use yaadien.Prelude.Table.{select, fetch_one}
use yaadien.Model.{Ident, Double, Text, Result, ok, MemoryScope, Memory, ◌>>=◌}
use yaadien.Scope.{require_agent_id}
use yaadien.Filter.{Filter, Predicate, build_metadata_filter}
use yaadien.Db.{TableName, Db, Env, rows}
use yaadien.Repository.{row_in_scope, is_target, not_superseded}

unfoldable pub get_by_id : TableName → Ident → MemoryScope → Db → Result (Option Memory)
unfolding require_agent_id
get_by_id t record_id scope db = do
  _ ← require_agent_id scope
  ok (fetch_one (select (is_target record_id scope) (rows t db)))

-- `expires_at IS NULL OR expires_at > …` at the server's time, unless expired rows are asked for
abbrev pub is_fresh : ℕ → Bool → Memory → Bool
is_fresh server_now true m = true
is_fresh server_now false m = elim m.expires_at [ none ↦ true | some t ↦ ltb server_now t ]

-- the parts of a metadata filter, ANDed
unfoldable pub holds_parts : Env → List Predicate → Text → Bool
holds_parts e [] text = true
holds_parts e (p ∷ ps) text = e.holds p text && holds_parts e ps text

-- The WHERE clause of `list_all`. `confidence >= 0` excludes no row, so the part is always there.
abbrev pub is_listed :
    Env → TableName → MemoryScope → Bool → Double → List Predicate → ℕ → Memory → Bool
is_listed e t scope include_expired min_confidence parts ticks m =
    row_in_scope scope m
    && is_none m.deleted_at
    && not_superseded t m
    && is_fresh (e.server_now ticks) include_expired m
    && leb min_confidence m.confidence
    && holds_parts e parts m.metadata

-- The page of a result, by `ROW_NUMBER` from the offset on: rows `offset` to `offset + limit`.
abbrev pub page : ℕ → ℕ → List Memory → List Memory
page limit offset l = take limit (drop offset l)

unfoldable pub list_all :
    Env
    → TableName
    → MemoryScope
    → ℕ
    → ℕ
    → Bool
    → Double
    → Option Filter
    → Db
    → Result (List Memory)
unfolding require_agent_id build_metadata_filter holds_parts
list_all e t scope limit offset include_expired min_confidence metadata_filter db = do
  _ ← require_agent_id scope
  parts ← build_metadata_filter metadata_filter
  let test = is_listed e t scope include_expired min_confidence parts db.ticks
  ok (page (min limit 1000) offset (e.newest_first (select test (rows t db))))
