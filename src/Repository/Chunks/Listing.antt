-- ===== src/Repository/Chunks/Listing.antt =====
-- `list_all` and `list_all_for_scope` of src/agent_memory_sdk/repositories/chunks.py, and what the loop of
-- the second collects. No write comes between two pages.
use yaadien.Prelude.{
  ℕ, zero, suc, ◌+◌, ◌≤◌, ◌≡◌, ◌≢◌, List, [], ◌++◌, ltb, min, length, take, drop, arith,
  if◌then◌else◌,
}
use yaadien.Prelude.Table.{select, length-select-le}
use yaadien.Model.{Result, ok, MemoryScope, ◌>>=◌}
use yaadien.Scope.{require_agent_id}
use yaadien.Db.{Db, Env, Chunk}
use yaadien.Repository.Chunks.{chunk_in_scope}

-- `list_all`: the rows `offset` to `offset + limit` in the order of source and index
unfoldable pub list_chunks : Env → MemoryScope → ℕ → ℕ → Db → Result (List Chunk)
unfolding require_agent_id
list_chunks e scope limit offset db = do
  _ ← require_agent_id scope
  ok (
      take (min limit 1000)
        (drop offset (e.source_order (select (chunk_in_scope scope) db.chunks))))

-- `page_size`
abbrev pub page_size : ℕ
page_size = 1000

-- The `while True` loop from `offset`. The fuel bounds the rounds.
unfoldable pub collect_pages : ℕ → Env → MemoryScope → ℕ → Db → Result (List Chunk)
unfolding list_chunks
collect_pages zero e scope offset db = ok []
collect_pages (suc fuel) e scope offset db =
    let rest = collect_pages fuel e scope (offset + page_size) db in
    list_chunks e scope page_size offset db >>= λ page.
    (if ltb (length page) page_size then ok page else rest >>= λ more. ok (page ++ more))

-- The fuel is one round for each chunk, and one more.
unfoldable pub list_all_for_scope : Env → MemoryScope → Db → Result (List Chunk)
unfolding require_agent_id
list_all_for_scope e scope db = do
  _ ← require_agent_id scope
  collect_pages (suc (length db.chunks)) e scope 0 db

module _ (e : Env) (scope : MemoryScope) (db : Db) (h : scope.agent_id ≢ 0) where
  -- the chunks of a scope, in the order of a listing
  abbrev pub chunk_listing : List Chunk
  chunk_listing = e.source_order (select (chunk_in_scope scope) db.chunks)

  pub list_chunks-page :
      (limit offset : ℕ)
      → list_chunks e scope limit offset db ≡ ok (take (min limit 1000) (drop offset chunk_listing))
  unfolding list_chunks require_agent_id
  list_chunks-page limit offset = ground arith

  module _ (order : (l : List Chunk) → length (e.source_order l) ≡ length l) where
    pub length-chunk_listing : length chunk_listing ≤ length db.chunks
    length-chunk_listing = omega (
      arith,
      order (select (chunk_in_scope scope) db.chunks),
      length-select-le (chunk_in_scope scope) db.chunks,
    )
