-- ===== src/Pool.antt =====
-- `ConnectionPool` of src/agent_memory_sdk/db/connection.py. A handle is a number; `connect` gives
-- the handle of the n-th `ibm_db.connect`, or `none` where that fails.
pub mod Conservation
use yaadien.Prelude.{
  ℕ, zero, suc, ◌+◌, Bool, true, false, ◌&&◌, Option, none, some, List, [], ◌∷◌, ◌++◌, ltb, leb,
  min, length, if◌then◌else◌, ◌==◌,
}
use yaadien.Model.{Result, ok, err, connection_error, pool_exhausted, ◌>>=◌}

-- `idle` is the queue; `held` are the handles inside a `with` block, `shut` those that `close` has
-- closed.
pub record Pool : Type 0 where
  pub size : ℕ
  pub idle : List ℕ
  pub held : List ℕ
  pub shut : List ℕ
  pub closed : Bool

-- The loop of `__init__` that opens the handles, from number `k` on.
unfoldable pub open_handles : (ℕ → Option ℕ) → ℕ → ℕ → Result (List ℕ)
open_handles connect k zero = ok []
open_handles connect k (suc n) =
    let rest = open_handles connect (k + 1) n in
    elim (connect k) [ none ↦ err connection_error | some h ↦ rest >>= λ l. ok (h ∷ l) ]

-- `__init__`: at most 20 connections
unfoldable pub new_pool : (ℕ → Option ℕ) → ℕ → Result Pool
unfolding open_handles
new_pool connect pool_size = open_handles connect 0 (min pool_size 20) >>= λ l.
    ok (record { size = min pool_size 20; idle = l; held = []; shut = []; closed = false })

-- `get_connection` up to its `yield`. An empty queue is one that stays empty for the timeout.
unfoldable pub checkout : Pool → Result ℕ × Pool
checkout p = elim p.closed [
  | true ↦ (err connection_error, p)
  | false ↦ elim p.idle [
    | [] ↦ (err pool_exhausted, p)
    | h ∷ l ↦ (ok h, record p { idle = l; held = h ∷ p.held })
  ]
]

-- `queue.Queue(maxsize)` is full; a bound of 0 is none
abbrev pub is_full : Pool → Bool
is_full p = ltb 0 p.size && leb p.size (length p.idle)

unfoldable pub is_held : ℕ → List ℕ → Bool
is_held h [] = false
is_held h (x ∷ l) = if x == h then true else is_held h l

unfoldable pub remove_one : ℕ → List ℕ → List ℕ
remove_one h [] = []
remove_one h (x ∷ l) = if x == h then l else x ∷ remove_one h l

-- The `finally` part of `get_connection`, however the block ended: whether `put_nowait` took the
-- handle back, and the pool. Only a block that holds the handle runs it.
unfoldable pub checkin : ℕ → Pool → Bool × Pool
unfolding remove_one is_held
checkin h p =
    if is_held h p.held
    then (if is_full p
        then (false, record p { held = remove_one h p.held })
        else (true, record p { idle = p.idle ++ h ∷ []; held = remove_one h p.held }))
    else (true, p)

-- `close`: the loop empties the queue
unfoldable pub close : Pool → Pool
close p = record p { idle = []; shut = p.shut ++ p.idle; closed = true }

-- The calls of the threads that share the pool, in the order of their queue operations.
pub data Event : Type 0 where
  checks_out closes : Event
  checks_in : ℕ → Event

unfoldable pub after_event : Event → Pool → Pool
unfolding checkout checkin close
after_event checks_out p = (checkout p).1
after_event (checks_in h) p = (checkin h p).1
after_event closes p = close p

unfoldable pub after_events : List Event → Pool → Pool
unfolding after_event
after_events [] p = p
after_events (v ∷ vs) p = after_events vs (after_event v p)
