-- ===== src/Tests/Pools.antt =====
-- A pool of two handles.
use yaadien.Prelude.{
  ℕ, ◌+◌, ◌≡◌, ◌<◌, ◌≤◌, refl, true, false, Option, some, List, [], ◌∷◌, arith, length,
}
use yaadien.Model.{ok}
use yaadien.Pool.{
  Pool, Event, checks_out, checks_in, closes, checkout, checkin, new_pool, open_handles,
  after_events, is_held,
}
use yaadien.Pool.Conservation.{IsBalanced, occurrences, after_events_lem, checkout_lem}

abbrev connect : ℕ → Option ℕ
connect n = some (n + 70)

abbrev two_handles : Pool
two_handles = record { size = 2; idle = 70 ∷ 71 ∷ []; held = []; shut = []; closed = false }

abbrev events : List Event
events =
    checks_out ∷ checks_out ∷ checks_out ∷ checks_in 70 ∷ checks_out ∷ checks_in 71 ∷ closes ∷ []

after_events_lem_example :
    IsBalanced (after_events events two_handles)
    × (2 ≤ 20)
    × ((h : ℕ) → occurrences h (after_events events two_handles) ≡ occurrences h two_handles)
unfolding new_pool open_handles
after_events_lem_example = after_events_lem connect 2 events refl

checkout_lem_example :
    (two_handles.closed ≡ false
      → length two_handles.held < two_handles.size
      → (h : ℕ) × ((checkout two_handles).0 ≡ ok h)
        × (is_held h (checkout two_handles).1.held ≡ true))
    × (is_held 70 two_handles.held ≡ true → (checkin 70 two_handles).0 ≡ true)
checkout_lem_example = checkout_lem two_handles 70 (omega arith, λ c. refl)
