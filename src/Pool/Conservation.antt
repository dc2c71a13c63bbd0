-- ===== src/Pool/Conservation.antt =====
-- No handle is lost, duplicated, or shared, whatever the threads do.
use yaadien.Prelude.{
  ℕ, zero, suc, ◌+◌, ◌≤◌, ◌<◌, ◌≡◌, ◌∙◌, refl, ◌⊎◌, true, false, Option, List, [], ◌∷◌, arith,
  length, length-append, ◌==◌, Bool-cases, Option-cases, min, inl, inr,
}
use yaadien.Prelude.Table.{row_count, row_count-append}
use yaadien.Model.{Result-cases, ok}
use yaadien.Pool.{
  Pool, new_pool, open_handles, checkout, checkin, close, is_full, is_held, remove_one, Event,
  checks_out, checks_in, closes, after_event, after_events,
}

-- how often a handle stands in a list
abbrev pub count : ℕ → List ℕ → ℕ
count h l = row_count (λ x. x == h) l

-- how often it stands in the pool
abbrev pub occurrences : ℕ → Pool → ℕ
occurrences h p = count h p.idle + count h p.held + count h p.shut

-- An open pool has as many handles as its size, idle or held; a closed one no more.
abbrev pub IsBalanced : Pool → Type 0
IsBalanced p =
    (length p.idle + length p.held ≤ p.size)
    × (p.closed ≡ false → length p.idle + length p.held ≡ p.size)

List-cases : (l : List ℕ) → (l ≡ []) ⊎ ((h : ℕ) × (t : List ℕ) × (l ≡ h ∷ t))
List-cases [] = inl refl
List-cases (h ∷ t) = inr (h, t, refl)

count-remove_one :
    (h i : ℕ) (l : List ℕ)
    → is_held i l ≡ true
    → count h (remove_one i l) + count h (i ∷ []) ≡ count h l
unfolding row_count remove_one is_held
count-remove_one h i [] k = ground arith
count-remove_one h i (x ∷ l) k = ground (arith, count-remove_one h i l)

length-remove_one :
    (i : ℕ) (l : List ℕ) → is_held i l ≡ true → length (remove_one i l) + 1 ≡ length l
unfolding remove_one is_held
length-remove_one i [] k = ground arith
length-remove_one i (x ∷ l) k = ground (arith, length-remove_one i l)

-- In a balanced pool there is room for a handle that comes back.
room : (i : ℕ) (p : Pool) → IsBalanced p → is_held i p.held ≡ true → is_full p ≡ false
room i p b k = ground (arith, length-remove_one i p.held k)

checkin-IsBalanced : (i : ℕ) (p : Pool) → IsBalanced p → IsBalanced (checkin i p).1
unfolding checkin
checkin-IsBalanced i p b = elim (Bool-cases (is_held i p.held)) [
  | inr n ↦ ground arith
  | inl y ↦
      ground (arith, room i p b y, length-remove_one i p.held y, length-append p.idle (i ∷ []))
]

after_event-IsBalanced : (v : Event) (p : Pool) → IsBalanced p → IsBalanced (after_event v p)
unfolding after_event checkout close
after_event-IsBalanced checks_out p b = ground arith
after_event-IsBalanced (checks_in i) p b = checkin-IsBalanced i p b
after_event-IsBalanced closes p b = ground arith

checkin-occurrences :
    (i : ℕ) (p : Pool) (h : ℕ) → IsBalanced p → occurrences h (checkin i p).1 ≡ occurrences h p
unfolding checkin
checkin-occurrences i p h b = elim (Bool-cases (is_held i p.held)) [
  | inr n ↦ ground arith
  | inl y ↦ ground (
    arith,
    room i p b y,
    count-remove_one h i p.held y,
    row_count-append (λ x. x == h) p.idle (i ∷ []),
  )
]

after_event-occurrences :
    (v : Event) (p : Pool) (h : ℕ)
    → IsBalanced p
    → occurrences h (after_event v p) ≡ occurrences h p
unfolding after_event checkout close row_count
after_event-occurrences checks_out p h b = ground arith
after_event-occurrences (checks_in i) p h b = checkin-occurrences i p h b
after_event-occurrences closes p h b = ground (arith, row_count-append (λ x. x == h) p.shut p.idle)

after_events-conserves :
    (vs : List Event) (p : Pool)
    → IsBalanced p
    → IsBalanced (after_events vs p)
      × ((h : ℕ) → occurrences h (after_events vs p) ≡ occurrences h p)
unfolding after_events
after_events-conserves [] p b = (b, λ h. refl)
after_events-conserves (v ∷ vs) p b =
    let (balanced, same) =
      after_events-conserves vs (after_event v p) (after_event-IsBalanced v p b) in
    (balanced, λ h. same h ∙ after_event-occurrences v p h b)

length-open_handles :
    (connect : ℕ → Option ℕ) (k n : ℕ) {l : List ℕ} → open_handles connect k n ≡ ok l → length l ≡ n
unfolding open_handles
length-open_handles connect k zero e = ground arith
length-open_handles connect k (suc n) {l} e = elim (Option-cases (connect k)) [
  | inl c ↦ ground arith
  | inr (h, c) ↦ elim (Result-cases (open_handles connect (k + 1) n)) [
    | inl (m, r) ↦ ground (arith, length-open_handles connect (k + 1) n {l = m} r)
    | inr (x, r) ↦ ground arith
  ]
]

-- A pool that has been made has at most 20 connections, and as many handles as its size.
new_pool-IsBalanced :
    (connect : ℕ → Option ℕ) (n : ℕ) {p : Pool}
    → new_pool connect n ≡ ok p
    → IsBalanced p × (p.size ≤ 20)
unfolding new_pool
new_pool-IsBalanced connect n {p} e = elim (Result-cases (open_handles connect 0 (min n 20))) [
  | inl (l, r) ↦ ground (arith, length-open_handles connect 0 (min n 20) {l = l} r)
  | inr (x, r) ↦ ground arith
]

-- Of a pool that has been made, whatever checkouts, checkins and closes the threads make and in
-- whatever order: every handle stands in it as often as at first, idle, held or closed, so no
-- handle is lost, and none that was opened once is with two threads; idle and held handles are
-- never more than the size, nor the size more than 20; and until a close they are as many as the
-- size.
pub after_events_lem :
    (connect : ℕ → Option ℕ) (n : ℕ) (vs : List Event) {p : Pool}
    → new_pool connect n ≡ ok p
    → IsBalanced (after_events vs p)
      × (p.size ≤ 20)
      × ((h : ℕ) → occurrences h (after_events vs p) ≡ occurrences h p)
after_events_lem connect n vs {p} e =
    let (balanced, small) = new_pool-IsBalanced connect n {p = p} e in
    let (kept, same) = after_events-conserves vs p balanced in (kept, small, same)

-- In a pool whose open handles are at most its size, and as many until it is closed, a checkout
-- succeeds unless the pool is closed or every handle is held, and a handle that is held always
-- finds room in the queue: `put_nowait` never raises.
pub checkout_lem :
    (p : Pool) (i : ℕ)
    → IsBalanced p
    → (p.closed ≡ false
        → length p.held < p.size
        → (h : ℕ) × ((checkout p).0 ≡ ok h) × (is_held h (checkout p).1.held ≡ true))
      × (is_held i p.held ≡ true → (checkin i p).0 ≡ true)
unfolding checkout checkin is_held
checkout_lem p i b = (
  λ o k. elim (List-cases p.idle) [
    | inl n ↦ absurd (ground arith)
    | inr (h, l, n) ↦ (h, ground arith, ground arith)
  ],
  λ k. ground (arith, room i p b k),
)
