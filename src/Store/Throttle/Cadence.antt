-- ===== src/Store/Throttle/Cadence.antt =====
-- The cadence of `_should_consolidate`: how often it fires for each key.
use yaadien.Prelude.{
  ℕ, ◌+◌, ◌*◌, ◌≤◌, ◌<◌, ◌≡◌, refl, Bool, true, false, ◌&&◌, Option, none, some, List, [], ◌∷◌,
  arith, if◌then◌else◌, Bool-cases, inl, inr,
}
use yaadien.Model.{Ident, MemoryScope}
use yaadien.Store.Throttle.{Key, key_eq, opt_eq, counter, set_counter, key_of, should_consolidate}

-- Calls in a row, by whatever scopes; each entry says whether the consolidator fires.
unfoldable pub throttle : ℕ → List MemoryScope → List (Key × ℕ) → List (Key × Bool) × List (Key × ℕ)
unfolding should_consolidate
throttle every_n [] counters = ([], counters)
throttle every_n (s ∷ ss) counters =
    let step = should_consolidate every_n s counters in
    let rest = throttle every_n ss step.1 in ((key_of s, step.0) ∷ rest.0, rest.1)

-- the calls with a key
unfoldable pub calls_of : Key → List MemoryScope → ℕ
calls_of k [] = 0
calls_of k (s ∷ ss) = (if key_eq (key_of s) k then 1 else 0) + calls_of k ss

-- the firings for a key
unfoldable pub fired_for : Key → List (Key × Bool) → ℕ
fired_for k [] = 0
fired_for k ((a, b) ∷ l) = (if key_eq a k && b then 1 else 0) + fired_for k l

opt_eq_sound : (a b : Option Ident) → opt_eq a b ≡ true → a ≡ b
opt_eq_sound none none h = refl
opt_eq_sound (some a) (some b) h = ground arith
opt_eq_sound none (some b) h = ground arith
opt_eq_sound (some a) none h = ground arith

key_eq_sound : (a b : Key) → key_eq a b ≡ true → a ≡ b
key_eq_sound a b h = ground (arith, opt_eq_sound a.user b.user, opt_eq_sound a.thread b.thread)

opt_eq_refl : (a : Option Ident) → opt_eq a a ≡ true
opt_eq_refl none = refl
opt_eq_refl (some a) = ground arith

key_eq_refl : (a : Key) → key_eq a a ≡ true
key_eq_refl a = ground (arith, opt_eq_refl a.user, opt_eq_refl a.thread)

counter-set_counter_self :
    (k : Key) (n : ℕ) (cs : List (Key × ℕ)) → counter k (set_counter k n cs) ≡ n
unfolding counter set_counter
counter-set_counter_self k n [] = ground (arith, key_eq_refl k)
counter-set_counter_self k n ((a, c) ∷ cs) = ground (arith, counter-set_counter_self k n cs)

counter-set_counter_ne :
    (j k : Key) (n : ℕ) (cs : List (Key × ℕ))
    → key_eq j k ≡ false
    → counter k (set_counter j n cs) ≡ counter k cs
unfolding counter set_counter
counter-set_counter_ne j k n [] h = ground arith
counter-set_counter_ne j k n ((a, c) ∷ cs) h = elim (Bool-cases (key_eq a j)) [
  | inl e ↦ rw (e, key_eq_sound a j e, h) refl
  | inr e ↦ elim (Bool-cases (key_eq a k)) [
    | inl f ↦ rw (e, f) refl
    | inr f ↦ rw (e, f) (counter-set_counter_ne j k n cs h)
  ]
]

one_call :
    (every_n : ℕ) (k : Key) (s : MemoryScope) (cs : List (Key × ℕ))
    → 2 ≤ every_n
    → counter k cs < every_n
    → let step = should_consolidate every_n s cs in
      let fires = key_eq (key_of s) k && step.0 in
      (counter k step.1 < every_n)
      × ((if fires then every_n else 0) + counter k step.1
          ≡ counter k cs + (if key_eq (key_of s) k then 1 else 0))
unfolding should_consolidate
one_call every_n k s cs h b = elim (Bool-cases (key_eq (key_of s) k)) [
  | inl e ↦ ground (
    arith,
    key_eq_sound (key_of s) k e,
    counter-set_counter_self (key_of s) (counter (key_of s) cs + 1) cs,
    counter-set_counter_self (key_of s) 0 (set_counter (key_of s) (counter (key_of s) cs + 1) cs),
  )
  | inr e ↦ ground (
    arith,
    counter-set_counter_ne (key_of s) k (counter (key_of s) cs + 1) cs e,
    counter-set_counter_ne (key_of s) k 0 (set_counter (key_of s) (counter (key_of s) cs + 1) cs) e,
  )
]

-- For every key of agent, user and thread whose counter is below the period, however the calls of
-- other keys fall between: with a period of two or more the consolidator has fired once for each
-- full period of the key's calls, counted from where its counter stood, and the remainder, less
-- than a period, is the counter.
pub throttle_cadence :
    (every_n : ℕ) (k : Key) (ss : List MemoryScope) (cs : List (Key × ℕ))
    → 2 ≤ every_n
    → counter k cs < every_n
    → let run = throttle every_n ss cs in
      (counter k run.1 < every_n)
      × (fired_for k run.0 * every_n + counter k run.1 ≡ counter k cs + calls_of k ss)
unfolding throttle fired_for calls_of
throttle_cadence every_n k [] cs h b = (b, omega arith)
throttle_cadence every_n k (s ∷ ss) cs h b =
    let one = one_call every_n k s cs h b in
    let rest = throttle_cadence every_n k ss (should_consolidate every_n s cs).1 h one.0 in
    (rest.0, ground (arith, one.1, rest.1))
