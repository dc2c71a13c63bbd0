-- ===== src/Store/Throttle.antt =====
-- `_should_consolidate` of src/agent_memory_sdk/store.py: the counters behind `consolidate_every_n`.
pub mod Cadence
use yaadien.Prelude.{
  ℕ, zero, suc, ◌+◌, ◌*◌, ◌≤◌, ◌<◌, ◌≡◌, refl, Bool, true, false, ◌&&◌, Option, none, some, List,
  [], ◌∷◌, arith, ◌==◌, leb, if◌then◌else◌, Bool-cases, inl, inr,
}
use yaadien.Prelude.Table.{row_count}
use yaadien.Model.{Ident, MemoryScope}

abbrev pub opt_eq : Option Ident → Option Ident → Bool
opt_eq none none = true
opt_eq (some a) (some b) = a == b
opt_eq _ _ = false

-- the key of a counter: the agent, the user and the thread
pub record Key : Type 0 where
  pub agent : Ident
  pub user : Option Ident
  pub thread : Option Ident

abbrev pub key_eq : Key → Key → Bool
key_eq a b = a.agent == b.agent && opt_eq a.user b.user && opt_eq a.thread b.thread

-- `counters.get(key, 0)`
unfoldable pub counter : Key → List (Key × ℕ) → ℕ
counter k [] = 0
counter k ((a, n) ∷ cs) = if key_eq a k then n else counter k cs

-- `counters[key] = n`
unfoldable pub set_counter : Key → ℕ → List (Key × ℕ) → List (Key × ℕ)
set_counter k n [] = (k, n) ∷ []
set_counter k n ((a, c) ∷ cs) = if key_eq a k then (a, n) ∷ cs else (a, c) ∷ set_counter k n cs

abbrev pub key_of : MemoryScope → Key
key_of scope = record { agent = scope.agent_id; user = scope.user_id; thread = scope.thread_id }

unfoldable pub should_consolidate : ℕ → MemoryScope → List (Key × ℕ) → Bool × List (Key × ℕ)
should_consolidate every_n scope counters =
    let key = key_of scope in
    let count = counter key counters + 1 in
    if every_n == 1
    then (true, counters)
    else (if leb every_n count
        then (true, set_counter key 0 (set_counter key count counters))
        else (false, set_counter key count counters))
