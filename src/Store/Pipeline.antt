-- ===== src/Store/Pipeline.antt =====
-- What a store of src/agent_memory_sdk/store.py is configured with for `remember`, and the inspection of
-- a record before it is written: `_candidate_embedding`, `_run_integrity_guard` and the search for
-- similar records in `_resolve_and_act`.
use yaadien.Prelude.{ℕ, Bool, true, false, Option, none, some, List, [], ◌∷◌, map}
use yaadien.Model.{
  Ident, Text, Double, Vector, Result, ok, err, integrity_rejection, MemoryScope, MemoryOrigin,
  Memory,
}
use yaadien.Db.{TableName, procedural_memory, Db, Env}
use yaadien.Repository.Search.Chunked.{search, default_request, found_or_none}
use yaadien.Repository.{Repository}
use yaadien.Store.Throttle.{Key}

pub data IngestAction : Type 0 where
  add update_target delete_target noop : IngestAction

pub record IngestDecision : Type 0 where
  pub action : IngestAction
  pub target_id : Option Ident

pub data IntegrityDecision : Type 0 where
  accept quarantine reject : IntegrityDecision

-- What a store is configured with. A callback gives `none` where it raises; a resolver or a guard
-- that is `none` itself is the no-op one. `settings` is what all five repositories share, `distance`
-- the cosine distance.
pub record Pipeline : Type 0 where
  pub settings : Repository
  pub distance : Vector → Vector → Double
  pub resolver : Option (Memory → List (Memory × Double) → Option IngestDecision)
  pub resolver_k : ℕ
  pub guard : Option (Memory → MemoryOrigin → List Memory → Option IntegrityDecision)
  pub integrity_k : ℕ
  pub consolidator : List Memory → Option (List (Option TableName × Memory))
  pub every_n : ℕ

-- the database, and the counters that the store keeps in memory
pub record StoreState : Type 0 where
  pub db : Db
  pub counters : List (Key × ℕ)

abbrev pub repository_of : Pipeline → TableName → Repository
repository_of p t = record (p.settings) { table = t }

-- the vector of a text by the provider of the store, empty without one or where it raises
abbrev pub provided : Pipeline → Text → Vector
provided p content = elim p.settings.embedding_provider [
  | none ↦ []
  | some f ↦ elim (f content) [ none ↦ [] | some v ↦ v ]
]

unfoldable pub candidate_embedding : Pipeline → Memory → Vector
candidate_embedding p m = elim m.embedding [ [] ↦ provided p m.content | x ∷ v ↦ x ∷ v ]

-- the rows that the search of a repository finds, none where it raises
abbrev pub nearby : Env → Pipeline → TableName → Vector → MemoryScope → ℕ → Db → List Memory
unfolding search
nearby e p t v scope k db =
    found_or_none (search e (repository_of p t) (default_request v scope k none) none db)

-- The `context` of the guard. A failing provider or search leaves it empty; a search also runs on
-- an empty vector that the provider has returned.
unfoldable pub guard_context : Env → Pipeline → Memory → MemoryScope → Db → List Memory
unfolding search
guard_context e p m scope db = elim m.embedding [
  | x ∷ v ↦ nearby e p procedural_memory (x ∷ v) scope p.integrity_k db
  | [] ↦ elim p.settings.embedding_provider [
    | none ↦ []
    | some f ↦ elim (f m.content) [
      | none ↦ []
      | some v ↦ nearby e p procedural_memory v scope p.integrity_k db
    ]
  ]
]

abbrev pub is_procedural : TableName → Bool
is_procedural procedural_memory = true
is_procedural _ = false

-- The record that goes on to the write, or the rejection. Only procedural memories are inspected.
unfoldable pub run_integrity_guard :
    Env → Pipeline → TableName → Memory → MemoryScope → Db → Result Memory
unfolding guard_context
run_integrity_guard e p t m scope db = elim p.guard [
  | none ↦ ok m
  | some guard ↦ elim (is_procedural t) [
    | false ↦ ok m
    | true ↦ elim (guard m m.origin (guard_context e p m scope db)) [
      | none ↦ ok m
      | some accept ↦ ok m
      | some quarantine ↦ ok (record m { quarantined = true })
      | some reject ↦ err integrity_rejection
    ]
  ]
]

-- the neighbours of the candidate with their distances; a failing search finds none
unfoldable pub similar :
    Env → Pipeline → TableName → Memory → MemoryScope → Db → List (Memory × Double)
unfolding candidate_embedding search
similar e p t m scope db = elim (candidate_embedding p m) [
  | [] ↦ []
  | x ∷ v ↦
      map (λ n. (n, p.distance (x ∷ v) n.embedding)) (nearby e p t (x ∷ v) scope p.resolver_k db)
]
