-- ===== src/Db.antt =====
-- The database that the repositories of src/agent_memory_sdk/repositories share, and what the SDK
-- takes from outside: clocks, fresh ids, hashing, and what Db2 computes for a statement.
use yaadien.Prelude.{ℕ, ◌+◌, ◌≡◌, refl, Bool, true, false, Option, List, arith}
use yaadien.Model.{Double, Ident, Text, Vector, Memory, Result}
use yaadien.Filter.{Predicate}

-- `_TABLE` of the five repositories
pub data TableName : Type 0 where
  working_memory episodic_memory semantic_facts entity_profiles procedural_memory : TableName

-- A row of `memory_chunks`.
pub record Chunk : Type 0 where
  pub id : Ident
  pub source_table : TableName
  pub source_id : Ident
  pub chunk_index : ℕ
  pub chunk_text : Text
  pub embedding : Vector
  pub tenant_id : Option Ident
  pub agent_id : Ident
  pub user_id : Option Ident
  pub thread_id : Option Ident
  pub created_at : ℕ

-- `ticks` counts the readings of the clock and of the id generator so far.
pub record Db : Type 0 where
  pub working : List Memory
  pub episodic : List Memory
  pub facts : List Memory
  pub profiles : List Memory
  pub procedures : List Memory
  pub chunks : List Chunk
  pub ticks : ℕ

abbrev pub rows : TableName → Db → List Memory
rows working_memory db = db.working
rows episodic_memory db = db.episodic
rows semantic_facts db = db.facts
rows entity_profiles db = db.profiles
rows procedural_memory db = db.procedures

abbrev pub set_rows : TableName → List Memory → Db → Db
set_rows working_memory l db = record db { working = l }
set_rows episodic_memory l db = record db { episodic = l }
set_rows semantic_facts l db = record db { facts = l }
set_rows entity_profiles l db = record db { profiles = l }
set_rows procedural_memory l db = record db { procedures = l }

abbrev pub tick : Db → Db
tick db = record db { ticks = db.ticks + 1 }

abbrev pub table_eq : TableName → TableName → Bool
table_eq working_memory working_memory = true
table_eq episodic_memory episodic_memory = true
table_eq semantic_facts semantic_facts = true
table_eq entity_profiles entity_profiles = true
table_eq procedural_memory procedural_memory = true
table_eq _ _ = false

-- `DistanceMetric` and `SearchMode`
pub data DistanceMetric : Type 0 where
  cosine euclidean dot manhattan : DistanceMetric

pub data SearchMode : Type 0 where
  exact approx default : SearchMode

-- what a statement ranks by; `approx` says that it ends in APPROX
pub record Query : Type 0 where
  pub vector : Vector
  pub metric : DistanceMetric
  pub approx : Bool

-- What is not code of the SDK. `now`, `server_now` and `uuid` give the value of the n-th reading;
-- `lower` and `sha256` are Python's; `newest_first` is `ORDER BY created_at DESC`; `holds` is the
-- evaluation of a metadata predicate on the metadata column. `nearest` and `nearest_chunks` are
-- `ORDER BY VECTOR_DISTANCE`, with the error where Db2 refuses the statement. A distance is only
-- compared and stands for its place in the order of the doubles. `source_order` orders chunks by
-- source and index. `reciprocal` and `add` are Python's `1.0 / n` and `+` on floats. `role` is
-- the item "role" of the metadata in an f-string, or `unknown`, and `one` is the float 1.0.
pub record Env : Type 0 where
  pub now : ℕ → ℕ
  pub server_now : ℕ → ℕ
  pub uuid : ℕ → Ident
  pub lower : Text → Text
  pub sha256 : Text → Ident
  pub newest_first : List Memory → List Memory
  pub holds : Predicate → Text → Bool
  pub nearest : Query → List Memory → Result (List Memory)
  pub nearest_chunks : Query → List Chunk → Result (List Chunk)
  pub chunk_distance : Query → Chunk → Double
  pub source_order : List Chunk → List Chunk
  pub reciprocal : ℕ → Double
  pub add : Double → Double → Double
  pub role : Text → Text
  pub one : Double

pub rows-set_rows_self : (t : TableName) (l : List Memory) (db : Db) → rows t (set_rows t l db) ≡ l
rows-set_rows_self working_memory l db = refl
rows-set_rows_self _ l db = refl

pub rows-tick : (t : TableName) (db : Db) → rows t (tick db) ≡ rows t db
rows-tick working_memory db = refl
rows-tick _ db = refl

pub rows-set_rows_ne :
    (t u : TableName) (l : List Memory) (db : Db)
    → table_eq t u ≡ false
    → rows u (set_rows t l db) ≡ rows u db
rows-set_rows_ne t u l db h = ground arith

pub chunks-set_rows :
    (t : TableName) (l : List Memory) (db : Db) → (set_rows t l db).chunks ≡ db.chunks
chunks-set_rows working_memory l db = refl
chunks-set_rows _ l db = refl
