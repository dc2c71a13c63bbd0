-- ===== src/Tests.antt =====
-- A small database for the tests: two agents, three users and two tenants.
pub mod Histories
pub mod Writes
pub mod Texts
pub mod Stores
pub mod Ingestion
pub mod Pools
pub mod Migrations
pub mod Searches
pub mod Transfers
pub mod Json
pub mod Sessions
pub mod Adapters
pub mod Scripts
use yaadien.Prelude.{ℕ, ◌+◌, ◌*◌, ◌-◌, true, false, Option, none, some, List, [], ◌∷◌, codes}
use yaadien.Model.{Ident, Text, Memory, MemoryScope, direct_write, ok}
use yaadien.ContentHash.{content_hash}
use yaadien.Db.{
  TableName, working_memory, episodic_memory, semantic_facts, entity_profiles, procedural_memory,
  Chunk, Db, Env,
}
use yaadien.Repository.{Repository}

abbrev pub digest : Text → ℕ
digest [] = 7
digest (c ∷ s) = c + 31 * digest s

abbrev pub env : Env
env = record {
  now = λ n. n + 100;
  server_now = λ n. n + 100;
  uuid = λ n. n + 1000;
  lower = λ t. t;
  sha256 = digest;
  newest_first = λ l. l;
  holds = λ p t. true;
  nearest = λ q l. ok l;
  nearest_chunks = λ q l. ok l;
  chunk_distance = λ q c. c.chunk_index;
  source_order = λ l. l;
  reciprocal = λ n. 1000 - n;
  add = λ x y. x + y;
  role = λ t. codes "user";
  one = 1;
}

abbrev pub scope_1 : MemoryScope
scope_1 = record { tenant_id = some 9; agent_id = 1; user_id = some 5; thread_id = none }

abbrev pub scope_2 : MemoryScope
scope_2 = record { tenant_id = none; agent_id = 2; user_id = none; thread_id = none }

abbrev pub agent_1 : MemoryScope
agent_1 = record { tenant_id = none; agent_id = 1; user_id = none; thread_id = none }

-- a row of agent 1, tenant 9, user 5
abbrev pub row : Ident → Text → Memory
row i content = record {
  id = i;
  tenant_id = some 9;
  agent_id = 1;
  user_id = some 5;
  thread_id = none;
  content = content;
  metadata = codes "{}";
  embedding = (false, 3) ∷ (true, 4) ∷ [];
  confidence = 1;
  content_hash = some i;
  created_at = 50;
  updated_at = 50;
  expires_at = none;
  version = 1;
  deleted_at = none;
  consolidated_at = none;
  origin = direct_write;
  quarantined = false;
  superseded_by = none;
  superseded_at = none;
  supersede_reason = none;
}

abbrev pub tea : Memory
tea = row 11 (codes "likes tea")

abbrev pub coffee : Memory
coffee = row 12 (codes "likes coffee")

abbrev pub foreign : Memory
foreign = record (row 13 (codes "likes milk")) { agent_id = 2; tenant_id = none }

abbrev pub chunk_of_tea : Chunk
chunk_of_tea = record {
  id = 900;
  source_table = semantic_facts;
  source_id = 11;
  chunk_index = 0;
  chunk_text = codes "likes";
  embedding = [];
  tenant_id = some 9;
  agent_id = 1;
  user_id = some 5;
  thread_id = none;
  created_at = 50;
}

abbrev pub db_1 : Db
db_1 = record {
  working = row 21 (codes "hello") ∷ [];
  episodic = row 31 (codes "met") ∷ [];
  facts = tea ∷ foreign ∷ coffee ∷ [];
  profiles = [];
  procedures = record (row 41 (codes "brew")) { deleted_at = some 60 } ∷ [];
  chunks = chunk_of_tea ∷ [];
  ticks = 0;
}

abbrev pub facts_repository : Repository
facts_repository = record {
  table = semantic_facts;
  chunk_repo = false;
  chunk_threshold = 512;
  chunk_size = 512;
  chunk_overlap = 64;
  embedding_dim = 2;
  embedding_provider = none;
}
