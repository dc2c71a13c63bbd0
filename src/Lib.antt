-- ===== src/Lib.antt =====
-- agent-memory-sdk: a Python library that keeps the memories of AI agents in IBM Db2.
--
-- A store holds five memory tables (working, episodic, facts, profiles, procedures) and a table of
-- text chunks. Each table has a repository; all repositories share the code of one base class, and
-- every call carries a scope (tenant, agent, user, thread) that becomes a WHERE clause. The store
-- is the facade: it forwards to repositories, erases over all tables, and applies the decisions of
-- a reconciler. This development models that core as functions on an explicit database state.
--
-- Files, and the code that they model (paths from the repository's root):
--   Model         src/agent_memory_sdk/models.py, exceptions.py: scopes, rows, errors as values
--   Scope         repositories/base.py: _require_agent_id, _scope_predicates
--   Filter        repositories/base.py: _escape_sql_string, _escape_sql_inner,
--                 _build_metadata_filter
--   ContentHash   repositories/base.py: _content_hash
--   Chunking      repositories/base.py: _split_chunks
--   Db            the six tables, and what comes from outside (Env)
--   Repository    repositories/base.py: BaseRepository. Read has get_by_id and list_all, Write has
--                 create and update, Lifecycle has forget, soft_delete, purge_expired, erase_all,
--                 _claim_consolidated, and supersede of repositories/facts.py; Chunks has
--                 repositories/chunks.py and _write_chunks
--   Repository/Search   search and _search_via_chunks of base.py, search_chunks of chunks.py
--   Repository/Batches  create_many of repositories/facts.py
--   Repository/Chunks/Listing  list_all and list_all_for_scope of chunks.py
--   Repository/View     the commands of one scope, and the map from ids to rows that they refine
--   Repository/History  sequences of write calls by any number of clients
--   Ranking       repositories/base.py: _keyword_tokens, _rrf_fuse
--   Store         store.py: forget, delete_message, delete_memory; Store/Erasure has purge_expired,
--                 erase_all, delete_user, delete_agent, delete_thread; Store/Reconcile has
--                 reconcile; Store/Throttle has _should_consolidate; Store/Ingest has remember,
--                 _resolve_and_act and _run_consolidator; Store/Pipeline has the callbacks,
--                 _candidate_embedding and _run_integrity_guard; Store/Export and Store/Import
--                 have export_scope and import_scope; Store/Messages has get_messages and
--                 get_summary; Store/Context has get_context_card and its helpers; Store/FanOut
--                 has search; Store/Entry has add_messages, add_memory, add_user, add_agent
--   Thread        thread.py: the methods of Thread, and create_thread and get_thread of store.py
--   Adapters      adapters/: McpServer has mcp_server.py, Langchain langchain.py, AgentFramework
--                 agent_framework.py, OpenaiAgents openai_agents.py; Json has the JSON values
--   Scripts       scripts/consolidate_pending.py and scripts/purge_expired.py
--   Pool          db/connection.py: ConnectionPool
--   Migrator      db/migrate.py: _split_statements, run and status of Migrator, and main;
--                 Migrator/Validate has validate and its manifest
--   Tests         a small database and the theorems applied to it
--   Prelude       shared names, Boolean tests, lists, texts, and the SQL statements on lists of rows
-- The remaining files hold proofs about the module that they stand under.
--
-- State. Db is a record of the six tables, lists of rows in insertion order, and a counter of the
-- readings of the clock and of the id generator. A method takes the database and returns a Result
-- (ok, or err with the exception) and the database that it leaves; what a failing call has already
-- written stays. One statement is one step: Db2 makes each statement atomic, and interleavings of
-- clients are sequences of calls.
--
-- Data. A string that is only compared is a code number, with 0 for the empty string; a string that
-- is taken apart is a list of code points. A float is a number of units of 2^-1074. Metadata is
-- the JSON text of its column. Integer arguments are natural numbers, so negative limits, sizes and
-- overlaps are not modelled, but for the arguments that the code tests for their sign and the bounds
-- of a slice. The confidence column is taken to be never NULL.
--
-- Parameters (Env). The clock, the server's clock, fresh ids, lower-casing, SHA-256, the order
-- ORDER BY created_at DESC, the evaluation of a metadata predicate by Db2, its ranking of rows and
-- chunks by vector distance, the order of a listing of chunks, the reciprocal and the sum of
-- floats, the float 1.0, and the item "role" of a metadata text. An embedding provider, a
-- reconciler, an integrity guard, an ingest resolver, a consolidator, an extractor and a summarizer
-- are functions that may fail. The cosine distance that remember hands to a resolver is a function. A
-- primary key that stands already makes an INSERT fail; apart from that, statements are taken to
-- succeed, and the pool to have a connection. An ORDER BY is one function of the rows in all
-- statements: rows with the same created_at come in one order each time, which Db2 does not promise,
-- so that what the model says of several pages read one after the other holds of the program only
-- where the sort keys differ.
--
-- Fuel. The loop of split_chunks has one round for each character and one more; each round moves on
-- by at least one character, and the rejoin theorem covers every text. An export has one round for
-- each row of a table and one more; a round that does not end it moves on by a batch of 500. The
-- listing of all chunks and create_many have one round for each row and one more too, and theorems
-- say that this is enough.
--
-- Pool. The events of the pool are single steps in the order of the queue operations; a thread that
-- waits for a handle while another one closes the pool is not modelled, nor that
-- ibm_db_dbi.Connection may raise behind the checkout.
--
-- Adapters. What a framework calls is a function; an async method runs without a pause. Python's json
-- module is a record of functions (Python), the constructors of langchain_core are one function that
-- may fail, and a message or a dict of arguments is a record of the items that are read; a message of
-- langchain_core has its name beside these.
--
-- Migrator. What a file that fails leaves behind is a parameter, since a database may commit such
-- statements by itself; the versions are kept apart from it. Whether the INSERT of a version succeeds
-- is a parameter too.
--
-- Not modelled: the JSON form of exported records, the validation by pydantic, the schemas of the MCP
-- tools, benchmarks, examples and the scripts that only pass arguments on.
pub mod Prelude
pub mod Model
pub mod Scope
pub mod Filter
pub mod Db
pub mod ContentHash
pub mod Chunking
pub mod Repository
pub mod Store
pub mod Tests
pub mod Pool
pub mod Migrator
pub mod Ranking
pub mod Thread
pub mod Adapters
pub mod Scripts
