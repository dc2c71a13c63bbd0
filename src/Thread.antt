-- ===== src/Thread.antt =====
-- `Thread` of src/agent_memory_sdk/thread.py: the methods of a store with the scope of a thread, and
-- `create_thread` and `get_thread` of src/agent_memory_sdk/store.py.
use yaadien.Prelude.{ℕ, Bool, true, Option, some, List}
use yaadien.Model.{ℤ, Ident, Text, Result, MemoryScope, Memory}
use yaadien.Filter.{Filter}
use yaadien.Db.{Db, Env}
use yaadien.Store.{delete_message, delete_memory}
use yaadien.Store.Pipeline.{Pipeline, StoreState}
use yaadien.Store.Messages.{Summary, get_messages, get_summary}
use yaadien.Store.Context.{ContextCard, get_context_card}
use yaadien.Store.FanOut.{SearchResult, search_store}
use yaadien.Store.Entry.{Extractor, Message, add_messages, add_memory}

-- The store behind a thread: its callbacks, with the summarizer and the extractor of its settings.
record Backing : Type 0 where
  env : Env
  pipeline : Pipeline
  extractor : Option Extractor
  summarizer : Option (List Memory → Option (Option Text))

record Thread : Type 0 where
  store : Backing
  scope : MemoryScope

abbrev create_thread : Backing → Ident → Ident → Option Ident → Option Ident → Thread
create_thread store thread_id agent_id tenant_id user_id = record {
  store = store;
  scope = record {
    tenant_id = tenant_id;
    agent_id = agent_id;
    user_id = user_id;
    thread_id = some thread_id;
  };
}

-- No row is looked for: the handle is made as for a new thread.
abbrev get_thread : Backing → Ident → Ident → Option Ident → Option Ident → Thread
get_thread store thread_id agent_id tenant_id user_id = record {
  store = store;
  scope = record {
    tenant_id = tenant_id;
    agent_id = agent_id;
    user_id = user_id;
    thread_id = some thread_id;
  };
}

module _ (thread : Thread) where
  abbrev add_thread_messages : List Message → Bool → StoreState → Result (List Ident) × StoreState
  add_thread_messages messages extract_memories s =
      add_messages thread.store.env thread.store.pipeline thread.store.extractor messages
        thread.scope extract_memories s

  abbrev thread_messages : ℤ → Option ℤ → Db → Result (List Memory)
  thread_messages start end db = get_messages thread.store.env thread.scope start end db

  abbrev delete_thread_message : Ident → Db → Result ℕ × Db
  delete_thread_message message_id db = delete_message thread.store.env message_id thread.scope db

  abbrev add_thread_memory : Text → Option Ident → Text → StoreState → Result Ident × StoreState
  add_thread_memory content memory_id metadata s =
      add_memory thread.store.env thread.store.pipeline content thread.scope memory_id metadata s

  abbrev delete_thread_memory : Ident → Db → Result ℕ × Db
  delete_thread_memory memory_id db = delete_memory thread.store.env memory_id thread.scope db

  -- The two flags for exact matches keep their default, True.
  abbrev search_thread :
      Text → Option (List Text) → ℕ → Option Filter → Db → Result (List SearchResult)
  search_thread query record_types max_results metadata_filter db =
      search_store thread.store.env thread.store.pipeline query thread.scope record_types
        max_results metadata_filter true true db

  abbrev thread_summary : ℤ → Option ℤ → Db → Result Summary
  thread_summary except_last token_budget db =
      get_summary thread.store.env thread.scope except_last token_budget db

  abbrev thread_context_card :
      ℤ → Option Text → Bool → List (Text × ℤ) → ℤ → Db → Result ContextCard
  thread_context_card max_turns query include_long_term minima top_k db =
      get_context_card thread.store.env thread.store.pipeline thread.store.summarizer thread.scope
        max_turns query include_long_term minima top_k db
