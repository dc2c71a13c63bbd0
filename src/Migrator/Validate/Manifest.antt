-- ===== src/Migrator/Validate/Manifest.antt =====
-- The schema that `validate` of src/agent_memory_sdk/db/migrate.py requires, each set in sorted order.
use yaadien.Prelude.{List, [], ◌∷◌, codes}
use yaadien.Model.{Text}
use yaadien.Migrator.Validate.{Required}

-- `_REQUIRED_TABLES`
abbrev pub required_tables : List Text
required_tables =
    codes "SCHEMA_MIGRATIONS"
    ∷ codes "WORKING_MEMORY"
    ∷ codes "EPISODIC_MEMORY"
    ∷ codes "SEMANTIC_FACTS"
    ∷ codes "ENTITY_PROFILES"
    ∷ codes "PROCEDURAL_MEMORY"
    ∷ codes "MEMORY_CHUNKS"
    ∷ []

-- `_REQUIRED_COLUMNS`
abbrev pub required_columns : List (Text × List Text)
required_columns =
    (codes "SCHEMA_MIGRATIONS", codes "APPLIED_AT" ∷ codes "VERSION" ∷ [])
    ∷ (
      codes "WORKING_MEMORY",
      codes "AGENT_ID"
          ∷ codes "CONFIDENCE"
          ∷ codes "CONSOLIDATED_AT"
          ∷ codes "CONTENT"
          ∷ codes "CONTENT_HASH"
          ∷ codes "CREATED_AT"
          ∷ codes "DELETED_AT"
          ∷ codes "EMBEDDING"
          ∷ codes "EXPIRES_AT"
          ∷ codes "ID"
          ∷ codes "METADATA"
          ∷ codes "TENANT_ID"
          ∷ codes "THREAD_ID"
          ∷ codes "UPDATED_AT"
          ∷ codes "USER_ID"
          ∷ codes "VERSION"
          ∷ [],
    )
    ∷ (
      codes "EPISODIC_MEMORY",
      codes "AGENT_ID"
          ∷ codes "CONFIDENCE"
          ∷ codes "CONSOLIDATED_AT"
          ∷ codes "CONTENT"
          ∷ codes "CONTENT_HASH"
          ∷ codes "CREATED_AT"
          ∷ codes "DELETED_AT"
          ∷ codes "EMBEDDING"
          ∷ codes "EXPIRES_AT"
          ∷ codes "ID"
          ∷ codes "METADATA"
          ∷ codes "TENANT_ID"
          ∷ codes "THREAD_ID"
          ∷ codes "UPDATED_AT"
          ∷ codes "USER_ID"
          ∷ codes "VERSION"
          ∷ [],
    )
    ∷ (
      codes "SEMANTIC_FACTS",
      codes "AGENT_ID"
          ∷ codes "CONFIDENCE"
          ∷ codes "CONTENT"
          ∷ codes "CONTENT_HASH"
          ∷ codes "CREATED_AT"
          ∷ codes "DELETED_AT"
          ∷ codes "EMBEDDING"
          ∷ codes "EXPIRES_AT"
          ∷ codes "ID"
          ∷ codes "METADATA"
          ∷ codes "SUPERSEDED_AT"
          ∷ codes "SUPERSEDED_BY"
          ∷ codes "SUPERSEDE_REASON"
          ∷ codes "TENANT_ID"
          ∷ codes "THREAD_ID"
          ∷ codes "UPDATED_AT"
          ∷ codes "USER_ID"
          ∷ codes "VERSION"
          ∷ [],
    )
    ∷ (
      codes "ENTITY_PROFILES",
      codes "AGENT_ID"
          ∷ codes "CONFIDENCE"
          ∷ codes "CONTENT"
          ∷ codes "CONTENT_HASH"
          ∷ codes "CREATED_AT"
          ∷ codes "DELETED_AT"
          ∷ codes "EMBEDDING"
          ∷ codes "EXPIRES_AT"
          ∷ codes "ID"
          ∷ codes "METADATA"
          ∷ codes "TENANT_ID"
          ∷ codes "THREAD_ID"
          ∷ codes "UPDATED_AT"
          ∷ codes "USER_ID"
          ∷ codes "VERSION"
          ∷ [],
    )
    ∷ (
      codes "PROCEDURAL_MEMORY",
      codes "AGENT_ID"
          ∷ codes "CONFIDENCE"
          ∷ codes "CONTENT"
          ∷ codes "CONTENT_HASH"
          ∷ codes "CREATED_AT"
          ∷ codes "DELETED_AT"
          ∷ codes "EMBEDDING"
          ∷ codes "EXPIRES_AT"
          ∷ codes "ID"
          ∷ codes "METADATA"
          ∷ codes "TENANT_ID"
          ∷ codes "THREAD_ID"
          ∷ codes "UPDATED_AT"
          ∷ codes "USER_ID"
          ∷ codes "VERSION"
          ∷ [],
    )
    ∷ (
      codes "MEMORY_CHUNKS",
      codes "AGENT_ID"
          ∷ codes "CHUNK_INDEX"
          ∷ codes "CHUNK_TEXT"
          ∷ codes "CREATED_AT"
          ∷ codes "EMBEDDING"
          ∷ codes "ID"
          ∷ codes "SOURCE_ID"
          ∷ codes "SOURCE_TABLE"
          ∷ codes "TENANT_ID"
          ∷ codes "THREAD_ID"
          ∷ codes "USER_ID"
          ∷ [],
    )
    ∷ []

-- `_REQUIRED_INDEXES`
abbrev pub required_indexes : List (Text × List Text)
required_indexes =
    (
      codes "WORKING_MEMORY",
      codes "IX_WORKING_MEMORY_AGENT"
          ∷ codes "IX_WORKING_MEMORY_CONSOLIDATED_AT"
          ∷ codes "IX_WORKING_MEMORY_CONTENT_HASH"
          ∷ codes "IX_WORKING_MEMORY_EMBEDDING"
          ∷ codes "IX_WORKING_MEMORY_EXPIRES"
          ∷ codes "IX_WORKING_MEMORY_SCOPE"
          ∷ [],
    )
    ∷ (
      codes "EPISODIC_MEMORY",
      codes "IX_EPISODIC_MEMORY_AGENT"
          ∷ codes "IX_EPISODIC_MEMORY_CONSOLIDATED_AT"
          ∷ codes "IX_EPISODIC_MEMORY_CONTENT_HASH"
          ∷ codes "IX_EPISODIC_MEMORY_EMBEDDING"
          ∷ codes "IX_EPISODIC_MEMORY_EXPIRES"
          ∷ codes "IX_EPISODIC_MEMORY_SCOPE"
          ∷ [],
    )
    ∷ (
      codes "SEMANTIC_FACTS",
      codes "IX_SEMANTIC_FACTS_AGENT"
          ∷ codes "IX_SEMANTIC_FACTS_CONTENT_HASH"
          ∷ codes "IX_SEMANTIC_FACTS_EMBEDDING"
          ∷ codes "IX_SEMANTIC_FACTS_EXPIRES"
          ∷ codes "IX_SEMANTIC_FACTS_SCOPE"
          ∷ codes "IX_SEMANTIC_FACTS_SUPERSEDED_BY"
          ∷ [],
    )
    ∷ (
      codes "ENTITY_PROFILES",
      codes "IX_ENTITY_PROFILES_AGENT"
          ∷ codes "IX_ENTITY_PROFILES_CONTENT_HASH"
          ∷ codes "IX_ENTITY_PROFILES_EMBEDDING"
          ∷ codes "IX_ENTITY_PROFILES_EXPIRES"
          ∷ codes "IX_ENTITY_PROFILES_SCOPE"
          ∷ [],
    )
    ∷ (
      codes "PROCEDURAL_MEMORY",
      codes "IX_PROCEDURAL_MEMORY_AGENT"
          ∷ codes "IX_PROCEDURAL_MEMORY_CONTENT_HASH"
          ∷ codes "IX_PROCEDURAL_MEMORY_EMBEDDING"
          ∷ codes "IX_PROCEDURAL_MEMORY_EXPIRES"
          ∷ codes "IX_PROCEDURAL_MEMORY_SCOPE"
          ∷ [],
    )
    ∷ (
      codes "MEMORY_CHUNKS",
      codes "IX_MEMORY_CHUNKS_EMBEDDING"
          ∷ codes "IX_MEMORY_CHUNKS_PARENT"
          ∷ codes "IX_MEMORY_CHUNKS_SCOPE"
          ∷ [],
    )
    ∷ []

abbrev pub required : Required
required = record {
  tables = required_tables;
  columns = required_columns;
  indexes = required_indexes;
}
