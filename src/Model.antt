-- ===== src/Model.antt =====
-- src/agent_memory_sdk/models.py and exceptions.py: the records that the repositories store, the
-- scope of a call, and the exceptions as values.
use yaadien.Prelude.{ℕ, Bool, Option, List, ◌≡◌, ◌⊎◌, inl, inr, refl}

-- A string that the program only compares (an id, a scope column, a hash) is a code number; 0 is
-- the empty string. A string that it takes apart is the list of its code points.
abbrev pub Ident : Type 0
Ident = ℕ

abbrev pub Text : Type 0
Text = List ℕ

-- A float that is only compared or carried: the number of units of 2^-1074 in it, of which every
-- finite non-negative double is a whole multiple. A vector component has its sign in front.
abbrev pub Double : Type 0
Double = ℕ

abbrev pub Vector : Type 0
Vector = List (Bool × Double)

pub data ℤ : Type 0 where
  pos negsuc : ℕ → ℤ

pub data Error : Type 0 where
  value_error type_error stale_write invalid_metadata_filter not_implemented scope_mismatch : Error
  duplicate_key connection_error pool_exhausted migration_error integrity_rejection syntax_error
        statement_error key_error provider_error schema_policy_error attribute_error :
      Error

pub data Result {ℓ} (A : Type ℓ) : Type ℓ where
  ok : A → Result A
  err : Error → Result A

-- To split on a computed result and keep the equation.
pub Result-cases {ℓ} :
    {A : Type ℓ} (r : Result A) → ((a : A) × (r ≡ ok a)) ⊎ ((x : Error) × (r ≡ err x))
Result-cases (ok a) = inl (a, refl)
Result-cases (err x) = inr (x, refl)

infixl 5 ◌>>=◌
abbrev pub ◌>>=◌ {ℓ κ} : {A : Type ℓ} {B : Type κ} → Result A → (A → Result B) → Result B
ok a >>= f = f a
err e >>= f = err e

pub record MemoryScope : Type 0 where
  pub tenant_id : Option Ident
  pub agent_id : Ident
  pub user_id : Option Ident
  pub thread_id : Option Ident

pub data MemoryOrigin : Type 0 where
  direct_write extraction consolidation reconciliation ingest_resolver : MemoryOrigin

-- `_MemoryBase` with the supersession columns of `SemanticFact`, which stay `none` elsewhere.
-- `metadata` is the JSON text that the column holds. `quarantined` has no column.
pub record Memory : Type 0 where
  pub id : Ident
  pub tenant_id : Option Ident
  pub agent_id : Ident
  pub user_id : Option Ident
  pub thread_id : Option Ident
  pub content : Text
  pub metadata : Text
  pub embedding : Vector
  pub confidence : Double
  pub content_hash : Option Ident
  pub created_at : ℕ
  pub updated_at : ℕ
  pub expires_at : Option ℕ
  pub version : ℕ
  pub deleted_at : Option ℕ
  pub consolidated_at : Option ℕ
  pub origin : MemoryOrigin
  pub quarantined : Bool
  pub superseded_by : Option Ident
  pub superseded_at : Option ℕ
  pub supersede_reason : Option Text
