-- ===== src/Database/Sync.antt =====
-- The tables of src/layers/feature-sync.service.ts: features, revision_changes and client_mutations
-- (migrations 1761000000000 and 1761000018000), and the results that client_mutations keeps.
use danangmap_backend.Prelude.{ℕ, String, List, Option}
use danangmap_backend.Domain.{AppError}

pub data SyncOperation : Type 0 where
  create update delete : SyncOperation

-- The code of a rejected mutation: that of the `AppException`, or EXTERNAL_IDENTITY_CONFLICT.
pub data SyncError : Type 0 where
  refused : AppError → SyncError
  external_identity_conflict : SyncError

-- `FeatureSyncResult`, without the message and the details of an error. A cursor is the number that
-- its text encodes.
pub data SyncResult : Type 0 where
  applied :
      (client_mutation_id : ℕ)
      → SyncOperation
      → (client_feature_id : Option ℕ) → (canonical_feature_id : ℕ) → (version_id : Option ℕ)
      → (server_cursor : ℕ) → SyncResult
  conflict :
      (client_mutation_id : ℕ)
      → SyncOperation
      → (canonical_feature_id server_cursor current_version_id : ℕ) → (changed_paths : List String)
      → SyncResult
  rejected :
      (client_mutation_id : ℕ)
      → SyncOperation
      → (canonical_feature_id : Option ℕ) → (server_cursor : ℕ) → SyncError
      → SyncResult

pub record Feature : Type 0 where
  pub id : ℕ
  pub layer_id : ℕ
  pub external_source : Option String
  pub external_id : Option String
  pub deleted_at : Option ℕ

-- A row of revision_changes.
pub record Change : Type 0 where
  pub revision_id : ℕ
  pub server_cursor : ℕ
  pub operation : SyncOperation
  pub feature_id : ℕ
  pub version_id : Option ℕ
  pub changed_paths : List String
  pub actor_id : ℕ
  pub changed_at : ℕ

-- A row of client_mutations.
pub record ClientMutation : Type 0 where
  pub revision_id : ℕ
  pub client_id : ℕ
  pub mutation_id : ℕ
  pub request_digest : String
  pub response_payload : SyncResult
  pub server_cursor : ℕ
  pub client_feature_id : Option ℕ
  pub canonical_feature_id : Option ℕ
