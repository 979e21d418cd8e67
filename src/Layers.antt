-- ===== src/Layers.antt =====
-- src/layers/: the editing of a draft revision's features, by batches of mutations that a client sends
-- (feature-sync.service.ts). Schema and Geometry are the validations of a feature, Patch merges an
-- update, Mutations and Edits apply one mutation, Batch a batch of them, and Feed reads the changes back. The
-- types here are the request's (layer.dto.ts).
pub mod Schema
pub mod Definitions
pub mod Geometry
pub mod Patch
pub mod Mutations
pub mod Edits
pub mod Batch
pub mod Commit
pub mod Effects
pub mod Conflicts
pub mod Runs
pub mod Loop
pub mod Done
pub mod Committed
pub mod Gapless
pub mod Editing
pub mod Repeat
pub mod Naming
pub mod Receipts
pub mod Loading
pub mod Again
pub mod Feed
use danangmap_backend.Prelude.{ℕ, String, List, Option}
use danangmap_backend.Json.{Json, Number}
use danangmap_backend.Database.Sync.{SyncOperation}

-- `FeatureMutationDto`
pub record FeatureInput : Type 0 where
  pub geometry : Json
  pub geometry_kind : String
  pub radius_m : Option Number
  pub external_source : Option String
  pub external_id : Option String
  pub properties : List (String × Json)

-- `FeatureSyncPatchDto`. Of a property that may be null, `none` is that it is absent and `some none`
-- that it is null.
pub record FeaturePatch : Type 0 where
  pub geometry : Option Json
  pub geometry_kind : Option String
  pub radius_m : Option (Option Number)
  pub external_source : Option (Option String)
  pub external_id : Option (Option String)
  pub properties : Option (List (String × Json))
  pub unset_properties : Option (List String)

-- `FeatureSyncMutationDto`
pub record Mutation : Type 0 where
  pub client_mutation_id : ℕ
  pub operation : SyncOperation
  pub base_revision_version : ℕ
  pub payload_hash : String
  pub client_feature_id : Option ℕ
  pub feature_id : Option ℕ
  pub base_version_id : Option ℕ
  pub feature : Option FeatureInput
  pub patch : Option FeaturePatch

pub data Origin : Type 0 where
  editor recovery : Origin

-- `FeatureBatchSyncDto`, its cursor as the number that the text encodes, none where it encodes none.
pub record BatchDto : Type 0 where
  pub client_id : ℕ
  pub origin : Origin
  pub base_cursor : Option ℕ
  pub mutations : List Mutation
