-- ===== src/Database/Publication.antt =====
-- The tables of the durable publication pipeline, as
-- src/database/migrations/1761000013000-DurablePublicationJobs.ts declares them, and the view of a
-- job that is sent to clients.
use danangmap_backend.Prelude.{ℕ, String, Option, Bool}
use danangmap_backend.Json.{Json}
use danangmap_backend.Domain.{PublicationFailureCode}

pub data JobStatus : Type 0 where
  queued building succeeded failed : JobStatus

pub data JobPhase : Type 0 where
  queued preparing scanning_features switching completed failed : JobPhase

pub record PublicationJob : Type 0 where
  pub id : ℕ
  pub layer_id : ℕ
  pub revision_id : ℕ
  pub requested_by : ℕ
  pub request_id : ℕ
  pub release_note : String
  pub expected_active_snapshot_id : Option ℕ
  pub expected_active_generation : Option ℕ
  pub revision_lock_version : ℕ
  pub revision_schema_version : ℕ
  pub revision_fingerprint : String
  pub status : JobStatus
  pub phase : JobPhase
  pub lock_version : ℕ
  pub feature_total : Option ℕ
  pub feature_processed : ℕ
  pub vertex_processed : ℕ
  pub build_feature_count : Option ℕ
  pub build_bounds : Option String
  pub build_checksum : Option String
  pub build_manifest : Option Json
  pub attempts : ℕ
  pub max_attempts : ℕ
  pub available_at : ℕ
  pub lease_token : Option ℕ
  pub lease_owner : Option String
  pub lease_expires_at : Option ℕ
  pub heartbeat_at : Option ℕ
  pub result_snapshot_id : Option ℕ
  pub failure_code : Option PublicationFailureCode
  pub failure_correlation_id : Option ℕ
  pub started_at : Option ℕ
  pub finished_at : Option ℕ
  pub created_at : ℕ

pub data OutboxStatus : Type 0 where
  pending dispatching dispatched : OutboxStatus

pub record OutboxRow : Type 0 where
  pub id : ℕ
  pub publication_job_id : ℕ
  pub payload_version : ℕ
  pub status : OutboxStatus
  pub attempts : ℕ
  pub available_at : ℕ
  pub lease_token : Option ℕ
  pub lease_owner : Option String
  pub lease_expires_at : Option ℕ
  pub dispatched_at : Option ℕ
  pub last_error_code : Option String

pub record BatchRow : Type 0 where
  pub job_id : ℕ
  pub batch_no : ℕ
  pub first_feature_id : ℕ
  pub last_feature_id : ℕ
  pub feature_count : ℕ
  pub vertex_count : ℕ
  pub bounds : Option String
  pub public_checksum : String
  pub public_projection : Json

-- The counters of the one row of publication_worker_state.
pub record WorkerState : Type 0 where
  pub worker_heartbeat_at : Option ℕ
  pub completed_job_count : ℕ
  pub failed_job_count : ℕ
  pub recovered_lease_count : ℕ

-- `PublicationJobView`, less `updatedAt` and the message text of a failure.
pub record JobView : Type 0 where
  pub id : ℕ
  pub layer_id : ℕ
  pub revision_id : ℕ
  pub status : JobStatus
  pub phase : JobPhase
  pub completed_units : ℕ
  pub total_units : Option ℕ
  pub percent : Option ℕ
  pub attempt : ℕ
  pub result : Option (ℕ × ℕ)
  pub failure : Option (PublicationFailureCode × Option ℕ × Bool)
  pub created_at : ℕ
  pub started_at : Option ℕ
  pub finished_at : Option ℕ
