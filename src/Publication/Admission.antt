-- ===== src/Publication/Admission.antt =====
-- src/publications/publication-admission.service.ts, with the statements of
-- src/publications/publication-job.repository.ts that it sends and src/publications/publication-view.ts:
-- a publish request is queued as a job.
pub mod Effects
pub mod Replay
pub mod Total
use text.Mathlib.Text.{◌==◌ as str_eq}
use danangmap_backend.Prelude.{
  ℕ, String, Bool, true, false, not, ◌+◌, ◌/◌, ◌&&◌, ◌||◌, max, [], ◌∷◌, ◌++◌, Option, none, some,
  ◌==◌, if◌then◌else◌, is_some, find_by, exists_by,
}
use danangmap_backend.Json.{Json, str, ident, object}
use danangmap_backend.Domain.{
  approved, publishing, revision_publish, PublicationFailureCode, app, defect, bad_request,
  not_found, publication_job_active, separation_of_duties, workflow_transition_invalid,
  query_failed, primary_key, uq_publication_job_active_layer, is_approved,
}
use danangmap_backend.Database.{
  Db, Tx, Revision, Response, Etag, publication_job_etag, guard, first_or, modify, gets, pure,
  throw, ◌>>=◌, ◌>>◌,
}
use danangmap_backend.Database.Publication.{
  PublicationJob, JobStatus, JobPhase, JobView, OutboxRow, OutboxStatus,
}
use danangmap_backend.Database.Queries.{
  Env, Actor, revision, snapshot, is_editorial, lock_revision, lock_layer, update_revision,
  touch_layer, add_event,
}
use danangmap_backend.Idempotency.{once, complete}
use danangmap_backend.Publication.Receipts.{
  ExecutionResult, asynchronous_result, receipt_metadata, replay_publication_receipt,
}
use danangmap_backend.Publication.Jobs.{job, is_queued, is_building, is_succeeded}
use danangmap_backend.Publication.Fingerprint.{calculate}
use danangmap_backend.Publication.Activation.{active_snapshot, id_of, generation_of}
use danangmap_backend.Workflow.Guards.{assert_base_current}
use danangmap_backend.Workflow.Review.{audit}
use danangmap_backend.Workflow.Publish.{PublishDto, publish, publish_digest, lift}

-- The settings of src/config that the publication pipeline reads.
pub record Config : Type 0 where
  pub max_attempts : ℕ
  pub dispatch_interval_ms : ℕ
  pub async_enabled : Bool

-- `publicationJobEtag`
abbrev pub job_etag : PublicationJob → Etag
job_etag j = publication_job_etag j.id j.lock_version

abbrev percent_of : Env → Option ℕ → ℕ → Option ℕ
percent_of env none processed = none
percent_of env (some total) processed =
    if total == 0 then none else some (env.floor_percent processed total)

-- `failure` of a view; none of the codes that a job can fail with is one to retry.
abbrev failure_of :
    Option PublicationFailureCode → Option ℕ → Option (PublicationFailureCode × Option ℕ × Bool)
failure_of none correlation_id = none
failure_of (some code) correlation_id = some (code, correlation_id, false)

abbrev result_of : Option ℕ → Option ℕ → Option (ℕ × ℕ)
result_of (some snapshot_id) (some generation) = some (snapshot_id, generation)
result_of _ _ = none

-- `resultGeneration`, by the LEFT JOIN of `selectJobSql`
abbrev result_generation : Option ℕ → Db → Option ℕ
result_generation none db = none
result_generation (some id) db = generation_of (snapshot id db)

-- `publicationJobView`
unfoldable pub job_view : Env → PublicationJob → Db → JobView
job_view env j db = record {
  id = j.id;
  layer_id = j.layer_id;
  revision_id = j.revision_id;
  status = j.status;
  phase = j.phase;
  completed_units = j.feature_processed;
  total_units = j.feature_total;
  percent =
      if is_succeeded j.status
      then some 100
      else percent_of env j.feature_total j.feature_processed;
  attempt = j.attempts;
  result = result_of j.result_snapshot_id (result_generation j.result_snapshot_id db);
  failure = failure_of j.failure_code j.failure_correlation_id;
  created_at = j.created_at;
  started_at = j.started_at;
  finished_at = j.finished_at;
}

-- `activeForLayer`
abbrev pub is_active_for : ℕ → PublicationJob → Bool
is_active_for layer_id j = j.layer_id == layer_id && (is_queued j.status || is_building j.status)

-- The row of publication_jobs that an admission inserts, its defaults included.
abbrev pub admitted_job :
    Env → Config → Revision → PublishDto → Actor → String → Db → PublicationJob
admitted_job env config r dto actor fingerprint db = record {
  id = env.fresh;
  layer_id = r.layer_id;
  revision_id = r.id;
  requested_by = actor.id;
  request_id = env.request_id;
  release_note = dto.release_note;
  expected_active_snapshot_id = id_of (active_snapshot r.layer_id db);
  expected_active_generation = generation_of (active_snapshot r.layer_id db);
  revision_lock_version = r.lock_version + 1;
  revision_schema_version = r.schema_version;
  revision_fingerprint = fingerprint;
  status = JobStatus.queued;
  phase = JobPhase.queued;
  lock_version = 1;
  feature_total = none;
  feature_processed = 0;
  vertex_processed = 0;
  build_feature_count = none;
  build_bounds = none;
  build_checksum = none;
  build_manifest = none;
  attempts = 0;
  max_attempts = config.max_attempts;
  available_at = env.now;
  lease_token = none;
  lease_owner = none;
  lease_expires_at = none;
  heartbeat_at = none;
  result_snapshot_id = none;
  failure_code = none;
  failure_correlation_id = none;
  started_at = none;
  finished_at = none;
  created_at = env.now;
}

abbrev pub outbox_row : Env → ℕ → OutboxRow
outbox_row env job_id = record {
  id = env.outbox_uuid;
  publication_job_id = job_id;
  payload_version = 1;
  status = OutboxStatus.pending;
  attempts = 0;
  available_at = env.now;
  lease_token = none;
  lease_owner = none;
  lease_expires_at = none;
  dispatched_at = none;
  last_error_code = none;
}

-- INSERT INTO publication_jobs, with its primary key and uq_publication_job_active_layer
unfoldable pub insert_job : PublicationJob → Tx (Unit {0})
insert_job row db =
    (do
      guard (not (is_some (job row.id db))) (query_failed primary_key)
      guard
          (not (
            (is_queued row.status || is_building row.status)
            && exists_by (is_active_for row.layer_id) db.jobs))
          (query_failed uq_publication_job_active_layer)
      modify (λ d. record d { jobs = d.jobs ++ row ∷ [] }))
      db

-- `insertAdmission`
unfoldable pub insert_admission : Env → PublicationJob → Tx PublicationJob
insert_admission env row = do
  insert_job row
  modify (λ db. record db { outbox = db.outbox ++ outbox_row env row.id ∷ [] })
  first_or (job row.id) defect

abbrev pub set_admitted : Env → Revision → Revision → Revision
set_admitted env r row = record row {
  status = publishing;
  lock_version = r.lock_version + 1;
  updated_at = env.now;
}

-- `private result`
abbrev pub admission_result : Env → Config → PublicationJob → Db → ExecutionResult
admission_result env config j db =
    asynchronous_result (Response.job (job_view env j db)) j.id (job_etag j)
      (max 1 ((config.dispatch_interval_ms + 999) / 1000))

-- What `admit` writes after the job is inserted.
unfoldable pub admission_recorded :
    Env → Config → ℕ → Revision → PublishDto → Actor → ℕ → PublicationJob → Db → Db
admission_recorded env config id r dto actor key j db =
    let d = add_event id approved publishing actor.id (some dto.release_note) db in
    let d =
      audit env actor "publication.queued" id
        (object (
          ("jobId", ident j.id)
          ∷ ("layerId", ident r.layer_id)
          ∷ ("revisionId", ident id)
          ∷ ("clientIntent", str "desktop")
          ∷ []))
        d in
    complete actor.id revision_publish key (Response.job (job_view env j db)) 202
      (some (job_etag j)) (some (receipt_metadata (admission_result env config j db))) d

unfoldable pub admission_writes :
    Env → Config → ℕ → Revision → PublishDto → Actor → ℕ → String → Tx ExecutionResult
admission_writes env config id r dto actor key fingerprint db =
    (do
      modify (λ d. touch_layer env r.layer_id (update_revision id (set_admitted env r) d))
      j ← insert_admission env (admitted_job env config r dto actor fingerprint db)
      result ← gets (admission_result env config j)
      modify (admission_recorded env config id r dto actor key j)
      pure result)
      db

abbrev has_active_job : ℕ → Db → Bool
has_active_job layer_id db = exists_by (is_active_for layer_id) db.jobs

unfoldable pub admit_owned : Env → Config → ℕ → PublishDto → Actor → ℕ → Tx ExecutionResult
admit_owned env config id dto actor key = do
  identity ← lock_revision id
  lock_layer identity.layer_id >>= λ _. pure tt
  λ db. guard (not (has_active_job identity.layer_id db)) (app publication_job_active) db
  r ← lock_revision id
  guard (is_approved r.status) (app workflow_transition_invalid)
  λ db. guard (not (is_editorial id actor.id db)) (app separation_of_duties) db
  assert_base_current r
  fingerprint ← calculate env r.id
  admission_writes env config id r dto actor key fingerprint

abbrev pub is_desktop : Option String → Bool
is_desktop none = false
is_desktop (some intent) = str_eq intent "desktop"

-- `admit`
unfoldable pub admit : Env → Config → ℕ → PublishDto → Actor → ℕ → Tx ExecutionResult
admit env config id dto actor key = do
  guard (is_desktop dto.client_intent) (app bad_request)
  once actor.id revision_publish key (publish_digest env id dto)
      (admit_owned env config id dto actor key)
      (λ c. lift (replay_publication_receipt env.is_uuid c))

-- `publish` of src/publications/publication-command.service.ts
abbrev pub publish_command : Env → Config → ℕ → PublishDto → Actor → ℕ → Tx ExecutionResult
publish_command env config id dto actor key =
    if config.async_enabled then admit env config id dto actor key else publish env id dto actor key
