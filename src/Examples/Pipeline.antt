-- ===== src/Examples/Pipeline.antt =====
-- Runs of the durable publication pipeline.
use danangmap_backend.Prelude.{
  String, ◌≡◌, refl, true, none, some, [], ◌∷◌, Option, List, find_by, exists_by, update_where,
  max_by, sum_by, select_by,
}
use danangmap_backend.Json.{null}
use danangmap_backend.Domain.{approved, RevisionStatus}
use danangmap_backend.Database.{Db, Revision, ok, transaction}
use danangmap_backend.Database.Publication.{PublicationJob, JobStatus, JobPhase, BatchRow}
use danangmap_backend.Database.Queries.{
  Env, insert_snapshot, touch_layer, add_participant, add_event, add_audit, move_pointer,
  activate_snapshot,
}
use danangmap_backend.Idempotency.{claim as claim_receipt, complete}
use danangmap_backend.Workflow.Guards.{nearest_published, active_revision}
use danangmap_backend.Workflow.Publish.{PublishDto}
use danangmap_backend.Publication.Admission.{
  Config, admit, admit_owned, admission_writes, insert_admission, insert_job, admission_recorded,
  job_view,
}
use danangmap_backend.Publication.Activation.{
  activate, activate_locked, activate_held, activation_writes, activation_recorded, active_snapshot,
  is_as_admitted, is_base_unmoved,
}
use danangmap_backend.Publication.Jobs.{
  job, claim, claim_row, set_prepared, commit_batch, mark_switching,
}
use danangmap_backend.Publication.Workers.{
  Call, claims, prepares, commits, switches, recovers, releases, run as run_calls,
}
use danangmap_backend.Publication.Workers.Progress.{IsProgress, commit_batch-IsProgress}
use danangmap_backend.Publication.Workers.Valid.{AllValid}
use danangmap_backend.Publication.Workers.Fence.{run-Keeps}
use danangmap_backend.System.{Event, admissions, calls, activations, run, run-AllValid}
use danangmap_backend.Examples.{env_at, issuer, db_with}

abbrev pub settings : Config
settings = record { max_attempts = 3; dispatch_interval_ms = 1500; async_enabled = true }

abbrev pub release : PublishDto
release = record { release_note = "r2"; client_intent = some "desktop" }

-- The batch of the one feature.
abbrev batch : BatchRow
batch = record {
  job_id = 60;
  batch_no = 1;
  first_feature_id = 30;
  last_feature_id = 30;
  feature_count = 1;
  vertex_count = 4;
  bounds = some "box";
  public_checksum = "p1";
  public_projection = null;
}

abbrev union_box : List BatchRow → Option String
union_box [] = none
union_box (b ∷ bs) = some "box"

-- A job is admitted, claimed, built in one batch, and activated.
abbrev whole_life : List Event
whole_life =
    admissions (env_at 30 60) settings 2 release issuer 4
    ∷ calls (env_at 31 77) (claims 60 "w" 50)
    ∷ calls (env_at 32 0) (prepares 60 77 1 50)
    ∷ calls (env_at 33 0) (commits union_box batch 77 50)
    ∷ calls (env_at 34 0) (switches 60 77 "sum" null 50)
    ∷ activations (env_at 35 120) 60 77
    ∷ []

empty-AllValid : AllValid []
unfolding find_by
empty-AllValid id j h = absurd (cc)

run-AllValid_example : AllValid (run whole_life (db_with approved)).jobs
run-AllValid_example = run-AllValid whole_life (db_with approved) empty-AllValid

abbrev status_of : Option PublicationJob → Option JobStatus
status_of none = none
status_of (some j) = some j.status

abbrev revision_status : Option Revision → Option RevisionStatus
revision_status none = none
revision_status (some r) = some r.status

succeeded_by_run : status_of (job 60 (run whole_life (db_with approved))) ≡ some JobStatus.succeeded
unfolding run find_by exists_by update_where max_by sum_by select_by admit admit_owned
    admission_writes insert_admission insert_job admission_recorded job_view claim_receipt complete
    nearest_published active_revision active_snapshot touch_layer add_event add_audit
    add_participant move_pointer activate_snapshot insert_snapshot claim claim_row set_prepared
    commit_batch mark_switching activate activate_locked activate_held activation_writes
    activation_recorded is_as_admitted is_base_unmoved
succeeded_by_run = refl

-- A job that is built under the token 77 until the instant 200.
abbrev pub leased_job : PublicationJob
leased_job = record {
  id = 60;
  layer_id = 10;
  revision_id = 2;
  requested_by = 9;
  request_id = 900;
  release_note = "r2";
  expected_active_snapshot_id = some 41;
  expected_active_generation = some 2;
  revision_lock_version = 2;
  revision_schema_version = 1;
  revision_fingerprint = "{}";
  status = JobStatus.building;
  phase = JobPhase.scanning_features;
  lock_version = 3;
  feature_total = some 1;
  feature_processed = 0;
  vertex_processed = 0;
  build_feature_count = none;
  build_bounds = none;
  build_checksum = none;
  build_manifest = none;
  attempts = 1;
  max_attempts = 3;
  available_at = 31;
  lease_token = some 77;
  lease_owner = some "w";
  lease_expires_at = some 200;
  heartbeat_at = some 32;
  result_snapshot_id = none;
  failure_code = none;
  failure_correlation_id = none;
  started_at = some 31;
  finished_at = none;
  created_at = 30;
}

abbrev leased_db : Db
leased_db = record (db_with RevisionStatus.publishing) { jobs = leased_job ∷ [] }

-- Another worker tries to claim, to commit and to release the job, and the recovery runs.
abbrev intruders : List (Env × Call)
intruders =
    (env_at 100 78, claims 60 "v" 50)
    ∷ (env_at 101 0, commits union_box batch 78 50)
    ∷ (env_at 102 0, releases 60 78 5)
    ∷ (env_at 103 0, recovers)
    ∷ []

run-Keeps_example : job 60 (run_calls intruders leased_db) ≡ some leased_job
unfolding find_by
run-Keeps_example =
    run-Keeps 60 77 leased_job intruders leased_db refl
      ((refl, refl), ((refl, refl), ((refl, refl), ((refl, refl), tt))))

abbrev committed_db : Db
committed_db = (transaction (commit_batch (env_at 33 0) union_box batch 77 50) leased_db).1

commit_ok : commit_batch (env_at 33 0) union_box batch 77 50 leased_db ≡ ok ((1, 1), committed_db)
unfolding commit_batch find_by exists_by update_where sum_by select_by
commit_ok = refl

commit_batch-IsProgress_example : IsProgress (env_at 33 0) batch 77 50 leased_db committed_db (1, 1)
commit_batch-IsProgress_example =
    commit_batch-IsProgress (env_at 33 0) union_box batch 77 50 leased_db committed_db (1, 1)
      commit_ok
