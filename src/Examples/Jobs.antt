-- ===== src/Examples/Jobs.antt =====
-- The first and the last transaction of a job: its admission, and its activation.
use danangmap_backend.Prelude.{
  arith, ◌≡◌, refl, true, none, some, [], ◌∷◌, find_by, exists_by, update_where, max_by, select_by,
}
use danangmap_backend.Json.{null}
use danangmap_backend.Domain.{approved, RevisionStatus}
use danangmap_backend.Database.{Db, Response, publication_job_etag, ok, transaction}
use danangmap_backend.Database.Publication.{PublicationJob, JobStatus, JobPhase}
use danangmap_backend.Database.Queries.{next_generation, touch_layer, add_event, add_audit}
use danangmap_backend.Idempotency.{claim as claim_receipt, complete}
use danangmap_backend.Workflow.Guards.{nearest_published, active_revision}
use danangmap_backend.Publication.Admission.{
  admit, admit_owned, admission_writes, insert_admission, insert_job, admission_recorded, job_view,
}
use danangmap_backend.Publication.Activation.{
  activate, active_snapshot, is_as_admitted, is_base_unmoved,
}
use danangmap_backend.Publication.Activation.Total.{CanActivate, IsActivated, activate_total}
use danangmap_backend.Publication.Admission.Replay.{admit_repeated}
use danangmap_backend.Publication.Receipts.{ExecutionResult, asynchronous_result}
use danangmap_backend.Idempotency.Canonical.{digest}
use danangmap_backend.Examples.{second_row, env_at, issuer, db_with}
use danangmap_backend.Publication.Admission.Total.{CanAdmit, IsAdmitted, admit_total}
use danangmap_backend.Examples.Pipeline.{settings, release, leased_job}

-- The same job when all is built, and its revision as it was admitted.
abbrev built_job : PublicationJob
built_job = record leased_job {
  phase = JobPhase.switching;
  revision_lock_version = 1;
  feature_processed = 1;
  build_feature_count = some 1;
  build_checksum = some "sum";
  build_manifest = some null;
}

abbrev built_db : Db
built_db = record (db_with RevisionStatus.publishing) { jobs = built_job ∷ [] }

can_activate : CanActivate (env_at 40 140) 60 77 built_job ("sum", null) built_db
unfolding find_by exists_by active_snapshot is_as_admitted is_base_unmoved
can_activate = record {
  found = refl;
  held = refl;
  layer_row = record { id = 10; lock_version = 1; updated_at = 0 };
  has_layer = refl;
  as_admitted = refl;
  eligible = refl;
  not_editorial = refl;
  base_unmoved = refl;
  is_built = refl;
  unused_id = refl;
}

activate_total_example :
    (db' : Db) × (activate (env_at 40 140) 60 77 built_db
      ≡ ok (
        record {
          activated = true;
          snapshot_id = some 140;
          generation = some (next_generation 10 built_db);
        },
        db',
      ))
    × IsActivated (env_at 40 140) 60 built_job ("sum", null) built_db db'
activate_total_example =
    activate_total (env_at 40 140) 60 77 built_job ("sum", null) built_db can_activate

abbrev admitted_db : Db
admitted_db = (transaction (admit (env_at 30 60) settings 2 release issuer 4) (db_with approved)).1

-- The answer to the admission: the queued job, its ETag, and two seconds to wait.
abbrev queued_answer : ExecutionResult
queued_answer =
    asynchronous_result
      (Response.job (record {
        id = 60;
        layer_id = 10;
        revision_id = 2;
        status = JobStatus.queued;
        phase = JobPhase.queued;
        completed_units = 0;
        total_units = none;
        percent = none;
        attempt = 0;
        result = none;
        failure = none;
        created_at = 30;
        started_at = none;
        finished_at = none;
      }))
      60 (publication_job_etag 60 1) 2

admit_ok :
    admit (env_at 30 60) settings 2 release issuer 4 (db_with approved)
    ≡ ok (queued_answer, admitted_db)
unfolding find_by exists_by update_where max_by select_by admit admit_owned admission_writes
    insert_admission insert_job admission_recorded job_view claim_receipt complete nearest_published
    active_revision active_snapshot touch_layer add_event add_audit
admit_ok = refl

admit_repeated_example :
    admit (env_at 90 300) settings 2 release issuer 4 admitted_db ≡ ok (queued_answer, admitted_db)
unfolding digest
admit_repeated_example =
    admit_repeated (env_at 30 60) (env_at 90 300) settings settings 2 release release issuer 4
      queued_answer (db_with approved) admitted_db refl refl (omega arith) admit_ok refl refl

can_admit : CanAdmit (env_at 30 60) 2 issuer (second_row approved) (db_with approved)
unfolding find_by exists_by active_revision nearest_published max_by
can_admit = record {
  found = refl;
  layer_row = record { id = 10; lock_version = 1; updated_at = 0 };
  has_layer = refl;
  idle = refl;
  is_approved = refl;
  not_editorial = refl;
  current = refl;
  unused_id = refl;
}

admit_total_example :
    (res : ExecutionResult) × (db' : Db) × (admit_owned
        (env_at 30 60)
        settings
        2
        release
        issuer
        4
        (db_with approved)
      ≡ ok (res, db'))
    × IsAdmitted
        (env_at 30 60)
        settings
        2
        release
        issuer
        (second_row approved)
        (db_with approved)
        db'
admit_total_example =
    admit_total (env_at 30 60) settings 2 release issuer 4 (second_row approved) (db_with approved)
      can_admit
