-- ===== src/Publication/Admission/Total.antt =====
-- An admission whose checks pass, against the indexes of publication_jobs.
use danangmap_backend.Prelude.{
  ℕ, ◌+◌, ◌≡◌, refl, ◌∙◌, true, false, none, some, [], ◌∷◌, ◌++◌, ◌==◌, same?, ==-refl, arith,
  find_by, find_by-append, exists_by,
}
use danangmap_backend.Domain.{approved, publishing}
use danangmap_backend.Database.{Db, Revision, Layer, ok}
use danangmap_backend.Database.Publication.{PublicationJob, JobStatus, JobPhase}
use danangmap_backend.Database.Queries.{
  Env, Actor, revision, layer, is_editorial, update_revision, touch_layer, add_event, add_audit,
}
use danangmap_backend.Database.Lookup.{revision-id, revision-update_revision}
use danangmap_backend.Idempotency.{complete}
use danangmap_backend.Publication.Receipts.{ExecutionResult}
use danangmap_backend.Publication.Jobs.{job}
use danangmap_backend.Publication.Fingerprint.{fingerprint}
use danangmap_backend.Publication.Admission.{
  Config, admitted_job, insert_job, insert_admission, outbox_row, set_admitted, admission_recorded,
  admission_writes, admit_owned, is_active_for, admission_result,
}
use danangmap_backend.Publication.Activation.{active_snapshot, id_of, generation_of}
use danangmap_backend.Workflow.Guards.{active_revision, base_revision}
use danangmap_backend.Workflow.Publish.{PublishDto}

-- All that `admit` asks for, behind its receipt.
pub record CanAdmit (env : Env) (id : ℕ) (actor : Actor) (r : Revision) (db : Db) : Type 0 where
  pub found : revision id db ≡ some r
  pub layer_row : Layer
  pub has_layer : layer r.layer_id db ≡ some layer_row
  pub idle : exists_by (is_active_for r.layer_id) db.jobs ≡ false
  pub is_approved : r.status ≡ approved
  pub not_editorial : is_editorial id actor.id db ≡ false
  pub current : same? (active_revision r.layer_id db) (base_revision r db) ≡ true
  pub unused_id : job env.fresh db ≡ none

job-insert :
    (row : PublicationJob) (d : Db)
    → job row.id d ≡ none
    → job row.id (record d { jobs = d.jobs ++ row ∷ [] }) ≡ some row
unfolding find_by
job-insert row d h = ground (
  arith,
  h,
  find_by-append (λ (j : PublicationJob). j.id == row.id) d.jobs (row ∷ []),
  ==-refl row.id,
)

insert_admission-ok :
    (env : Env) (row : PublicationJob) (d : Db)
    → job row.id d ≡ none
    → exists_by (is_active_for row.layer_id) d.jobs ≡ false
    → insert_admission env row d
      ≡ ok (
        row,
        record d { jobs = d.jobs ++ row ∷ []; outbox = d.outbox ++ outbox_row env row.id ∷ [] },
      )
unfolding insert_admission insert_job
insert_admission-ok env row d h idle = ground (arith, h, idle, job-insert row d h)

-- The job and the revision that an admission leaves.
pub record IsAdmitted (env : Env) (config : Config) (id : ℕ) (dto : PublishDto) (actor : Actor)
    (r : Revision) (db db' : Db) : Type 0 where
  pub row : PublicationJob
  pub after : Revision
  pub queued_row : job env.fresh db' ≡ some row
  pub revision_row : revision id db' ≡ some after
  pub names_revision : (row.layer_id ≡ r.layer_id) × (row.revision_id ≡ id)
  pub names_request : (row.requested_by ≡ actor.id) × (row.release_note ≡ dto.release_note)
  pub queued : (row.status ≡ JobStatus.queued) × (row.phase ≡ JobPhase.queued)
  pub untried :
      (row.attempts ≡ 0)
      × (row.max_attempts ≡ config.max_attempts)
      × (row.lease_token ≡ none)
      × (row.available_at ≡ env.now)
  pub base :
      (row.expected_active_snapshot_id ≡ id_of (active_snapshot r.layer_id db))
      × (row.expected_active_generation ≡ generation_of (active_snapshot r.layer_id db))
  pub text : row.revision_fingerprint ≡ fingerprint env r db
  pub is_publishing : after.status ≡ publishing
  pub next_version : after.lock_version ≡ r.lock_version + 1
  pub same_version : row.revision_lock_version ≡ after.lock_version

-- Behind its receipt, `admit` succeeds wherever its checks pass and the generated id is new. A job of the
-- request is then queued under that id, untried and unleased, with the active snapshot and the fingerprint
-- of the revision. The revision is publishing in its next version, which is the one that the job names.
pub admit_total :
    (env : Env) (config : Config) (id : ℕ) (dto : PublishDto) (actor : Actor) (key : ℕ)
    (r : Revision) (db : Db)
    → CanAdmit env id actor r db
    → (res : ExecutionResult) × (db' : Db) × (admit_owned env config id dto actor key db
        ≡ ok (res, db'))
      × IsAdmitted env config id dto actor r db db'
unfolding admit_owned admission_writes admission_recorded complete add_event add_audit touch_layer
admit_total env config id dto actor key r db c =
    let row = admitted_job env config r dto actor (fingerprint env r db) db in
    let d = touch_layer env r.layer_id (update_revision id (set_admitted env r) db) in
    let after = record d {
      jobs = d.jobs ++ row ∷ [];
      outbox = d.outbox ++ outbox_row env row.id ∷ [];
    } in
    (
      admission_result env config row after,
      admission_recorded env config id r dto actor key row after,
      ground
          (arith, c, revision-id id db r c.found, insert_admission-ok env row d c.unused_id c.idle),
      record {
        row = row;
        after = set_admitted env r r;
        queued_row = job-insert row db c.unused_id;
        revision_row =
            revision-update_revision id id (set_admitted env r) db (λ s. refl)
            ∙ ground (arith, c.found, ==-refl id);
        names_revision = (refl, revision-id id db r c.found);
        names_request = (refl, refl);
        queued = (refl, refl);
        untried = (refl, refl, refl, refl);
        base = (refl, refl);
        text = refl;
        is_publishing = refl;
        next_version = refl;
        same_version = refl;
      },
    )
