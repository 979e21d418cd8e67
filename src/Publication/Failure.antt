-- ===== src/Publication/Failure.antt =====
-- `fail` of src/publications/publication-activation.service.ts: a publication is given up.
use danangmap_backend.Prelude.{
  ℕ, String, Bool, true, false, not, ◌+◌, ◌&&◌, [], ◌∷◌, Option, none, some, if◌then◌else◌, is_some,
}
use danangmap_backend.Json.{str, ident, object}
use danangmap_backend.Domain.{
  publishing, approved, PublicationFailureCode, actor_ineligible, base_stale, build_limit_exceeded,
  input_invalid, retry_exhausted, duties_not_separated, activation_invariant, is_publishing,
}
use danangmap_backend.Database.{Db, Tx, Revision, first_or, modify, pure, ◌>>=◌, ◌>>◌}
use danangmap_backend.Database.Publication.{PublicationJob, JobStatus, JobPhase}
use danangmap_backend.Database.Queries.{
  Env, revision, layer, update_revision, touch_layer, add_event, add_audit,
}
use danangmap_backend.Publication.Jobs.{job, is_queued, is_building, is_terminal, holds}
use danangmap_backend.Publication.Activation.{ended, actor_role, end_job, same_number}

abbrev pub failed : Env → PublicationFailureCode → ℕ → PublicationJob → PublicationJob
failed env code correlation_id j = record (ended env j) {
  status = JobStatus.failed;
  phase = JobPhase.failed;
  failure_code = some code;
  failure_correlation_id = some correlation_id;
}

abbrev count_failed : Env → Db → Db
count_failed env db = record db {
  worker_state = record (db.worker_state) {
    failed_job_count = db.worker_state.failed_job_count + 1;
    worker_heartbeat_at = some env.now;
  };
}

abbrev pub failure_text : PublicationFailureCode → String
failure_text actor_ineligible = "PUBLICATION_ACTOR_INELIGIBLE"
failure_text base_stale = "PUBLICATION_BASE_STALE"
failure_text build_limit_exceeded = "PUBLICATION_BUILD_LIMIT_EXCEEDED"
failure_text input_invalid = "PUBLICATION_INPUT_INVALID"
failure_text retry_exhausted = "PUBLICATION_RETRY_EXHAUSTED"
failure_text duties_not_separated = "PUBLICATION_SEPARATION_OF_DUTIES"

abbrev pub set_given_up : Env → Revision → Revision
set_given_up env r = record r {
  status = approved;
  lock_version = r.lock_version + 1;
  updated_at = env.now;
}

-- A caller may fail the job: it holds it, or it has no lease and the job waits.
abbrev pub may_fail : Option ℕ → PublicationJob → Bool
may_fail token j =
    not (is_terminal j.status)
    && not (is_building j.status && not (same_number j.lease_token token))
    && not (is_queued j.status && is_some token)

-- `$2 IS NULL OR lease_token=$2`
abbrev pub holds? : Option ℕ → PublicationJob → Bool
holds? none j = true
holds? (some token) j = holds token j

abbrev pub was_publishing : Option Revision → Bool
was_publishing none = false
was_publishing (some r) = is_publishing r.status

-- The revision goes back to its approved state.
unfoldable pub given_up : Env → PublicationJob → PublicationFailureCode → Db → Db
given_up env j code db =
    let d = update_revision j.revision_id (set_given_up env) db in
    let d =
      add_event j.revision_id publishing approved j.requested_by (some (failure_text code)) d in
    touch_layer env j.layer_id d

unfoldable pub failure_recorded :
    Env → Option ℕ → PublicationJob → PublicationFailureCode → ℕ → Db → Db
failure_recorded env token j code correlation_id db =
    let d = end_job j.id (holds? token) (failed env code correlation_id) db in
    count_failed env (
      add_audit
        (record {
          actor_id = j.requested_by;
          actor_role = actor_role j.requested_by d;
          action = "publication.failed";
          resource_type = "layer_revision";
          resource_id = j.revision_id;
          request_id = correlation_id;
          before_digest = none;
          after_digest = none;
          metadata = object (
              ("jobId", ident j.id)
              ∷ ("layerId", ident j.layer_id)
              ∷ ("revisionId", ident j.revision_id)
              ∷ ("failureCode", str (failure_text code))
              ∷ []);
        })
        d)

abbrev pub failure_writes : Env → Option ℕ → PublicationJob → PublicationFailureCode → ℕ → Db → Db
failure_writes env token j code correlation_id db =
    failure_recorded env token j code correlation_id
      (if was_publishing (revision j.revision_id db) then given_up env j code db else db)

unfoldable pub fail_locked : Env → Option ℕ → PublicationJob → PublicationFailureCode → ℕ → Tx Bool
fail_locked env token j code correlation_id =
    if may_fail token j
    then (do
      first_or (layer j.layer_id) (activation_invariant input_invalid) >>= λ _. pure tt
      modify (failure_writes env token j code correlation_id)
      pure true)
    else pure false

-- `fail`
unfoldable pub fail : Env → ℕ → Option ℕ → PublicationFailureCode → ℕ → Tx Bool
fail env id token code correlation_id db = elim (job id db) [
  | none ↦ pure false db
  | some j ↦ fail_locked env token j code correlation_id db
]
