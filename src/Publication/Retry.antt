-- ===== src/Publication/Retry.antt =====
-- How `process` of src/publications/publication.processor.ts ends a delivery whose build has thrown.
pub mod Delay
use danangmap_backend.Prelude.{ℕ, ◌-◌, ◌*◌, ◌^◌, min, leb, some, if◌then◌else◌}
use danangmap_backend.Domain.{
  Error, build_error, activation_invariant, lease_lost, PublicationFailureCode, retry_exhausted,
}
use danangmap_backend.Database.{Db, transaction}
use danangmap_backend.Database.Publication.{PublicationJob}
use danangmap_backend.Database.Queries.{Env}
use danangmap_backend.Publication.Jobs.{release_for_retry}
use danangmap_backend.Publication.Failure.{fail}

-- The delay of the next attempt, in milliseconds.
unfoldable pub retry_delay : (backoff attempts : ℕ) → ℕ
retry_delay backoff attempts = min 60000 (backoff * 2 ^ min (attempts - 1) 8)

abbrev pub give_up :
    Env → PublicationJob → (token : ℕ) → PublicationFailureCode → (correlation_id : ℕ) → Db → Db
give_up env j token code correlation_id db =
    (transaction (fail env j.id (some token) code correlation_id) db).1

-- The `catch` of `process`, less the errors that test hooks inject. A lost lease is another worker's
-- business; an error of the build fails the job; any other error fails it on its last attempt, and puts
-- it back into the queue before that.
unfoldable pub end_delivery :
    Env → (backoff : ℕ) → PublicationJob → (token correlation_id : ℕ) → Error → Db → Db
end_delivery env backoff j token correlation_id lease_lost db = db
end_delivery env backoff j token correlation_id (build_error code) db =
    give_up env j token code correlation_id db
end_delivery env backoff j token correlation_id (activation_invariant code) db =
    give_up env j token code correlation_id db
end_delivery env backoff j token correlation_id e db =
    if leb j.max_attempts j.attempts
    then give_up env j token retry_exhausted correlation_id db
    else (transaction (release_for_retry env j.id token (retry_delay backoff j.attempts)) db).1
