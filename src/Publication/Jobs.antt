-- ===== src/Publication/Jobs.antt =====
-- The statements of src/publications/publication-worker.repository.ts on publication_jobs and
-- publication_job_batches. A worker holds a job by the lease token that its claim has written.
use danangmap_backend.Prelude.{
  ℕ, String, ◌+◌, Bool, true, false, not, ◌&&◌, ◌||◌, [], ◌∷◌, ◌++◌, List, Option, none, some, ◌==◌,
  same?, leb, ltb, if◌then◌else◌, find_by, select_by, exists_by, update_where, sum_by, max_by,
  length, is_some,
}
use danangmap_backend.Json.{Json}
use danangmap_backend.Domain.{
  lease_lost, defect, query_failed, primary_key, uq_publication_job_batch_cursor, batch_no_check,
  feature_count_check,
}
use danangmap_backend.Database.{Db, Tx, guard, first_or, modify, gets, pure, ◌>>=◌, ◌>>◌}
use danangmap_backend.Database.Publication.{
  PublicationJob, JobStatus, JobPhase, BatchRow, building, preparing, scanning_features, switching,
}
use danangmap_backend.Database.Queries.{Env}

abbrev pub job : ℕ → Db → Option PublicationJob
job id db = find_by (λ j. j.id == id) db.jobs

abbrev pub update_job : ℕ → (PublicationJob → PublicationJob) → Db → Db
update_job id f db = record db { jobs = update_where (λ j. j.id == id) f db.jobs }

abbrev pub is_queued : JobStatus → Bool
is_queued JobStatus.queued = true
is_queued _ = false

abbrev pub is_building : JobStatus → Bool
is_building JobStatus.building = true
is_building _ = false

abbrev pub is_succeeded : JobStatus → Bool
is_succeeded JobStatus.succeeded = true
is_succeeded _ = false

-- `status === 'succeeded' || status === 'failed'`
abbrev pub is_terminal : JobStatus → Bool
is_terminal JobStatus.succeeded = true
is_terminal JobStatus.failed = true
is_terminal _ = false

abbrev pub is_preparing : JobPhase → Bool
is_preparing JobPhase.preparing = true
is_preparing _ = false

abbrev pub is_scanning : JobPhase → Bool
is_scanning JobPhase.scanning_features = true
is_scanning _ = false

abbrev pub is_switching : JobPhase → Bool
is_switching JobPhase.switching = true
is_switching _ = false

-- `lease_token=$2`, which no NULL satisfies
abbrev pub holds : ℕ → PublicationJob → Bool
holds token j = same? j.lease_token (some token)

-- `lease_expires_at>now()`
abbrev pub expires_after : Option ℕ → ℕ → Bool
expires_after none now = false
expires_after (some t) now = ltb now t

-- `hasLiveLease`, on the row's own token
abbrev pub has_live_lease : ℕ → PublicationJob → Bool
has_live_lease now j = is_some j.lease_token && expires_after j.lease_expires_at now

pub data BuildClaim : Type 0 where
  claimed terminal busy exhausted : PublicationJob → BuildClaim
  missing : BuildClaim

-- The phase in which a claim takes the work up again.
abbrev pub resume_phase : Option ℕ → ℕ → JobPhase
resume_phase none processed = preparing
resume_phase (some total) processed = if leb total processed then switching else scanning_features

abbrev pub or_now : Option ℕ → ℕ → Option ℕ
or_now none now = some now
or_now (some t) now = some t

-- The UPDATE of `claim`; `env.fresh` is the new lease token.
abbrev pub taken : Env → String → ℕ → PublicationJob → PublicationJob
taken env owner lease_seconds j = record j {
  status = building;
  phase = resume_phase j.feature_total j.feature_processed;
  attempts = j.attempts + 1;
  lease_token = some env.fresh;
  lease_owner = some owner;
  lease_expires_at = some (env.now + lease_seconds);
  heartbeat_at = some env.now;
  started_at = or_now j.started_at env.now;
  available_at = env.now;
  lock_version = j.lock_version + 1;
}

-- The decision of `claim` on the locked row.
unfoldable pub claim_row : Env → String → ℕ → PublicationJob → BuildClaim
claim_row env owner lease_seconds j =
    if is_terminal j.status
    then terminal j
    else if is_queued j.status && ltb env.now j.available_at
    then busy j
    else if is_building j.status && has_live_lease env.now j
    then busy j
    else if leb j.max_attempts j.attempts
    then exhausted j
    else claimed (taken env owner lease_seconds j)

-- What a claim writes: only a successful one writes.
abbrev pub claim_written : Env → ℕ → String → ℕ → BuildClaim → Db → Db
claim_written env id owner lease_seconds (claimed j) db =
    update_job id (taken env owner lease_seconds) db
claim_written env id owner lease_seconds other db = db

abbrev pub claim_found : Env → ℕ → String → ℕ → Option PublicationJob → BuildClaim
claim_found env id owner lease_seconds none = missing
claim_found env id owner lease_seconds (some j) = claim_row env owner lease_seconds j

-- `claim`
unfoldable pub claim : Env → ℕ → String → ℕ → Tx BuildClaim
claim env id owner lease_seconds = do
  c ← gets (λ db. claim_found env id owner lease_seconds (job id db))
  modify (claim_written env id owner lease_seconds c)
  pure c

-- An UPDATE ... WHERE id=$1 AND condition RETURNING 1: whether a row was changed, and the new table.
abbrev pub update_job_if : ℕ → (PublicationJob → Bool) → (PublicationJob → PublicationJob) → Tx Bool
update_job_if id condition f = do
  hit ← gets (λ db. exists_by (λ j. j.id == id && condition j) db.jobs)
  modify (λ db. record db { jobs = update_where (λ j. j.id == id && condition j) f db.jobs })
  pure hit

abbrev pub extend_lease : Env → ℕ → PublicationJob → PublicationJob
extend_lease env lease_seconds j = record j {
  heartbeat_at = some env.now;
  lease_expires_at = some (env.now + lease_seconds);
  lock_version = j.lock_version + 1;
}

abbrev pub is_built_by : ℕ → PublicationJob → Bool
is_built_by token j = is_building j.status && holds token j

-- `heartbeat`
unfoldable pub heartbeat : Env → ℕ → ℕ → ℕ → Tx Bool
heartbeat env id token lease_seconds =
    update_job_if id (is_built_by token) (extend_lease env lease_seconds)

abbrev pub or_lease_lost : Bool → Tx (Unit {0})
or_lease_lost hit = guard hit lease_lost

-- `phase='preparing'` and the total unset, or set to the same
abbrev pub is_preparing_by : ℕ → ℕ → PublicationJob → Bool
is_preparing_by token total j =
    is_built_by token j
    && is_preparing j.phase
    && (not (is_some j.feature_total) || same? j.feature_total (some total))

abbrev pub prepared : Env → ℕ → ℕ → PublicationJob → PublicationJob
prepared env total lease_seconds j = record (extend_lease env lease_seconds j) {
  feature_total = some total;
  phase = if total == 0 then switching else scanning_features;
}

-- `setPrepared`
unfoldable pub set_prepared : Env → ℕ → ℕ → ℕ → ℕ → Tx (Unit {0})
set_prepared env id token total lease_seconds = do
  hit ← update_job_if id (is_preparing_by token total) (prepared env total lease_seconds)
  or_lease_lost hit

-- `checkpoint`: the batch of the largest number.
unfoldable pub checkpoint : ℕ → Db → Option BatchRow
checkpoint job_id db =
    find_by
      (λ b.
        b.job_id == job_id
        && b.batch_no == max_by (λ c. c.job_id == job_id) (λ c. c.batch_no) db.batches)
      db.batches

-- sum(feature_count) and sum(vertex_count) over the batches of the job
abbrev pub processed_features : ℕ → List BatchRow → ℕ
processed_features job_id = sum_by (λ b. b.job_id == job_id) (λ b. b.feature_count)

abbrev pub processed_vertices : ℕ → List BatchRow → ℕ
processed_vertices job_id = sum_by (λ b. b.job_id == job_id) (λ b. b.vertex_count)

abbrev pub some_batch : ℕ → ℕ → BatchRow → Bool
some_batch job_id batch_no b = b.job_id == job_id && b.batch_no == batch_no

abbrev pub ends_at : ℕ → ℕ → BatchRow → Bool
ends_at job_id last_feature_id b = b.job_id == job_id && b.last_feature_id == last_feature_id

-- INSERT INTO publication_job_batches, with its primary key, uq_publication_job_batch_cursor and the
-- CHECKs of its numbers
abbrev pub insert_batch : BatchRow → Tx (Unit {0})
insert_batch row db =
    (do
      guard (ltb 0 row.batch_no) (query_failed batch_no_check)
      guard (ltb 0 row.feature_count) (query_failed feature_count_check)
      guard (not (exists_by (some_batch row.job_id row.batch_no) db.batches))
          (query_failed primary_key)
      guard (not (exists_by (ends_at row.job_id row.last_feature_id) db.batches))
          (query_failed uq_publication_job_batch_cursor)
      modify (λ d. record d { batches = d.batches ++ row ∷ [] }))
      db

abbrev pub is_scanned_by : Env → ℕ → PublicationJob → Bool
is_scanned_by env token j =
    is_built_by token j && is_scanning j.phase && expires_after j.lease_expires_at env.now

abbrev only_if : (PublicationJob → Bool) → Option PublicationJob → Option PublicationJob
only_if p none = none
only_if p (some j) = if p j then some j else none

-- SELECT ... WHERE id=$1 AND condition, where `id` is the primary key
abbrev pub job_if : ℕ → (PublicationJob → Bool) → Db → Option PublicationJob
job_if id p db = only_if p (job id db)

abbrev pub total_or_none : PublicationJob → ℕ
total_or_none j = elim j.feature_total [ none ↦ 0 | some n ↦ n ]

abbrev pub advanced : Env → ℕ → ℕ → Option String → ℕ → PublicationJob → PublicationJob
advanced env processed vertices bounds lease_seconds j = record (extend_lease env lease_seconds j) {
  feature_processed = processed;
  vertex_processed = vertices;
  build_bounds = bounds;
}

-- `commitBatch`; `bounds` is the query's union box over the batches of the job, whose coordinates
-- are floating point numbers.
unfoldable pub commit_batch :
    Env → (bounds : List BatchRow → Option String) → BatchRow → ℕ → ℕ → Tx (ℕ × ℕ)
commit_batch env bounds row token lease_seconds = do
  j ← first_or (job_if row.job_id (is_scanned_by env token)) lease_lost
  insert_batch row
  processed ← gets (λ db. processed_features row.job_id db.batches)
  guard (leb processed (total_or_none j)) defect
  modify (λ db. record db {
    jobs =
        update_where (λ k. k.id == row.job_id && holds token k)
          (advanced env processed (processed_vertices row.job_id db.batches)
            (bounds (select_by (λ b. b.job_id == row.job_id) db.batches)) lease_seconds)
          db.jobs;
  })
  pure (processed, total_or_none j)

-- `feature_total=feature_processed` in a phase that may switch
abbrev pub is_complete_by : ℕ → PublicationJob → Bool
is_complete_by token j =
    is_built_by token j
    && same? j.feature_total (some j.feature_processed)
    && (is_scanning j.phase || is_switching j.phase)

abbrev pub switched : Env → String → Json → ℕ → PublicationJob → PublicationJob
switched env checksum manifest lease_seconds j = record (extend_lease env lease_seconds j) {
  phase = switching;
  build_feature_count = some j.feature_processed;
  build_checksum = some checksum;
  build_manifest = some manifest;
}

-- `markSwitching`
unfoldable pub mark_switching : Env → ℕ → ℕ → String → Json → ℕ → Tx (Unit {0})
mark_switching env id token checksum manifest lease_seconds = do
  hit ← update_job_if id (is_complete_by token) (switched env checksum manifest lease_seconds)
  or_lease_lost hit

-- A job goes back to the queue without its lease.
abbrev pub requeued : ℕ → PublicationJob → PublicationJob
requeued available_at j = record j {
  status = JobStatus.queued;
  phase = JobPhase.queued;
  lease_token = none;
  lease_owner = none;
  lease_expires_at = none;
  heartbeat_at = none;
  available_at = available_at;
  lock_version = j.lock_version + 1;
}

-- `releaseForRetry`, with the delay in the unit of the clock
unfoldable pub release_for_retry : Env → ℕ → ℕ → ℕ → Tx Bool
release_for_retry env id token delay =
    update_job_if id (is_built_by token) (requeued (env.now + delay))

-- `lease_expires_at<=now()`
abbrev pub is_expired : ℕ → PublicationJob → Bool
is_expired now j =
    is_building j.status && elim j.lease_expires_at [ none ↦ false | some t ↦ leb t now ]

-- `requeueExpiredLeases`; the gauges of publication_worker_state are not kept.
unfoldable pub requeue_expired_leases : Env → Tx (List PublicationJob)
requeue_expired_leases env = do
  expired ← gets (λ db. select_by (is_expired env.now) db.jobs)
  modify (λ db. record db {
    jobs = update_where (is_expired env.now) (requeued env.now) db.jobs;
    worker_state = record (db.worker_state) {
      worker_heartbeat_at = some env.now;
      recovered_lease_count = db.worker_state.recovered_lease_count + length expired;
    };
  })
  pure expired
