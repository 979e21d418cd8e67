-- ===== src/Publication/Activation.antt =====
-- src/publications/publication-activation.service.ts: a worker that has built a revision makes it the
-- active publication of its layer, or gives the publication up.
pub mod Effects
pub mod Refinement
pub mod Total
use text.Mathlib.Text.{◌==◌ as str_eq}
use danangmap_backend.Prelude.{
  ℕ, String, Bool, true, false, not, ◌+◌, ◌&&◌, ◌||◌, [], ◌∷◌, Option, none, some, ◌==◌, same?,
  if◌then◌else◌, is_some, update_where,
}
use danangmap_backend.Json.{Json, str, num, ident, ident?, object}
use danangmap_backend.Domain.{
  UserRole, publisher, publishing, published, approved, ParticipationType, Error,
  PublicationFailureCode, actor_ineligible, base_stale, build_limit_exceeded, input_invalid,
  retry_exhausted, duties_not_separated, activation_invariant, is_publishing, is_active,
  may_publish,
}
use danangmap_backend.Database.{
  Db, Tx, Revision, User, Snapshot, SnapshotStatus, Pointer, guard, first_or, modify, pure, ◌>>=◌,
  ◌>>◌,
}
use danangmap_backend.Database.Publication.{PublicationJob, JobStatus, JobPhase}
use danangmap_backend.Database.Queries.{
  Env, revision, layer, user, snapshot, pointer, is_editorial, update_revision, touch_layer,
  add_participant, add_event, add_audit, next_generation, insert_snapshot, move_pointer,
  activate_snapshot,
}
use danangmap_backend.Publication.Jobs.{
  job, is_queued, is_building, is_succeeded, is_terminal, is_switching, holds, expires_after,
}
use danangmap_backend.Publication.Fingerprint.{fingerprint}

-- What `activate` answers.
pub record Activation : Type 0 where
  pub activated : Bool
  pub snapshot_id : Option ℕ
  pub generation : Option ℕ

abbrev pub not_activated : Activation
not_activated = record { activated = false; snapshot_id = none; generation = none }

-- The active snapshot of a layer: a pointer and the snapshot that it joins.
unfoldable pub active_snapshot : ℕ → Db → Option Snapshot
active_snapshot layer_id db = elim (pointer layer_id db) [
  | none ↦ none
  | some p ↦ snapshot p.active_snapshot_id db
]

abbrev pub id_of : Option Snapshot → Option ℕ
id_of none = none
id_of (some s) = some s.id

abbrev pub generation_of : Option Snapshot → Option ℕ
generation_of none = none
generation_of (some s) = some s.generation

-- `snapshotResult`
abbrev snapshot_result : Option ℕ → Db → Option Snapshot
snapshot_result none db = none
snapshot_result (some id) db = snapshot id db

-- The job of a caller that still holds it, in the phase in which it may be activated.
abbrev pub may_activate : Env → ℕ → PublicationJob → Bool
may_activate env token j =
    is_building j.status
    && is_switching j.phase
    && holds token j
    && expires_after j.lease_expires_at env.now

-- The revision is the one that was admitted.
unfoldable pub is_as_admitted : Env → PublicationJob → Option Revision → Db → Bool
is_as_admitted env j none db = false
is_as_admitted env j (some r) db =
    is_publishing r.status
    && r.lock_version == j.revision_lock_version
    && str_eq (fingerprint env r db) j.revision_fingerprint

-- The requester may publish still.
abbrev pub is_eligible : Option User → Bool
is_eligible none = false
is_eligible (some u) = is_active u.status && may_publish u.role && not (is_some u.disabled_at)

abbrev pub same_number : Option ℕ → Option ℕ → Bool
same_number none none = true
same_number (some a) (some b) = a == b
same_number _ _ = false

-- The pointer is the one that was admitted.
unfoldable pub is_base_unmoved : PublicationJob → Db → Bool
is_base_unmoved j db =
    same_number (id_of (active_snapshot j.layer_id db)) j.expected_active_snapshot_id
    && same_number (generation_of (active_snapshot j.layer_id db)) j.expected_active_generation

-- What the worker has built: its checksum and its manifest.
abbrev built : Option String → Option Json → Option (String × Json)
built (some checksum) (some manifest) =
    if str_eq checksum "" then none else some (checksum, manifest)
built _ _ = none

abbrev is_complete : PublicationJob → Bool
is_complete j =
    same_number j.feature_total (some j.feature_processed)
    && same_number j.build_feature_count j.feature_total

abbrev complete_build : PublicationJob → Option (String × Json)
complete_build j = if is_complete j then built j.build_checksum j.build_manifest else none

-- The row that `activate` inserts into publication_snapshots.
abbrev pub job_snapshot : Env → PublicationJob → String × Json → Db → Snapshot
job_snapshot env j build db = record {
  id = env.fresh;
  layer_id = j.layer_id;
  revision_id = j.revision_id;
  status = SnapshotStatus.published;
  generation = next_generation j.layer_id db;
  feature_count = j.feature_processed;
  bounds = j.build_bounds;
  checksum = build.0;
  manifest = build.1;
  published_by = j.requested_by;
  published_at = some env.now;
  activated_at = none;
}

abbrev pub set_live : Env → Revision → Revision
set_live env r = record r {
  status = published;
  published_at = some env.now;
  lock_version = r.lock_version + 1;
  updated_at = env.now;
}

-- A job that has ended, without its lease.
abbrev pub ended : Env → PublicationJob → PublicationJob
ended env j = record j {
  lease_token = none;
  lease_owner = none;
  lease_expires_at = none;
  heartbeat_at = none;
  finished_at = some env.now;
  lock_version = j.lock_version + 1;
}

abbrev pub succeeded : Env → ℕ → PublicationJob → PublicationJob
succeeded env snapshot_id j = record (ended env j) {
  status = JobStatus.succeeded;
  phase = JobPhase.completed;
  result_snapshot_id = some snapshot_id;
}

-- `actorRole`
abbrev pub actor_role : ℕ → Db → UserRole
actor_role id db = elim (user id db) [ none ↦ publisher | some u ↦ u.role ]

abbrev pub end_job : ℕ → (PublicationJob → Bool) → (PublicationJob → PublicationJob) → Db → Db
end_job id condition f db = record db {
  jobs = update_where (λ j. j.id == id && condition j) f db.jobs;
}

abbrev count_completed : Env → Db → Db
count_completed env db = record db {
  worker_state = record (db.worker_state) {
    completed_job_count = db.worker_state.completed_job_count + 1;
    worker_heartbeat_at = some env.now;
  };
}

-- The log row of an activation.
abbrev activation_audit : Env → PublicationJob → (generation : ℕ) → Db → Db
activation_audit env j generation db =
    add_audit
      (record {
        actor_id = j.requested_by;
        actor_role = actor_role j.requested_by db;
        action = "revision.published";
        resource_type = "layer_revision";
        resource_id = j.revision_id;
        request_id = j.request_id;
        before_digest = some (
            env.sha256 (
              env.json_text
                (object (("activeSnapshotId", ident? j.expected_active_snapshot_id) ∷ []))));
        after_digest = some (
            env.sha256 (
              env.json_text (
                object
                  (("activeSnapshotId", ident env.fresh) ∷ ("generation", num generation) ∷ []))));
        metadata = object (
            ("jobId", ident j.id)
            ∷ ("layerId", ident j.layer_id)
            ∷ ("revisionId", ident j.revision_id)
            ∷ ("snapshotId", ident env.fresh)
            ∷ ("generation", num generation)
            ∷ ("releaseNote", str j.release_note)
            ∷ ("featureCount", num j.feature_processed)
            ∷ ("clientIntent", str "desktop")
            ∷ ("publicCacheVersion", num generation)
            ∷ []);
      })
      db

-- What `activate` writes after the snapshot is inserted.
unfoldable pub activation_recorded : Env → ℕ → PublicationJob → (generation : ℕ) → Db → Db
activation_recorded env token j generation db =
    let d = move_pointer env j.layer_id env.fresh db in
    let d = activate_snapshot env env.fresh d in
    let d = update_revision j.revision_id (set_live env) d in
    let d = touch_layer env j.layer_id d in
    let d = add_participant j.revision_id j.requested_by ParticipationType.publish d in
    let d = add_event j.revision_id publishing published j.requested_by (some j.release_note) d in
    let d = activation_audit env j generation d in
    let d = end_job j.id (holds token) (succeeded env env.fresh) d in count_completed env d

unfoldable pub activation_writes : Env → ℕ → PublicationJob → String × Json → Tx Activation
activation_writes env token j build db =
    (do
      insert_snapshot (job_snapshot env j build db)
      modify (activation_recorded env token j (next_generation j.layer_id db))
      pure (record {
        activated = true;
        snapshot_id = some env.fresh;
        generation = some (next_generation j.layer_id db);
      }))
      db

-- `assertActorAndSeparation`
abbrev assert_actor_and_separation : PublicationJob → Tx (Unit {0})
assert_actor_and_separation j db =
    (do
      guard (is_eligible (user j.requested_by db)) (activation_invariant actor_ineligible)
      guard (not (is_editorial j.revision_id j.requested_by db))
          (activation_invariant duties_not_separated))
      db

-- The part of `activate` that runs for the holder of the job.
unfoldable pub activate_held : Env → ℕ → PublicationJob → Tx Activation
activate_held env token j = do
  first_or (layer j.layer_id) (activation_invariant input_invalid) >>= λ _. pure tt
  λ db.
      guard (is_as_admitted env j (revision j.revision_id db) db)
        (activation_invariant input_invalid) db
  assert_actor_and_separation j
  λ db. guard (is_base_unmoved j db) (activation_invariant base_stale) db
  build ← first_or (λ db. complete_build j) (activation_invariant input_invalid)
  activation_writes env token j build

unfoldable pub activate_locked : Env → ℕ → PublicationJob → Tx Activation
activate_locked env token j db =
    if is_succeeded j.status
    then pure
        (record {
          activated = false;
          snapshot_id = j.result_snapshot_id;
          generation = generation_of (snapshot_result j.result_snapshot_id db);
        })
        db
    else if may_activate env token j
    then activate_held env token j db
    else pure not_activated db

-- `activate`
unfoldable pub activate : Env → ℕ → ℕ → Tx Activation
activate env id token db = elim (job id db) [
  | none ↦ pure not_activated db
  | some j ↦ activate_locked env token j db
]
