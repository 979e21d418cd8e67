-- ===== src/Workflow/Publish.antt =====
-- `publish` of src/workflow/workflow.service.ts: the synchronous publication of a revision.
use Prim.Native.String
use danangmap_backend.Prelude.{
  ℕ, String, not, ◌+◌, [], ◌∷◌, List, Option, none, some, if◌then◌else◌, length, leb, map,
}
use danangmap_backend.Json.{Json, str, num, ident, object, str?}
use danangmap_backend.Domain.{
  approved, publishing, published, ParticipationType, revision_publish, app, separation_of_duties,
  workflow_transition_invalid, is_approved,
}
use danangmap_backend.Database.{
  Db, Tx, Revision, FeatureVersion, Snapshot, SnapshotStatus, publication, Result, ok, err, guard,
  modify, pure, ◌>>=◌, ◌>>◌,
}
use danangmap_backend.Database.Queries.{
  Env, Actor, is_editorial, lock_revision, lock_layer, update_revision, touch_layer,
  add_participant, add_event, next_generation, insert_snapshot, move_pointer, activate_snapshot,
}
use danangmap_backend.Idempotency.{once, complete}
use danangmap_backend.Idempotency.Canonical.{digest}
use danangmap_backend.Publication.Receipts.{
  ExecutionResult, synchronous_result, receipt_metadata, replay_publication_receipt,
}
use danangmap_backend.Workflow.Guards.{members, assert_base_current, assert_attachments_publishable}
use danangmap_backend.Workflow.Review.{audit}

pub record PublishDto : Type 0 where
  pub release_note : String
  pub client_intent : Option String

abbrev pub publish_digest : Env → ℕ → PublishDto → String
publish_digest env id dto = digest env (
    object (
      ("revisionId", ident id)
      ∷ (
        "dto",
        object
            (("releaseNote", str dto.release_note) ∷ ("clientIntent", str? dto.client_intent) ∷ []),
      )
      ∷ []))

-- A Result as a step of a transaction.
abbrev pub lift : {A : Type 0} → Result A → Tx A
lift (ok a) db = ok (a, db)
lift (err e) db = err e

-- ORDER BY rf.feature_id
insert_member : ℕ → FeatureVersion → List (ℕ × FeatureVersion) → List (ℕ × FeatureVersion)
insert_member id v [] = (id, v) ∷ []
insert_member id v ((j, w) ∷ ms) =
    if leb id j then (id, v) ∷ (j, w) ∷ ms else (j, w) ∷ insert_member id v ms

by_feature_id : List (ℕ × FeatureVersion) → List (ℕ × FeatureVersion)
by_feature_id [] = []
by_feature_id ((id, v) ∷ ms) = insert_member id v (by_feature_id ms)

-- string_agg(fv.checksum,'')
concat_checksums : List (ℕ × FeatureVersion) → String
concat_checksums [] = ""
concat_checksums (m ∷ ms) = String.◌++◌ m.1.checksum (concat_checksums ms)

unfoldable pub checksum_input : ℕ → Db → String
unfolding insert_member by_feature_id concat_checksums
checksum_input revision_id db = concat_checksums (by_feature_id (members revision_id db))

abbrev bounds_of : Env → List (ℕ × FeatureVersion) → Option String
bounds_of env [] = none
bounds_of env (m ∷ ms) = some (env.st_extent (map (λ n. n.1.geometry) (m ∷ ms)))

abbrev manifest : Revision → Json
manifest r = object (
    ("sourceKind", str "geojson")
    ∷ ("sourceLayer", str "features")
    ∷ ("schemaVersion", num r.schema_version)
    ∷ ("attachmentProjection", str "versioned")
    ∷ [])

-- The row that `publish` inserts into publication_snapshots.
abbrev pub sync_snapshot : Env → ℕ → Revision → Actor → Db → Snapshot
sync_snapshot env id r actor db = record {
  id = env.fresh;
  layer_id = r.layer_id;
  revision_id = id;
  status = SnapshotStatus.published;
  generation = next_generation r.layer_id db;
  feature_count = length (members id db);
  bounds = bounds_of env (members id db);
  checksum = env.sha256 (checksum_input id db);
  manifest = manifest r;
  published_by = actor.id;
  published_at = some env.now;
  activated_at = none;
}

abbrev pub set_publishing : Env → Revision → Revision
set_publishing env row = record row { status = publishing; updated_at = env.now }

abbrev pub mark_publishing : Env → ℕ → Db → Db
mark_publishing env id = update_revision id (set_publishing env)

-- UPDATE layer_revisions SET status='published', ...
abbrev pub set_published : Env → Revision → Revision
set_published env row = record row {
  status = published;
  published_at = some env.now;
  lock_version = row.lock_version + 1;
  updated_at = env.now;
}

abbrev pub mark_published : Env → ℕ → Db → Db
mark_published env id = update_revision id (set_published env)

-- What `publish` writes after the snapshot is inserted.
unfoldable pub publication_recorded :
    Env → ℕ → Revision → PublishDto → Actor → ℕ → (generation : ℕ) → Db → Db
publication_recorded env id r dto actor key generation db =
    let d = move_pointer env r.layer_id env.fresh db in
    let d = activate_snapshot env env.fresh d in
    let d = mark_published env id d in
    let d = touch_layer env r.layer_id d in
    let d = add_participant id actor.id ParticipationType.publish d in
    let d = add_event id approved published actor.id (some dto.release_note) d in
    let d =
      audit env actor "revision.published" id
        (object (
          ("snapshotId", ident env.fresh)
          ∷ ("generation", num generation)
          ∷ ("releaseNote", str dto.release_note)
          ∷ []))
        d in
    complete actor.id revision_publish key (publication env.fresh generation) 202 none
      (some (receipt_metadata (synchronous_result (publication env.fresh generation)))) d

-- The writes of `publish`, the insertion of the snapshot among them.
unfoldable pub publish_writes : Env → ℕ → Revision → PublishDto → Actor → ℕ → Tx ExecutionResult
publish_writes env id r dto actor key = do
  modify (mark_publishing env id)
  λ db.
      (do
        insert_snapshot (sync_snapshot env id r actor db)
        modify (publication_recorded env id r dto actor key (next_generation r.layer_id db))
        pure (synchronous_result (publication env.fresh (next_generation r.layer_id db))))
        db

unfoldable pub publish_owned : Env → ℕ → PublishDto → Actor → ℕ → Tx ExecutionResult
unfolding publish_writes
publish_owned env id dto actor key = do
  identity ← lock_revision id
  lock_layer identity.layer_id >>= λ _. pure tt
  r ← lock_revision id
  guard (is_approved r.status) (app workflow_transition_invalid)
  λ db. guard (not (is_editorial id actor.id db)) (app separation_of_duties) db
  assert_base_current r
  assert_attachments_publishable id
  publish_writes env id r dto actor key

-- `publish`
unfoldable pub publish : Env → ℕ → PublishDto → Actor → ℕ → Tx ExecutionResult
publish env id dto actor key =
    once actor.id revision_publish key (publish_digest env id dto)
      (publish_owned env id dto actor key) (λ c. lift (replay_publication_receipt env.is_uuid c))
