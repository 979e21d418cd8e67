-- ===== src/Rollback.antt =====
-- src/history/publication-rollback.service.ts, with the pointer ETag of src/layers/etag.ts: a layer
-- serves the content of an earlier snapshot again, as a new snapshot.
pub mod Effects
use Prim.Native.String
use text.Mathlib.Text.{◌==◌ as str_eq}
use danangmap_backend.Prelude.{
  ℕ, String, Bool, true, false, not, ◌&&◌, [], ◌∷◌, Option, none, some, ◌==◌, if◌then◌else◌,
  is_some, update_where, ltb,
}
use danangmap_backend.Json.{Json, str, num, ident, ident?, str?, object, extend}
use danangmap_backend.Domain.{
  layer_rollback, Error, app, bad_request, not_found, etag_required, etag_mismatch,
  rollback_target_invalid, rollback_target_active, rollback_target_not_found, separation_of_duties,
  publication_pointer_stale, idempotency_in_progress,
}
use danangmap_backend.Database.{
  Db, Tx, Snapshot, SnapshotStatus, Pointer, Response, rolled_back, Etag, revision_etag,
  publication_pointer_etag, publication_job_etag, malformed, guard, first_or, modify, pure, throw,
  ◌>>=◌, ◌>>◌,
}
use danangmap_backend.Database.Queries.{
  Env, Actor, layer, snapshot, pointer, is_editorial, lock_layer, touch_layer, add_audit,
  next_generation, insert_snapshot, activate_snapshot,
}
use danangmap_backend.Idempotency.{ReceiptClaim, once, complete}
use danangmap_backend.Idempotency.Canonical.{digest}

pub record RollbackDto : Type 0 where
  pub target_snapshot_id : ℕ
  pub reason : String
  pub client_intent : Option String

infixr 6 ◌<>◌
abbrev ◌<>◌ : String → String → String
a <> b = String.◌++◌ a b

-- `revisionEtag`, `publicationPointerEtag` and `publicationJobEtag`, as text
abbrev pub etag_text : Env → Etag → String
etag_text env (revision_etag r v) = "\"rev-" <> env.uuid_text r <> "-v" <> env.decimal v <> "\""
etag_text env (publication_pointer_etag l s g) =
    "\"publication-pointer-"
    <> env.uuid_text l
    <> "-"
    <> env.uuid_text s
    <> "-g"
    <> env.decimal g
    <> "\""
etag_text env (publication_job_etag j v) =
    "\"publication-job-" <> env.uuid_text j <> "-v" <> env.decimal v <> "\""
etag_text env (malformed text) = text

abbrev if_match : Env → Option Etag → Option String
if_match env none = none
if_match env (some e) = some (etag_text env e)

-- `requirePublicationPointerEtag`: a generation that starts with 0 does not match its pattern.
unfoldable pub require_pointer_etag : Option Etag → Tx Etag
require_pointer_etag none = throw (app etag_required)
require_pointer_etag (some (publication_pointer_etag l s g)) =
    if ltb 0 g then pure (publication_pointer_etag l s g) else throw (app etag_mismatch)
require_pointer_etag (some (malformed text)) =
    if str_eq text "" then throw (app etag_required) else throw (app etag_mismatch)
require_pointer_etag (some _) = throw (app etag_mismatch)

-- `expectedPointerEtag === currentPointerEtag`
abbrev pub is_pointer_etag : Etag → ℕ → ℕ → ℕ → Bool
is_pointer_etag (publication_pointer_etag l s g) layer_id snapshot_id generation =
    l == layer_id && s == snapshot_id && g == generation
is_pointer_etag _ layer_id snapshot_id generation = false

abbrev pub rollback_digest : Env → ℕ → RollbackDto → Option Etag → String
rollback_digest env layer_id dto etag = digest env (
    object (
      ("layerId", ident layer_id)
      ∷ (
        "dto",
        object (
            ("targetSnapshotId", ident dto.target_snapshot_id)
            ∷ ("reason", str dto.reason)
            ∷ ("clientIntent", str? dto.client_intent)
            ∷ []),
      )
      ∷ ("ifMatch", str? (if_match env etag))
      ∷ []))

-- A pointer and the active snapshot that it joins.
abbrev joined : Pointer → Option Snapshot → Option (Pointer × Snapshot)
joined p none = none
joined p (some s) = some (p, s)

unfoldable pub active_pointer : ℕ → Db → Option (Pointer × Snapshot)
active_pointer layer_id db = elim (pointer layer_id db) [
  | none ↦ none
  | some p ↦ joined p (snapshot p.active_snapshot_id db)
]

abbrev is_published_snapshot : SnapshotStatus → Bool
is_published_snapshot SnapshotStatus.published = true
is_published_snapshot _ = false

abbrev pub is_target : ℕ → Snapshot → Bool
is_target layer_id s =
    s.layer_id == layer_id
    && is_published_snapshot s.status
    && is_some s.published_at
    && is_some s.activated_at

abbrev only_target : ℕ → Option Snapshot → Option Snapshot
only_target layer_id none = none
only_target layer_id (some s) = if is_target layer_id s then some s else none

-- The row of the target, where it may be served again.
abbrev pub target : ℕ → ℕ → Db → Option Snapshot
target layer_id id db = only_target layer_id (snapshot id db)

-- The row that `rollback` inserts into publication_snapshots.
abbrev pub restored : Env → ℕ → Snapshot → Actor → Db → Snapshot
restored env layer_id t actor db = record {
  id = env.fresh;
  layer_id = layer_id;
  revision_id = t.revision_id;
  status = SnapshotStatus.published;
  generation = next_generation layer_id db;
  feature_count = t.feature_count;
  bounds = t.bounds;
  checksum = t.checksum;
  manifest =
      extend t.manifest
        (("rollbackOf", ident t.id) ∷ ("rollbackSourceGeneration", num t.generation) ∷ []);
  published_by = actor.id;
  published_at = some env.now;
  activated_at = none;
}

-- UPDATE layer_publications
unfoldable pub repoint : Env → ℕ → ℕ → Db → Db
repoint env layer_id snapshot_id db = record db {
  pointers =
      update_where (λ p. p.layer_id == layer_id)
        (λ p. record p {
          previous_snapshot_id = some p.active_snapshot_id;
          active_snapshot_id = snapshot_id;
          pointer_updated_at = env.now;
        })
        db.pointers;
}

abbrev pub rollback_response : Env → Snapshot → (generation : ℕ) → Response
rollback_response env t generation = rolled_back env.fresh t.id generation t.revision_id

-- What `rollback` writes after the snapshot is inserted and the pointer moved.
unfoldable pub rollback_recorded :
    Env → ℕ → Pointer → Snapshot → RollbackDto → Actor → ℕ → (generation : ℕ) → Db → Db
rollback_recorded env layer_id p t dto actor key generation db =
    let d = activate_snapshot env env.fresh db in
    let d = touch_layer env layer_id d in
    let d =
      add_audit
        (record {
          actor_id = actor.id;
          actor_role = actor.role;
          action = "publication.rolled_back";
          resource_type = "publication";
          resource_id = env.fresh;
          request_id = env.request_id;
          before_digest = some (
              env.sha256 (
                env.json_text (
                  object (
                    ("activeSnapshotId", ident p.active_snapshot_id)
                    ∷ ("previousSnapshotId", ident? p.previous_snapshot_id)
                    ∷ []))));
          after_digest = some (
              env.sha256 (
                env.json_text (
                  object (
                    ("activeSnapshotId", ident env.fresh)
                    ∷ ("previousSnapshotId", ident p.active_snapshot_id)
                    ∷ ("generation", num generation)
                    ∷ []))));
          metadata = object (
              ("layerId", ident layer_id)
              ∷ ("targetSnapshotId", ident t.id)
              ∷ ("targetGeneration", num t.generation)
              ∷ ("activeSnapshotId", ident env.fresh)
              ∷ ("activeRevisionId", ident t.revision_id)
              ∷ ("generation", num generation)
              ∷ ("reason", str dto.reason)
              ∷ ("clientIntent", str "desktop")
              ∷ ("publicCacheVersion", num generation)
              ∷ []);
        })
        d in
    complete actor.id layer_rollback key (rollback_response env t generation) 201
      (some (publication_pointer_etag layer_id env.fresh generation)) none d

unfoldable pub rollback_writes :
    Env → ℕ → Pointer → Snapshot → RollbackDto → Actor → ℕ → Tx (Response × Etag)
rollback_writes env layer_id p t dto actor key db =
    (do
      insert_snapshot (restored env layer_id t actor db)
      λ d. guard (is_some (pointer layer_id d)) (app publication_pointer_stale) d
      modify (repoint env layer_id env.fresh)
      modify (rollback_recorded env layer_id p t dto actor key (next_generation layer_id db))
      pure (
        rollback_response env t (next_generation layer_id db),
        publication_pointer_etag layer_id env.fresh (next_generation layer_id db),
      ))
      db

unfoldable pub rollback_owned : Env → ℕ → RollbackDto → Etag → Actor → ℕ → Tx (Response × Etag)
rollback_owned env layer_id dto expected actor key = do
  lock_layer layer_id >>= λ _. pure tt
  active ← first_or (active_pointer layer_id) (app rollback_target_invalid)
  guard (is_pointer_etag expected layer_id active.0.active_snapshot_id active.1.generation)
      (app etag_mismatch)
  guard (not (active.0.active_snapshot_id == dto.target_snapshot_id)) (app rollback_target_active)
  t ← first_or (target layer_id dto.target_snapshot_id) (app rollback_target_not_found)
  λ db. guard (not (is_editorial t.revision_id actor.id db)) (app separation_of_duties) db
  rollback_writes env layer_id active.0 t dto actor key

abbrev replayed_rollback : Option Response → Option Etag → Tx (Response × Etag)
replayed_rollback (some response) (some etag) = pure (response, etag)
replayed_rollback _ _ = throw (app idempotency_in_progress)

abbrev is_desktop : Option String → Bool
is_desktop none = false
is_desktop (some intent) = str_eq intent "desktop"

-- `rollback`
unfoldable pub rollback : Env → ℕ → RollbackDto → Option Etag → Actor → ℕ → Tx (Response × Etag)
rollback env layer_id dto etag actor key = do
  guard (is_desktop dto.client_intent) (app bad_request)
  expected ← require_pointer_etag etag
  once actor.id layer_rollback key (rollback_digest env layer_id dto etag)
      (rollback_owned env layer_id dto expected actor key)
      (λ c. replayed_rollback c.response c.etag)
