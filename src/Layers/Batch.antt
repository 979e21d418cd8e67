-- ===== src/Layers/Batch.antt =====
-- `syncBatch` of src/layers/feature-sync.service.ts: the mutations of a batch in order, each in a
-- savepoint of its own and with a receipt, and `prune` of change-feed-retention.service.ts.
use text.Mathlib.Text.{◌==◌ as str_eq}
use danangmap_backend.Prelude.{
  ℕ, ◌+◌, String, Bool, true, false, not, ◌&&◌, List, [], ◌∷◌, ◌++◌, Option, none, some, ltb, ◌==◌,
  if◌then◌else◌, exists_by, find_by, select_by, is_some, map, or_else,
}
use danangmap_backend.Json.{Json, undefined, null, num, real, str, ident, arr, items, object, str?}
use danangmap_backend.Domain.{
  AppError, Error, app, query_failed, uq_features_external_identity, uq_client_mutation,
  uq_client_feature_mapping, idempotency_key_reused, sync_payload_hash_mismatch,
  revision_not_editable, etag_mismatch, etag_required, sync_base_revision_mismatch,
  sync_cursor_expired, sync_base_cursor_invalid, validation_failed, is_draft,
}
use danangmap_backend.Database.{
  Db, Tx, Result, ok, err, Revision, Etag, revision_etag, guard, modify, pure, throw, ◌>>◌, ◌>>=◌,
}
use danangmap_backend.Database.Sync.{
  SyncOperation, create, update, delete, SyncResult, applied, rejected, SyncError, refused,
  external_identity_conflict, ClientMutation,
}
use danangmap_backend.Database.Queries.{Env}
use danangmap_backend.Idempotency.Canonical.{digest}
use danangmap_backend.Layers.{FeatureInput, FeaturePatch, Mutation}
use danangmap_backend.Layers.Mutations.{Context}
use danangmap_backend.Layers.Edits.{apply_mutation}
use danangmap_backend.Layers.Schema.{fails}

-- An optional property of the request, absent where it is `none`.
abbrev optional {ℓ} : {A : Type ℓ} → (A → Json) → Option A → Json
optional f none = undefined
optional f (some a) = f a

abbrev nullable {ℓ} : {A : Type ℓ} → (A → Json) → Option A → Json
nullable f none = null
nullable f (some a) = f a

abbrev operation_text : SyncOperation → String
operation_text create = "create"
operation_text update = "update"
operation_text delete = "delete"

abbrev feature_json : FeatureInput → Json
feature_json f = object (
    ("geometry", f.geometry)
    ∷ ("geometryKind", str f.geometry_kind)
    ∷ ("radiusM", optional real f.radius_m)
    ∷ ("externalSource", str? f.external_source)
    ∷ ("externalId", str? f.external_id)
    ∷ ("properties", object f.properties)
    ∷ [])

abbrev patch_json : FeaturePatch → Json
patch_json p = object (
    ("geometry", optional (λ g. g) p.geometry)
    ∷ ("geometryKind", str? p.geometry_kind)
    ∷ ("radiusM", optional (nullable real) p.radius_m)
    ∷ ("externalSource", optional (nullable str) p.external_source)
    ∷ ("externalId", optional (nullable str) p.external_id)
    ∷ ("properties", optional object p.properties)
    ∷ ("unsetProperties", optional (λ ks. arr (items (map str ks))) p.unset_properties)
    ∷ [])

-- `mutationPayloadHash`
unfoldable pub mutation_payload_hash : Env → Mutation → String
mutation_payload_hash env m = digest env (
    object (
      ("clientMutationId", ident m.client_mutation_id)
      ∷ ("operation", str (operation_text m.operation))
      ∷ ("baseRevisionVersion", num m.base_revision_version)
      ∷ ("clientFeatureId", optional ident m.client_feature_id)
      ∷ ("featureId", optional ident m.feature_id)
      ∷ ("baseVersionId", optional ident m.base_version_id)
      ∷ ("feature", optional feature_json m.feature)
      ∷ ("patch", optional patch_json m.patch)
      ∷ []))

-- `requireRevisionVersion`
unfoldable pub require_revision_version : Option Etag → ℕ → Tx ℕ
require_revision_version none id = throw (app etag_required)
require_revision_version (some (revision_etag r v)) id =
    if r == id then pure v else throw (app etag_mismatch)
require_revision_version (some _) id = throw (app etag_mismatch)

-- `cursorDecode`
abbrev pub cursor_decode : Option ℕ → Tx ℕ
cursor_decode none = throw (app validation_failed)
cursor_decode (some n) = pure n

abbrev pub is_of_client : ℕ → ℕ → ClientMutation → Bool
is_of_client revision_id client_id r = r.revision_id == revision_id && r.client_id == client_id

-- `loadReceipts`
abbrev pub load_receipts : ℕ → ℕ → List Mutation → Db → List ClientMutation
load_receipts revision_id client_id ms db =
    select_by
      (λ r.
        is_of_client revision_id client_id r
        && exists_by (λ (m : Mutation). m.client_mutation_id == r.mutation_id) ms)
      db.mutations

-- `receipts.get`
abbrev pub receipt_of : ℕ → List ClientMutation → Option ClientMutation
receipt_of id receipts = find_by (λ r. r.mutation_id == id) receipts

abbrev add_mapping : Option ℕ → Option ℕ → List (ℕ × ℕ) → List (ℕ × ℕ)
add_mapping (some client) (some canonical) m = (client, canonical) ∷ m
add_mapping _ _ m = m

collect_mappings : List ClientMutation → List (ℕ × ℕ) → List (ℕ × ℕ)
collect_mappings [] m = m
collect_mappings (r ∷ rs) m =
    collect_mappings rs (add_mapping r.client_feature_id r.canonical_feature_id m)

-- `loadClientMappings`
unfoldable pub load_mappings : ℕ → ℕ → Db → List (ℕ × ℕ)
unfolding collect_mappings
load_mappings revision_id client_id db =
    collect_mappings (select_by (is_of_client revision_id client_id) db.mutations) []

-- Whether a stored receipt is of another payload.
abbrev pub is_reused : Option ClientMutation → String → Bool
is_reused none hash = false
is_reused (some r) hash = not (str_eq r.request_digest hash)

-- The first loop of `syncBatch`.
unfoldable pub check_hashes : Env → List ClientMutation → List Mutation → Option AppError
check_hashes env receipts [] = none
check_hashes env receipts (m ∷ ms) =
    let hash = mutation_payload_hash env m in
    let rest = check_hashes env receipts ms in
    or_else
      (fails (is_reused (receipt_of m.client_mutation_id receipts) hash) idempotency_key_reused)
      (or_else (fails (not (str_eq m.payload_hash hash)) sync_payload_hash_mismatch) rest)

abbrev pub new_mutations : List ClientMutation → List Mutation → List Mutation
new_mutations receipts ms =
    select_by (λ m. not (is_some (receipt_of m.client_mutation_id receipts))) ms

-- `assertBatchPreconditions`, for a batch with new mutations.
unfoldable pub assert_preconditions : Revision → ℕ → ℕ → List Mutation → Option AppError
assert_preconditions r expected base_cursor [] = none
assert_preconditions r expected base_cursor (m ∷ ms) =
    or_else (fails (not (is_draft r.status)) revision_not_editable) (
      or_else (fails (not (r.lock_version == expected)) etag_mismatch) (
        or_else
          (fails (exists_by (λ n. not (n.base_revision_version == expected)) (m ∷ ms))
            sync_base_revision_mismatch)
          (or_else (fails (ltb base_cursor r.change_cursor_floor) sync_cursor_expired)
            (fails (ltb r.cursor_seq base_cursor) sync_base_cursor_invalid))))

-- `errorResult`
abbrev error_result : Mutation → ℕ → SyncError → SyncResult
error_result m cursor e = rejected m.client_mutation_id m.operation m.feature_id cursor e

-- `rejectedResult`
abbrev pub rejected_result : Mutation → ℕ → Error → Result SyncResult
rejected_result m cursor (query_failed uq_features_external_identity) =
    ok (error_result m cursor external_identity_conflict)
rejected_result m cursor (app e) = ok (error_result m cursor (refused e))
rejected_result m cursor e = err e

abbrev pub or_rejected : Mutation → ℕ → Db → Result (SyncResult × Db) → Result (SyncResult × Db)
or_rejected m cursor db (ok x) = ok x
or_rejected m cursor db (err e) = elim (rejected_result m cursor e) [
  | ok result ↦ ok (result, db)
  | err e ↦ err e
]

-- One mutation in its savepoint.
unfoldable pub attempt : Context → Mutation → List (ℕ × ℕ) → ℕ → Tx SyncResult
attempt c m mappings cursor db =
    or_rejected m cursor db (apply_mutation c m mappings (cursor + 1) db)

abbrev pub is_applied : SyncResult → Bool
is_applied (applied _ _ _ _ _ _) = true
is_applied _ = false

-- `result.status === 'applied' ? result.canonicalFeatureId : null`
abbrev pub canonical_of : SyncResult → Option ℕ
canonical_of (applied _ _ _ id _ _) = some id
canonical_of _ = none

abbrev pub client_of : SyncResult → Option ℕ
client_of (applied _ _ client _ _ _) = client
client_of _ = none

abbrev pub next_cursor : ℕ → SyncResult → ℕ
next_cursor cursor result = if is_applied result then cursor + 1 else cursor

abbrev pub receipt_row : Context → Mutation → SyncResult → ℕ → ClientMutation
receipt_row c m result cursor = record {
  revision_id = c.revision.id;
  client_id = c.client_id;
  mutation_id = m.client_mutation_id;
  request_digest = mutation_payload_hash c.env m;
  response_payload = result;
  server_cursor = cursor;
  client_feature_id = m.client_feature_id;
  canonical_feature_id = canonical_of result;
}

abbrev pub same_some : Option ℕ → Option ℕ → Bool
same_some (some a) (some b) = a == b
same_some _ _ = false

-- Whether uq_client_feature_mapping refuses a row: another one names the same feature of the client.
abbrev pub is_mapped : ClientMutation → Db → Bool
is_mapped row db =
    is_some row.canonical_feature_id
    && exists_by
        (λ r.
          is_of_client row.revision_id row.client_id r
          && is_some r.canonical_feature_id
          && same_some r.client_feature_id row.client_feature_id)
        db.mutations

-- `persistReceipt`, with uq_client_mutation and uq_client_feature_mapping
unfoldable pub persist_receipt : ClientMutation → Tx (Unit {0})
persist_receipt row db =
    (do
      guard
          (not (
            exists_by
              (λ r.
                is_of_client row.revision_id row.client_id r && r.mutation_id == row.mutation_id)
              db.mutations))
          (query_failed uq_client_mutation)
      guard (not (is_mapped row db)) (query_failed uq_client_feature_mapping)
      modify (λ d. record d { mutations = d.mutations ++ row ∷ [] }))
      db

-- What the loop of `syncBatch` carries along.
pub record Progress : Type 0 where
  pub mappings : List (ℕ × ℕ)
  pub cursor : ℕ
  pub applied_count : ℕ
  pub results : List SyncResult

abbrev pub replayed_progress : ClientMutation → Progress → Progress
replayed_progress r p = record p {
  mappings = add_mapping r.client_feature_id r.canonical_feature_id p.mappings;
  results = p.results ++ r.response_payload ∷ [];
}

abbrev pub next_progress : SyncResult → Progress → Progress
next_progress result p = record {
  mappings = add_mapping (client_of result) (canonical_of result) p.mappings;
  cursor = next_cursor p.cursor result;
  applied_count = next_cursor p.applied_count result;
  results = p.results ++ result ∷ [];
}

-- A mutation that has no receipt yet.
unfoldable pub sync_new : Context → Mutation → Progress → Tx Progress
sync_new c m p = do
  result ← attempt c m p.mappings p.cursor
  persist_receipt (receipt_row c m result (next_cursor p.cursor result))
  pure (next_progress result p)

-- One turn of the loop.
unfoldable pub sync_item : Context → List ClientMutation → Mutation → Progress → Tx Progress
sync_item c receipts m p = elim (receipt_of m.client_mutation_id receipts) [
  | some r ↦ pure (replayed_progress r p)
  | none ↦ sync_new c m p
]

unfoldable pub sync_items : Context → List ClientMutation → List Mutation → Progress → Tx Progress
sync_items c receipts [] p = pure p
sync_items c receipts (m ∷ ms) p = sync_item c receipts m p >>= λ q. sync_items c receipts ms q
