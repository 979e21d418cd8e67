-- ===== src/Layers/Mutations.antt =====
-- The writes of `applyCreate` of src/layers/feature-sync.service.ts, with the statements that updates
-- and deletions share.
use text.Mathlib.Text.{◌==◌ as str_eq}
use danangmap_backend.Prelude.{
  ℕ, ◌+◌, String, Bool, true, false, not, ◌&&◌, ◌||◌, List, [], ◌∷◌, ◌++◌, Option, none, some, leb,
  ◌==◌, exists_by, find_by, max_by, is_some, or_else,
}
use danangmap_backend.Json.{Json, Number, null, real, str, ident, arr, items, object}
use danangmap_backend.Domain.{
  AppError, app, query_failed, primary_key, uq_features_external_identity, uq_revision_cursor,
  ck_properties_size, schema_violation, client_feature_id_reused, geometry_type_not_allowed,
}
use danangmap_backend.Database.{
  Db, Tx, Revision, LayerField, guard, modify, pure, throw, ◌>>◌, ◌>>=◌,
}
use danangmap_backend.Database.Sync.{SyncOperation, create, SyncResult, applied, Change}
use danangmap_backend.Database.Queries.{Env, Actor, add_audit}
use danangmap_backend.Idempotency.Canonical.{digest}
use danangmap_backend.Layers.{FeatureInput, Mutation, Origin, editor, recovery}
use danangmap_backend.Layers.Schema.{fails, validate_properties}
use danangmap_backend.Layers.Geometry.{validate}

-- What a batch fixes for all of its mutations.
pub record Context : Type 0 where
  pub env : Env
  pub revision : Revision
  pub fields : List LayerField
  pub client_id : ℕ
  pub origin : Origin
  pub actor : Actor

-- `clientMappings`, the entry set last first.
abbrev pub mapping : ℕ → List (ℕ × ℕ) → Option ℕ
mapping id m = elim (find_by (λ e. e.0 == id) m) [ none ↦ none | some e ↦ some e.1 ]

abbrev pub refuse_if : Option AppError → Tx (Unit {0})
refuse_if none = pure tt
refuse_if (some e) = throw (app e)

-- `Boolean(text)`
abbrev is_truthy : Option String → Bool
is_truthy none = false
is_truthy (some s) = not (str_eq s "")

abbrev pub same_bool : Bool → Bool → Bool
same_bool true b = b
same_bool false b = not b

-- `validateFeature`
unfoldable pub validate_feature :
    Env → Revision → List LayerField → FeatureInput → Bool → Option AppError
validate_feature env r fs feature allow_materialized =
    or_else
      (fails (not (same_bool (is_truthy feature.external_source) (is_truthy feature.external_id)))
        schema_violation)
      (or_else
        (fails (not (exists_by (str_eq feature.geometry_kind) r.allowed_geometry_kinds))
          geometry_type_not_allowed)
        (or_else (validate env feature.geometry feature.geometry_kind feature.radius_m)
          (validate_properties env allow_materialized fs feature.properties)))

abbrev pub same_identity : Option String → Option String → Bool
same_identity (some a) (some b) = str_eq a b
same_identity _ _ = false

-- Whether another feature of the layer that is not deleted has this external identity.
abbrev pub identity_taken : ℕ → ℕ → Option String → Option String → Db → Bool
identity_taken feature_id layer_id source id db =
    exists_by
      (λ f.
        not (f.id == feature_id)
        && f.layer_id == layer_id
        && not (is_some f.deleted_at)
        && same_identity f.external_source source
        && same_identity f.external_id id)
      db.features

-- INSERT INTO features
unfoldable pub insert_feature : Env → Revision → ℕ → FeatureInput → Tx ℕ
insert_feature env r mutation_id feature db =
    let id = env.feature_uuid mutation_id in
    (do
      guard (not (exists_by (λ f. f.id == id) db.features)) (query_failed primary_key)
      guard (not (identity_taken id r.layer_id feature.external_source feature.external_id db))
          (query_failed uq_features_external_identity)
      modify (λ d. record d {
        features =
            d.features
            ++ record {
              id = id;
              layer_id = r.layer_id;
              external_source = feature.external_source;
              external_id = feature.external_id;
              deleted_at = none;
            }
              ∷ [];
      })
      pure id)
      db

abbrev number? : Option Number → Json
number? none = null
number? (some x) = real x

-- `featureChecksum`
abbrev pub feature_checksum : Env → Json → List (String × Json) → Option Number → String
feature_checksum env geometry properties radius = digest env (
    object (
      ("geometry", geometry)
      ∷ ("properties", object properties)
      ∷ ("radiusM", number? radius)
      ∷ ("attachments", arr (items []))
      ∷ []))

-- `insertVersion`, with the primary key and ck_properties_size, which reads the text of the jsonb.
unfoldable pub insert_version : Env → Revision → ℕ → ℕ → FeatureInput → Actor → Tx ℕ
insert_version env r mutation_id feature_id feature actor db =
    let id = env.version_uuid mutation_id in
    (do
      guard (not (exists_by (λ v. v.id == id) db.feature_versions)) (query_failed primary_key)
      guard (leb (env.utf8_bytes (env.jsonb_text (object feature.properties))) 65536)
          (query_failed ck_properties_size)
      modify (λ d. record d {
        feature_versions =
            d.feature_versions
            ++ record {
              id = id;
              feature_id = feature_id;
              revision_id = r.id;
              geometry = env.st_geom_from_geojson feature.geometry;
              geometry_kind = feature.geometry_kind;
              properties = feature.properties;
              radius_m = feature.radius_m;
              checksum = feature_checksum env feature.geometry feature.properties feature.radius_m;
              created_by = actor.id;
            }
              ∷ [];
      })
      pure id)
      db

-- `insertChange`, with uq_revision_cursor
unfoldable pub insert_change : Change → Tx (Unit {0})
insert_change row db =
    (guard
          (not (
            exists_by
              (λ c. c.revision_id == row.revision_id && c.server_cursor == row.server_cursor)
              db.changes))
          (query_failed uq_revision_cursor)
        >> modify (λ d. record d { changes = d.changes ++ row ∷ [] }))
      db

abbrev pub change_row : Context → ℕ → SyncOperation → ℕ → Option ℕ → List String → Change
change_row c cursor operation feature_id version_id paths = record {
  revision_id = c.revision.id;
  server_cursor = cursor;
  operation = operation;
  feature_id = feature_id;
  version_id = version_id;
  changed_paths = paths;
  actor_id = c.actor.id;
  changed_at = c.env.now;
}

abbrev pub origin_text : Origin → String
origin_text editor = "editor"
origin_text recovery = "recovery"

-- `insertFeatureAudit`
abbrev pub feature_audit : Context → String → ℕ → Json → Db → Db
feature_audit c action feature_id metadata = add_audit (record {
  actor_id = c.actor.id;
  actor_role = c.actor.role;
  action = action;
  resource_type = "feature";
  resource_id = feature_id;
  request_id = c.env.request_id;
  before_digest = none;
  after_digest = none;
  metadata = metadata;
})

-- COALESCE(max(ordinal)+1,0)
abbrev next_ordinal : ℕ → Db → ℕ
next_ordinal revision_id db =
    max_by (λ m. m.revision_id == revision_id) (λ m. m.ordinal + 1) db.revision_features

abbrev link_feature : ℕ → ℕ → ℕ → Db → Db
link_feature revision_id feature_id version_id db = record db {
  revision_features =
      db.revision_features
      ++ record {
        revision_id = revision_id;
        feature_id = feature_id;
        feature_version_id = version_id;
        ordinal = next_ordinal revision_id db;
      }
        ∷ [];
}

-- `applyCreate` after its checks of the request.
unfoldable pub create_feature : Context → Mutation → ℕ → FeatureInput → ℕ → Tx SyncResult
create_feature c m client_feature_id feature next_cursor = do
  refuse_if (validate_feature c.env c.revision c.fields feature false)
  feature_id ← insert_feature c.env c.revision m.client_mutation_id feature
  version_id ← insert_version c.env c.revision m.client_mutation_id feature_id feature c.actor
  modify (link_feature c.revision.id feature_id version_id)
  insert_change (
      change_row c next_cursor create feature_id (some version_id) ("geometry" ∷ "properties" ∷ []))
  modify (
      feature_audit c "feature.created" feature_id (
        object (
          ("revisionId", ident c.revision.id)
          ∷ ("origin", str (origin_text c.origin))
          ∷ ("clientId", ident c.client_id)
          ∷ ("clientMutationId", ident m.client_mutation_id)
          ∷ [])))
  pure (
      applied m.client_mutation_id create (some client_feature_id) feature_id (some version_id)
        next_cursor)

-- `applyCreate`
unfoldable pub apply_create : Context → Mutation → List (ℕ × ℕ) → ℕ → Tx SyncResult
apply_create c m mappings next_cursor = elim m.client_feature_id [
  | none ↦ throw (app schema_violation)
  | some client_feature_id ↦ elim m.feature [
    | none ↦ throw (app schema_violation)
    | some feature ↦ do
      guard (not (is_some m.feature_id || is_some m.base_version_id)) (app schema_violation)
      guard (not (is_some (mapping client_feature_id mappings))) (app client_feature_id_reused)
      create_feature c m client_feature_id feature next_cursor
  ]
]
