-- ===== src/Layers/Edits.antt =====
-- `applyUpdateOrDelete` and `applyMutation` of src/layers/feature-sync.service.ts.
use danangmap_backend.Prelude.{
  ℕ, ◌-◌, String, Bool, true, not, ◌&&◌, ◌||◌, List, [], ◌∷◌, ◌++◌, Option, none, some, ◌==◌,
  if◌then◌else◌, find_by, select_by, update_where, is_some, map, or_else,
}
use danangmap_backend.Json.{Json, str, ident, object}
use danangmap_backend.Domain.{
  app, query_failed, uq_features_external_identity, schema_violation,
  client_feature_mapping_not_found, feature_not_found,
}
use danangmap_backend.Database.{
  Db, Tx, FeatureVersion, AttachmentLink, guard, modify, pure, throw, first_or, ◌>>◌, ◌>>=◌,
}
use danangmap_backend.Database.Sync.{
  SyncOperation, create, update, delete, SyncResult, applied, conflict, Feature,
}
use danangmap_backend.Database.Queries.{Env}
use danangmap_backend.Layers.{FeatureInput, FeaturePatch, Mutation}
use danangmap_backend.Layers.Patch.{CurrentFeature, merge_patch, changed_paths, patch_changed_paths}
use danangmap_backend.Layers.Mutations.{
  same_bool, Context, mapping, refuse_if, validate_feature, same_identity, identity_taken,
  insert_version, insert_change, change_row, feature_audit, origin_text, apply_create,
}

-- `currentFeature`: revision_features JOIN features JOIN feature_versions
abbrev join_current : Env → Option Feature → Option FeatureVersion → Option CurrentFeature
join_current env (some f) (some v) = some (record {
  id = f.id;
  geometry = env.st_as_geojson v.geometry;
  properties = v.properties;
  geometry_kind = v.geometry_kind;
  radius_m = v.radius_m;
  external_source = f.external_source;
  external_id = f.external_id;
  version_id = v.id;
})
join_current env _ _ = none

unfoldable pub current_feature : Env → ℕ → ℕ → Db → Option CurrentFeature
current_feature env revision_id feature_id db =
    elim (find_by (λ l. l.revision_id == revision_id && l.feature_id == feature_id)
      db.revision_features) [
        | none ↦ none
        | some l ↦
            join_current env (find_by (λ f. f.id == feature_id) db.features)
              (find_by (λ v. v.id == l.feature_version_id) db.feature_versions)
      ]

abbrev keeps_identity : CurrentFeature → FeatureInput → Bool
keeps_identity current next =
    same_identity next.external_source current.external_source
    && same_identity next.external_id current.external_id

abbrev set_identity : ℕ → FeatureInput → Db → Db
set_identity feature_id next db = record db {
  features =
      update_where (λ f. f.id == feature_id)
        (λ f. record f { external_source = next.external_source; external_id = next.external_id })
        db.features;
}

-- UPDATE features SET external_source=$2,external_id=$3 WHERE id=$1, where either has changed
unfoldable pub update_identity : Context → CurrentFeature → ℕ → FeatureInput → Tx (Unit {0})
update_identity c current feature_id next db =
    (do
      guard
          (keeps_identity current next
            || not (
                identity_taken feature_id c.revision.layer_id next.external_source next.external_id
                  db))
          (query_failed uq_features_external_identity)
      modify (λ d. if keeps_identity current next then d else set_identity feature_id next d))
      db

-- The INSERT ... SELECT of feature_version_attachments.
abbrev copy_links : ℕ → ℕ → Db → Db
copy_links from to db = record db {
  links =
      db.links
      ++ map (λ (l : AttachmentLink). record l { feature_version_id = to })
          (select_by (λ l. l.feature_version_id == from) db.links);
}

abbrev relink : ℕ → ℕ → ℕ → Db → Db
relink revision_id feature_id version_id db = record db {
  revision_features =
      update_where (λ l. l.revision_id == revision_id && l.feature_id == feature_id)
        (λ l. record l { feature_version_id = version_id }) db.revision_features;
}

abbrev edit_metadata : Context → Mutation → List (String × Json) → Json
edit_metadata c m more = object (
    ("revisionId", ident c.revision.id)
    ∷ ("origin", str (origin_text c.origin))
    ∷ ("clientMutationId", ident m.client_mutation_id)
    ∷ more)

-- The writes of an update, once its patch is merged into `next`.
unfoldable pub update_feature :
    Context → Mutation → ℕ → CurrentFeature → FeaturePatch → ℕ → FeatureInput → Tx SyncResult
update_feature c m feature_id current patch next_cursor next = do
  refuse_if (validate_feature c.env c.revision c.fields next true)
  update_identity c current feature_id next
  version_id ← insert_version c.env c.revision m.client_mutation_id feature_id next c.actor
  modify (copy_links current.version_id version_id)
  modify (relink c.revision.id feature_id version_id)
  insert_change (
      change_row c next_cursor update feature_id (some version_id)
        (patch_changed_paths c.env patch))
  modify (
      feature_audit c "feature.updated" feature_id (
        edit_metadata c m
          (("previousVersionId", ident current.version_id) ∷ ("versionId", ident version_id) ∷ [])))
  pure (
      applied m.client_mutation_id update m.client_feature_id feature_id (some version_id)
        next_cursor)

-- An update of the version that the client has edited.
unfoldable pub apply_update :
    Context → Mutation → ℕ → CurrentFeature → FeaturePatch → ℕ → Tx SyncResult
apply_update c m feature_id current patch next_cursor =
    merge_patch c.env c.fields current patch >>= λ next.
    update_feature c m feature_id current patch next_cursor next

abbrev unlink : ℕ → ℕ → Db → Db
unlink revision_id feature_id db = record db {
  revision_features =
      select_by (λ l. not (l.revision_id == revision_id && l.feature_id == feature_id))
        db.revision_features;
}

unfoldable pub apply_delete : Context → Mutation → ℕ → ℕ → Tx SyncResult
apply_delete c m feature_id next_cursor = do
  guard (not (is_some m.patch || is_some m.feature)) (app schema_violation)
  modify (unlink c.revision.id feature_id)
  insert_change (change_row c next_cursor delete feature_id none [])
  modify (feature_audit c "feature.deleted" feature_id (edit_metadata c m []))
  pure (applied m.client_mutation_id delete m.client_feature_id feature_id none next_cursor)

abbrev pub patched : Context → Mutation → ℕ → CurrentFeature → ℕ → Tx SyncResult
patched c m feature_id current next_cursor = elim m.patch [
  | none ↦ throw (app schema_violation)
  | some patch ↦
      guard (not (is_some m.feature)) (app schema_violation)
      >> apply_update c m feature_id current patch next_cursor
]

-- The part of `applyUpdateOrDelete` that follows the comparison of versions.
unfoldable pub apply_edit :
    SyncOperation → Context → Mutation → ℕ → CurrentFeature → ℕ → Tx SyncResult
apply_edit delete c m feature_id current next_cursor = apply_delete c m feature_id next_cursor
apply_edit _ c m feature_id current next_cursor = patched c m feature_id current next_cursor

-- The identifier of the feature that a mutation names, or that its client has given a name.
abbrev pub addressed : Mutation → List (ℕ × ℕ) → Option ℕ
addressed m mappings =
    or_else m.feature_id (elim m.client_feature_id [ none ↦ none | some id ↦ mapping id mappings ])

-- `applyUpdateOrDelete`: an edit of a version that is no longer the current one is a conflict.
unfoldable pub apply_update_or_delete : Context → Mutation → List (ℕ × ℕ) → ℕ → Tx SyncResult
apply_update_or_delete c m mappings next_cursor = elim m.base_version_id [
  | none ↦ throw (app schema_violation)
  | some base ↦ do
    guard (not (same_bool (is_some m.feature_id) (is_some m.client_feature_id)))
        (app schema_violation)
    feature_id ← first_or (λ db. addressed m mappings) (app client_feature_mapping_not_found)
    current ← first_or (current_feature c.env c.revision.id feature_id) (app feature_not_found)
    λ db.
        if current.version_id == base
        then apply_edit m.operation c m feature_id current next_cursor db
        else pure
            (conflict m.client_mutation_id m.operation feature_id (next_cursor - 1)
              current.version_id (changed_paths c.env feature_id base current db))
            db
]

abbrev pub apply_by : SyncOperation → Context → Mutation → List (ℕ × ℕ) → ℕ → Tx SyncResult
apply_by create c m mappings next_cursor = apply_create c m mappings next_cursor
apply_by _ c m mappings next_cursor = apply_update_or_delete c m mappings next_cursor

-- `applyMutation`
unfoldable pub apply_mutation : Context → Mutation → List (ℕ × ℕ) → ℕ → Tx SyncResult
apply_mutation c m mappings next_cursor = apply_by m.operation c m mappings next_cursor
