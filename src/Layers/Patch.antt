-- ===== src/Layers/Patch.antt =====
-- `mergePatch`, `changedPaths` and `patchChangedPaths` of src/layers/feature-sync.service.ts.
use text.Mathlib.Text.{◌==◌ as str_eq}
use Prim.Native.String.{◌++◌ as string_append}
use danangmap_backend.Prelude.{
  ℕ, String, Bool, true, false, not, ◌&&◌, ◌||◌, List, [], ◌∷◌, ◌++◌, Option, none, some, ltb, ◌==◌,
  if◌then◌else◌, exists_by, find_by, select_by, map,
}
use danangmap_backend.Json.{Json, Number, ident, arr, items, is_undefined}
use danangmap_backend.Json.Numbers.{number_eq, number_lt}
use danangmap_backend.Domain.{app, schema_violation}
use danangmap_backend.Database.{
  Db, Tx, LayerField, FeatureVersion, AttachmentLink, guard, pure, ◌>>◌, ◌>>=◌,
}
use danangmap_backend.Database.Queries.{Env}
use danangmap_backend.Layers.{FeatureInput, FeaturePatch}
use danangmap_backend.Layers.Schema.{property, is_file_type}

-- `CurrentFeatureRow`
pub record CurrentFeature : Type 0 where
  pub id : ℕ
  pub geometry : Json
  pub properties : List (String × Json)
  pub geometry_kind : String
  pub radius_m : Option Number
  pub external_source : Option String
  pub external_id : Option String
  pub version_id : ℕ

-- `properties[key] = value`: a key that is there keeps its place.
unfoldable pub set_entry : String → Json → List (String × Json) → List (String × Json)
set_entry key v [] = (key, v) ∷ []
set_entry key v (e ∷ es) =
    let rest = set_entry key v es in if str_eq e.0 key then (key, v) ∷ es else e ∷ rest

unfoldable pub set_entries : List (String × Json) → List (String × Json) → List (String × Json)
unfolding set_entry
set_entries entries [] = entries
set_entries entries (e ∷ es) = set_entries (set_entry e.0 e.1 entries) es

unfoldable pub unset_entries : List (String × Json) → List String → List (String × Json)
unset_entries entries [] = entries
unset_entries entries (k ∷ ks) = unset_entries (select_by (λ e. not (str_eq e.0 k)) entries) ks

-- `value ?? []`
abbrev pub list_or_nil {ℓ} : {A : Type ℓ} → Option (List A) → List A
list_or_nil none = []
list_or_nil (some xs) = xs

abbrev pub or_default {ℓ} : {A : Type ℓ} → A → Option A → A
or_default a none = a
or_default a (some b) = b

-- The order of the sort of a field's files.
abbrev link_before : Env → AttachmentLink → AttachmentLink → Bool
link_before env l m =
    ltb l.display_order m.display_order
    || (l.display_order == m.display_order
        && env.locale_before (env.uuid_text l.attachment_id) (env.uuid_text m.attachment_id))

insert_link : Env → AttachmentLink → List AttachmentLink → List AttachmentLink
insert_link env l [] = l ∷ []
insert_link env l (m ∷ ms) =
    let rest = insert_link env l ms in if link_before env m l then m ∷ rest else l ∷ m ∷ ms

sorted_links : Env → List AttachmentLink → List AttachmentLink
unfolding insert_link
sorted_links env [] = []
sorted_links env (l ∷ ls) = insert_link env l (sorted_links env ls)

-- The ids of one field's files, in order.
unfoldable pub files : Env → ℕ → String → Db → Json
unfolding sorted_links
files env version_id key db = arr (
    items (
      map (λ (l : AttachmentLink). ident l.attachment_id)
        (sorted_links env (
          select_by (λ l. l.feature_version_id == version_id && str_eq l.field_key key) db.links))))

-- Whether a patch sets or unsets a property.
abbrev touches : String → FeaturePatch → Bool
touches key patch =
    exists_by (λ e. str_eq e.0 key) (list_or_nil patch.properties)
    || exists_by (λ k. str_eq k key) (list_or_nil patch.unset_properties)

-- The loop over the file fields: their values are taken from the links of the current version.
unfoldable pub merge_files :
    Env → ℕ → FeaturePatch → List LayerField → List (String × Json) → Tx (List (String × Json))
unfolding files
merge_files env version_id patch [] properties db = pure properties db
merge_files env version_id patch (f ∷ fs) properties db = elim (is_file_type f.type) [
  | false ↦ merge_files env version_id patch fs properties db
  | true ↦
      (guard (not (touches f.key patch)) (app schema_violation)
          >> merge_files env version_id patch fs
              (set_entry f.key (files env version_id f.key db) properties))
        db
]

-- The feature that `mergePatch` returns, with the given properties.
abbrev patched_feature : CurrentFeature → FeaturePatch → List (String × Json) → FeatureInput
patched_feature current patch properties = record {
  geometry = or_default current.geometry patch.geometry;
  geometry_kind = or_default current.geometry_kind patch.geometry_kind;
  radius_m = or_default current.radius_m patch.radius_m;
  external_source = or_default current.external_source patch.external_source;
  external_id = or_default current.external_id patch.external_id;
  properties = properties;
}

-- `mergePatch`
unfoldable pub merge_patch : Env → List LayerField → CurrentFeature → FeaturePatch → Tx FeatureInput
unfolding merge_files set_entries unset_entries
merge_patch env fs current patch = do
  properties ← merge_files env current.version_id patch fs (
      unset_entries (set_entries current.properties (list_or_nil patch.properties))
        (list_or_nil patch.unset_properties))
  pure (patched_feature current patch properties)

-- `JSON.stringify(left) === JSON.stringify(right)`
abbrev same_text : Env → Json → Json → Bool
same_text env a b =
    if is_undefined a
    then is_undefined b
    else not (is_undefined b) && str_eq (env.json_text a) (env.json_text b)

abbrev same_number : Option Number → Option Number → Bool
same_number none none = true
same_number (some a) (some b) = number_eq a b
same_number _ _ = false

-- The keys of a set of strings, sorted by `sort()`.
insert_text : Env → String → List String → List String
insert_text env s [] = s ∷ []
insert_text env s (t ∷ ts) =
    let rest = insert_text env s ts in
    if str_eq s t then t ∷ ts else if env.code_unit_before t s then t ∷ rest else s ∷ t ∷ ts

sorted_set : Env → List String → List String
unfolding insert_text
sorted_set env [] = []
sorted_set env (s ∷ ss) = insert_text env s (sorted_set env ss)

keys : List (String × Json) → List String
keys entries = map (λ (e : String × Json). e.0) entries

abbrev property_path : String → String
property_path key = string_append "properties." key

differing : Env → List (String × Json) → List (String × Json) → List String → List String
differing env base current [] = []
differing env base current (k ∷ ks) =
    let rest = differing env base current ks in
    if same_text env (property k base) (property k current) then rest else property_path k ∷ rest

abbrev or_version : List String → List String
or_version [] = "version" ∷ []
or_version (p ∷ ps) = p ∷ ps

abbrev paths_from : Env → FeatureVersion → CurrentFeature → List String
unfolding number_lt differing sorted_set insert_text keys
paths_from env base current = or_version (
    (if same_text env (env.st_as_geojson base.geometry) current.geometry
        && str_eq base.geometry_kind current.geometry_kind
        && same_number base.radius_m current.radius_m
      then []
      else "geometry" ∷ [])
    ++ differing env base.properties current.properties
        (sorted_set env (keys base.properties ++ keys current.properties)))

-- `changedPaths`: what has changed since the version that the client edited.
unfoldable pub changed_paths : Env → ℕ → ℕ → CurrentFeature → Db → List String
unfolding number_lt differing sorted_set insert_text keys
changed_paths env feature_id base_version_id current db =
    elim (find_by (λ v. v.id == base_version_id && v.feature_id == feature_id)
      db.feature_versions) [
        | none ↦ "geometry" ∷ "properties" ∷ []
        | some base ↦ paths_from env base current
      ]

abbrev is_set {ℓ} : {A : Type ℓ} → Option A → Bool
is_set none = false
is_set (some a) = true

-- `patchChangedPaths`
unfoldable pub patch_changed_paths : Env → FeaturePatch → List String
unfolding sorted_set insert_text keys
patch_changed_paths env patch = sorted_set env (
    (if is_set patch.geometry || is_set patch.geometry_kind || is_set patch.radius_m
      then "geometry" ∷ []
      else [])
    ++ (if is_set patch.external_source || is_set patch.external_id
        then "externalIdentity" ∷ []
        else [])
    ++ map property_path (keys (list_or_nil patch.properties))
    ++ map property_path (list_or_nil patch.unset_properties))
