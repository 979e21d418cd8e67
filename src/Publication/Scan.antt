-- ===== src/Publication/Scan.antt =====
-- The loop of `build` in src/publications/publication-builder.service.ts, which reads the features of
-- the revision batch by batch (`publicBatch` of publication-worker.repository.ts) and commits each.
pub mod Order
pub mod Total
pub mod Remaining
pub mod Turns
pub mod Coverage
use text.Mathlib.Text.{◌==◌ as str_eq}
use danangmap_backend.Prelude.{
  ℕ, zero, suc, ◌+◌, ◌*◌, String, Bool, true, false, not, ◌&&◌, ◌||◌, List, [], ◌∷◌, Option, none,
  some, ◌==◌, ltb, leb, if◌then◌else◌, length, exists_by, find_by, select_by, is_some, map,
}
use danangmap_backend.Json.{Json, Number, null, real, str, ident, arr, items, object}
use danangmap_backend.Domain.{build_error, input_invalid, build_limit_exceeded}
use danangmap_backend.Database.{
  Db, Tx, Result, ok, err, LayerField, RevisionFeature, guard, pure, ◌>>◌, ◌>>=◌,
}
use danangmap_backend.Database.Publication.{PublicationJob, BatchRow}
use danangmap_backend.Database.Queries.{Env}
use danangmap_backend.Publication.Jobs.{commit_batch}

-- `PublicProjectionRow`, with its geometry also as the PostGIS value that its box is taken of.
pub record PublicRow : Type 0 where
  pub feature_id : ℕ
  pub shape : ℕ
  pub geometry : Json
  pub geometry_kind : String
  pub radius_m : Option Number
  pub properties : List (String × Json)
  pub vertex_count : ℕ

-- `canonicalPublicFieldSql`
abbrev pub is_public_field : LayerField → Bool
unfolding exists_by
is_public_field f =
    f.is_public
    && not f.sensitive
    && exists_by (str_eq f.type) (
        "text" ∷ "long_text" ∷ "number" ∷ "integer" ∷ "boolean" ∷ "date" ∷ "datetime" ∷ "url"
        ∷ "email" ∷ "phone" ∷ "enum" ∷ "multi_enum" ∷ "address" ∷ [])

abbrev pub public_properties : ℕ → List (String × Json) → Db → List (String × Json)
public_properties revision_id entries db =
    select_by
      (λ e.
        exists_by (λ f. f.revision_id == revision_id && str_eq f.key e.0 && is_public_field f)
          db.fields)
      entries

-- The row of a member, where its feature is not deleted.
abbrev pub public_row : Env → ℕ → RevisionFeature → Db → Option PublicRow
public_row env revision_id m db =
    if exists_by (λ f. f.id == m.feature_id && not (is_some f.deleted_at)) db.features
    then elim (find_by (λ v. v.id == m.feature_version_id) db.feature_versions) [
      | none ↦ none
      | some v ↦ some (record {
        feature_id = m.feature_id;
        shape = v.geometry;
        geometry = env.st_as_geojson v.geometry;
        geometry_kind = v.geometry_kind;
        radius_m = v.radius_m;
        properties = public_properties revision_id v.properties db;
        vertex_count = env.st_npoints v.geometry;
      })
    ]
    else none

abbrev pub after? : Option ℕ → ℕ → Bool
after? none id = true
after? (some last) id = ltb last id

unfoldable pub insert_public : PublicRow → List PublicRow → List PublicRow
insert_public r [] = r ∷ []
insert_public r (s ∷ ss) =
    let rest = insert_public r ss in if leb r.feature_id s.feature_id then r ∷ s ∷ ss else s ∷ rest

unfoldable pub public_rows : Env → ℕ → Option ℕ → List RevisionFeature → Db → List PublicRow
unfolding insert_public is_public_field exists_by
public_rows env revision_id last [] db = []
public_rows env revision_id last (m ∷ ms) db =
    let rest = public_rows env revision_id last ms db in
    if m.revision_id == revision_id && after? last m.feature_id
    then elim (public_row env revision_id m db) [ none ↦ rest | some r ↦ insert_public r rest ]
    else rest

unfoldable pub limited : ℕ → List PublicRow → List PublicRow
limited zero rs = []
limited (suc n) [] = []
limited (suc n) (r ∷ rs) = r ∷ limited n rs

-- `publicBatch`
unfoldable pub public_batch : Env → ℕ → Option ℕ → ℕ → Db → List PublicRow
unfolding public_rows insert_public limited is_public_field exists_by
public_batch env revision_id last limit db =
    limited limit (public_rows env revision_id last db.revision_features db)

abbrev number? : Option Number → Json
number? none = null
number? (some x) = real x

-- `projection`
abbrev projection : PublicRow → Json
projection r = object (
    ("type", str "Feature")
    ∷ ("id", ident r.feature_id)
    ∷ ("geometry", r.geometry)
    ∷ ("properties", object r.properties)
    ∷ ("geometryKind", str r.geometry_kind)
    ∷ ("radiusM", number? r.radius_m)
    ∷ [])

abbrev projection_json : List PublicRow → Json
projection_json rows = arr (items (map projection rows))

unfoldable pub vertices : List PublicRow → ℕ
vertices [] = 0
vertices (r ∷ rs) = r.vertex_count + vertices rs

unfoldable pub last_id : ℕ → List PublicRow → ℕ
last_id id [] = id
last_id id (r ∷ rs) = last_id r.feature_id rs

-- The number of a batch and its last feature.
pub record Checkpoint : Type 0 where
  pub batch_no : ℕ
  pub last_feature_id : ℕ

pub record ScanConfig : Type 0 where
  pub batch_size : ℕ
  pub lease_seconds : ℕ

abbrev pub next_no : Option Checkpoint → ℕ
next_no none = 1
next_no (some c) = c.batch_no + 1

abbrev pub last_of : Option Checkpoint → Option ℕ
last_of none = none
last_of (some c) = some c.last_feature_id

-- What the loop hands to `commitBatch` for a batch that is not empty.
unfoldable pub batch_row :
    Env → PublicationJob → Option Checkpoint → PublicRow → List PublicRow → BatchRow
unfolding vertices last_id
batch_row env j checkpoint r rs = record {
  job_id = j.id;
  batch_no = next_no checkpoint;
  first_feature_id = r.feature_id;
  last_feature_id = last_id r.feature_id rs;
  feature_count = length (r ∷ rs);
  vertex_count = vertices (r ∷ rs);
  bounds = some (env.st_extent (map (λ (s : PublicRow). s.shape) (r ∷ rs)));
  public_checksum = env.sha256 (env.json_text (projection_json (r ∷ rs)));
  public_projection = projection_json (r ∷ rs);
}

abbrev pub checkpoint_of : BatchRow → Checkpoint
checkpoint_of b = record { batch_no = b.batch_no; last_feature_id = b.last_feature_id }

abbrev pub is_within_limit : Env → List PublicRow → Bool
is_within_limit env rows =
    leb (env.utf8_bytes (env.json_text (projection_json rows))) (16 * 1024 * 1024)

-- The batch that a turn of the loop has read, and the progress that it answers.
unfoldable pub commit_rows :
    Env
    → (List BatchRow → Option String)
    → ScanConfig
    → PublicationJob
    → (token : ℕ) → Option Checkpoint
    → List PublicRow
    → Tx (Checkpoint × ℕ)
commit_rows env bounds config j token checkpoint [] db = err (build_error input_invalid)
commit_rows env bounds config j token checkpoint (r ∷ rs) db =
    let row = batch_row env j checkpoint r rs in
    (do
      guard (is_within_limit env (r ∷ rs)) (build_error build_limit_exceeded)
      progress ← commit_batch env bounds row token config.lease_seconds
      pure (checkpoint_of row, progress.0))
      db

abbrev pub turn :
    Env
    → (List BatchRow → Option String)
    → ScanConfig
    → PublicationJob
    → (token : ℕ) → Option Checkpoint
    → Tx (Checkpoint × ℕ)
turn env bounds config j token checkpoint db =
    commit_rows env bounds config j token checkpoint
      (public_batch env j.revision_id (last_of checkpoint) config.batch_size db) db

-- `while (processed < total)`, none where the fuel is used up. A turn that throws keeps the batches
-- that earlier turns have committed.
unfoldable pub scan :
    ℕ
    → Env
    → (List BatchRow → Option String)
    → ScanConfig
    → PublicationJob
    → (token total : ℕ) → Option Checkpoint
    → (processed : ℕ) → Db
    → Option (Result (Unit {0}) × Db)
scan zero env bounds config j token total checkpoint processed db =
    if ltb processed total then none else some (ok tt, db)
scan (suc fuel) env bounds config j token total checkpoint processed db =
    elim (ltb processed total) [
      | false ↦ some (ok tt, db)
      | true ↦ elim (turn env bounds config j token checkpoint db) [
        | err e ↦ some (err e, db)
        | ok (x, d) ↦ scan fuel env bounds config j token total (some x.0) x.1 d
      ]
    ]
