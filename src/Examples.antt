-- ===== src/Examples.antt =====
-- A layer with a published revision, a second revision on top of it, and four people, for the tests.
mod Authors
mod Editorial
mod Pipeline
mod Rollback
mod Jobs
mod Sync
mod Builds
mod Definitions
mod Outbox
use danangmap_backend.Prelude.{ℕ, String, ◌+◌, ◌*◌, ◌/◌, true, false, none, some, [], ◌∷◌, Option}
use danangmap_backend.Json.{Json, null, object, str, num, arr, items}
use danangmap_backend.Domain.{
  RevisionStatus, UserRole, active, editor, reviewer, publisher, published,
}
use danangmap_backend.Database.{
  Db, Revision, Layer, User, Snapshot, SnapshotStatus, Pointer, FeatureVersion, RevisionFeature,
}
use danangmap_backend.Database.Publication.{PublicationJob, WorkerState}
use danangmap_backend.Database.Queries.{Env, Actor}

-- { "type": "Point", "coordinates": [longitude, latitude] }
abbrev pub point_at : (longitude latitude : ℕ) → Json
point_at longitude latitude =
    object (
      ("type", str "Point") ∷ ("coordinates", arr (items (num longitude ∷ num latitude ∷ []))) ∷ [])

-- A request that creates the row of the given id at the given instant.
abbrev pub env_at : (now fresh : ℕ) → Env
env_at now fresh = record {
  now = now;
  request_id = 900;
  fresh = fresh;
  outbox_uuid = fresh + 1;
  field_uuid = λ i. i + 5000;
  sha256 = λ s. s;
  json_text = λ j. "{}";
  jsonb_text = λ j. "{}";
  locale_before = λ a b. false;
  is_uuid = λ i. true;
  uuid_text = λ i. "id";
  decimal = λ i. "1";
  st_is_valid = λ g. true;
  floor_percent = λ a b. (a * 100) / b;
  st_extent = λ gs. "box";
  feature_uuid = λ i. i + 6000;
  version_uuid = λ i. i + 7000;
  lease_uuid = λ i. i + 8000;
  code_unit_before = λ a b. false;
  utf8_bytes = λ s. 2;
  utf16_length = λ s. 2;
  st_inspect = λ j.
      some (record { type = "POINT"; valid = true; vertices = 1; empty = false; dimensions = 2 });
  st_geom_from_geojson = λ j. 300;
  st_as_geojson = λ g. point_at 108 16;
  st_npoints = λ g. 1;
}

abbrev pub author : Actor
author = record { id = 7; role = editor }

abbrev pub checker : Actor
checker = record { id = 8; role = reviewer }

abbrev pub issuer : Actor
issuer = record { id = 9; role = publisher }

abbrev revision_row : (id revision_no : ℕ) → RevisionStatus → Option ℕ → Revision
revision_row id revision_no status supersedes = record {
  id = id;
  layer_id = 10;
  revision_no = revision_no;
  status = status;
  title = "Wards";
  description = none;
  geometry_mode = "single";
  allowed_geometry_kinds = "point" ∷ [];
  style = null;
  render_config = null;
  popup_config = null;
  schema_version = 1;
  lock_version = 1;
  cursor_seq = 0;
  change_cursor_floor = 0;
  created_by = 7;
  supersedes_revision_id = supersedes;
  submitted_at = none;
  approved_at = none;
  published_at = none;
  updated_at = 0;
}

abbrev pub first_row : Revision
first_row = revision_row 1 1 published none

abbrev pub second_row : RevisionStatus → Revision
second_row status = revision_row 2 2 status (some 1)

abbrev user_row : ℕ → UserRole → User
user_row id role = record { id = id; role = role; status = active; disabled_at = none }

abbrev pub snapshot_row : (id generation : ℕ) → Snapshot
snapshot_row id generation = record {
  id = id;
  layer_id = 10;
  revision_id = 1;
  status = SnapshotStatus.published;
  generation = generation;
  feature_count = 1;
  bounds = some "box";
  checksum = "c1";
  manifest = object [];
  published_by = 9;
  published_at = some 5;
  activated_at = some 5;
}

abbrev pub pointer_row : Pointer
pointer_row = record {
  layer_id = 10;
  active_snapshot_id = 41;
  previous_snapshot_id = some 40;
  pointer_updated_at = 6;
}

-- The second revision has the given status, and nobody has taken part in anything yet.
abbrev pub db_with : RevisionStatus → Db
db_with status = record {
  layers = record { id = 10; lock_version = 1; updated_at = 0 } ∷ [];
  revisions = first_row ∷ second_row status ∷ [];
  fields = [];
  revision_features =
      record { revision_id = 2; feature_id = 30; feature_version_id = 31; ordinal = 0 } ∷ [];
  feature_versions =
      record {
        id = 31;
        feature_id = 30;
        revision_id = 2;
        geometry = 300;
        geometry_kind = "point";
        properties = [];
        radius_m = none;
        checksum = "f1";
        created_by = 7;
      }
      ∷ [];
  features =
      record {
        id = 30;
        layer_id = 10;
        external_source = none;
        external_id = none;
        deleted_at = none;
      }
      ∷ [];
  changes = [];
  mutations = [];
  links = [];
  attachments = [];
  users = user_row 7 editor ∷ user_row 8 reviewer ∷ user_row 9 publisher ∷ [];
  participants = [];
  events = [];
  audit_logs = [];
  snapshots = snapshot_row 40 1 ∷ snapshot_row 41 2 ∷ [];
  pointers = pointer_row ∷ [];
  receipts = [];
  jobs = [];
  outbox = [];
  batches = [];
  worker_state = record {
    worker_heartbeat_at = none;
    completed_job_count = 0;
    failed_job_count = 0;
    recovered_lease_count = 0;
  };
}
