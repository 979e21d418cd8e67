-- ===== src/Database/Queries.antt =====
-- Statements that several services send, and what a request takes from its surroundings.
use danangmap_backend.Prelude.{
  ℕ, String, ◌+◌, Bool, not, ◌&&◌, ◌||◌, List, [], ◌∷◌, ◌++◌, Option, none, some, ◌==◌,
  if◌then◌else◌, find_by, exists_by, update_where, max_by, is_some,
}
use danangmap_backend.Json.{Json}
use danangmap_backend.Domain.{
  UserRole, RevisionStatus, ParticipationType, app, not_found, query_failed,
  uq_layer_open_editorial_chain, uq_layer_revision_number, uq_publication_generation, primary_key,
  is_open_chain, same_participation,
}
use danangmap_backend.Database.{
  Db, Tx, Revision, Layer, User, Participant, AuditLog, Snapshot, Pointer, guard, first_or, modify,
  ◌>>◌,
}

pub record GeometryInspection : Type 0 where
  pub type : String
  pub valid : Bool
  pub vertices : ℕ
  pub empty : Bool
  pub dimensions : ℕ

-- PostgreSQL, PostGIS, node:crypto and the clock, as one request sees them. `fresh` is the value
-- that gen_random_uuid() or randomUUID() gives to the row that the request creates.
pub record Env : Type 0 where
  pub now : ℕ
  pub request_id : ℕ
  pub fresh : ℕ
  pub outbox_uuid : ℕ
  pub field_uuid : ℕ → ℕ
  pub sha256 : String → String
  pub json_text : Json → String
  pub jsonb_text : Json → String
  pub locale_before : String → String → Bool
  pub is_uuid : ℕ → Bool
  pub uuid_text : ℕ → String
  pub decimal : ℕ → String
  pub st_is_valid : ℕ → Bool
  pub floor_percent : (processed total : ℕ) → ℕ
  pub st_extent : List ℕ → String
  -- The identifiers of the rows that a mutation of a sync batch creates.
  pub feature_uuid : ℕ → ℕ
  pub version_uuid : ℕ → ℕ
  -- The token of the lease that a claim takes on a row of the outbox.
  pub lease_uuid : ℕ → ℕ
  -- The order of `sort()` without a comparison.
  pub code_unit_before : String → String → Bool
  pub utf8_bytes : String → ℕ
  pub utf16_length : String → ℕ
  -- The inspection of ST_GeomFromGeoJSON, none where PostGIS refuses the text.
  pub st_inspect : Json → Option GeometryInspection
  pub st_geom_from_geojson : Json → ℕ
  pub st_as_geojson : ℕ → Json
  pub st_npoints : ℕ → ℕ

pub record Actor : Type 0 where
  pub id : ℕ
  pub role : UserRole

abbrev pub revision : ℕ → Db → Option Revision
revision id db = find_by (λ r. r.id == id) db.revisions

abbrev pub layer : ℕ → Db → Option Layer
layer id db = find_by (λ l. l.id == id) db.layers

abbrev pub user : ℕ → Db → Option User
user id db = find_by (λ u. u.id == id) db.users

abbrev pub snapshot : ℕ → Db → Option Snapshot
snapshot id db = find_by (λ s. s.id == id) db.snapshots

abbrev pub pointer : ℕ → Db → Option Pointer
pointer layer_id db = find_by (λ p. p.layer_id == layer_id) db.pointers

abbrev pub is_participant : ℕ → ℕ → ParticipationType → Participant → Bool
is_participant r u k p =
    p.revision_id == r && p.user_id == u && same_participation p.participation_type k

abbrev pub participates : ℕ → ℕ → ParticipationType → Db → Bool
participates r u k db = exists_by (is_participant r u k) db.participants

-- participation_type=ANY('{edit,review}')
abbrev pub is_editorial : ℕ → ℕ → Db → Bool
is_editorial r u db =
    participates r u ParticipationType.edit db || participates r u ParticipationType.review db

-- `lockRevision`
abbrev pub lock_revision : ℕ → Tx Revision
lock_revision id = first_or (revision id) (app not_found)

-- `lockLayer`
abbrev pub lock_layer : ℕ → Tx Layer
lock_layer id = first_or (layer id) (app not_found)

abbrev pub update_revision : ℕ → (Revision → Revision) → Db → Db
update_revision id f db = record db { revisions = update_where (λ r. r.id == id) f db.revisions }

-- `touchLayerAggregate`
unfoldable pub touch_layer : Env → ℕ → Db → Db
touch_layer env id db = record db {
  layers =
      update_where (λ l. l.id == id)
        (λ l. record l { lock_version = l.lock_version + 1; updated_at = env.now }) db.layers;
}

-- INSERT INTO revision_participants ... ON CONFLICT DO NOTHING
unfoldable pub add_participant : ℕ → ℕ → ParticipationType → Db → Db
add_participant r u k db = record db {
  participants =
      if participates r u k db
      then db.participants
      else db.participants ++ record { revision_id = r; user_id = u; participation_type = k } ∷ [];
}

-- `event`
unfoldable pub add_event : ℕ → RevisionStatus → RevisionStatus → ℕ → Option String → Db → Db
add_event id from to actor_id reason db = record db {
  events =
      db.events
      ++ record {
        revision_id = id;
        from_status = from;
        to_status = to;
        actor_id = actor_id;
        reason = reason;
      }
        ∷ [];
}

unfoldable pub add_audit : AuditLog → Db → Db
add_audit row db = record db { audit_logs = db.audit_logs ++ row ∷ [] }

-- COALESCE(max(generation),0)+1 over the layer's snapshots
abbrev pub next_generation : ℕ → Db → ℕ
next_generation layer_id db =
    max_by (λ s. s.layer_id == layer_id) (λ s. s.generation) db.snapshots + 1

-- INSERT INTO publication_snapshots, with its primary key and uq_publication_generation
unfoldable pub insert_snapshot : Snapshot → Tx (Unit {0})
insert_snapshot row db =
    (do
      guard (not (is_some (snapshot row.id db))) (query_failed primary_key)
      guard
          (not (
            exists_by (λ s. s.layer_id == row.layer_id && s.generation == row.generation)
              db.snapshots))
          (query_failed uq_publication_generation)
      modify (λ d. record d { snapshots = d.snapshots ++ row ∷ [] }))
      db

-- INSERT INTO layer_publications ... ON CONFLICT(layer_id) DO UPDATE
unfoldable pub move_pointer : Env → ℕ → ℕ → Db → Db
move_pointer env layer_id snapshot_id db = record db {
  pointers =
      if is_some (pointer layer_id db)
      then update_where (λ p. p.layer_id == layer_id)
          (λ p. record p {
            previous_snapshot_id = some p.active_snapshot_id;
            active_snapshot_id = snapshot_id;
            pointer_updated_at = env.now;
          })
          db.pointers
      else db.pointers
        ++ record {
          layer_id = layer_id;
          active_snapshot_id = snapshot_id;
          previous_snapshot_id = none;
          pointer_updated_at = env.now;
        }
          ∷ [];
}

-- UPDATE publication_snapshots SET activated_at=now() WHERE id=$1
unfoldable pub activate_snapshot : Env → ℕ → Db → Db
activate_snapshot env id db = record db {
  snapshots =
      update_where (λ s. s.id == id) (λ s. record s { activated_at = some env.now }) db.snapshots;
}

-- INSERT INTO layer_revisions, with its primary key and its two unique indexes
unfoldable pub insert_revision : Revision → Tx (Unit {0})
insert_revision row db =
    (do
      guard (not (is_some (revision row.id db))) (query_failed primary_key)
      guard
          (not (
            exists_by (λ r. r.layer_id == row.layer_id && r.revision_no == row.revision_no)
              db.revisions))
          (query_failed uq_layer_revision_number)
      guard
          (not (
            is_open_chain row.status
            && exists_by (λ r. r.layer_id == row.layer_id && is_open_chain r.status) db.revisions))
          (query_failed uq_layer_open_editorial_chain)
      modify (λ d. record d { revisions = d.revisions ++ row ∷ [] }))
      db
