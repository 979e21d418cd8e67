-- ===== src/Database.antt =====
-- The PostgreSQL tables that the modelled services read and write, one list of rows each, and the
-- transaction monad. Columns follow src/database/migrations and the entity files; identifiers and
-- instants are numbers, and an ETag is kept as the values that its text is made of.
pub mod Publication
pub mod Sync
pub mod Queries
pub mod Lookup
use danangmap_backend.Prelude.{ℕ, String, Bool, List, Option, none, some, true, false}
use danangmap_backend.Json.{Json, Number}
use danangmap_backend.Domain.{
  UserRole, UserStatus, RevisionStatus, ParticipationType, Operation, Error,
}
use Sync.{Feature, Change, ClientMutation}
use Publication.{PublicationJob, OutboxRow, BatchRow, WorkerState, JobView}

pub record Revision : Type 0 where
  pub id : ℕ
  pub layer_id : ℕ
  pub revision_no : ℕ
  pub status : RevisionStatus
  pub title : String
  pub description : Option String
  pub geometry_mode : String
  pub allowed_geometry_kinds : List String
  pub style : Json
  pub render_config : Json
  pub popup_config : Json
  pub schema_version : ℕ
  pub lock_version : ℕ
  pub cursor_seq : ℕ
  pub change_cursor_floor : ℕ
  pub created_by : ℕ
  pub supersedes_revision_id : Option ℕ
  pub submitted_at : Option ℕ
  pub approved_at : Option ℕ
  pub published_at : Option ℕ
  pub updated_at : ℕ

pub record Layer : Type 0 where
  pub id : ℕ
  pub lock_version : ℕ
  pub updated_at : ℕ

pub record User : Type 0 where
  pub id : ℕ
  pub role : UserRole
  pub status : UserStatus
  pub disabled_at : Option ℕ

pub record Participant : Type 0 where
  pub revision_id : ℕ
  pub user_id : ℕ
  pub participation_type : ParticipationType

pub record WorkflowEvent : Type 0 where
  pub revision_id : ℕ
  pub from_status : RevisionStatus
  pub to_status : RevisionStatus
  pub actor_id : ℕ
  pub reason : Option String

pub record AuditLog : Type 0 where
  pub actor_id : ℕ
  pub actor_role : UserRole
  pub action : String
  pub resource_type : String
  pub resource_id : ℕ
  pub request_id : ℕ
  pub before_digest : Option String
  pub after_digest : Option String
  pub metadata : Json

pub data SnapshotStatus : Type 0 where
  building published failed : SnapshotStatus

pub record Snapshot : Type 0 where
  pub id : ℕ
  pub layer_id : ℕ
  pub revision_id : ℕ
  pub status : SnapshotStatus
  pub generation : ℕ
  pub feature_count : ℕ
  pub bounds : Option String
  pub checksum : String
  pub manifest : Json
  pub published_by : ℕ
  pub published_at : Option ℕ
  pub activated_at : Option ℕ

-- A row of layer_publications.
pub record Pointer : Type 0 where
  pub layer_id : ℕ
  pub active_snapshot_id : ℕ
  pub previous_snapshot_id : Option ℕ
  pub pointer_updated_at : ℕ

-- A row of layer_fields; `definition` holds the columns that are only copied and fingerprinted.
pub record LayerField : Type 0 where
  pub id : ℕ
  pub revision_id : ℕ
  pub key : String
  pub type : String
  pub required : Bool
  pub is_public : Bool
  pub sensitive : Bool
  pub offline_cache : Bool
  pub default_value : Json
  pub validation : Json
  pub options : List String
  pub definition : Json
  pub display_order : ℕ

pub record RevisionFeature : Type 0 where
  pub revision_id : ℕ
  pub feature_id : ℕ
  pub feature_version_id : ℕ
  pub ordinal : ℕ

-- `geometry` names a PostGIS value, `properties` are the entries of the jsonb object.
pub record FeatureVersion : Type 0 where
  pub id : ℕ
  pub feature_id : ℕ
  pub revision_id : ℕ
  pub geometry : ℕ
  pub geometry_kind : String
  pub properties : List (String × Json)
  pub radius_m : Option Number
  pub checksum : String
  pub created_by : ℕ

-- A row of feature_version_attachments.
pub record AttachmentLink : Type 0 where
  pub feature_version_id : ℕ
  pub attachment_id : ℕ
  pub field_key : String
  pub display_order : ℕ

pub record Attachment : Type 0 where
  pub id : ℕ
  pub is_clean : Bool
  pub object_key : Option String

pub data Etag : Type 0 where
  revision_etag : (revision_id lock_version : ℕ) → Etag
  publication_pointer_etag : (layer_id snapshot_id generation : ℕ) → Etag
  publication_job_etag : (job_id lock_version : ℕ) → Etag
  malformed : String → Etag

-- The response payloads that command receipts keep, one constructor for each shape.
pub data Response : Type 0 where
  transition : (revision_id : ℕ) → RevisionStatus → Response
  changes : (original draft : ℕ) → Etag → Response
  publication : (snapshot_id generation : ℕ) → Response
  job : JobView → Response
  rolled_back : (snapshot_id target_snapshot_id generation active_revision_id : ℕ) → Response

-- `PublicationReceiptMetadata`
pub data ReceiptMetadata : Type 0 where
  legacy_sync : ReceiptMetadata
  durable_async : (retry_after : ℕ) → ReceiptMetadata

pub data ReceiptState : Type 0 where
  pending completed : ReceiptState

-- A row of command_receipts.
pub record Receipt : Type 0 where
  pub actor_id : ℕ
  pub operation : Operation
  pub idempotency_key : ℕ
  pub request_digest : String
  pub state : ReceiptState
  pub status_code : Option ℕ
  pub response_payload : Option Response
  pub response_etag : Option Etag
  pub response_metadata : Option ReceiptMetadata

pub record Db : Type 0 where
  pub layers : List Layer
  pub revisions : List Revision
  pub fields : List LayerField
  pub revision_features : List RevisionFeature
  pub feature_versions : List FeatureVersion
  pub features : List Feature
  pub changes : List Change
  pub mutations : List ClientMutation
  pub links : List AttachmentLink
  pub attachments : List Attachment
  pub users : List User
  pub participants : List Participant
  pub events : List WorkflowEvent
  pub audit_logs : List AuditLog
  pub snapshots : List Snapshot
  pub pointers : List Pointer
  pub receipts : List Receipt
  pub jobs : List PublicationJob
  pub outbox : List OutboxRow
  pub batches : List BatchRow
  pub worker_state : WorkerState

pub data Result {ℓ} (A : Type ℓ) : Type ℓ where
  ok : A → Result A
  err : Error → Result A

-- The statements inside `dataSource.transaction`: a throw carries no database.
abbrev pub Tx : Type 0 → Type 0
Tx A = Db → Result (A × Db)

infixl 5 ◌>>=◌ ◌>>◌
abbrev pub ◌>>=◌ : {A B : Type 0} → Tx A → (A → Tx B) → Tx B
◌>>=◌ m f db = elim (m db) [ ok (a, db') ↦ f a db' | err e ↦ err e ]

abbrev pub ◌>>◌ : {B : Type 0} → Tx (Unit {0}) → Tx B → Tx B
m >> k = m >>= λ _. k

abbrev pub pure : {A : Type 0} → A → Tx A
pure a db = ok (a, db)

abbrev pub throw : {A : Type 0} → Error → Tx A
throw e db = err e

abbrev pub modify : (Db → Db) → Tx (Unit {0})
modify f db = ok (tt, f db)

abbrev pub gets : {A : Type 0} → (Db → A) → Tx A
gets f db = ok (f db, db)

-- `if (!test) throw e`
abbrev pub guard : Bool → Error → Tx (Unit {0})
guard true e db = ok (tt, db)
guard false e db = err e

-- `rows[0] ?? throw e`
abbrev pub first_or : {A : Type 0} → (Db → Option A) → Error → Tx A
first_or f e db = elim (f db) [ none ↦ err e | some a ↦ ok (a, db) ]

-- `dataSource.transaction`: commit on success, roll back on a throw.
abbrev pub commit : {A : Type 0} → Db → Result (A × Db) → Result A × Db
commit db (ok (a, db')) = (ok a, db')
commit db (err e) = (err e, db)

abbrev pub transaction : {A : Type 0} → Tx A → Db → Result A × Db
transaction m db = commit db (m db)
