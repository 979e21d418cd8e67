-- ===== src/Workflow/Guards.antt =====
-- The checks of src/workflow/workflow.service.ts that several operations make.
use text.Mathlib.Text.{◌==◌ as str_eq}
use danangmap_backend.Prelude.{
  ◌+◌, max_by, true, ℕ, zero, suc, String, Bool, true, false, not, ◌&&◌, ◌||◌, List, [], ◌∷◌,
  Option, none, some, ◌==◌, same?, if◌then◌else◌, ltb, leb, length, find_by, exists_by, select_by,
  is_some,
}
use danangmap_backend.Json.{Json, is_ident_array}
use danangmap_backend.Domain.{
  ParticipationType, app, separation_of_duties, publication_base_stale, attachment_not_ready,
  idempotency_in_progress, is_published,
}
use danangmap_backend.Database.{
  Db, Tx, Revision, LayerField, RevisionFeature, FeatureVersion, AttachmentLink, Attachment,
  Response, guard, pure, throw,
}
use danangmap_backend.Database.Queries.{Env, revision, snapshot, pointer, participates}

-- `replayed`
abbrev pub replayed : Option Response → Tx Response
replayed (some response) = pure response
replayed none = throw (app idempotency_in_progress)

-- `assertCanReview`
abbrev pub assert_can_review : Revision → ℕ → Tx (Unit {0})
assert_can_review r actor_id db =
    guard (not (r.created_by == actor_id || participates r.id actor_id ParticipationType.edit db))
      (app separation_of_duties) db

-- The feature versions of a revision: revision_features JOIN feature_versions, with the feature ids.
member_versions : List RevisionFeature → List FeatureVersion → List (ℕ × FeatureVersion)
member_versions [] versions = []
member_versions (m ∷ ms) versions =
    let rest = member_versions ms versions in
    elim (find_by (λ v. v.id == m.feature_version_id) versions) [
      | none ↦ rest
      | some v ↦ (m.feature_id, v) ∷ rest
    ]

unfoldable pub members : ℕ → Db → List (ℕ × FeatureVersion)
unfolding member_versions
members revision_id db =
    member_versions (select_by (λ m. m.revision_id == revision_id) db.revision_features)
      db.feature_versions

-- Whether `count(*) FILTER (WHERE NOT ST_IsValid(fv.geometry))` is not 0.
unfoldable pub has_invalid_geometry : Env → ℕ → Db → Bool
has_invalid_geometry env revision_id db =
    exists_by (λ m. not (env.st_is_valid m.1.geometry)) (members revision_id db)

-- The recursive query `lineage` of `assertPublicationBaseCurrent`, which takes the published ancestor
-- of least depth. Revision numbers fall along a lineage, so the largest one bounds its depth.
unfoldable pub nearest_published : ℕ → Option ℕ → Db → Option ℕ
nearest_published zero superseded db = none
nearest_published (suc fuel) none db = none
nearest_published (suc fuel) (some id) db = elim (revision id db) [
  | none ↦ none
  | some r ↦
      let above = nearest_published fuel r.supersedes_revision_id db in
      if is_published r.status then some r.id else above
]

abbrev pub lineage_fuel : Db → ℕ
lineage_fuel db = max_by (λ r. true) (λ r. r.revision_no) db.revisions + 1

abbrev pub base_revision : Revision → Db → Option ℕ
base_revision r db = nearest_published (lineage_fuel db) r.supersedes_revision_id db

-- The revision behind the layer's active snapshot.
unfoldable pub active_revision : ℕ → Db → Option ℕ
active_revision layer_id db = elim (pointer layer_id db) [
  | none ↦ none
  | some p ↦ elim (snapshot p.active_snapshot_id db) [ none ↦ none | some s ↦ some s.revision_id ]
]

-- `assertPublicationBaseCurrent`
abbrev pub assert_base_current : Revision → Tx (Unit {0})
assert_base_current r db =
    guard (same? (active_revision r.layer_id db) (base_revision r db)) (app publication_base_stale)
      db

-- `field.type IN ('image','attachment')`
abbrev is_file_type : String → Bool
is_file_type type = str_eq type "image" || str_eq type "attachment"

-- `attachment.status='clean' AND attachment.object_key IS NOT NULL`
abbrev is_ready : Option Attachment → Bool
is_ready none = false
is_ready (some a) = a.is_clean && is_some a.object_key

abbrev attachment : ℕ → Db → Option Attachment
attachment id db = find_by (λ a. a.id == id) db.attachments

-- ORDER BY link.display_order,link.attachment_id
insert_link : AttachmentLink → List AttachmentLink → List AttachmentLink
insert_link l [] = l ∷ []
insert_link l (m ∷ ms) =
    if ltb l.display_order m.display_order
      || (l.display_order == m.display_order && leb l.attachment_id m.attachment_id)
    then l ∷ m ∷ ms
    else m ∷ insert_link l ms

ordered_ids : List AttachmentLink → List AttachmentLink → List ℕ
ordered_ids sorted [] = ids sorted
  where
    ids : List AttachmentLink → List ℕ
    ids [] = []
    ids (l ∷ ls) = l.attachment_id ∷ ids ls
ordered_ids sorted (l ∷ ls) = ordered_ids (insert_link l sorted) ls

-- The clean files of one field of one feature version, in display order.
clean_ids : ℕ → String → Db → List ℕ
unfolding ordered_ids insert_link
clean_ids version_id key db = ordered_ids [] (
    select_by
      (λ l.
        l.feature_version_id == version_id
        && str_eq l.field_key key
        && is_ready (attachment l.attachment_id db))
      db.links)

abbrev property : String → List (String × Json) → Option Json
property key entries = elim (find_by (λ e. str_eq e.0 key) entries) [
  | none ↦ none
  | some e ↦ some e.1
]

-- `COALESCE(version.properties->field.key,'[]'::jsonb)` is the array of these ids.
abbrev lists_ids : Option Json → List ℕ → Bool
lists_ids none [] = true
lists_ids none (id ∷ ids) = false
lists_ids (some v) ids = is_ident_array v ids

-- A member and a file field that the first count finds at fault.
field_at_fault : LayerField → FeatureVersion → Db → Bool
unfolding clean_ids
field_at_fault f v db =
    let ids = clean_ids v.id f.key db in
    (f.required && leb (length ids) 0) || not (lists_ids (property f.key v.properties) ids)

-- A link that the second count finds at fault.
link_at_fault : ℕ → AttachmentLink → Db → Bool
link_at_fault revision_id l db =
    not (is_ready (attachment l.attachment_id db))
    || not (
        exists_by
          (λ f. f.revision_id == revision_id && str_eq f.key l.field_key && is_file_type f.type)
          db.fields)

unfoldable pub attachments_at_fault : ℕ → Db → Bool
unfolding field_at_fault link_at_fault
attachments_at_fault revision_id db =
    exists_by
      (λ m.
        exists_by
          (λ f. f.revision_id == revision_id && is_file_type f.type && field_at_fault f m.1 db)
          db.fields
        || exists_by (λ l. l.feature_version_id == m.1.id && link_at_fault revision_id l db)
            db.links)
      (members revision_id db)

-- `assertAttachmentsPublishable`
abbrev pub assert_attachments_publishable : ℕ → Tx (Unit {0})
assert_attachments_publishable revision_id db =
    guard (not (attachments_at_fault revision_id db)) (app attachment_not_ready) db
