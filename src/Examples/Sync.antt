-- ===== src/Examples/Sync.antt =====
-- Sync batches on a draft, and the theorems about them at these inputs.
use danangmap_backend.Prelude.{
  ℕ, refl, ◌≡◌, ◌↔◌, some, none, [], ◌∷◌, List, Option, arith, find_by, exists_by, select_by,
  update_where, max_by,
}
use danangmap_backend.Domain.{draft, query_failed, uq_client_feature_mapping}
use danangmap_backend.Json.{arr, num, items}
use danangmap_backend.Json.Numbers.{member_of, has_member_of}
use danangmap_backend.Database.{Db, Revision, revision_etag, ok, err, transaction}
use danangmap_backend.Database.Sync.{create, update, applied, conflict}
use danangmap_backend.Database.Queries.{add_participant, add_audit}
use danangmap_backend.Idempotency.Canonical.{canonical, digest, insert_field}
use danangmap_backend.Layers.{Mutation, BatchDto, FeatureInput, editor}
use danangmap_backend.Layers.Schema.{validate_properties, validate_fields}
use danangmap_backend.Layers.Geometry.{
  visit, visit_items, validate, reject_unsupported, all_numbers,
}
use danangmap_backend.Layers.Patch.{
  merge_patch, merge_files, set_entries, set_entry, unset_entries, patch_changed_paths,
  changed_paths,
}
use danangmap_backend.Layers.Mutations.{
  Context, apply_create, create_feature, validate_feature, insert_feature, insert_version,
  insert_change,
}
use danangmap_backend.Layers.Batch.{
  attempt, Progress, sync_new, sync_item, sync_items, require_revision_version, check_hashes,
  mutation_payload_hash, assert_preconditions, load_mappings, persist_receipt,
}
use danangmap_backend.Layers.Edits.{
  apply_mutation, apply_update_or_delete, current_feature, apply_edit, apply_update, update_feature,
  update_identity,
}
use danangmap_backend.Layers.Commit.{
  SyncResponse, sync_batch, context, sync_locked, commit_batch, prune, audit_batch,
}
use danangmap_backend.Layers.Conflicts.{Edited, apply_update_or_delete-Edited}
use danangmap_backend.Layers.Gapless.{IsGapless, sync_batch-IsGapless}
use danangmap_backend.Layers.Again.{sync_batch_repeated}
use danangmap_backend.Layers.Naming.{named_edit_fails}
use danangmap_backend.Layers.Feed.{ChangePage, changes, take, rows_after, by_cursor}
use danangmap_backend.Layers.Feed.Pages.{PageAfter, changes-PageAfter}
use danangmap_backend.Layers.Geometry.Inside.{IsInside, visit_iff}
use danangmap_backend.Examples.{env_at, author, db_with, second_row, point_at}

abbrev base_db : Db
base_db = db_with draft

abbrev point_input : FeatureInput
point_input = record {
  geometry = point_at 108 16;
  geometry_kind = "point";
  radius_m = none;
  external_source = none;
  external_id = none;
  properties = [];
}

-- The client 3 creates the feature that it calls 60.
abbrev creation : Mutation
creation = record {
  client_mutation_id = 50;
  operation = create;
  base_revision_version = 1;
  payload_hash = "{}";
  client_feature_id = some 60;
  feature_id = none;
  base_version_id = none;
  feature = some point_input;
  patch = none;
}

abbrev batch_of : List Mutation → BatchDto
batch_of ms = record { client_id = 3; origin = editor; base_cursor = some 0; mutations = ms }

abbrev created_batch : BatchDto
created_batch = batch_of (creation ∷ [])

abbrev created_db : Db
created_db =
    (transaction (sync_batch (env_at 5 1) 100 2 created_batch (some (revision_etag 2 1)) author)
      base_db).1

abbrev created_response : SyncResponse
created_response = record {
  server_cursor = 1;
  results = applied 50 create (some 60) 6050 (some 7050) 1 ∷ [];
  etag = revision_etag 2 2;
}

created_ok :
    sync_batch (env_at 5 1) 100 2 created_batch (some (revision_etag 2 1)) author base_db
    ≡ ok (created_response, created_db)
unfolding sync_batch require_revision_version sync_locked check_hashes mutation_payload_hash digest
    canonical assert_preconditions load_mappings sync_items sync_item sync_new attempt
    apply_mutation apply_create create_feature validate_feature validate reject_unsupported visit
    visit_items all_numbers member_of has_member_of validate_properties validate_fields
    insert_feature insert_version insert_change persist_receipt commit_batch prune audit_batch
    add_participant add_audit find_by exists_by select_by update_where max_by apply_update_or_delete
    current_feature apply_edit apply_update update_feature update_identity merge_patch merge_files
    set_entries set_entry unset_entries patch_changed_paths changed_paths insert_field
created_ok = refl

base-IsGapless : IsGapless base_db
unfolding IsGapless find_by select_by
base-IsGapless j r h = ground arith

sync_batch-IsGapless_example : IsGapless created_db
sync_batch-IsGapless_example =
    sync_batch-IsGapless (env_at 5 1) 100 2 created_batch (some (revision_etag 2 1)) author
      created_response base_db created_db base-IsGapless created_ok

sync_batch_repeated_example :
    sync_batch (env_at 9 2) 50 2 created_batch (some (revision_etag 2 1)) author created_db
    ≡ ok (created_response, created_db)
unfolding mutation_payload_hash digest
sync_batch_repeated_example =
    sync_batch_repeated (env_at 5 1) (env_at 9 2) 100 50 2 created_batch (some (revision_etag 2 1))
      author author created_response base_db created_db created_ok (λ m. refl)

-- The revision after the creation.
abbrev created_row : Revision
created_row = record (second_row draft) { lock_version = 2; cursor_seq = 1; updated_at = 5 }

changes-PageAfter_example :
    (page : ChangePage) × (changes 2 (some 0) 200 created_db ≡ ok (page, created_db))
    × PageAfter 2 0 200 created_row created_db page
unfolding changes take rows_after by_cursor sync_batch require_revision_version sync_locked
    check_hashes mutation_payload_hash digest canonical assert_preconditions load_mappings
    sync_items sync_item sync_new attempt apply_mutation apply_create create_feature
    validate_feature validate reject_unsupported visit visit_items all_numbers member_of
    has_member_of validate_properties validate_fields insert_feature insert_version insert_change
    persist_receipt commit_batch prune audit_batch add_participant add_audit find_by exists_by
    select_by update_where max_by apply_update_or_delete current_feature apply_edit apply_update
    update_feature update_identity merge_patch merge_files set_entries set_entry unset_entries
    patch_changed_paths changed_paths insert_field
changes-PageAfter_example =
    changes-PageAfter 2 0 200 created_row created_db refl (refl, refl, refl) (refl, tt)
      (omega arith) (omega arith)

-- An edit of the created feature, by its own identifier or by the client's.
abbrev edit_of : (client_feature_id feature_id : Option ℕ) → (base : ℕ) → Mutation
edit_of client_feature_id feature_id base = record {
  client_mutation_id = 51;
  operation = update;
  base_revision_version = 2;
  payload_hash = "{}";
  client_feature_id = client_feature_id;
  feature_id = feature_id;
  base_version_id = some base;
  feature = none;
  patch = some (record {
    geometry = some (point_at 107 15);
    geometry_kind = none;
    radius_m = none;
    external_source = none;
    external_id = none;
    properties = none;
    unset_properties = none;
  });
}

abbrev edit_context : Context
edit_context = context (env_at 7 2) created_batch author created_row created_db

apply_update_or_delete-Edited_example :
    Edited edit_context
      (edit_of none (some 6050) 31)
      []
      2
      (conflict 51 update 6050 1 7050 ("geometry" ∷ "properties" ∷ []))
      created_db
      created_db
unfolding sync_batch require_revision_version sync_locked check_hashes mutation_payload_hash digest
    canonical assert_preconditions load_mappings sync_items sync_item sync_new attempt
    apply_mutation apply_create create_feature validate_feature validate reject_unsupported visit
    visit_items all_numbers member_of has_member_of validate_properties validate_fields
    insert_feature insert_version insert_change persist_receipt commit_batch prune audit_batch
    add_participant add_audit find_by exists_by select_by update_where max_by apply_update_or_delete
    current_feature apply_edit apply_update update_feature update_identity merge_patch merge_files
    set_entries set_entry unset_entries patch_changed_paths changed_paths insert_field
apply_update_or_delete-Edited_example =
    apply_update_or_delete-Edited edit_context (edit_of none (some 6050) 31) [] 2 created_db
      created_db (conflict 51 update 6050 1 7050 ("geometry" ∷ "properties" ∷ [])) refl

abbrev named_progress : Progress
named_progress = record { mappings = (60, 6050) ∷ []; cursor = 1; applied_count = 0; results = [] }

abbrev attempted : Db
attempted =
    (transaction (attempt edit_context (edit_of (some 60) none 7050) ((60, 6050) ∷ []) 1)
      created_db).1

named_edit_fails_example :
    sync_new edit_context (edit_of (some 60) none 7050) named_progress created_db
    ≡ err (query_failed uq_client_feature_mapping)
unfolding sync_batch require_revision_version sync_locked check_hashes mutation_payload_hash digest
    canonical assert_preconditions load_mappings sync_items sync_item sync_new attempt
    apply_mutation apply_create create_feature validate_feature validate reject_unsupported visit
    visit_items all_numbers member_of has_member_of validate_properties validate_fields
    insert_feature insert_version insert_change persist_receipt commit_batch prune audit_batch
    add_participant add_audit find_by exists_by select_by update_where max_by apply_update_or_delete
    current_feature apply_edit apply_update update_feature update_identity merge_patch merge_files
    set_entries set_entry unset_entries patch_changed_paths changed_paths insert_field
named_edit_fails_example =
    named_edit_fails edit_context (edit_of (some 60) none 7050) named_progress 60
      (applied 51 update (some 60) 6050 (some 7051) 2) created_db attempted refl refl refl refl refl

-- The whole batch, which throws.
named_batch :
    sync_batch
      (env_at 7 2)
      100
      2
      (batch_of (edit_of (some 60) none 7050 ∷ []))
      (some (revision_etag 2 2))
      author
      created_db
    ≡ err (query_failed uq_client_feature_mapping)
unfolding sync_batch require_revision_version sync_locked check_hashes mutation_payload_hash digest
    canonical assert_preconditions load_mappings sync_items sync_item sync_new attempt
    apply_mutation apply_create create_feature validate_feature validate reject_unsupported visit
    visit_items all_numbers member_of has_member_of validate_properties validate_fields
    insert_feature insert_version insert_change persist_receipt commit_batch prune audit_batch
    add_participant add_audit find_by exists_by select_by update_where max_by apply_update_or_delete
    current_feature apply_edit apply_update update_feature update_identity merge_patch merge_files
    set_entries set_entry unset_entries patch_changed_paths changed_paths insert_field
named_batch = refl

visit_iff_example :
    (visit (arr (items (num 181 ∷ num 16 ∷ []))) ≡ none)
    ↔ IsInside (arr (items (num 181 ∷ num 16 ∷ [])))
visit_iff_example = visit_iff (arr (items (num 181 ∷ num 16 ∷ [])))
