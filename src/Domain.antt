-- ===== src/Domain.antt =====
-- src/domain/enums.ts, the enumerations of the entities, and the errors that the services raise
-- (src/common/http/app.exception.ts, src/publications/publication-worker.errors.ts).
use danangmap_backend.Prelude.{ℕ, Bool, true, false, ◌==◌, ◌≡◌, arith}

pub data UserRole : Type 0 where
  system_admin editor reviewer publisher : UserRole

pub data UserStatus : Type 0 where
  active inactive disabled invited : UserStatus

pub data RevisionStatus : Type 0 where
  draft in_review changes_requested approved publishing published : RevisionStatus

pub data ParticipationType : Type 0 where
  edit review publish : ParticipationType

-- The operation column of a command receipt.
pub data Operation : Type 0 where
  revision_submit revision_approve revision_request_changes revision_publish layer_rollback :
      Operation

-- The codes of `AppException`, each with the HTTP status it is raised with.
pub data AppError : Type 0 where
  not_found separation_of_duties workflow_transition_invalid geometry_invalid : AppError
  draft_already_exists publication_base_stale attachment_not_ready : AppError
  idempotency_race idempotency_key_reused idempotency_in_progress : AppError
  idempotency_response_incompatible bad_request publication_job_active : AppError
  etag_required etag_mismatch rollback_target_invalid rollback_target_active : AppError
  rollback_target_not_found publication_pointer_stale : AppError
  sync_payload_hash_mismatch revision_not_editable sync_base_revision_mismatch : AppError
  sync_cursor_expired sync_base_cursor_invalid schema_violation client_feature_id_reused : AppError
  client_feature_mapping_not_found feature_not_found geometry_type_not_allowed : AppError
  resource_limit_exceeded validation_failed : AppError

abbrev pub http_status : AppError → ℕ
http_status not_found = 404
http_status separation_of_duties = 403
http_status workflow_transition_invalid = 409
http_status geometry_invalid = 422
http_status draft_already_exists = 409
http_status publication_base_stale = 409
http_status attachment_not_ready = 409
http_status idempotency_race = 409
http_status idempotency_key_reused = 409
http_status idempotency_in_progress = 409
http_status idempotency_response_incompatible = 409
http_status bad_request = 400
http_status publication_job_active = 409
http_status etag_required = 428
http_status etag_mismatch = 412
http_status rollback_target_invalid = 409
http_status rollback_target_active = 409
http_status rollback_target_not_found = 404
http_status publication_pointer_stale = 409
http_status sync_payload_hash_mismatch = 422
http_status revision_not_editable = 409
http_status sync_base_revision_mismatch = 422
http_status sync_cursor_expired = 409
http_status sync_base_cursor_invalid = 422
http_status schema_violation = 422
http_status client_feature_id_reused = 409
http_status client_feature_mapping_not_found = 409
http_status feature_not_found = 404
http_status geometry_type_not_allowed = 422
http_status resource_limit_exceeded = 422
http_status validation_failed = 400

pub data PublicationFailureCode : Type 0 where
  actor_ineligible base_stale build_limit_exceeded input_invalid : PublicationFailureCode
  retry_exhausted duties_not_separated : PublicationFailureCode

-- The constraints that a statement of the services can violate: unique indexes, and some CHECKs.
pub data Constraint : Type 0 where
  uq_layer_open_editorial_chain uq_layer_revision_number uq_publication_job_active_layer :
      Constraint
  uq_publication_generation primary_key uq_features_external_identity : Constraint
  uq_revision_cursor uq_client_mutation uq_client_feature_mapping ck_properties_size : Constraint
  uq_publication_job_batch_cursor batch_no_check feature_count_check : Constraint

-- What a transaction can throw. `query_failed` is TypeORM's `QueryFailedError` with the name of
-- the constraint, `defect` an `Error` that the code throws on what it takes to be impossible.
pub data Error : Type 0 where
  app : AppError → Error
  query_failed : Constraint → Error
  build_error : PublicationFailureCode → Error
  activation_invariant : PublicationFailureCode → Error
  lease_lost : Error
  dependency_unavailable : Error
  defect : Error

abbrev pub is_open_chain : RevisionStatus → Bool
is_open_chain draft = true
is_open_chain in_review = true
is_open_chain changes_requested = false
is_open_chain approved = true
is_open_chain publishing = true
is_open_chain published = false

abbrev pub is_draft : RevisionStatus → Bool
is_draft draft = true
is_draft _ = false

abbrev pub is_in_review : RevisionStatus → Bool
is_in_review in_review = true
is_in_review _ = false

abbrev pub is_approved : RevisionStatus → Bool
is_approved approved = true
is_approved _ = false

abbrev pub is_publishing : RevisionStatus → Bool
is_publishing publishing = true
is_publishing _ = false

abbrev pub is_published : RevisionStatus → Bool
is_published published = true
is_published _ = false

abbrev pub is_active : UserStatus → Bool
is_active active = true
is_active _ = false

-- `['publisher', 'system_admin'].includes(role)`
abbrev pub may_publish : UserRole → Bool
may_publish publisher = true
may_publish system_admin = true
may_publish _ = false

abbrev pub same_participation : ParticipationType → ParticipationType → Bool
same_participation edit edit = true
same_participation review review = true
same_participation publish publish = true
same_participation _ _ = false

abbrev operation_code : Operation → ℕ
operation_code revision_submit = 0
operation_code revision_approve = 1
operation_code revision_request_changes = 2
operation_code revision_publish = 3
operation_code layer_rollback = 4

abbrev pub same_operation : Operation → Operation → Bool
same_operation a b = operation_code a == operation_code b

pub same_operation_refl : (o : Operation) → same_operation o o ≡ true
same_operation_refl o = ground arith
