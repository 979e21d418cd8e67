-- ===== src/Publication/Receipts.antt =====
-- src/publications/publication-result.ts: what a publish command answers, and how a receipt is
-- played back. `location` holds the id that the path of the job ends in.
use danangmap_backend.Prelude.{
  ℕ, String, Bool, false, ◌&&◌, Option, none, some, ◌==◌, leb, ltb, if◌then◌else◌,
}
use danangmap_backend.Domain.{app, idempotency_in_progress, idempotency_response_incompatible}
use danangmap_backend.Database.{
  Etag, Response, publication, job, rolled_back, ReceiptMetadata, legacy_sync, durable_async,
  Result, ok, err,
}
use danangmap_backend.Idempotency.{ReceiptClaim}

pub record ExecutionResult : Type 0 where
  pub variant : ReceiptMetadata
  pub payload : Response
  pub etag : Option Etag
  pub location : Option ℕ
  pub retry_after : Option ℕ
  pub cache_control : Option String

-- `synchronousPublicationResult`
abbrev pub synchronous_result : Response → ExecutionResult
synchronous_result payload = record {
  variant = legacy_sync;
  payload = payload;
  etag = none;
  location = none;
  retry_after = none;
  cache_control = none;
}

-- `asynchronousPublicationResult`
abbrev pub asynchronous_result : Response → ℕ → Etag → ℕ → ExecutionResult
asynchronous_result payload job_id etag retry_after = record {
  variant = durable_async retry_after;
  payload = payload;
  etag = some etag;
  location = some job_id;
  retry_after = some retry_after;
  cache_control = some "private, no-store";
}

-- `publicationReceiptMetadata`
abbrev pub receipt_metadata : ExecutionResult → ReceiptMetadata
receipt_metadata result = result.variant

-- The `id` of a payload, where it has one.
abbrev payload_id : Response → Option ℕ
payload_id (job view) = some view.id
payload_id _ = none

-- `isLegacyResponse`
abbrev is_legacy_response : (ℕ → Bool) → Response → Bool
is_legacy_response is_uuid (publication snapshot_id generation) =
    is_uuid snapshot_id && ltb 0 generation
is_legacy_response is_uuid (rolled_back snapshot_id target generation active) =
    is_uuid snapshot_id && ltb 0 generation
is_legacy_response is_uuid _ = false

abbrev incompatible : Result ExecutionResult
incompatible = err (app idempotency_response_incompatible)

replay_durable : (ℕ → Bool) → Response → Option ℕ → Option Etag → ℕ → Result ExecutionResult
replay_durable is_uuid payload (some id) (some etag) retry_after =
    if is_uuid id && leb 1 retry_after && leb retry_after 60
    then ok (asynchronous_result payload id etag retry_after)
    else incompatible
replay_durable is_uuid payload _ _ retry_after = incompatible

replay_variant :
    (ℕ → Bool) → Response → Option Etag → Option ReceiptMetadata → Result ExecutionResult
unfolding replay_durable
replay_variant is_uuid payload etag (some (durable_async retry_after)) =
    replay_durable is_uuid payload (payload_id payload) etag retry_after
replay_variant is_uuid payload etag _ =
    if is_legacy_response is_uuid payload then ok (synchronous_result payload) else incompatible

abbrev is_accepted : Option ℕ → Bool
is_accepted (some code) = code == 202
is_accepted none = false

replay_response : (ℕ → Bool) → ReceiptClaim → Option Response → Result ExecutionResult
unfolding replay_variant
replay_response is_uuid claim none = err (app idempotency_in_progress)
replay_response is_uuid claim (some payload) =
    if claim.pending
    then err (app idempotency_in_progress)
    else if is_accepted claim.status_code
    then replay_variant is_uuid payload claim.etag claim.metadata
    else incompatible

-- `replayPublicationReceipt`
unfoldable pub replay_publication_receipt : (ℕ → Bool) → ReceiptClaim → Result ExecutionResult
unfolding replay_response
replay_publication_receipt is_uuid claim = replay_response is_uuid claim claim.response
