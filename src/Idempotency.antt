-- ===== src/Idempotency.antt =====
-- src/common/idempotency/idempotency.service.ts: the receipts that make a command run once for each
-- (actor, operation, Idempotency-Key).
pub mod Canonical
pub mod Replay
pub mod Order
use text.Mathlib.Text.{◌==◌ as str_eq}
use danangmap_backend.Prelude.{
  ℕ, String, Bool, true, false, not, ◌&&◌, [], ◌∷◌, ◌++◌, Option, none, some, ◌==◌, if◌then◌else◌,
  find_by, update_where, is_some,
}
use danangmap_backend.Domain.{
  Operation, same_operation, app, idempotency_race, idempotency_key_reused,
}
use danangmap_backend.Database.{
  Db, Tx, Receipt, ReceiptState, ReceiptMetadata, Response, Etag, pending, completed, first_or,
  guard, modify, pure, throw, ◌>>=◌, ◌>>◌,
}

pub record ReceiptClaim : Type 0 where
  pub owner : Bool
  pub pending : Bool
  pub response : Option Response
  pub status_code : Option ℕ
  pub etag : Option Etag
  pub metadata : Option ReceiptMetadata

abbrev pub is_receipt : ℕ → Operation → ℕ → Receipt → Bool
is_receipt actor_id operation key r =
    r.actor_id == actor_id && same_operation r.operation operation && r.idempotency_key == key

abbrev pub receipt : ℕ → Operation → ℕ → Db → Option Receipt
receipt actor_id operation key db = find_by (is_receipt actor_id operation key) db.receipts

abbrev pub is_pending : ReceiptState → Bool
is_pending pending = true
is_pending completed = false

abbrev pub owner_claim : ReceiptClaim
owner_claim = record {
  owner = true;
  pending = true;
  response = none;
  status_code = none;
  etag = none;
  metadata = none;
}

abbrev pub replay_claim : Receipt → ReceiptClaim
replay_claim r = record {
  owner = false;
  pending = is_pending r.state;
  response = r.response_payload;
  status_code = r.status_code;
  etag = r.response_etag;
  metadata = r.response_metadata;
}

abbrev pub pending_receipt : ℕ → Operation → ℕ → String → Receipt
pending_receipt actor_id operation key digest = record {
  actor_id = actor_id;
  operation = operation;
  idempotency_key = key;
  request_digest = digest;
  state = pending;
  status_code = none;
  response_payload = none;
  response_etag = none;
  response_metadata = none;
}

-- The INSERT ... ON CONFLICT DO NOTHING of `claim`.
abbrev pub insert_pending : ℕ → Operation → ℕ → String → Db → Db
insert_pending actor_id operation key digest db = record db {
  receipts = db.receipts ++ pending_receipt actor_id operation key digest ∷ [];
}

check_receipt : ℕ → Operation → ℕ → String → Tx ReceiptClaim
check_receipt actor_id operation key digest = do
  r ← first_or (receipt actor_id operation key) (app idempotency_race)
  guard (str_eq r.request_digest digest) (app idempotency_key_reused)
  pure (replay_claim r)

-- `claim`
unfoldable pub claim : ℕ → Operation → ℕ → String → Tx ReceiptClaim
unfolding check_receipt
claim actor_id operation key digest db =
    if is_some (receipt actor_id operation key db)
    then check_receipt actor_id operation key digest db
    else (modify (insert_pending actor_id operation key digest) >> pure owner_claim) db

-- How every command uses a receipt: the owner runs, any other caller is answered from the receipt.
abbrev pub once : {A : Type 0} → ℕ → Operation → ℕ → String → Tx A → (ReceiptClaim → Tx A) → Tx A
once actor_id operation key digest run replay = do
  c ← claim actor_id operation key digest
  if c.owner then run else replay c

-- `prepare`
unfoldable pub prepare :
    ℕ → Operation → ℕ → Response → ℕ → Option Etag → Option ReceiptMetadata → Db → Db
prepare actor_id operation key response status_code etag metadata db = record db {
  receipts =
      update_where (λ r. is_receipt actor_id operation key r && is_pending r.state)
        (λ r. record r {
          response_payload = some response;
          status_code = some status_code;
          response_etag = etag;
          response_metadata = metadata;
        })
        db.receipts;
}

abbrev pub settle : Response → ℕ → Option Etag → Option ReceiptMetadata → Receipt → Receipt
settle response status_code etag metadata r = record r {
  state = completed;
  response_payload = some response;
  status_code = some status_code;
  response_etag = etag;
  response_metadata = metadata;
}

-- `complete`
unfoldable pub complete :
    ℕ → Operation → ℕ → Response → ℕ → Option Etag → Option ReceiptMetadata → Db → Db
complete actor_id operation key response status_code etag metadata db = record db {
  receipts =
      update_where (is_receipt actor_id operation key) (settle response status_code etag metadata)
        db.receipts;
}
