-- ===== src/Publication/Outbox.antt =====
-- The outbox of src/publications/publication-job.repository.ts (claimOutbox, markOutboxDispatched,
-- releaseOutboxClaim), and the delay that src/publications/publication-outbox.service.ts waits after a
-- dispatch that failed.
pub mod Transitions
use danangmap_backend.Prelude.{
  ℕ, zero, suc, ◌+◌, ◌^◌, String, Bool, true, false, not, ◌&&◌, ◌||◌, List, [], ◌∷◌, Option, none,
  some, min, ◌==◌, ltb, leb, if◌then◌else◌, exists_by, select_by, update_where,
}
use danangmap_backend.Database.{Db}
use danangmap_backend.Database.Publication.{
  OutboxRow, OutboxStatus, pending, dispatching, dispatched,
}
use danangmap_backend.Database.Queries.{Env}

abbrev passed : Option ℕ → ℕ → Bool
passed none now = false
passed (some t) now = leb t now

abbrev pub is_due_in : OutboxStatus → ℕ → OutboxRow → Bool
is_due_in pending now r = leb r.available_at now
is_due_in dispatching now r = passed r.lease_expires_at now
is_due_in dispatched now r = false

-- The WHERE of `due`.
abbrev pub is_due : ℕ → OutboxRow → Bool
is_due now r = is_due_in r.status now r

-- ORDER BY available_at,id
insert_due : OutboxRow → List OutboxRow → List OutboxRow
insert_due r [] = r ∷ []
insert_due r (s ∷ ss) =
    let rest = insert_due r ss in
    if ltb r.available_at s.available_at || (r.available_at == s.available_at && leb r.id s.id)
    then r ∷ s ∷ ss
    else s ∷ rest

sorted_due : List OutboxRow → List OutboxRow
unfolding insert_due
sorted_due [] = []
sorted_due (r ∷ rs) = insert_due r (sorted_due rs)

limited : ℕ → List OutboxRow → List OutboxRow
limited zero rs = []
limited (suc n) [] = []
limited (suc n) (r ∷ rs) = r ∷ limited n rs

-- `due`
unfoldable pub due_rows : ℕ → ℕ → List OutboxRow → List OutboxRow
unfolding sorted_due insert_due limited
due_rows now limit rows = limited limit (sorted_due (select_by (is_due now) rows))

abbrev pub claimed_row : Env → String → ℕ → OutboxRow → OutboxRow
claimed_row env owner lease_seconds r = record r {
  status = dispatching;
  attempts = r.attempts + 1;
  lease_token = some (env.lease_uuid r.id);
  lease_owner = some owner;
  lease_expires_at = some (env.now + lease_seconds);
  last_error_code = none;
}

-- Whether a row is among those claimed. The identifier is the primary key, so a row with the
-- identifier of a due one is due.
abbrev pub is_claimed : ℕ → ℕ → List OutboxRow → OutboxRow → Bool
is_claimed now limit rows r =
    is_due now r && exists_by (λ d. d.id == r.id) (due_rows now limit rows)

-- The tables after `claimOutbox`; what it returns are the rows that it has claimed.
unfoldable pub claim_outbox : Env → ℕ → String → ℕ → Db → Db
claim_outbox env limit owner lease_seconds db = record db {
  outbox =
      update_where (is_claimed env.now limit db.outbox) (claimed_row env owner lease_seconds)
        db.outbox;
}

abbrev is_dispatching : OutboxStatus → Bool
is_dispatching dispatching = true
is_dispatching _ = false

abbrev same_token : Option ℕ → ℕ → Bool
same_token none token = false
same_token (some t) token = t == token

-- id=$1 AND status='dispatching' AND lease_token=$2
abbrev pub is_held : ℕ → ℕ → OutboxRow → Bool
is_held id token r = r.id == id && is_dispatching r.status && same_token r.lease_token token

abbrev or_now : Option ℕ → ℕ → ℕ
or_now none now = now
or_now (some t) now = t

abbrev pub dispatched_row : Env → OutboxRow → OutboxRow
dispatched_row env r = record r {
  status = dispatched;
  dispatched_at = some (or_now r.dispatched_at env.now);
  lease_token = none;
  lease_owner = none;
  lease_expires_at = none;
  last_error_code = none;
}

-- The tables after `markOutboxDispatched`.
unfoldable pub mark_outbox_dispatched : Env → ℕ → ℕ → Db → Db
mark_outbox_dispatched env id token db = record db {
  outbox = update_where (is_held id token) (dispatched_row env) db.outbox;
}

abbrev pub released_row : Env → ℕ → String → OutboxRow → OutboxRow
released_row env delay_seconds error_code r = record r {
  status = pending;
  available_at = env.now + delay_seconds;
  lease_token = none;
  lease_owner = none;
  lease_expires_at = none;
  last_error_code = some error_code;
}

-- `releaseOutboxClaim`, with the delay in the unit of the clock
unfoldable pub release_outbox_claim : Env → ℕ → ℕ → ℕ → String → Db → Db
release_outbox_claim env id token delay_seconds error_code db = record db {
  outbox = update_where (is_held id token) (released_row env delay_seconds error_code) db.outbox;
}

-- The delay that `dispatchOnce` releases a claim with.
unfoldable pub dispatch_delay : (attempts : ℕ) → ℕ
dispatch_delay attempts = min 300 (2 ^ min attempts 8)

pub data OutboxCall : Type 0 where
  claims : (limit : ℕ) (owner : String) (lease_seconds : ℕ) → OutboxCall
  marks : (id token : ℕ) → OutboxCall
  releases : (id token attempts : ℕ) (error_code : String) → OutboxCall

abbrev pub outbox_step : Env → OutboxCall → Db → Db
outbox_step env (claims limit owner lease) db = claim_outbox env limit owner lease db
outbox_step env (marks id token) db = mark_outbox_dispatched env id token db
outbox_step env (releases id token attempts error_code) db =
    release_outbox_claim env id token (dispatch_delay attempts) error_code db

unfoldable pub outbox_run : List (Env × OutboxCall) → Db → Db
outbox_run [] db = db
outbox_run (c ∷ cs) db = outbox_run cs (outbox_step c.0 c.1 db)
