-- ===== src/Layers/Commit.antt =====
-- The rest of `syncBatch` of src/layers/feature-sync.service.ts around its loop, and `prune` of
-- change-feed-retention.service.ts.
use danangmap_backend.Prelude.{
  ℕ, ◌-◌, ◌+◌, String, not, ◌&&◌, List, [], ◌∷◌, Option, none, some, leb, max, ◌==◌, if◌then◌else◌,
  select_by, map, length,
}
use text.Mathlib.Text.{◌==◌ as str_eq}
use danangmap_backend.Json.{Json, num, str, ident, arr, items, object}
use danangmap_backend.Domain.{ParticipationType}
use danangmap_backend.Database.{Db, Tx, Revision, Etag, revision_etag, modify, pure, ◌>>◌, ◌>>=◌}
use danangmap_backend.Database.Sync.{SyncResult, applied, conflict, rejected}
use danangmap_backend.Database.Queries.{
  Env, Actor, revision, lock_revision, update_revision, add_participant,
}
use danangmap_backend.Workflow.Review.{audit}
use danangmap_backend.Layers.{Mutation, BatchDto}
use danangmap_backend.Layers.Mutations.{Context, refuse_if, origin_text}
use danangmap_backend.Layers.Batch.{
  Progress, require_revision_version, cursor_decode, load_receipts, load_mappings, check_hashes,
  new_mutations, assert_preconditions, sync_items,
}

abbrev pub raise_floor : ℕ → ℕ → Db → Db
raise_floor id target =
    update_revision id (λ r. record r { change_cursor_floor = max r.change_cursor_floor target })

abbrev floor_of : Option Revision → ℕ
floor_of none = 0
floor_of (some r) = r.change_cursor_floor

-- DELETE FROM revision_changes WHERE revision_id=$1 AND server_cursor <= ...
abbrev pub delete_changes : ℕ → ℕ → Db → Db
delete_changes id floor db = record db {
  changes = select_by (λ c. not (c.revision_id == id && leb c.server_cursor floor)) db.changes;
}

-- `prune`
unfoldable pub prune : ℕ → ℕ → ℕ → Db → Db
prune retention id cursor db =
    let target = cursor - retention in
    let raised = raise_floor id target db in
    if target == 0 then db else delete_changes id (floor_of (revision id raised)) raised

abbrev pub set_synced : Env → ℕ → ℕ → Revision → Revision
set_synced env lock_version cursor row = record row {
  lock_version = lock_version;
  cursor_seq = cursor;
  updated_at = env.now;
}

-- What a batch that applied something writes to its revision.
unfoldable pub commit_batch : Env → ℕ → Revision → ℕ → Progress → Db → Db
unfolding prune
commit_batch env retention r actor_id p db =
    if p.applied_count == 0
    then db
    else add_participant r.id actor_id ParticipationType.edit (
        prune retention r.id p.cursor
          (update_revision r.id (set_synced env (r.lock_version + p.applied_count) p.cursor) db))

abbrev status_text : SyncResult → String
status_text (applied _ _ _ _ _ _) = "applied"
status_text (conflict _ _ _ _ _ _) = "conflict"
status_text (rejected _ _ _ _ _) = "rejected"

count_status : String → List (String × ℕ) → List (String × ℕ)
count_status s [] = (s, 1) ∷ []
count_status s (e ∷ es) =
    let rest = count_status s es in if str_eq e.0 s then (e.0, e.1 + 1) ∷ es else e ∷ rest

-- The counts of the results by status.
counts : List SyncResult → List (String × ℕ) → List (String × ℕ)
unfolding count_status
counts [] acc = acc
counts (r ∷ rs) acc = counts rs (count_status (status_text r) acc)

insert_id : Env → ℕ → List ℕ → List ℕ
insert_id env i [] = i ∷ []
insert_id env i (j ∷ js) =
    let rest = insert_id env i js in
    if env.code_unit_before (env.uuid_text j) (env.uuid_text i) then j ∷ rest else i ∷ j ∷ js

sorted_ids : Env → List Mutation → List ℕ
unfolding insert_id
sorted_ids env [] = []
sorted_ids env (m ∷ ms) = insert_id env m.client_mutation_id (sorted_ids env ms)

abbrev batch_metadata : Env → BatchDto → List Mutation → List SyncResult → Json
unfolding counts count_status sorted_ids insert_id
batch_metadata env dto new results = object (
    ("origin", str (origin_text dto.origin))
    ∷ ("clientId", ident dto.client_id)
    ∷ ("mutationCount", num (length new))
    ∷ ("counts", object (map (λ (e : String × ℕ). (e.0, num e.1)) (counts results [])))
    ∷ (
      "mutationDigest",
      str (env.sha256 (env.json_text (arr (items (map ident (sorted_ids env new)))))),
    )
    ∷ [])

-- The log row of a batch that had new mutations.
unfoldable pub audit_batch : Env → BatchDto → Actor → ℕ → List Mutation → List SyncResult → Db → Db
unfolding counts count_status sorted_ids insert_id
audit_batch env dto actor id [] results db = db
audit_batch env dto actor id (m ∷ ms) results db =
    audit env actor "feature.batch_synced" id (batch_metadata env dto (m ∷ ms) results) db

pub record SyncResponse : Type 0 where
  pub server_cursor : ℕ
  pub results : List SyncResult
  pub etag : Etag

abbrev pub start : Revision → List (ℕ × ℕ) → Progress
start r mappings = record {
  mappings = mappings;
  cursor = r.cursor_seq;
  applied_count = 0;
  results = [];
}

abbrev pub sync_response : Revision → Progress → SyncResponse
sync_response r p = record {
  server_cursor = p.cursor;
  results = p.results;
  etag = revision_etag r.id (r.lock_version + p.applied_count);
}

abbrev pub context : Env → BatchDto → Actor → Revision → Db → Context
context env dto actor r db = record {
  env = env;
  revision = r;
  fields = select_by (λ f. f.revision_id == r.id) db.fields;
  client_id = dto.client_id;
  origin = dto.origin;
  actor = actor;
}

-- `syncBatch` once the revision is locked and its request is decoded.
unfoldable pub sync_locked :
    Env → ℕ → BatchDto → Actor → (expected base_cursor : ℕ) → Revision → Tx SyncResponse
sync_locked env retention dto actor expected base_cursor r db =
    let receipts = load_receipts r.id dto.client_id dto.mutations db in
    let new = new_mutations receipts dto.mutations in
    (do
      refuse_if (check_hashes env receipts dto.mutations)
      refuse_if (assert_preconditions r expected base_cursor new)
      p ←
          sync_items (context env dto actor r db) receipts dto.mutations
            (start r (load_mappings r.id dto.client_id db))
      modify (commit_batch env retention r actor.id p)
      modify (audit_batch env dto actor r.id new p.results)
      pure (sync_response r p))
      db

-- `syncBatch`
unfoldable pub sync_batch :
    Env → (retention revision_id : ℕ) → BatchDto → Option Etag → Actor → Tx SyncResponse
sync_batch env retention revision_id dto if_match actor = do
  expected ← require_revision_version if_match revision_id
  base_cursor ← cursor_decode dto.base_cursor
  r ← lock_revision revision_id
  sync_locked env retention dto actor expected base_cursor r
