-- ===== src/Workflow/Snapshots.antt =====
-- What `publish` of src/workflow/workflow.service.ts does to the snapshots and the pointer of a layer,
-- and that its checks are all that can stop it.
use danangmap_backend.Prelude.{
  ℕ, ◌<◌, ◌≡◌, refl, ◌∙◌, ◌≢◌, inl, inr, true, false, Option, none, some, [], ◌∷◌, ◌++◌, ◌==◌,
  same?, if◌then◌else◌, arith, find_by, find_by-append, find_by-holds, find_by-update_where,
  max_by-fresh, max_by-All, All, Option-cases,
}
use danangmap_backend.Domain.{approved}
use danangmap_backend.Database.{Db, Revision, Layer, Snapshot, Pointer, publication, ok}
use danangmap_backend.Database.Queries.{
  Env, Actor, revision, layer, snapshot, pointer, is_editorial, next_generation, insert_snapshot,
  touch_layer, add_event, add_audit, add_participant, move_pointer, activate_snapshot,
}
use danangmap_backend.Idempotency.{complete}
use danangmap_backend.Publication.Receipts.{synchronous_result}
use danangmap_backend.Workflow.Guards.{active_revision, base_revision, attachments_at_fault}
use danangmap_backend.Workflow.Publish.{
  PublishDto, publish_owned, publish_writes, sync_snapshot, mark_publishing, publication_recorded,
}

-- A snapshot of the next generation violates no index but perhaps its primary key.
pub insert_snapshot-next :
    (row : Snapshot) (db : Db)
    → snapshot row.id db ≡ none
    → row.generation ≡ next_generation row.layer_id db
    → insert_snapshot row db ≡ ok (tt, record db { snapshots = db.snapshots ++ row ∷ [] })
unfolding insert_snapshot
insert_snapshot-next row db fresh next = ground (
  arith,
  max_by-fresh (λ (s : Snapshot). s.layer_id == row.layer_id) (λ s. s.generation) db.snapshots
      row.generation,
)

-- The pointer after the move: the new snapshot is active, the one that was active is the previous one.
abbrev pub moved_pointer : Env → ℕ → ℕ → Option Pointer → Pointer
moved_pointer env layer_id snapshot_id none = record {
  layer_id = layer_id;
  active_snapshot_id = snapshot_id;
  previous_snapshot_id = none;
  pointer_updated_at = env.now;
}
moved_pointer env layer_id snapshot_id (some p) = record {
  layer_id = layer_id;
  active_snapshot_id = snapshot_id;
  previous_snapshot_id = some p.active_snapshot_id;
  pointer_updated_at = env.now;
}

pub pointer-move_pointer :
    (env : Env) (l s : ℕ) (db : Db)
    → pointer l (move_pointer env l s db) ≡ some (moved_pointer env l s (pointer l db))
unfolding move_pointer find_by
pointer-move_pointer env l s db = elim (Option-cases (pointer l db)) [
  | inl e ↦ ground (
    arith,
    e,
    find_by-append (λ (p : Pointer). p.layer_id == l) db.pointers (moved_pointer env l s none ∷ []),
  )
  | inr (p, e) ↦ ground (
    arith,
    e,
    find_by-holds (λ (p : Pointer). p.layer_id == l) db.pointers p e,
    find_by-update_where (λ (p : Pointer). p.layer_id == l) (λ p. p.layer_id == l)
        (λ (p : Pointer). record p {
          previous_snapshot_id = some p.active_snapshot_id;
          active_snapshot_id = s;
          pointer_updated_at = env.now;
        })
        db.pointers (λ p. refl),
  )
]

abbrev pub activated : Env → Snapshot → Snapshot
activated env s = record s { activated_at = some env.now }

-- The new snapshot is found under its id, and every other one as it was.
pub snapshot-insert-activate :
    (env : Env) (row : Snapshot) (db : Db) (j : ℕ)
    → snapshot row.id db ≡ none
    → snapshot j (activate_snapshot env row.id (record db { snapshots = db.snapshots ++ row ∷ [] }))
      ≡ (if j == row.id then some (activated env row) else snapshot j db)
unfolding activate_snapshot find_by
snapshot-insert-activate env row db j h = elim (Option-cases (snapshot j db)) [
  | inl e ↦ ground (
    arith,
    e,
    find_by-append (λ (s : Snapshot). s.id == j) db.snapshots (row ∷ []),
    find_by-update_where (λ (s : Snapshot). s.id == j) (λ s. s.id == row.id) (activated env)
        (db.snapshots ++ row ∷ []) (λ s. refl),
  )
  | inr (s, e) ↦ ground (
    arith,
    e,
    find_by-holds (λ (s : Snapshot). s.id == j) db.snapshots s e,
    find_by-append (λ (s : Snapshot). s.id == j) db.snapshots (row ∷ []),
    find_by-update_where (λ (s : Snapshot). s.id == j) (λ s. s.id == row.id) (activated env)
        (db.snapshots ++ row ∷ []) (λ s. refl),
  )
]

-- All that `publish` asks for.
pub record CanPublish (env : Env) (id : ℕ) (actor : Actor) (r : Revision) (db : Db) : Type 0 where
  pub found : revision id db ≡ some r
  pub layer_row : Layer
  pub has_layer : layer r.layer_id db ≡ some layer_row
  pub is_approved : r.status ≡ approved
  pub not_editorial : is_editorial id actor.id db ≡ false
  pub current : same? (active_revision r.layer_id db) (base_revision r db) ≡ true
  pub files_ready : attachments_at_fault id db ≡ false
  pub unused_id : snapshot env.fresh db ≡ none

-- A successful publication, seen from its layer.
pub record IsLive (env : Env) (id : ℕ) (r : Revision) (before after : Db) : Type 0 where
  pub active :
      pointer r.layer_id after
      ≡ some (moved_pointer env r.layer_id env.fresh (pointer r.layer_id before))
  pub row : Snapshot
  pub stored : snapshot env.fresh after ≡ some row
  pub of_revision : row.revision_id ≡ id
  pub of_layer : row.layer_id ≡ r.layer_id
  pub is_activated : row.activated_at ≡ some env.now
  pub newest :
      All (λ s. (s.layer_id == r.layer_id) ≡ true → s.generation < row.generation) before.snapshots
  pub others : (j : ℕ) → j ≢ env.fresh → snapshot j after ≡ snapshot j before

publication_recorded-IsLive :
    (env : Env) (id : ℕ) (r : Revision) (dto : PublishDto) (actor : Actor) (key : ℕ) (db : Db)
    → snapshot env.fresh db ≡ none
    → IsLive env id r db (
        publication_recorded env id r dto actor key
          (next_generation r.layer_id db)
          (record (mark_publishing env id db) {
            snapshots =
                db.snapshots ++ sync_snapshot env id r actor (mark_publishing env id db) ∷ [];
          }))
unfolding publication_recorded complete touch_layer add_event add_audit add_participant
    activate_snapshot move_pointer
publication_recorded-IsLive env id r dto actor key db h =
    let s = sync_snapshot env id r actor (mark_publishing env id db) in
    record {
      active = pointer-move_pointer env r.layer_id env.fresh db;
      row = activated env s;
      stored = snapshot-insert-activate env s db env.fresh h ∙ ground arith;
      of_revision = refl;
      of_layer = refl;
      is_activated = refl;
      newest =
          max_by-All (λ (t : Snapshot). t.layer_id == r.layer_id) (λ t. t.generation) db.snapshots _
            (omega arith);
      others = λ j e. snapshot-insert-activate env s db j h ∙ ground arith;
    }

-- `publish` succeeds behind its receipt wherever its checks pass and the generated id is new. The answer
-- names the snapshot and its generation, which is above every earlier one of the layer; the layer's
-- pointer then names it and remembers the snapshot that was active, and no other snapshot changes.
pub publish_total :
    (env : Env) (id : ℕ) (dto : PublishDto) (actor : Actor) (key : ℕ) (r : Revision) (db : Db)
    → CanPublish env id actor r db
    → (db' : Db) × (publish_owned env id dto actor key db
        ≡ ok (synchronous_result (publication env.fresh (next_generation r.layer_id db)), db'))
      × IsLive env id r db db'
unfolding publish_owned publish_writes
publish_total env id dto actor key r db c = (
  _,
  ground (
    arith,
    insert_snapshot-next (sync_snapshot env id r actor (mark_publishing env id db))
        (mark_publishing env id db) c.unused_id refl,
    c,
  ),
  publication_recorded-IsLive env id r dto actor key db c.unused_id,
)
