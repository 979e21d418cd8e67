-- ===== src/Rollback/Effects.antt =====
-- What a rollback does to its layer, and what it leaves alone.
use danangmap_backend.Prelude.{
  ℕ, ◌<◌, ◌≡◌, refl, sym, subst, ◌∙◌, ap, ◌≢◌, inl, inr, true, false, Option, none, some, [], ◌∷◌,
  ◌++◌, ◌==◌, arith, find_by, find_by-holds, find_by-update_where, max_by-All, All, Option-cases,
}
use danangmap_backend.Domain.{layer_rollback}
use danangmap_backend.Database.{
  Db, Layer, Snapshot, Pointer, Response, Etag, publication_pointer_etag, Result, ok, err,
}
use danangmap_backend.Database.Queries.{
  Env, Actor, layer, snapshot, pointer, is_editorial, next_generation, insert_snapshot, touch_layer,
  add_audit, activate_snapshot,
}
use danangmap_backend.Idempotency.{complete}
use danangmap_backend.Idempotency.Replay.{once-cases}
use danangmap_backend.Ledger.{view, Move, rest}
use danangmap_backend.Workflow.Snapshots.{insert_snapshot-next, snapshot-insert-activate, activated}
use danangmap_backend.Rollback.{
  RollbackDto, rollback, rollback_owned, rollback_writes, rollback_recorded, rollback_response,
  rollback_digest, restored, repoint, target, active_pointer, is_pointer_etag, require_pointer_etag,
  replayed_rollback,
}

-- The tables that say which revisions there are, who took part in them, and which jobs run.
pub record Untouched (before after : Db) : Type 0 where
  pub revisions : after.revisions ≡ before.revisions
  pub participants : after.participants ≡ before.participants
  pub jobs : after.jobs ≡ before.jobs

pub Untouched-Move : (db db' : Db) → Untouched db db' → Move (view db) (view db')
Untouched-Move db db' u =
    rest (λ j. ground (arith, ap (λ rs. find_by (λ r. r.id == j) rs) u.revisions))
      (λ r w k. ground (arith, u.participants))

-- All that `rollback` asks for, behind its receipt.
pub record CanRollback (env : Env) (layer_id : ℕ) (dto : RollbackDto) (expected : Etag)
    (actor : Actor) (p : Pointer) (t : Snapshot) (db : Db) : Type 0 where
  pub layer_row : Layer
  pub has_layer : layer layer_id db ≡ some layer_row
  pub active_row : Snapshot
  pub points : pointer layer_id db ≡ some p
  pub joins : active_pointer layer_id db ≡ some (p, active_row)
  pub matches : is_pointer_etag expected layer_id p.active_snapshot_id active_row.generation ≡ true
  pub not_active : (p.active_snapshot_id == dto.target_snapshot_id) ≡ false
  pub has_target : target layer_id dto.target_snapshot_id db ≡ some t
  pub not_editorial : is_editorial t.revision_id actor.id db ≡ false
  pub unused_id : snapshot env.fresh db ≡ none

-- A layer that serves the content of the target again.
pub record Serves (env : Env) (layer_id : ℕ) (p : Pointer) (t : Snapshot) (before after : Db)
    : Type 0 where
  pub active :
      pointer layer_id after
      ≡ some (record p {
        previous_snapshot_id = some p.active_snapshot_id;
        active_snapshot_id = env.fresh;
        pointer_updated_at = env.now;
      })
  pub row : Snapshot
  pub stored : snapshot env.fresh after ≡ some row
  pub same_revision : row.revision_id ≡ t.revision_id
  pub same_checksum : row.checksum ≡ t.checksum
  pub same_count : row.feature_count ≡ t.feature_count
  pub same_bounds : row.bounds ≡ t.bounds
  pub newest :
      All (λ s. (s.layer_id == layer_id) ≡ true → s.generation < row.generation) before.snapshots
  pub others : (j : ℕ) → j ≢ env.fresh → snapshot j after ≡ snapshot j before
  pub untouched : Untouched before after

pointer-repoint :
    (env : Env) (l s : ℕ) (p : Pointer) (db : Db)
    → pointer l db ≡ some p
    → pointer l (repoint env l s db)
      ≡ some (record p {
        previous_snapshot_id = some p.active_snapshot_id;
        active_snapshot_id = s;
        pointer_updated_at = env.now;
      })
unfolding repoint
pointer-repoint env l s p db e = ground (
  arith,
  e,
  find_by-holds (λ (p : Pointer). p.layer_id == l) db.pointers p e,
  find_by-update_where (λ (p : Pointer). p.layer_id == l) (λ p. p.layer_id == l)
      (λ (p : Pointer). record p {
        previous_snapshot_id = some p.active_snapshot_id;
        active_snapshot_id = s;
        pointer_updated_at = env.now;
      })
      db.pointers (λ p. refl),
)

rollback_recorded-Serves :
    (env : Env) (l : ℕ) (p : Pointer) (t : Snapshot) (dto : RollbackDto) (actor : Actor) (key : ℕ)
    (db : Db)
    → pointer l db ≡ some p
    → snapshot env.fresh db ≡ none
    → Serves env l p t db (
        rollback_recorded env l p t dto actor key (next_generation l db) (
          repoint env l env.fresh
            (record db { snapshots = db.snapshots ++ restored env l t actor db ∷ [] })))
unfolding rollback_recorded repoint complete touch_layer add_audit activate_snapshot
rollback_recorded-Serves env l p t dto actor key db e h =
    let s = restored env l t actor db in
    record {
      active = pointer-repoint env l env.fresh p db e;
      row = activated env s;
      stored = snapshot-insert-activate env s db env.fresh h ∙ ground arith;
      same_revision = refl;
      same_checksum = refl;
      same_count = refl;
      same_bounds = refl;
      newest =
          max_by-All (λ (t : Snapshot). t.layer_id == l) (λ t. t.generation) db.snapshots _
            (omega arith);
      others = λ j e. snapshot-insert-activate env s db j h ∙ ground arith;
      untouched = record { revisions = refl; participants = refl; jobs = refl };
    }

-- Behind its receipt, a rollback to another snapshot of the layer that was published and activated
-- succeeds for an actor who took no editorial part in its revision and who names the current pointer,
-- where the generated id is new. The layer then serves the content of the target as a snapshot of a
-- generation above every earlier one, and no revision, participant, job or other snapshot changes.
pub rollback_total :
    (env : Env) (layer_id : ℕ) (dto : RollbackDto) (expected : Etag) (actor : Actor) (key : ℕ)
    (p : Pointer) (t : Snapshot) (db : Db)
    → CanRollback env layer_id dto expected actor p t db
    → (db' : Db) × (rollback_owned env layer_id dto expected actor key db
        ≡ ok (
          (
            rollback_response env t (next_generation layer_id db),
            publication_pointer_etag layer_id env.fresh (next_generation layer_id db),
          ),
          db',
        ))
      × Serves env layer_id p t db db'
unfolding rollback_owned rollback_writes
rollback_total env layer_id dto expected actor key p t db c = (
  _,
  ground (arith, insert_snapshot-next (restored env layer_id t actor db) db c.unused_id refl, c),
  rollback_recorded-Serves env layer_id p t dto actor key db c.points c.unused_id,
)

rollback_writes-Untouched :
    (env : Env) (layer_id : ℕ) (p : Pointer) (t : Snapshot) (dto : RollbackDto) (actor : Actor)
    (key : ℕ) (db db' : Db) (x : Response × Etag)
    → rollback_writes env layer_id p t dto actor key db ≡ ok (x, db')
    → Untouched db db'
unfolding rollback_writes insert_snapshot rollback_recorded repoint complete touch_layer add_audit
    activate_snapshot
rollback_writes-Untouched env layer_id p t dto actor key db db' x h = record {
  revisions = ground arith;
  participants = ground arith;
  jobs = ground arith;
}

rollback_owned-Untouched :
    (env : Env) (layer_id : ℕ) (dto : RollbackDto) (expected : Etag) (actor : Actor) (key : ℕ)
    (db db' : Db) (x : Response × Etag)
    → rollback_owned env layer_id dto expected actor key db ≡ ok (x, db')
    → Untouched db db'
unfolding rollback_owned
rollback_owned-Untouched env layer_id dto expected actor key db db' x h =
    elim (Option-cases (layer layer_id db)) [
      | inl e ↦ absurd (ground arith)
      | inr (l, e) ↦ elim (Option-cases (active_pointer layer_id db)) [
        | inl f ↦ absurd (ground arith)
        | inr ((p, s), f) ↦ elim (Option-cases (target layer_id dto.target_snapshot_id db)) [
          | inl g ↦ absurd (ground arith)
          | inr (t, g) ↦
              rollback_writes-Untouched env layer_id p t dto actor key db db' x (ground arith)
        ]
      ]
    ]

replayed_rollback-reads :
    (o : Option Response) (e : Option Etag) (db d : Db) (x : Response × Etag)
    → replayed_rollback o e db ≡ ok (x, d)
    → d ≡ db
replayed_rollback-reads o e db d x h = ground arith

require-reads :
    (e : Option Etag) (db d : Db) (x : Etag) → require_pointer_etag e db ≡ ok (x, d) → d ≡ db
unfolding require_pointer_etag
require-reads e db d x h = ground arith

-- A rollback that succeeds, at first or from its receipt, changes no revision, no participant and no job.
pub rollback-Untouched :
    (env : Env) (layer_id : ℕ) (dto : RollbackDto) (etag : Option Etag) (actor : Actor) (key : ℕ)
    (db db' : Db) (x : Response × Etag)
    → rollback env layer_id dto etag actor key db ≡ ok (x, db')
    → Untouched db db'
unfolding rollback
rollback-Untouched env layer_id dto etag actor key db db' x h =
    go (require_pointer_etag etag db) refl
  where
    go : (r : Result (Etag × Db)) → require_pointer_etag etag db ≡ r → Untouched db db'
    go (err e) q = absurd (ground arith)
    go (ok (expected, d)) q =
        elim (once-cases actor.id layer_rollback key
          (rollback_owned env layer_id dto expected actor key)
          (λ c. replayed_rollback c.response c.etag) (rollback_digest env layer_id dto etag) db db'
          x (ground (arith, require-reads etag db d expected q))) [
            | inl (_, e) ↦
                let u = rollback_owned-Untouched env layer_id dto expected actor key _ db' x e in
                record { revisions = u.revisions; participants = u.participants; jobs = u.jobs }
            | inr (r, _, _, e) ↦
                let same = replayed_rollback-reads r.response_payload r.response_etag db db' x e in
                subst (λ d. Untouched db d) (sym same)
                  (record { revisions = refl; participants = refl; jobs = refl })
          ]
