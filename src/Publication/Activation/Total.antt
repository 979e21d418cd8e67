-- ===== src/Publication/Activation/Total.antt =====
-- An activation whose checks pass, seen from the layer, the revision and the job.
use danangmap_backend.Prelude.{
  ℕ, String, ◌<◌, ◌≡◌, refl, ◌∙◌, true, false, ◌&&◌, none, some, [], ◌∷◌, ◌++◌, ◌==◌, ==-refl,
  arith, max_by-All, All,
}
use danangmap_backend.Json.{Json}
use danangmap_backend.Database.{Db, Layer, Snapshot, ok}
use danangmap_backend.Database.Publication.{PublicationJob}
use danangmap_backend.Database.Queries.{
  Env, revision, layer, user, snapshot, pointer, is_editorial, next_generation, touch_layer,
  add_event, add_audit, add_participant, move_pointer, activate_snapshot,
}
use danangmap_backend.Database.Lookup.{map?, revision-update_revision}
use danangmap_backend.Publication.Jobs.{job, holds}
use danangmap_backend.Publication.Activation.{
  may_activate, is_as_admitted, is_eligible, is_base_unmoved, complete_build, job_snapshot,
  set_live, succeeded, activation_recorded, activation_writes, activate_held, activate_locked,
  activate,
}
use danangmap_backend.Publication.Workers.Valid.{job-update_where}
use danangmap_backend.Workflow.Snapshots.{
  insert_snapshot-next, snapshot-insert-activate, activated, moved_pointer, pointer-move_pointer,
}

-- All that `activate` asks for.
pub record CanActivate (env : Env) (id token : ℕ) (j : PublicationJob) (build : String × Json)
    (db : Db) : Type 0 where
  pub found : job id db ≡ some j
  pub held : may_activate env token j ≡ true
  pub layer_row : Layer
  pub has_layer : layer j.layer_id db ≡ some layer_row
  pub as_admitted : is_as_admitted env j (revision j.revision_id db) db ≡ true
  pub eligible : is_eligible (user j.requested_by db) ≡ true
  pub not_editorial : is_editorial j.revision_id j.requested_by db ≡ false
  pub base_unmoved : is_base_unmoved j db ≡ true
  pub is_built : complete_build j ≡ some build
  pub unused_id : snapshot env.fresh db ≡ none

-- The build is live, its revision is published, and its job has ended.
pub record IsActivated (env : Env) (id : ℕ) (j : PublicationJob) (build : String × Json)
    (before after : Db) : Type 0 where
  pub active :
      pointer j.layer_id after
      ≡ some (moved_pointer env j.layer_id env.fresh (pointer j.layer_id before))
  pub stored : snapshot env.fresh after ≡ some (activated env (job_snapshot env j build before))
  pub newest :
      All
        (λ s. (s.layer_id == j.layer_id) ≡ true → s.generation < next_generation j.layer_id before)
        before.snapshots
  pub published : revision j.revision_id after ≡ map? (set_live env) (revision j.revision_id before)
  pub job_ended : job id after ≡ some (succeeded env env.fresh j)

activation_recorded-IsActivated :
    (env : Env) (id token : ℕ) (j : PublicationJob) (build : String × Json) (db : Db)
    → job id db ≡ some j
    → holds token j ≡ true
    → snapshot env.fresh db ≡ none
    → IsActivated env id j build db (
        activation_recorded env token j
          (next_generation j.layer_id db)
          (record db { snapshots = db.snapshots ++ job_snapshot env j build db ∷ [] }))
unfolding activation_recorded touch_layer add_event add_audit add_participant activate_snapshot
    move_pointer
activation_recorded-IsActivated env id token j build db found held h = record {
  active = pointer-move_pointer env j.layer_id env.fresh db;
  stored = snapshot-insert-activate env (job_snapshot env j build db) db env.fresh h ∙ ground arith;
  newest =
      max_by-All (λ (s : Snapshot). s.layer_id == j.layer_id) (λ s. s.generation) db.snapshots _
        (omega arith);
  published =
      revision-update_revision j.revision_id j.revision_id (set_live env) db (λ r. refl)
      ∙ ground (arith, ==-refl j.revision_id);
  job_ended =
      job-update_where id (λ k. k.id == j.id && holds token k) (succeeded env env.fresh) db.jobs
        (λ k. refl)
      ∙ ground (arith, found, held, ==-refl j.id);
}

-- `activate` succeeds for the holder of a live lease wherever its checks pass and the generated id is new.
-- The layer's pointer then names the new snapshot, which holds what was built under a generation above
-- every earlier one, the revision is published, and the job has succeeded.
pub activate_total :
    (env : Env) (id token : ℕ) (j : PublicationJob) (build : String × Json) (db : Db)
    → CanActivate env id token j build db
    → (db' : Db) × (activate env id token db
        ≡ ok (
          record {
            activated = true;
            snapshot_id = some env.fresh;
            generation = some (next_generation j.layer_id db);
          },
          db',
        ))
      × IsActivated env id j build db db'
unfolding activate activate_locked activate_held activation_writes
activate_total env id token j build db c = (
  _,
  ground (arith, insert_snapshot-next (job_snapshot env j build db) db c.unused_id refl, c),
  activation_recorded-IsActivated env id token j build db c.found (ground (arith, c.held))
      c.unused_id,
)
