-- ===== src/Publication/Activation/Effects.antt =====
-- What an activation has checked and written.
use danangmap_backend.Prelude.{
  ℕ, String, ◌≡◌, ◌⊎◌, inl, inr, true, false, some, arith, Option-cases, Bool-cases,
}
use danangmap_backend.Json.{Json}
use danangmap_backend.Database.{Db, ok}
use danangmap_backend.Database.Publication.{PublicationJob}
use danangmap_backend.Database.Queries.{
  Env, revision, layer, user, is_editorial, insert_snapshot, next_generation,
}
use danangmap_backend.Database.Lookup.{>>=-eq-ok}
use danangmap_backend.Publication.Jobs.{job, is_succeeded}
use danangmap_backend.Publication.Activation.{
  Activation, may_activate, is_as_admitted, is_eligible, is_base_unmoved, complete_build,
  job_snapshot, activation_recorded, activation_writes, activate_held, activate_locked, activate,
}

-- The checks that the holder of a job passes.
pub record Activated (env : Env) (token : ℕ) (j : PublicationJob) (db db' : Db) (x : Activation)
    : Type 0 where
  pub as_admitted : is_as_admitted env j (revision j.revision_id db) db ≡ true
  pub eligible : is_eligible (user j.requested_by db) ≡ true
  pub not_editorial : is_editorial j.revision_id j.requested_by db ≡ false
  pub base_unmoved : is_base_unmoved j db ≡ true
  pub build : String × Json
  pub is_built : complete_build j ≡ some build
  pub written : activation_writes env token j build db ≡ ok (x, db')

activate_held-Activated :
    (env : Env) (token : ℕ) (j : PublicationJob) (db db' : Db) (x : Activation)
    → activate_held env token j db ≡ ok (x, db')
    → Activated env token j db db' x
unfolding activate_held
activate_held-Activated env token j db db' x h = elim (Option-cases (layer j.layer_id db)) [
  | inl f ↦ absurd (ground arith)
  | inr (l, f) ↦ elim (Option-cases (complete_build j)) [
    | inl e ↦ absurd (ground arith)
    | inr (b, e) ↦ record {
      as_admitted = ground arith;
      eligible = ground arith;
      not_editorial = ground arith;
      base_unmoved = ground arith;
      build = b;
      is_built = e;
      written = ground arith;
    }
  ]
]

-- The insertion of the snapshot has succeeded in between.
pub record ActivationWritten (env : Env) (token : ℕ) (j : PublicationJob) (build : String × Json)
    (db db' : Db) (x : Activation) : Type 0 where
  pub inserted : Db
  pub insertion : insert_snapshot (job_snapshot env j build db) db ≡ ok (tt, inserted)
  pub answer : x ≡ record {
    activated = true;
    snapshot_id = some env.fresh;
    generation = some (next_generation j.layer_id db);
  }
  pub after : db' ≡ activation_recorded env token j (next_generation j.layer_id db) inserted

pub activation_writes-cases :
    (env : Env) (token : ℕ) (j : PublicationJob) (build : String × Json) (db db' : Db)
    (x : Activation)
    → activation_writes env token j build db ≡ ok (x, db')
    → ActivationWritten env token j build db db' x
unfolding activation_writes
activation_writes-cases env token j build db db' x h =
    let (u, d, e, k) =
      >>=-eq-ok (insert_snapshot (job_snapshot env j build db))
        (λ _ d. ok (
          record {
            activated = true;
            snapshot_id = some env.fresh;
            generation = some (next_generation j.layer_id db);
          },
          activation_recorded env token j (next_generation j.layer_id db) d,
        ))
        db h in
    record { inserted = d; insertion = e; answer = ground arith; after = ground arith }

-- The held job of an activation that published.
pub record Published (env : Env) (id token : ℕ) (db db' : Db) (x : Activation) : Type 0 where
  pub job_row : PublicationJob
  pub found : job id db ≡ some job_row
  pub held : may_activate env token job_row ≡ true
  pub checks : Activated env token job_row db db' x

-- An activation that succeeds changed nothing, or published the revision of a job that its caller held.
pub activate-cases :
    (env : Env) (id token : ℕ) (db db' : Db) (x : Activation)
    → activate env id token db ≡ ok (x, db')
    → (db' ≡ db) ⊎ Published env id token db db' x
unfolding activate activate_locked
activate-cases env id token db db' x h = elim (Option-cases (job id db)) [
  | inl e ↦ inl (ground arith)
  | inr (j, e) ↦ elim (Bool-cases (is_succeeded j.status)) [
    | inl s ↦ inl (ground arith)
    | inr s ↦ elim (Bool-cases (may_activate env token j)) [
      | inl m ↦ inr (record {
        job_row = j;
        found = e;
        held = m;
        checks = activate_held-Activated env token j db db' x (ground arith);
      })
      | inr m ↦ inl (ground arith)
    ]
  ]
]
