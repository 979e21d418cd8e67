-- ===== src/Publication/Workers/After.antt =====
-- The job table after those worker calls that can throw.
use danangmap_backend.Prelude.{
  ℕ, String, ◌≤◌, ◌≡◌, true, false, ◌&&◌, [], ◌∷◌, ◌++◌, List, Option, some, ◌==◌, arith, select_by,
  exists_by, update_where, Option-cases, inl, inr,
}
use danangmap_backend.Json.{Json}
use danangmap_backend.Database.{Db, ok}
use danangmap_backend.Database.Publication.{PublicationJob, BatchRow}
use danangmap_backend.Database.Queries.{Env}
use danangmap_backend.Publication.Jobs.{
  job, set_prepared, mark_switching, commit_batch, is_preparing_by, prepared, is_complete_by,
  switched, is_scanned_by, holds, advanced, processed_features, processed_vertices, total_or_none,
  some_batch, ends_at,
}

pub set_prepared-after :
    (env : Env) (id token total lease : ℕ) (db d : Db) (x : Unit {0})
    → set_prepared env id token total lease db ≡ ok (x, d)
    → record db {
      jobs =
          update_where
            (λ j. j.id == id && is_preparing_by token total j)
            (prepared env total lease)
            db.jobs;
    }
      ≡ d
unfolding set_prepared
set_prepared-after env id token total lease db d x h = ground arith

pub mark_switching-after :
    (env : Env) (id token : ℕ) (checksum : String) (manifest : Json) (lease : ℕ) (db d : Db)
    (x : Unit {0})
    → mark_switching env id token checksum manifest lease db ≡ ok (x, d)
    → record db {
      jobs =
          update_where
            (λ j. j.id == id && is_complete_by token j)
            (switched env checksum manifest lease)
            db.jobs;
    }
      ≡ d
unfolding mark_switching
mark_switching-after env id token checksum manifest lease db d x h = ground arith

-- The outcome of a batch: who held the job, and the tables after it.
pub record Committed (env : Env) (row : BatchRow) (token lease : ℕ)
    (bounds : List BatchRow → Option String) (db d : Db) (x : ℕ × ℕ) : Type 0 where
  pub holder : PublicationJob
  pub held : job row.job_id db ≡ some holder
  pub scanned : is_scanned_by env token holder ≡ true
  pub counted : 1 ≤ row.feature_count
  pub new_number : exists_by (some_batch row.job_id row.batch_no) db.batches ≡ false
  pub new_cursor : exists_by (ends_at row.job_id row.last_feature_id) db.batches ≡ false
  pub batches_after : d.batches ≡ db.batches ++ row ∷ []
  pub within : processed_features row.job_id d.batches ≤ total_or_none holder
  pub jobs_after :
      d.jobs
      ≡ update_where
          (λ k. k.id == row.job_id && holds token k)
          (advanced env
            (processed_features row.job_id d.batches)
            (processed_vertices row.job_id d.batches)
            (bounds (select_by (λ b. b.job_id == row.job_id) d.batches))
            lease)
          db.jobs
  pub answer : x ≡ (processed_features row.job_id d.batches, total_or_none holder)

-- The checks and the writes of a `commitBatch` that succeeds.
pub commit_batch-Committed :
    (env : Env) (bounds : List BatchRow → Option String) (row : BatchRow) (token lease : ℕ)
    (db d : Db) (x : ℕ × ℕ)
    → commit_batch env bounds row token lease db ≡ ok (x, d)
    → Committed env row token lease bounds db d x
unfolding commit_batch
commit_batch-Committed env bounds row token lease db d x h =
    elim (Option-cases (job row.job_id db)) [
      | inl e ↦ absurd (ground arith)
      | inr (j, e) ↦ record {
        holder = j;
        held = e;
        scanned = ground arith;
        counted = ground arith;
        new_number = ground arith;
        new_cursor = ground arith;
        batches_after = ground arith;
        within = ground arith;
        jobs_after = ground arith;
        answer = ground arith;
      }
    ]
