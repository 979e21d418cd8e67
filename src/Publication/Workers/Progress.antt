-- ===== src/Publication/Workers/Progress.antt =====
-- What `commitBatch` of src/publications/publication-worker.repository.ts promises.
use danangmap_backend.Prelude.{
  ℕ, String, ◌+◌, ◌≤◌, ◌<◌, ◌≡◌, true, false, ◌&&◌, List, [], ◌∷◌, ◌++◌, Option, some, ◌==◌,
  ==-refl, arith, sum_by, select_by, exists_by-All, All, ap, ◌∙◌, find_by, Bool, refl, Option-cases,
  inl, inr, suc, update?,
}
use danangmap_backend.Database.{Db, ok}
use danangmap_backend.Database.Publication.{PublicationJob, JobStatus, JobPhase, BatchRow}
use danangmap_backend.Database.Queries.{Env}
use danangmap_backend.Publication.Jobs.{
  job, commit_batch, holds, advanced, processed_features, processed_vertices, total_or_none,
  some_batch, ends_at, is_scanned_by,
}
use danangmap_backend.Publication.Workers.After.{Committed, commit_batch-Committed}
use danangmap_backend.Publication.Workers.Valid.{job-update_where, job-id}

module _ (p : BatchRow → Bool) (f : BatchRow → ℕ) where
  sum_by-append :
      (bs : List BatchRow) (b : BatchRow)
      → p b ≡ true
      → sum_by p f (bs ++ b ∷ []) ≡ sum_by p f bs + f b
  unfolding sum_by
  sum_by-append [] b h = ground arith
  sum_by-append (c ∷ bs) b h = ground (arith, sum_by-append bs b h)

pub processed-append :
    (id : ℕ) (bs : List BatchRow) (b : BatchRow)
    → b.job_id ≡ id
    → processed_features id (bs ++ b ∷ []) ≡ processed_features id bs + b.feature_count
processed-append id bs b h =
    sum_by-append (λ c. c.job_id == id) (λ c. c.feature_count) bs b (ground (arith, h, ==-refl id))

vertices-append :
    (id : ℕ) (bs : List BatchRow) (b : BatchRow)
    → b.job_id ≡ id
    → processed_vertices id (bs ++ b ∷ []) ≡ processed_vertices id bs + b.vertex_count
vertices-append id bs b h =
    sum_by-append (λ c. c.job_id == id) (λ c. c.vertex_count) bs b (ground (arith, h, ==-refl id))

-- The outcome of a batch: whose job it was, the batch among the others, and the job after it.
pub record IsProgress (env : Env) (row : BatchRow) (token lease : ℕ) (db d : Db) (x : ℕ × ℕ)
    : Type 0 where
  pub holder : PublicationJob
  pub held : job row.job_id db ≡ some holder
  pub scanning : (holder.status ≡ JobStatus.building) × (holder.phase ≡ JobPhase.scanning_features)
  pub owned : holder.lease_token ≡ some token
  pub expiry : ℕ
  pub expires : holder.lease_expires_at ≡ some expiry
  pub live : env.now < expiry
  pub total : ℕ
  pub measured : holder.feature_total ≡ some total
  pub new_number : All (λ b. some_batch row.job_id row.batch_no b ≡ false) db.batches
  pub new_cursor : All (λ b. ends_at row.job_id row.last_feature_id b ≡ false) db.batches
  pub batches_after : d.batches ≡ db.batches ++ row ∷ []
  pub answer : (x.0 ≡ processed_features row.job_id db.batches + row.feature_count) × (x.1 ≡ total)
  pub within : x.0 ≤ total
  pub after : PublicationJob
  pub stored : job row.job_id d ≡ some after
  pub counts :
      (after.feature_processed ≡ x.0)
      × (after.vertex_processed ≡ processed_vertices row.job_id db.batches + row.vertex_count)
  pub extended :
      (after.lease_token ≡ some token)
      × (after.lease_expires_at ≡ some (env.now + lease))
      × (after.lock_version ≡ holder.lock_version + 1)
  pub others : (k : ℕ) → (k == row.job_id) ≡ false → job k d ≡ job k db

commit_update :
    Env → (List BatchRow → Option String) → BatchRow → ℕ → Db → PublicationJob → PublicationJob
commit_update env bounds row lease d =
    advanced env (processed_features row.job_id d.batches) (processed_vertices row.job_id d.batches)
      (bounds (select_by (λ b. b.job_id == row.job_id) d.batches)) lease

module _ (env : Env) (bounds : List BatchRow → Option String) (row : BatchRow) (token lease : ℕ)
    (db d : Db) (x : ℕ × ℕ) (c : Committed env row token lease bounds db d x) where
  -- The job table after the batch, seen through a lookup.
  lookup_after :
      (k : ℕ)
      → job k d
        ≡ update?
            (λ i. i.id == row.job_id && holds token i)
            (commit_update env bounds row lease d)
            (job k db)
  unfolding commit_update
  lookup_after k =
      ap (find_by (λ (i : PublicationJob). i.id == k)) c.jobs_after
      ∙ job-update_where k (λ i. i.id == row.job_id && holds token i)
          (commit_update env bounds row lease d) db.jobs (λ i. refl)

  stored_after :
      holds token c.holder ≡ true
      → job row.job_id d ≡ some (commit_update env bounds row lease d c.holder)
  stored_after h =
      ground (arith, h, c.held, job-id row.job_id db c.holder c.held, lookup_after row.job_id)

  others_after : (k : ℕ) → (k == row.job_id) ≡ false → job k d ≡ job k db
  others_after k ne = elim (Option-cases (job k db)) [
    | inl n ↦ ground (arith, n, lookup_after k)
    | inr (j, n) ↦ ground (arith, n, ne, job-id k db j n, lookup_after k)
  ]

-- The status, the phase, the token and the lease that `commitBatch` looks for.
scanned-facts :
    (env : Env) (token : ℕ) (j : PublicationJob)
    → is_scanned_by env token j ≡ true
    → (j.status ≡ JobStatus.building)
      × (j.phase ≡ JobPhase.scanning_features)
      × (j.lease_token ≡ some token)
      × (holds token j ≡ true)
scanned-facts env token j h = (ground arith, ground arith, ground arith, ground arith)

scanned-live :
    (env : Env) (token : ℕ) (j : PublicationJob)
    → is_scanned_by env token j ≡ true
    → (t : ℕ) × (j.lease_expires_at ≡ some t) × (env.now < t)
scanned-live env token j h = elim (Option-cases j.lease_expires_at) [
  | inl e ↦ absurd (ground arith)
  | inr (t, e) ↦ (t, e, ground arith)
]

measured-total :
    (n : ℕ) (j : PublicationJob)
    → suc n ≤ total_or_none j
    → (t : ℕ) × (j.feature_total ≡ some t) × (total_or_none j ≡ t)
measured-total n j h = elim (Option-cases j.feature_total) [
  | inl e ↦ absurd (ground arith)
  | inr (t, e) ↦ (t, e, ground arith)
]

-- A `commitBatch` that succeeds was called with the token of a building job in its scan, before its lease
-- expires. It adds just the batch, whose number and last feature no other batch of the job has. The job
-- then counts the features and vertices of this batch on top of those before, at most the measured
-- total; its lease is extended, and no other job changes. The answer is the new count and the total.
pub commit_batch-IsProgress :
    (env : Env) (bounds : List BatchRow → Option String) (row : BatchRow) (token lease : ℕ)
    (db d : Db) (x : ℕ × ℕ)
    → commit_batch env bounds row token lease db ≡ ok (x, d)
    → IsProgress env row token lease db d x
unfolding commit_update
commit_batch-IsProgress env bounds row token lease db d x h =
    let c = commit_batch-Committed env bounds row token lease db d x h in
    let (st, ph, tok, own) = scanned-facts env token c.holder c.scanned in
    let (t, e, live) = scanned-live env token c.holder c.scanned in
    let sum =
      ap (processed_features row.job_id) c.batches_after
      ∙ processed-append row.job_id db.batches row refl in
    let points =
      ap (processed_vertices row.job_id) c.batches_after
      ∙ vertices-append row.job_id db.batches row refl in
    let some_left : 1 ≤ total_or_none c.holder = omega (arith, sum, c.within, c.counted) in
    let (total, measured, same) = measured-total 0 c.holder some_left in
    record {
      holder = c.holder;
      held = c.held;
      scanning = (st, ph);
      owned = tok;
      expiry = t;
      expires = e;
      live = live;
      total = total;
      measured = measured;
      new_number = exists_by-All (some_batch row.job_id row.batch_no) db.batches c.new_number;
      new_cursor = exists_by-All (ends_at row.job_id row.last_feature_id) db.batches c.new_cursor;
      batches_after = c.batches_after;
      answer = (ground (arith, c.answer, sum), ground (arith, c.answer, same));
      within = ground (arith, c.answer, c.within, same);
      after = commit_update env bounds row lease d c.holder;
      stored = stored_after env bounds row token lease db d x c own;
      counts = (ground (arith, c.answer), points);
      extended = (tok, refl, refl);
      others = others_after env bounds row token lease db d x c;
    }
