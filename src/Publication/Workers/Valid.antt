-- ===== src/Publication/Workers/Valid.antt =====
-- The CHECK constraints of publication_jobs under every interleaving of worker calls.
use danangmap_backend.Prelude.{
  ℕ, String, ◌+◌, ◌≤◌, ◌≡◌, refl, ◌≢◌, inl, inr, Bool, true, ◌&&◌, sym, select_by, List, Option,
  none, some, ◌==◌, arith, find_by, find_by-update_where, find_by-holds, update?, Option-cases,
  Bool-cases, subst, update_where,
}
use danangmap_backend.Json.{Json}
use danangmap_backend.Database.{Db}
use danangmap_backend.Database.Publication.{PublicationJob, JobStatus, JobPhase, BatchRow}
use danangmap_backend.Database.Queries.{Env}
use danangmap_backend.Publication.Jobs.{
  claim, claim_row, taken, job, BuildClaim, claimed, terminal, busy, exhausted, missing,
  claim_found, claim_written, requeued, extend_lease, is_building, is_built_by, is_expired,
  is_preparing_by, prepared, is_complete_by, switched, advanced, total_or_none, holds,
  processed_features, processed_vertices, heartbeat, set_prepared, commit_batch, mark_switching,
  release_for_retry, requeue_expired_leases,
}
use danangmap_backend.Database.Lookup.{transaction_keeps}
use danangmap_backend.Publication.Workers.After.{
  set_prepared-after, mark_switching-after, commit_batch-Committed,
}
use danangmap_backend.Publication.Workers.{
  Call, step, claims, beats, prepares, commits, switches, releases, recovers,
}

-- ck_publication_job_state
abbrev pub StateFits : PublicationJob → JobStatus → JobPhase → Type 0
StateFits j JobStatus.queued JobPhase.queued =
    (j.result_snapshot_id ≡ none)
    × (j.failure_code ≡ none)
    × (j.failure_correlation_id ≡ none)
    × (j.finished_at ≡ none)
StateFits j JobStatus.building JobPhase.preparing =
    (j.started_at ≢ none)
    × (j.result_snapshot_id ≡ none)
    × (j.failure_code ≡ none)
    × (j.failure_correlation_id ≡ none)
    × (j.finished_at ≡ none)
StateFits j JobStatus.building JobPhase.scanning_features =
    (j.started_at ≢ none)
    × (j.result_snapshot_id ≡ none)
    × (j.failure_code ≡ none)
    × (j.failure_correlation_id ≡ none)
    × (j.finished_at ≡ none)
StateFits j JobStatus.building JobPhase.switching =
    (j.started_at ≢ none)
    × (j.result_snapshot_id ≡ none)
    × (j.failure_code ≡ none)
    × (j.failure_correlation_id ≡ none)
    × (j.finished_at ≡ none)
StateFits j JobStatus.succeeded JobPhase.completed =
    (j.result_snapshot_id ≢ none)
    × (j.failure_code ≡ none)
    × (j.failure_correlation_id ≡ none)
    × (j.finished_at ≢ none)
StateFits j JobStatus.failed JobPhase.failed =
    (j.result_snapshot_id ≡ none)
    × (j.failure_code ≢ none)
    × (j.failure_correlation_id ≢ none)
    × (j.finished_at ≢ none)
StateFits j _ _ = ⊥

-- ck_publication_job_progress, and that nothing is processed before the total is known
abbrev pub ProgressFits : ℕ → Option ℕ → Type 0
ProgressFits processed none = processed ≡ 0
ProgressFits processed (some total) = processed ≤ total

-- ck_publication_job_lease, and that just a building job has a lease.
abbrev pub LeaseFits : JobStatus → Option ℕ → Option String → Option ℕ → Type 0
LeaseFits JobStatus.building (some t) (some o) (some e) = Unit
LeaseFits JobStatus.building _ _ _ = ⊥
LeaseFits _ none none none = Unit
LeaseFits _ _ _ _ = ⊥

-- The constraints of the table, and that no job is tried more often than its admission allows.
pub record IsValid (j : PublicationJob) : Type 0 where
  pub state : StateFits j j.status j.phase
  pub progress : ProgressFits j.feature_processed j.feature_total
  pub lease : LeaseFits j.status j.lease_token j.lease_owner j.lease_expires_at
  pub tries : j.attempts ≤ j.max_attempts

taken-IsValid :
    (env : Env) (owner : String) (lease : ℕ) (j j' : PublicationJob)
    → claim_row env owner lease j ≡ claimed j'
    → IsValid j
    → IsValid (taken env owner lease j)
unfolding claim_row
taken-IsValid env owner lease j j' h v = ground arith

-- An UPDATE of jobs that leaves ids alone, seen through a lookup.
pub job-update_where :
    (k : ℕ) (q : PublicationJob → Bool) (f : PublicationJob → PublicationJob)
    (xs : List PublicationJob)
    → ((j : PublicationJob) → (f j).id ≡ j.id)
    → find_by (λ j. j.id == k) (update_where q f xs) ≡ update? q f (find_by (λ j. j.id == k) xs)
job-update_where k q f xs e =
    find_by-update_where (λ (j : PublicationJob). j.id == k) q f xs (λ j. ground (arith, e j))

pub job-id : (k : ℕ) (db : Db) (j : PublicationJob) → job k db ≡ some j → j.id ≡ k
job-id k db j h = ground (arith, find_by-holds (λ (j : PublicationJob). j.id == k) db.jobs j h)

-- Every job that its id finds.
abbrev pub AllValid : List PublicationJob → Type 0
AllValid xs = (id : ℕ) (j : PublicationJob) → find_by (λ k. k.id == id) xs ≡ some j → IsValid j

-- An UPDATE keeps the constraints if it keeps those of each row that it changes.
pub update-AllValid :
    (q : PublicationJob → Bool) (f : PublicationJob → PublicationJob) (xs : List PublicationJob)
    → ((j : PublicationJob) → (f j).id ≡ j.id)
    → ((k : ℕ) (j : PublicationJob)
        → find_by (λ i. i.id == k) xs ≡ some j
        → q j ≡ true
        → IsValid j
        → IsValid (f j))
    → AllValid xs
    → AllValid (update_where q f xs)
update-AllValid q f xs e keep v k j h =
    elim (Option-cases (find_by (λ (i : PublicationJob). i.id == k) xs)) [
      | inl n ↦ absurd (ground (arith, n, job-update_where k q f xs e))
      | inr (i, n) ↦ elim (Bool-cases (q i)) [
        | inl t ↦
            subst IsValid (ground (arith, n, t, job-update_where k q f xs e))
              (keep k i n t (v k i n))
        | inr t ↦ subst IsValid (ground (arith, n, t, job-update_where k q f xs e)) (v k i n)
      ]
    ]

-- The row that a successful claim has examined is the one that it changes.
claim_found-same :
    (env : Env) (id k : ℕ) (owner : String) (lease : ℕ) (i j : PublicationJob)
    (o : Option PublicationJob)
    → claim_found env id owner lease o ≡ claimed j
    → o ≡ some i
    → claim_row env owner lease i ≡ claimed j
claim_found-same env id k owner lease i j o h e = ground arith

claim-AllValid :
    (env : Env) (id : ℕ) (owner : String) (lease : ℕ) (db : Db)
    → AllValid db.jobs
    → AllValid (step env (claims id owner lease) db).jobs
unfolding claim
claim-AllValid env id owner lease db v = go (claim_found env id owner lease (job id db)) refl
  where
    go :
        (c : BuildClaim)
        → claim_found env id owner lease (job id db) ≡ c
        → AllValid (claim_written env id owner lease c db).jobs
    go (claimed j) e =
        update-AllValid (λ j. j.id == id) (taken env owner lease) db.jobs (λ j. refl)
          (λ k i n t w.
            taken-IsValid env owner lease i j
              (claim_found-same env id k owner lease i j (job id db) e
                (subst (λ m. job m db ≡ some i) (ground (arith, job-id k db i n)) n))
              w)
          v
    go (terminal j) e = v
    go (busy j) e = v
    go (exhausted j) e = v
    go missing e = v

requeued-IsValid :
    (t : ℕ) (j : PublicationJob) → is_building j.status ≡ true → IsValid j → IsValid (requeued t j)
requeued-IsValid t j b v = ground arith

extend-IsValid :
    (env : Env) (lease : ℕ) (j : PublicationJob)
    → is_building j.status ≡ true
    → IsValid j
    → IsValid (extend_lease env lease j)
extend-IsValid env lease j b v = ground arith

heartbeat-AllValid :
    (env : Env) (id token lease : ℕ) (db : Db)
    → AllValid db.jobs
    → AllValid (step env (beats id token lease) db).jobs
unfolding heartbeat
heartbeat-AllValid env id token lease db v =
    update-AllValid (λ j. j.id == id && is_built_by token j) (extend_lease env lease) db.jobs
      (λ j. refl) (λ k j n t w. extend-IsValid env lease j (ground arith) w) v

releases-AllValid :
    (env : Env) (id token delay : ℕ) (db : Db)
    → AllValid db.jobs
    → AllValid (step env (releases id token delay) db).jobs
unfolding release_for_retry
releases-AllValid env id token delay db v =
    update-AllValid (λ j. j.id == id && is_built_by token j) (requeued (env.now + delay)) db.jobs
      (λ j. refl) (λ k j n t w. requeued-IsValid (env.now + delay) j (ground arith) w) v

recovers-AllValid : (env : Env) (db : Db) → AllValid db.jobs → AllValid (step env recovers db).jobs
unfolding requeue_expired_leases
recovers-AllValid env db v =
    update-AllValid (is_expired env.now) (requeued env.now) db.jobs (λ j. refl)
      (λ k j n t w. requeued-IsValid env.now j (ground arith) w) v

prepared-IsValid :
    (env : Env) (token total lease : ℕ) (j : PublicationJob)
    → is_preparing_by token total j ≡ true
    → IsValid j
    → IsValid (prepared env total lease j)
prepared-IsValid env token total lease j b v = ground arith

prepares-AllValid :
    (env : Env) (id token total lease : ℕ) (db : Db)
    → AllValid db.jobs
    → AllValid (step env (prepares id token total lease) db).jobs
unfolding set_prepared
prepares-AllValid env id token total lease db v =
    transaction_keeps (λ d. AllValid d.jobs) (set_prepared env id token total lease) db v
      (λ x d h.
        subst (λ (e : Db). AllValid e.jobs) (set_prepared-after env id token total lease db d x h)
          (update-AllValid (λ j. j.id == id && is_preparing_by token total j)
            (prepared env total lease) db.jobs (λ j. refl)
            (λ k j n t w. prepared-IsValid env token total lease j (ground arith) w) v))

switched-IsValid :
    (env : Env) (token : ℕ) (checksum : String) (manifest : Json) (lease : ℕ) (j : PublicationJob)
    → is_complete_by token j ≡ true
    → IsValid j
    → IsValid (switched env checksum manifest lease j)
switched-IsValid env token checksum manifest lease j b v = ground arith

switches-AllValid :
    (env : Env) (id token : ℕ) (checksum : String) (manifest : Json) (lease : ℕ) (db : Db)
    → AllValid db.jobs
    → AllValid (step env (switches id token checksum manifest lease) db).jobs
unfolding mark_switching
switches-AllValid env id token checksum manifest lease db v =
    transaction_keeps (λ d. AllValid d.jobs) (mark_switching env id token checksum manifest lease)
      db v
      (λ x d h.
        subst (λ (e : Db). AllValid e.jobs)
          (mark_switching-after env id token checksum manifest lease db d x h)
          (update-AllValid (λ j. j.id == id && is_complete_by token j)
            (switched env checksum manifest lease) db.jobs (λ j. refl)
            (λ k j n t w. switched-IsValid env token checksum manifest lease j (ground arith) w) v))

advanced-IsValid :
    (env : Env) (processed vertices : ℕ) (bounds : Option String) (lease : ℕ) (j : PublicationJob)
    → is_building j.status ≡ true
    → processed ≤ total_or_none j
    → IsValid j
    → IsValid (advanced env processed vertices bounds lease j)
advanced-IsValid env processed vertices bounds lease j b le v = ground arith

same_holder :
    (id k : ℕ) (db : Db) (h j : PublicationJob)
    → job id db ≡ some h
    → job k db ≡ some j
    → (j.id == id) ≡ true
    → j ≡ h
same_holder id k db h j e n t =
    let same : k ≡ id = ground (arith, job-id k db j n) in
    ground (arith, subst (λ m. job m db ≡ some j) same n)

commits-AllValid :
    (env : Env) (bounds : List BatchRow → Option String) (row : BatchRow) (token lease : ℕ)
    (db : Db)
    → AllValid db.jobs
    → AllValid (step env (commits bounds row token lease) db).jobs
commits-AllValid env bounds row token lease db v =
    transaction_keeps (λ d. AllValid d.jobs) (commit_batch env bounds row token lease) db v
      (λ x d h.
        let c = commit_batch-Committed env bounds row token lease db d x h in
        subst AllValid (sym c.jobs_after) (
          update-AllValid (λ k. k.id == row.job_id && holds token k)
            (advanced env (processed_features row.job_id d.batches)
              (processed_vertices row.job_id d.batches)
              (bounds (select_by (λ b. b.job_id == row.job_id) d.batches)) lease)
            db.jobs (λ j. refl)
            (λ k j n t w.
              advanced-IsValid env _ _ _ lease j
                (ground (arith, c.scanned, same_holder row.job_id k db c.holder j c.held n))
                (ground (arith, c.within, same_holder row.job_id k db c.holder j c.held n)) w)
            v))

-- Every call of a worker keeps the constraints of every job, whatever its arguments.
pub step-AllValid :
    (env : Env) (c : Call) (db : Db) → AllValid db.jobs → AllValid (step env c db).jobs
step-AllValid env (claims id owner lease) db v = claim-AllValid env id owner lease db v
step-AllValid env (beats id token lease) db v = heartbeat-AllValid env id token lease db v
step-AllValid env (prepares id token total lease) db v =
    prepares-AllValid env id token total lease db v
step-AllValid env (commits bounds row token lease) db v =
    commits-AllValid env bounds row token lease db v
step-AllValid env (switches id token checksum manifest lease) db v =
    switches-AllValid env id token checksum manifest lease db v
step-AllValid env (releases id token delay) db v = releases-AllValid env id token delay db v
step-AllValid env recovers db v = recovers-AllValid env db v
