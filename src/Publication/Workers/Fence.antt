-- ===== src/Publication/Workers/Fence.antt =====
-- Mutual exclusion by the lease of a job: what the calls of other workers can do to it.
use danangmap_backend.Prelude.{
  ℕ, String, ◌+◌, ◌≡◌, refl, Bool, true, false, ◌&&◌, List, [], ◌∷◌, Option, none, some, ◌==◌,
  same?, arith, All, find_by, update_where, Bool-cases, inl, inr, sym, subst, select_by,
}
use danangmap_backend.Json.{Json}
use danangmap_backend.Database.{Db}
use danangmap_backend.Database.Publication.{PublicationJob, BatchRow}
use danangmap_backend.Database.Queries.{Env}
use danangmap_backend.Database.Lookup.{transaction_keeps}
use danangmap_backend.Publication.Jobs.{
  claim, claim_row, taken, job, BuildClaim, claimed, terminal, busy, exhausted, missing,
  claim_found, claim_written, requeued, extend_lease, is_built_by, is_expired, is_preparing_by,
  prepared, is_complete_by, switched, advanced, holds, expires_after, processed_features,
  processed_vertices, heartbeat, set_prepared, commit_batch, mark_switching, release_for_retry,
  requeue_expired_leases,
}
use danangmap_backend.Publication.Workers.{
  Call, step, run, claims, beats, prepares, commits, switches, releases, recovers,
}
use danangmap_backend.Publication.Workers.After.{
  set_prepared-after, mark_switching-after, commit_batch-Committed,
}
use danangmap_backend.Publication.Workers.Valid.{job-update_where, job-id}

-- The lease token with which a worker calls; a claim and the recovery have none.
abbrev pub token_of : Call → Option ℕ
token_of (claims id owner lease) = none
token_of (beats id token lease) = some token
token_of (prepares id token total lease) = some token
token_of (commits bounds row token lease) = some token
token_of (switches id token checksum manifest lease) = some token
token_of (releases id token delay) = some token
token_of recovers = none

-- A job that is built under the token with a lease that is live at the instant.
abbrev pub is_leased : ℕ → ℕ → PublicationJob → Bool
is_leased token now j = is_built_by token j && expires_after j.lease_expires_at now

-- An UPDATE that does not choose the row leaves it as it is.
job-untouched :
    (k : ℕ) (q : PublicationJob → Bool) (f : PublicationJob → PublicationJob)
    (xs : List PublicationJob) (j : PublicationJob)
    → ((i : PublicationJob) → (f i).id ≡ i.id)
    → find_by (λ i. i.id == k) xs ≡ some j
    → q j ≡ false
    → find_by (λ i. i.id == k) (update_where q f xs) ≡ some j
job-untouched k q f xs j e h n = ground (arith, job-update_where k q f xs e)

-- `Keeps id j db` says that `j` is the job that `id` finds.
abbrev pub Keeps : ℕ → PublicationJob → Db → Type 0
Keeps id j db = job id db ≡ some j

module _ (env : Env) (id t : ℕ) (j : PublicationJob) (db : Db) (h : Keeps id j db)
    (l : is_leased t env.now j ≡ true) where
  claims-Keeps :
      (k : ℕ) (owner : String) (lease : ℕ) → Keeps id j (step env (claims k owner lease) db)
  unfolding claim claim_row
  claims-Keeps k owner lease = elim (Bool-cases (j.id == k)) [
    | inl same ↦
        let e : job k db ≡ some j =
          subst (λ m. job m db ≡ some j) (ground (arith, job-id id db j h)) h in
        ground arith
    | inr other ↦ go (claim_found env k owner lease (job k db)) other
  ]
    where
      go :
          (c : BuildClaim) → (j.id == k) ≡ false → Keeps id j (claim_written env k owner lease c db)
      go (claimed i) other =
          job-untouched id (λ i. i.id == k) (taken env owner lease) db.jobs j (λ i. refl) h other
      go (terminal i) other = h
      go (busy i) other = h
      go (exhausted i) other = h
      go missing other = h

  -- The calls of workers that carry another token.
  module _ (token : ℕ) (foreign : (t == token) ≡ false) where
    beats-Keeps : (k lease : ℕ) → Keeps id j (step env (beats k token lease) db)
    unfolding heartbeat
    beats-Keeps k lease =
        job-untouched id (λ i. i.id == k && is_built_by token i) (extend_lease env lease) db.jobs j
          (λ i. refl) h (ground arith)

    prepares-Keeps : (k total lease : ℕ) → Keeps id j (step env (prepares k token total lease) db)
    prepares-Keeps k total lease =
        transaction_keeps (Keeps id j) (set_prepared env k token total lease) db h (λ x d e.
          subst (Keeps id j) (set_prepared-after env k token total lease db d x e) (
            job-untouched id (λ i. i.id == k && is_preparing_by token total i)
              (prepared env total lease) db.jobs j (λ i. refl) h (ground arith)))

    switches-Keeps :
        (k : ℕ) (checksum : String) (manifest : Json) (lease : ℕ)
        → Keeps id j (step env (switches k token checksum manifest lease) db)
    switches-Keeps k checksum manifest lease =
        transaction_keeps (Keeps id j) (mark_switching env k token checksum manifest lease) db h
          (λ x d e.
            subst (Keeps id j) (mark_switching-after env k token checksum manifest lease db d x e) (
              job-untouched id (λ i. i.id == k && is_complete_by token i)
                (switched env checksum manifest lease) db.jobs j (λ i. refl) h (ground arith)))

    releases-Keeps : (k delay : ℕ) → Keeps id j (step env (releases k token delay) db)
    unfolding release_for_retry
    releases-Keeps k delay =
        job-untouched id (λ i. i.id == k && is_built_by token i) (requeued (env.now + delay))
          db.jobs j (λ i. refl) h (ground arith)

    commits-Keeps :
        (bounds : List BatchRow → Option String) (row : BatchRow) (lease : ℕ)
        → Keeps id j (step env (commits bounds row token lease) db)
    commits-Keeps bounds row lease =
        transaction_keeps (Keeps id j) (commit_batch env bounds row token lease) db h (λ x d e.
          let c = commit_batch-Committed env bounds row token lease db d x e in
          subst (λ js. find_by (λ i. i.id == id) js ≡ some j) (sym c.jobs_after)
            (job-untouched id (λ k. k.id == row.job_id && holds token k)
              (advanced env (processed_features row.job_id d.batches)
                (processed_vertices row.job_id d.batches)
                (bounds (select_by (λ b. b.job_id == row.job_id) d.batches)) lease)
              db.jobs j (λ i. refl) h (ground arith)))

  recovers-Keeps : Keeps id j (step env recovers db)
  unfolding requeue_expired_leases
  recovers-Keeps =
      job-untouched id (is_expired env.now) (requeued env.now) db.jobs j (λ i. refl) h
        (ground arith)

  -- No call that lacks the token changes a job with a live lease.
  pub step-Keeps : (c : Call) → same? (token_of c) (some t) ≡ false → Keeps id j (step env c db)
  step-Keeps (claims k owner lease) f = claims-Keeps k owner lease
  step-Keeps (beats k token lease) f = beats-Keeps token (ground arith) k lease
  step-Keeps (prepares k token total lease) f = prepares-Keeps token (ground arith) k total lease
  step-Keeps (commits bounds row token lease) f =
      commits-Keeps token (ground arith) bounds row lease
  step-Keeps (switches k token checksum manifest lease) f =
      switches-Keeps token (ground arith) k checksum manifest lease
  step-Keeps (releases k token delay) f = releases-Keeps token (ground arith) k delay
  step-Keeps recovers f = recovers-Keeps

-- While the lease of a job is live, no interleaving of calls of other workers changes the job: every
-- call in the list lacks the token of the lease and is made before the lease expires.
pub run-Keeps :
    (id t : ℕ) (j : PublicationJob) (cs : List (Env × Call)) (db : Db)
    → job id db ≡ some j
    → All (λ c. (is_leased t c.0.now j ≡ true) × (same? (token_of c.1) (some t) ≡ false)) cs
    → job id (run cs db) ≡ some j
unfolding run
run-Keeps id t j [] db h a = h
run-Keeps id t j ((env, c) ∷ cs) db h a =
    run-Keeps id t j cs (step env c db) (step-Keeps env id t j db h a.0.0 c a.0.1) a.1
