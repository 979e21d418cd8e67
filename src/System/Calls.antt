-- ===== src/System/Calls.antt =====
-- The calls of src/publications/publication-worker.repository.ts, and the statements of
-- src/publications/publication-job.repository.ts on the outbox, change no revision and no participant.
use danangmap_backend.Prelude.{ℕ, String, ◌≡◌, refl, arith}
use danangmap_backend.Database.{Db}
use danangmap_backend.Database.Queries.{Env}
use danangmap_backend.Database.Lookup.{transaction_keeps}
use danangmap_backend.Ledger.{view, Move, rest}
use danangmap_backend.Publication.Jobs.{
  BuildClaim, claimed, terminal, busy, exhausted, missing, claim_written, claim_found, job, claim,
  heartbeat, set_prepared, commit_batch, mark_switching, release_for_retry, requeue_expired_leases,
}
use danangmap_backend.Publication.Outbox.{
  OutboxCall, outbox_step, claim_outbox, mark_outbox_dispatched, release_outbox_claim,
}
use danangmap_backend.Publication.Workers.{
  Call, step, claims, beats, prepares, commits, switches, releases, recovers,
}

abbrev pub Editorial : Db → Db → Type 0
Editorial before after =
    (after.revisions ≡ before.revisions) × (after.participants ≡ before.participants)

pub Editorial-Move : (db db' : Db) → Editorial db db' → Move (view db) (view db')
Editorial-Move db db' u = rest (λ j. ground (arith, u.0)) (λ r w k. ground (arith, u.1))

claim_written-Editorial :
    (env : Env) (id : ℕ) (owner : String) (lease : ℕ) (c : BuildClaim) (db : Db)
    → Editorial db (claim_written env id owner lease c db)
claim_written-Editorial env id owner lease (claimed j) db = (refl, refl)
claim_written-Editorial env id owner lease (terminal j) db = (refl, refl)
claim_written-Editorial env id owner lease (busy j) db = (refl, refl)
claim_written-Editorial env id owner lease (exhausted j) db = (refl, refl)
claim_written-Editorial env id owner lease missing db = (refl, refl)

pub step-Editorial : (env : Env) (c : Call) (db : Db) → Editorial db (step env c db)
unfolding claim heartbeat set_prepared commit_batch mark_switching release_for_retry
    requeue_expired_leases
step-Editorial env (claims id owner lease) db =
    claim_written-Editorial env id owner lease (claim_found env id owner lease (job id db)) db
step-Editorial env (beats id token lease) db = (refl, refl)
step-Editorial env (prepares id token total lease) db =
    transaction_keeps (Editorial db) (set_prepared env id token total lease) db (refl, refl)
      (λ x d h. (ground arith, ground arith))
step-Editorial env (commits bounds row token lease) db =
    transaction_keeps (Editorial db) (commit_batch env bounds row token lease) db (refl, refl)
      (λ x d h. (ground arith, ground arith))
step-Editorial env (switches id token checksum manifest lease) db =
    transaction_keeps (Editorial db) (mark_switching env id token checksum manifest lease) db
      (refl, refl) (λ x d h. (ground arith, ground arith))
step-Editorial env (releases id token delay) db = (refl, refl)
step-Editorial env recovers db = (refl, refl)

pub outbox-Editorial : (env : Env) (c : OutboxCall) (db : Db) → Editorial db (outbox_step env c db)
unfolding claim_outbox mark_outbox_dispatched release_outbox_claim
outbox-Editorial env (OutboxCall.claims limit owner lease) db = (refl, refl)
outbox-Editorial env (OutboxCall.marks id token) db = (refl, refl)
outbox-Editorial env (OutboxCall.releases id token attempts code) db = (refl, refl)

pub outbox-jobs : (env : Env) (c : OutboxCall) (db : Db) → (outbox_step env c db).jobs ≡ db.jobs
unfolding claim_outbox mark_outbox_dispatched release_outbox_claim
outbox-jobs env (OutboxCall.claims limit owner lease) db = refl
outbox-jobs env (OutboxCall.marks id token) db = refl
outbox-jobs env (OutboxCall.releases id token attempts code) db = refl
