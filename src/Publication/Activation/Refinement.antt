-- ===== src/Publication/Activation/Refinement.antt =====
-- Activation and failure of a job are moves of the ledger, and keep the constraints of the job table.
use danangmap_backend.Prelude.{
  ℕ, ◌≡◌, refl, sym, subst, ap, ◌∙◌, ◌⊎◌, inl, inr, ◌&&◌, Bool, true, false, Option, none, some,
  ◌==◌, arith, Option-cases, Bool-cases, if◌then◌else◌, update_where,
}
use danangmap_backend.Domain.{
  publishing, published, approved, ParticipationType, PublicationFailureCode, is_publishing,
}
use danangmap_backend.Database.{Db, Revision, ok}
use danangmap_backend.Database.Publication.{PublicationJob}
use danangmap_backend.Database.Queries.{
  Env, revision, layer, touch_layer, add_participant, add_event, add_audit, move_pointer,
  activate_snapshot, next_generation,
}
use danangmap_backend.Database.Lookup.{participates-add_participant}
use danangmap_backend.Ledger.{Entry, view, entry_of, Move, rest, advance, publishes, gives_up, Edge}
use danangmap_backend.Publication.Jobs.{job, holds, is_building}
use danangmap_backend.Publication.Activation.{
  Activation, activation_recorded, set_live, is_as_admitted, activate, succeeded,
}
use danangmap_backend.Publication.Activation.Effects.{
  Activated, activation_writes-cases, activate-cases,
}
use danangmap_backend.Publication.Failure.{
  fail, fail_locked, failure_recorded, given_up, set_given_up, failed, may_fail, holds?,
  was_publishing, failure_writes,
}
use danangmap_backend.Publication.Workers.Valid.{IsValid, AllValid, update-AllValid, job-id}
use danangmap_backend.Workflow.Refinement.{entry-update_revision, insert_snapshot-eq}

abbrev entry_row : Revision → Entry
entry_row r = record { status = r.status; created_by = r.created_by; layer_id = r.layer_id }

Activated-Move :
    (env : Env) (token : ℕ) (j : PublicationJob) (db db' : Db) (x : Activation)
    → Activated env token j db db' x
    → Move (view db) (view db')
unfolding is_as_admitted activation_recorded touch_layer add_event add_audit move_pointer
    activate_snapshot add_participant
Activated-Move env token j db db' x a = elim (Option-cases (revision j.revision_id db)) [
  | inl e ↦ absurd (ground (arith, a.as_admitted))
  | inr (r, e) ↦
      let c = activation_writes-cases env token j a.build db db' x a.written in
      let (i, _) = insert_snapshot-eq _ _ _ c.insertion in
      subst (λ d. Move (view db) (view d))
        (sym (c.after ∙ ap (activation_recorded env token j (next_generation j.layer_id db)) i))
        (publishes j.revision_id j.requested_by (entry_row r) (ap entry_of e)
          (inr (ground (arith, a.as_admitted))) (ground (arith, a.not_editorial))
          (ground (arith, a.not_editorial))
          (λ k.
            entry-update_revision j.revision_id published (set_live env) db (λ r. refl) (λ r. refl)
              k)
          (λ r u k.
            participates-add_participant j.revision_id j.requested_by r u ParticipationType.publish
              k db))
]

-- An activation publishes a revision for a requester who took no editorial part in it, or changes nothing.
pub activate-Move :
    (env : Env) (id token : ℕ) (db db' : Db) (x : Activation)
    → activate env id token db ≡ ok (x, db')
    → Move (view db) (view db')
activate-Move env id token db db' x h = elim (activate-cases env id token db db' x h) [
  | inl e ↦ subst (λ d. Move (view db) (view d)) (sym e) (rest (λ j. refl) (λ r u k. refl))
  | inr p ↦ Activated-Move env token p.job_row db db' x p.checks
]

succeeded-IsValid :
    (env : Env) (s token : ℕ) (j : PublicationJob)
    → is_building j.status ≡ true
    → IsValid j
    → IsValid (succeeded env s j)
succeeded-IsValid env s token j b v = ground arith

pub activate-AllValid :
    (env : Env) (id token : ℕ) (db db' : Db) (x : Activation)
    → activate env id token db ≡ ok (x, db')
    → AllValid db.jobs
    → AllValid db'.jobs
unfolding activation_recorded touch_layer add_event add_audit move_pointer activate_snapshot
    add_participant
activate-AllValid env id token db db' x h v = elim (activate-cases env id token db db' x h) [
  | inl e ↦ subst (λ (d : Db). AllValid d.jobs) (sym e) v
  | inr p ↦
      let j = p.job_row in
      let c = activation_writes-cases env token j p.checks.build db db' x p.checks.written in
      let (i, _) = insert_snapshot-eq _ _ _ c.insertion in
      subst (λ (d : Db). AllValid d.jobs)
        (sym (c.after ∙ ap (activation_recorded env token j (next_generation j.layer_id db)) i))
        (update-AllValid (λ k. k.id == j.id && holds token k) (succeeded env env.fresh) db.jobs
          (λ k. refl)
          (λ n k f t w.
            succeeded-IsValid env env.fresh token k
              (let same : n ≡ id = ground (arith, job-id n db k f, job-id id db j p.found) in
                ground (arith, p.held, p.found, subst (λ m. job m db ≡ some k) same f))
              w)
          v)
]

-- What a failure that changes something has checked and written.
pub record Failed (env : Env) (id : ℕ) (token : Option ℕ) (code : PublicationFailureCode)
    (correlation_id : ℕ) (db db' : Db) : Type 0 where
  pub job_row : PublicationJob
  pub found : job id db ≡ some job_row
  pub allowed : may_fail token job_row ≡ true
  pub after : db' ≡ failure_writes env token job_row code correlation_id db

pub fail-cases :
    (env : Env) (id : ℕ) (token : Option ℕ) (code : PublicationFailureCode) (correlation_id : ℕ)
    (db db' : Db) (x : Bool)
    → fail env id token code correlation_id db ≡ ok (x, db')
    → (db' ≡ db) ⊎ Failed env id token code correlation_id db db'
unfolding fail fail_locked
fail-cases env id token code correlation_id db db' x h = elim (Option-cases (job id db)) [
  | inl e ↦ inl (ground arith)
  | inr (j, e) ↦ elim (Bool-cases (may_fail token j)) [
    | inr m ↦ inl (ground arith)
    | inl m ↦ elim (Option-cases (layer j.layer_id db)) [
      | inl f ↦ absurd (ground arith)
      | inr (l, f) ↦ inr (record { job_row = j; found = e; allowed = m; after = ground arith })
    ]
  ]
]

given_up-Move :
    (env : Env) (j : PublicationJob) (code : PublicationFailureCode) (r : Revision) (db : Db)
    → revision j.revision_id db ≡ some r
    → r.status ≡ publishing
    → Move (view db) (view (given_up env j code db))
unfolding given_up touch_layer add_event
given_up-Move env j code r db e s =
    advance j.revision_id (entry_row r) approved (ap entry_of e)
      (subst (λ t. Edge t approved) (sym s) gives_up)
      (λ k.
        entry-update_revision j.revision_id approved (set_given_up env) db (λ r. refl) (λ r. refl)
          k)
      (λ r u k. refl)

Failed-Move :
    (env : Env) (id : ℕ) (token : Option ℕ) (code : PublicationFailureCode) (correlation_id : ℕ)
    (db : Db) (j : PublicationJob) (o : Option Revision)
    → revision j.revision_id db ≡ o
    → Move (view db) (
        view (
          failure_recorded env token j code correlation_id
            (if was_publishing o then given_up env j code db else db)))
unfolding failure_recorded add_audit
Failed-Move env id token code correlation_id db j none e = rest (λ j. refl) (λ r u k. refl)
Failed-Move env id token code correlation_id db j (some r) e =
    elim (Bool-cases (is_publishing r.status)) [
      | inl s ↦
          subst
            (λ b. Move (view db) (
              view (
                failure_recorded env token j code correlation_id
                  (if b then given_up env j code db else db))))
            (sym s) (given_up-Move env j code r db e (ground arith))
      | inr s ↦
          subst
            (λ b. Move (view db) (
              view (
                failure_recorded env token j code correlation_id
                  (if b then given_up env j code db else db))))
            (sym s) (rest (λ j. refl) (λ r u k. refl))
    ]

-- A failure gives the publication of a revision up, or changes no revision.
pub fail-Move :
    (env : Env) (id : ℕ) (token : Option ℕ) (code : PublicationFailureCode) (correlation_id : ℕ)
    (db db' : Db) (x : Bool)
    → fail env id token code correlation_id db ≡ ok (x, db')
    → Move (view db) (view db')
fail-Move env id token code correlation_id db db' x h =
    elim (fail-cases env id token code correlation_id db db' x h) [
      | inl e ↦ subst (λ d. Move (view db) (view d)) (sym e) (rest (λ j. refl) (λ r u k. refl))
      | inr p ↦
          subst (λ d. Move (view db) (view d)) (sym p.after)
            (Failed-Move env id token code correlation_id db p.job_row _ refl)
    ]

failed-IsValid :
    (env : Env) (token : Option ℕ) (code : PublicationFailureCode) (correlation_id : ℕ)
    (j : PublicationJob)
    → may_fail token j ≡ true
    → IsValid j
    → IsValid (failed env code correlation_id j)
failed-IsValid env token code correlation_id j m v = ground arith

failure_writes-jobs :
    (env : Env) (token : Option ℕ) (code : PublicationFailureCode) (correlation_id : ℕ)
    (j : PublicationJob) (b : Bool) (db : Db)
    → (failure_recorded env token j code correlation_id
        (if b then given_up env j code db else db)).jobs
      ≡ update_where (λ k. k.id == j.id && holds? token k) (failed env code correlation_id) db.jobs
unfolding failure_recorded given_up add_audit touch_layer add_event
failure_writes-jobs env token code correlation_id j true db = refl
failure_writes-jobs env token code correlation_id j false db = refl

pub fail-AllValid :
    (env : Env) (id : ℕ) (token : Option ℕ) (code : PublicationFailureCode) (correlation_id : ℕ)
    (db db' : Db) (x : Bool)
    → fail env id token code correlation_id db ≡ ok (x, db')
    → AllValid db.jobs
    → AllValid db'.jobs
fail-AllValid env id token code correlation_id db db' x h v =
    elim (fail-cases env id token code correlation_id db db' x h) [
      | inl e ↦ subst (λ (d : Db). AllValid d.jobs) (sym e) v
      | inr p ↦
          let j = p.job_row in
          subst (λ (d : Db). AllValid d.jobs) (sym p.after)
            (subst AllValid
              (sym (
                failure_writes-jobs env token code correlation_id j
                  (was_publishing (revision j.revision_id db)) db))
              (update-AllValid (λ k. k.id == j.id && holds? token k)
                (failed env code correlation_id) db.jobs (λ k. refl)
                (λ n k f t w.
                  failed-IsValid env token code correlation_id k
                    (let same : n ≡ id = ground (arith, job-id n db k f, job-id id db j p.found) in
                      ground (arith, p.allowed, p.found, subst (λ m. job m db ≡ some k) same f))
                    w)
                v))
    ]
