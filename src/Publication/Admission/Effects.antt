-- ===== src/Publication/Admission/Effects.antt =====
-- What an admission has checked and written, and what it does to the ledger and to the job table.
use danangmap_backend.Prelude.{
  ℕ, String, ◌≡◌, refl, sym, subst, ap, ◌∙◌, ◌⊎◌, inl, inr, ◌++◌, [], ◌∷◌, true, false, none, some,
  ◌==◌, same?, arith, Option-cases, Bool-cases, exists_by, find_by, find_by-append,
}
use danangmap_backend.Domain.{publishing, approved, revision_publish}
use danangmap_backend.Database.{Db, Revision, ok}
use danangmap_backend.Database.Publication.{PublicationJob}
use danangmap_backend.Database.Queries.{
  Env, Actor, revision, layer, is_editorial, update_revision, touch_layer, add_event, add_audit,
}
use danangmap_backend.Database.Lookup.{>>=-eq-ok, revision-id}
use danangmap_backend.Idempotency.{complete, insert_pending, replay_claim}
use danangmap_backend.Idempotency.Replay.{once-cases}
use danangmap_backend.Ledger.{view, entry_of, Move, rest, advance, admits, Edge}
use danangmap_backend.Publication.Receipts.{ExecutionResult, replay_publication_receipt}
use danangmap_backend.Publication.Jobs.{job}
use danangmap_backend.Publication.Fingerprint.{fingerprint}
use danangmap_backend.Publication.Admission.{
  Config, admitted_job, insert_job, insert_admission, set_admitted, admission_recorded,
  admission_writes, admission_result, admit_owned, admit, is_active_for, outbox_row,
}
use danangmap_backend.Publication.Workers.Valid.{IsValid, AllValid}
use danangmap_backend.Workflow.Guards.{active_revision, base_revision}
use danangmap_backend.Workflow.History.{lift-reads}
use danangmap_backend.Workflow.Publish.{PublishDto, lift, publish_digest}
use danangmap_backend.Workflow.Refinement.{entry-update_revision}

-- The checks of an admission and its writes.
pub record Admitted (env : Env) (config : Config) (id : ℕ) (dto : PublishDto) (actor : Actor)
    (key : ℕ) (res : ExecutionResult) (db db' : Db) : Type 0 where
  pub row : Revision
  pub found : revision id db ≡ some row
  pub idle : exists_by (is_active_for row.layer_id) db.jobs ≡ false
  pub was_approved : row.status ≡ approved
  pub not_editorial : is_editorial id actor.id db ≡ false
  pub current : same? (active_revision row.layer_id db) (base_revision row db) ≡ true
  pub written :
      admission_writes env config id row dto actor key (fingerprint env row db) db ≡ ok (res, db')

pub admit-Admitted :
    (env : Env) (config : Config) (id : ℕ) (dto : PublishDto) (actor : Actor) (key : ℕ)
    (res : ExecutionResult) (db db' : Db)
    → admit_owned env config id dto actor key db ≡ ok (res, db')
    → Admitted env config id dto actor key res db db'
unfolding admit_owned
admit-Admitted env config id dto actor key res db db' h = elim (Option-cases (revision id db)) [
  | inl e ↦ absurd (ground arith)
  | inr (r, e) ↦ elim (Option-cases (layer r.layer_id db)) [
    | inl f ↦ absurd (ground arith)
    | inr (l, f) ↦ record {
      row = r;
      found = e;
      idle = ground arith;
      was_approved = ground arith;
      not_editorial = ground arith;
      current = ground arith;
      written = ground (arith, revision-id id db r e);
    }
  ]
]

-- After the insertion the database is the old one with the job and its outbox row behind the others.
pub insert_admission-eq :
    (env : Env) (row j : PublicationJob) (d d' : Db)
    → insert_admission env row d ≡ ok (j, d')
    → (d' ≡ record d { jobs = d.jobs ++ row ∷ []; outbox = d.outbox ++ outbox_row env row.id ∷ [] })
      × (job row.id d ≡ none)
      × (job row.id (record d { jobs = d.jobs ++ row ∷ [] }) ≡ some j)
unfolding insert_admission insert_job
insert_admission-eq env row j d d' h = elim (Option-cases (job row.id d)) [
  | inr (k, e) ↦ absurd (ground arith)
  | inl e ↦ elim (Option-cases (job row.id (record d { jobs = d.jobs ++ row ∷ [] }))) [
    | inl f ↦ absurd (ground arith)
    | inr (k, f) ↦ (ground arith, e, ground arith)
  ]
]

-- The insertion of the job has succeeded in between.
pub record AdmissionWritten (env : Env) (config : Config) (id : ℕ) (r : Revision) (dto : PublishDto)
    (actor : Actor) (key : ℕ) (text : String) (res : ExecutionResult) (db db' : Db) : Type 0 where
  pub row : PublicationJob
  pub inserted : Db
  pub insertion :
      insert_admission env
        (admitted_job env config r dto actor text db)
        (touch_layer env r.layer_id (update_revision id (set_admitted env r) db))
      ≡ ok (row, inserted)
  pub answer : res ≡ admission_result env config row inserted
  pub after : db' ≡ admission_recorded env config id r dto actor key row inserted

pub admission_writes-cases :
    (env : Env) (config : Config) (id : ℕ) (r : Revision) (dto : PublishDto) (actor : Actor)
    (key : ℕ) (text : String) (res : ExecutionResult) (db db' : Db)
    → admission_writes env config id r dto actor key text db ≡ ok (res, db')
    → AdmissionWritten env config id r dto actor key text res db db'
unfolding admission_writes
admission_writes-cases env config id r dto actor key text res db db' h =
    let (j, d, e, k) =
      >>=-eq-ok (insert_admission env (admitted_job env config r dto actor text db))
        (λ j d.
          ok
            (admission_result env config j d, admission_recorded env config id r dto actor key j d))
        (touch_layer env r.layer_id (update_revision id (set_admitted env r) db)) h in
    record { row = j; inserted = d; insertion = e; answer = ground arith; after = ground arith }

admitted_job-IsValid :
    (env : Env) (config : Config) (r : Revision) (dto : PublishDto) (actor : Actor) (text : String)
    (db : Db)
    → IsValid (admitted_job env config r dto actor text db)
admitted_job-IsValid env config r dto actor text db = ground arith

-- A job that is added keeps the constraints if it fits them itself.
insert-AllValid :
    (row : PublicationJob) (d : Db) → IsValid row → AllValid d.jobs → AllValid (d.jobs ++ row ∷ [])
unfolding find_by
insert-AllValid row d n v k j h = elim (Option-cases (job k d)) [
  | inl e ↦ elim (Bool-cases (row.id == k)) [
    | inl t ↦
        subst IsValid
          (ground (arith, find_by-append (λ (i : PublicationJob). i.id == k) d.jobs (row ∷ []))) n
    | inr t ↦
        absurd
          (ground (arith, find_by-append (λ (i : PublicationJob). i.id == k) d.jobs (row ∷ [])))
  ]
  | inr (i, e) ↦
      subst IsValid
        (ground (arith, find_by-append (λ (i : PublicationJob). i.id == k) d.jobs (row ∷ [])))
        (v k i e)
]

Admitted-Move :
    (env : Env) (config : Config) (id : ℕ) (dto : PublishDto) (actor : Actor) (key : ℕ)
    (res : ExecutionResult) (db db' : Db)
    → Admitted env config id dto actor key res db db'
    → Move (view db) (view db')
unfolding admission_recorded touch_layer add_event add_audit complete
Admitted-Move env config id dto actor key res db db' a =
    let r = a.row in
    let c =
      admission_writes-cases env config id r dto actor key (fingerprint env r db) res db db'
        a.written in
    let (i, _, _) =
      insert_admission-eq env (admitted_job env config r dto actor (fingerprint env r db) db) c.row
        _ c.inserted c.insertion in
    subst (λ d. Move (view db) (view d))
      (sym (c.after ∙ ap (admission_recorded env config id r dto actor key c.row) i))
      (advance id (record { status = r.status; created_by = r.created_by; layer_id = r.layer_id })
        publishing (ap entry_of a.found)
        (subst (λ s. Edge s publishing) (sym a.was_approved) admits)
        (λ j. entry-update_revision id publishing (set_admitted env r) db (λ r. refl) (λ r. refl) j)
        (λ r u k. refl))

Admitted-AllValid :
    (env : Env) (config : Config) (id : ℕ) (dto : PublishDto) (actor : Actor) (key : ℕ)
    (res : ExecutionResult) (db db' : Db)
    → Admitted env config id dto actor key res db db'
    → AllValid db.jobs
    → AllValid db'.jobs
unfolding admission_recorded touch_layer add_event add_audit complete
Admitted-AllValid env config id dto actor key res db db' a v =
    let r = a.row in
    let row = admitted_job env config r dto actor (fingerprint env r db) db in
    let c =
      admission_writes-cases env config id r dto actor key (fingerprint env r db) res db db'
        a.written in
    let (i, _, _) = insert_admission-eq env row c.row _ c.inserted c.insertion in
    subst (λ (d : Db). AllValid d.jobs)
      (sym (c.after ∙ ap (admission_recorded env config id r dto actor key c.row) i))
      (insert-AllValid row db
        (admitted_job-IsValid env config r dto actor (fingerprint env r db) db) v)

-- An admission ran once, or was answered from its receipt and read only.
pub admit-cases :
    (env : Env) (config : Config) (id : ℕ) (dto : PublishDto) (actor : Actor) (key : ℕ)
    (res : ExecutionResult) (db db' : Db)
    → admit env config id dto actor key db ≡ ok (res, db')
    → (db' ≡ db)
      ⊎ Admitted env config id dto actor key res
          (insert_pending actor.id revision_publish key (publish_digest env id dto) db)
          db'
unfolding admit
admit-cases env config id dto actor key res db db' h =
    elim (once-cases actor.id revision_publish key (admit_owned env config id dto actor key)
      (λ c. lift (replay_publication_receipt env.is_uuid c)) (publish_digest env id dto) db db' res
      (ground arith)) [
        | inl (_, e) ↦ inr (admit-Admitted env config id dto actor key res _ db' e)
        | inr (r, _, _, e) ↦
            inl (lift-reads (replay_publication_receipt env.is_uuid (replay_claim r)) db res db' e)
      ]

-- An admission takes an approved revision to publishing, or changes no revision.
pub admit-Move :
    (env : Env) (config : Config) (id : ℕ) (dto : PublishDto) (actor : Actor) (key : ℕ)
    (res : ExecutionResult) (db db' : Db)
    → admit env config id dto actor key db ≡ ok (res, db')
    → Move (view db) (view db')
admit-Move env config id dto actor key res db db' h =
    elim (admit-cases env config id dto actor key res db db' h) [
      | inl e ↦ subst (λ d. Move (view db) (view d)) (sym e) (rest (λ j. refl) (λ r u k. refl))
      | inr a ↦
          Admitted-Move env config id dto actor key res
            (insert_pending actor.id revision_publish key (publish_digest env id dto) db) db' a
    ]

pub admit-AllValid :
    (env : Env) (config : Config) (id : ℕ) (dto : PublishDto) (actor : Actor) (key : ℕ)
    (res : ExecutionResult) (db db' : Db)
    → admit env config id dto actor key db ≡ ok (res, db')
    → AllValid db.jobs
    → AllValid db'.jobs
admit-AllValid env config id dto actor key res db db' h v =
    elim (admit-cases env config id dto actor key res db db' h) [
      | inl e ↦ subst (λ (d : Db). AllValid d.jobs) (sym e) v
      | inr a ↦
          Admitted-AllValid env config id dto actor key res
            (insert_pending actor.id revision_publish key (publish_digest env id dto) db) db' a v
    ]
