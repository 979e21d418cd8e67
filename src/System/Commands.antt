-- ===== src/System/Commands.antt =====
-- The commands of src/workflow/workflow.service.ts change no row of publication_jobs.
use danangmap_backend.Prelude.{ℕ, String, ◌≡◌, refl, ap, ◌∙◌, inl, inr}
use danangmap_backend.Domain.{
  Operation, revision_submit, revision_approve, revision_request_changes, revision_publish,
}
use danangmap_backend.Database.{Db, Tx, Response, ok}
use danangmap_backend.Database.Queries.{
  Env, Actor, touch_layer, add_participant, add_event, add_audit, move_pointer, activate_snapshot,
}
use danangmap_backend.Database.Lookup.{transaction_keeps}
use danangmap_backend.Idempotency.{ReceiptClaim, replay_claim, once, insert_pending, complete}
use danangmap_backend.Idempotency.Replay.{once-cases}
use danangmap_backend.Publication.Receipts.{ExecutionResult, replay_publication_receipt}
use danangmap_backend.Workflow.Review.{
  SubmitDto, CommentDto, submitted, approval, submit, approve, submit_digest, approve_digest,
}
use danangmap_backend.Workflow.Changes.{
  request_changes, request_changes_digest, changes_recorded, copy_contents,
}
use danangmap_backend.Workflow.Publish.{PublishDto, publish, publish_digest, publication_recorded}
use danangmap_backend.Workflow.Effects.{
  Submitted, Approved, Changed, PublishedBy, submit-Submitted, approve-Approved,
  request_changes-Changed, publish-PublishedBy, changes_writes-cases, publish_writes-cases,
}
use danangmap_backend.Workflow.Refinement.{insert_snapshot-eq, insert_revision-eq}
use danangmap_backend.Workflow.History.{
  Command, execute, dispatch, Request, submits, approves, requests_changes, publishes,
  replayed-reads, lift-reads, rethrow-ok,
}

-- A command that runs once keeps the jobs if the body of its owner does, and a replay reads only.
once-jobs :
    {A : Type 0} (a : ℕ) (o : Operation) (k : ℕ) (d : String) (body : Tx A)
    (replay : ReceiptClaim → Tx A) (db : Db) (x : A) (db' : Db)
    → ((c : ReceiptClaim) (y : A) (e : Db) → replay c db ≡ ok (y, e) → e ≡ db)
    → ((e : Db) → body (insert_pending a o k d db) ≡ ok (x, e) → e.jobs ≡ db.jobs)
    → once a o k d body replay db ≡ ok (x, db')
    → db'.jobs ≡ db.jobs
once-jobs a o k d body replay db x db' reads keeps h =
    elim (once-cases a o k body replay d db db' x h) [
      | inl (_, e) ↦ keeps db' e
      | inr (r, _, _, e) ↦ ap (λ (w : Db). w.jobs) (reads (replay_claim r) x db' e)
    ]

Submitted-jobs :
    (env : Env) (id : ℕ) (dto : SubmitDto) (actor : Actor) (key : ℕ) (res : Response) (db db' : Db)
    → Submitted env id dto actor key res db db'
    → db'.jobs ≡ db.jobs
unfolding submitted touch_layer add_event add_audit complete
Submitted-jobs env id dto actor key res db db' a = ap (λ (w : Db). w.jobs) a.after

approval-jobs :
    (env : Env) (id : ℕ) (dto : CommentDto) (actor : Actor) (key : ℕ) (res : Response) (db db' : Db)
    → Approved env id dto actor key res db db'
    → db'.jobs ≡ db.jobs
unfolding approval touch_layer add_event add_audit complete add_participant
approval-jobs env id dto actor key res db db' a = ap (λ (w : Db). w.jobs) a.after

publication-jobs :
    (env : Env) (id : ℕ) (dto : PublishDto) (actor : Actor) (key : ℕ) (res : ExecutionResult)
    (db db' : Db)
    → PublishedBy env id dto actor key res db db'
    → db'.jobs ≡ db.jobs
unfolding publication_recorded touch_layer add_event add_audit complete move_pointer
    activate_snapshot add_participant
publication-jobs env id dto actor key res db db' a =
    let c = publish_writes-cases env id a.row dto actor key res db db' a.written in
    let (e, _) = insert_snapshot-eq _ _ _ c.insertion in
    ap (λ (w : Db). w.jobs) c.after ∙ ap (λ (w : Db). w.jobs) e

changes-jobs :
    (env : Env) (id : ℕ) (comment : String) (actor : Actor) (key : ℕ) (res : Response) (db db' : Db)
    → Changed env id comment actor key res db db'
    → db'.jobs ≡ db.jobs
unfolding changes_recorded touch_layer add_event add_audit complete copy_contents add_participant
changes-jobs env id comment actor key res db db' a =
    let c = changes_writes-cases env id a.row comment actor key res db db' a.written in
    let (e, _) = insert_revision-eq _ _ _ c.insertion in
    ap (λ (w : Db). w.jobs) c.after ∙ ap (λ (w : Db). w.jobs) e

request-jobs : (q : Request) (c : Command) (db : Db) → (dispatch q c db).jobs ≡ db.jobs
unfolding submit approve request_changes publish
request-jobs (submits dto) c db =
    transaction_keeps (λ d. d.jobs ≡ db.jobs) (submit c.env c.revision_id dto c.actor c.key) db refl
      λ x db' h.
        once-jobs c.actor.id revision_submit c.key (submit_digest c.env c.revision_id dto) _ _ db x
          db' (λ r. replayed-reads r.response db)
          (λ e k. Submitted-jobs _ _ _ _ _ _ _ _ (submit-Submitted _ _ _ _ _ _ _ _ k)) h
request-jobs (approves dto) c db =
    transaction_keeps (λ d. d.jobs ≡ db.jobs) (approve c.env c.revision_id dto c.actor c.key) db
      refl
      λ x db' h.
        once-jobs c.actor.id revision_approve c.key (approve_digest c.env c.revision_id dto) _ _ db
          x db' (λ r. replayed-reads r.response db)
          (λ e k. approval-jobs _ _ _ _ _ _ _ _ (approve-Approved _ _ _ _ _ _ _ _ k)) h
request-jobs (requests_changes comment) c db =
    transaction_keeps (λ d. d.jobs ≡ db.jobs)
      (request_changes c.env c.revision_id comment c.actor c.key) db refl
      λ x db' h.
        once-jobs c.actor.id revision_request_changes c.key
          (request_changes_digest c.env c.revision_id comment) _ _ db x db'
          (λ r. replayed-reads r.response db)
          (λ e k. changes-jobs _ _ _ _ _ _ _ _ (request_changes-Changed _ _ _ _ _ _ _ _ k))
          (rethrow-ok _ _ h)
request-jobs (publishes dto) c db =
    transaction_keeps (λ d. d.jobs ≡ db.jobs) (publish c.env c.revision_id dto c.actor c.key) db
      refl
      λ x db' h.
        once-jobs c.actor.id revision_publish c.key (publish_digest c.env c.revision_id dto) _ _ db
          x db' (λ r. lift-reads (replay_publication_receipt c.env.is_uuid r) db)
          (λ e k. publication-jobs _ _ _ _ _ _ _ _ (publish-PublishedBy _ _ _ _ _ _ _ _ k)) h

pub execute-jobs : (c : Command) (db : Db) → (execute c db).jobs ≡ db.jobs
execute-jobs c db = request-jobs c.request c db
