-- ===== src/Publication/Admission/Replay.antt =====
-- Repeating an admission of src/publications/publication-admission.service.ts with its Idempotency-Key.
use danangmap_backend.Prelude.{
  ℕ, String, ◌+◌, ◌/◌, ◌≤◌, ◌≡◌, refl, sym, subst, ◌∙◌, ap, Bool, true, some, [], ◌∷◌, ◌++◌, max,
  arith,
}
use danangmap_backend.Domain.{revision_publish}
use danangmap_backend.Database.{Db, Revision, Receipt, Response, durable_async, ok}
use danangmap_backend.Database.Publication.{PublicationJob}
use danangmap_backend.Database.Queries.{Env, Actor, touch_layer, add_event, add_audit}
use danangmap_backend.Idempotency.{
  receipt, replay_claim, pending_receipt, settle, complete, insert_pending,
}
use danangmap_backend.Idempotency.Replay.{once-used, receipt-complete, receipt-insert_pending}
use danangmap_backend.Publication.Receipts.{ExecutionResult, replay_publication_receipt}
use danangmap_backend.Publication.Fingerprint.{fingerprint}
use danangmap_backend.Publication.Admission.{
  Config, admit, admit_owned, admitted_job, admission_recorded, admission_result, job_view,
  job_etag, is_desktop,
}
use danangmap_backend.Publication.Admission.Effects.{
  admit-Admitted, insert_admission-eq, admission_writes-cases,
}
use danangmap_backend.Publication.Workers.Valid.{job-id}
use danangmap_backend.Workflow.Publish.{PublishDto, publish_digest, lift}
use danangmap_backend.Workflow.Replay.{Leaves, once-Leaves, played_back}
use danangmap_backend.Workflow.History.{lift-reads}

abbrev retry_after : Config → ℕ
retry_after config = max 1 ((config.dispatch_interval_ms + 999) / 1000)

-- The interval of the dispatcher is at most a minute, so the receipt of an admission can be played back.
retry_after-bounds :
    (config : Config)
    → config.dispatch_interval_ms ≤ 60000
    → (1 ≤ retry_after config) × (retry_after config ≤ 60)
retry_after-bounds config h = (omega arith, omega arith)

replay_of_admitted :
    (env env₀ : Env) (config : Config) (j : PublicationJob) (d : String) (actor_id key : ℕ)
    (db e : Db)
    → env.is_uuid j.id ≡ true
    → config.dispatch_interval_ms ≤ 60000
    → played_back env
        (replay_claim (
          settle
            (Response.job (job_view env₀ j db))
            202
            (some (job_etag j))
            (some (durable_async (retry_after config)))
            (pending_receipt actor_id revision_publish key d)))
        e
      ≡ ok (admission_result env₀ config j db, e)
unfolding replay_publication_receipt job_view
replay_of_admitted env env₀ config j d actor_id key db e u h =
    ground (arith, retry_after-bounds config h)

recorded-receipt :
    (env : Env) (config : Config) (id : ℕ) (r : Revision) (dto : PublishDto) (actor : Actor)
    (key : ℕ) (j : PublicationJob) (db : Db) (p : Receipt)
    → receipt actor.id revision_publish key db ≡ some p
    → receipt actor.id revision_publish key (admission_recorded env config id r dto actor key j db)
      ≡ some (
          settle
            (Response.job (job_view env j db))
            202
            (some (job_etag j))
            (some (durable_async (retry_after config)))
            p)
unfolding admission_recorded complete add_event add_audit
recorded-receipt env config id r dto actor key j db p h =
    receipt-complete actor.id revision_publish key (Response.job (job_view env j db)) 202
      (some (job_etag j)) (some (durable_async (retry_after config))) db p h

admit-Leaves :
    (env : Env) (config : Config) (id : ℕ) (dto : PublishDto) (actor : Actor) (key : ℕ)
    (res : ExecutionResult) (db db' : Db)
    → env.is_uuid env.fresh ≡ true
    → config.dispatch_interval_ms ≤ 60000
    → admit env config id dto actor key db ≡ ok (res, db')
    → Leaves actor.id revision_publish key (publish_digest env id dto) (played_back env) res db'
unfolding admit admission_recorded complete touch_layer add_event add_audit
admit-Leaves env config id dto actor key res db db' v4 bound h =
    let d = publish_digest env id dto in
    once-Leaves actor.id revision_publish key (admit_owned env config id dto actor key)
      (played_back env) d db db' res
      (λ c y e q. lift-reads (replay_publication_receipt env.is_uuid c) _ y e q)
      (λ u b.
        let w = admit-Admitted env config id dto actor key res _ db' b in
        let before = insert_pending actor.id revision_publish key d db in
        let text = fingerprint env w.row before in
        let row = admitted_job env config w.row dto actor text before in
        let v =
          admission_writes-cases env config id w.row dto actor key text res before db' w.written in
        let (e, _, back) = insert_admission-eq env row v.row _ v.inserted v.insertion in
        let j = v.row in
        let r =
          settle (Response.job (job_view env j v.inserted)) 202 (some (job_etag j))
            (some (durable_async (retry_after config)))
            (pending_receipt actor.id revision_publish key d) in
        (
          r,
          subst (λ x. receipt actor.id revision_publish key x ≡ some r) (sym v.after)
              (recorded-receipt env config id w.row dto actor key j v.inserted
                (pending_receipt actor.id revision_publish key d)
                (subst
                  (λ x.
                    receipt actor.id revision_publish key x
                    ≡ some (pending_receipt actor.id revision_publish key d))
                  (sym e) (receipt-insert_pending actor.id revision_publish key d db u))),
          refl,
          subst (λ x. played_back env (replay_claim r) db' ≡ ok (x, db')) (sym v.answer)
              (replay_of_admitted env env config j d actor.id key v.inserted db'
                (subst (λ i. env.is_uuid i ≡ true)
                  (sym (job-id env.fresh (record before { jobs = db.jobs ++ row ∷ [] }) j back)) v4)
                bound),
        ))
      (ground arith)

-- An admission that has succeeded, sent again with its key and another body of the same digest whose client
-- intent is also `desktop`, gives the same answer and writes nothing, so it queues no second job. The
-- dispatch interval is at most a minute, the generated id has the form of a UUID, and both requests
-- test that form alike.
pub admit_repeated :
    (env env' : Env) (config config' : Config) (id : ℕ) (dto dto' : PublishDto) (actor : Actor)
    (key : ℕ) (res : ExecutionResult) (db db' : Db)
    → env.is_uuid env.fresh ≡ true
    → env'.is_uuid ≡ env.is_uuid
    → config.dispatch_interval_ms ≤ 60000
    → admit env config id dto actor key db ≡ ok (res, db')
    → publish_digest env' id dto' ≡ publish_digest env id dto
    → is_desktop dto'.client_intent ≡ true
    → admit env' config' id dto' actor key db' ≡ ok (res, db')
unfolding admit
admit_repeated env env' config config' id dto dto' actor key res db db' v4 same_test bound h same
      desktop =
    let (r, found, d, back) = admit-Leaves env config id dto actor key res db db' v4 bound h in
    ground (
      arith,
      desktop,
      once-used actor.id revision_publish key (admit_owned env' config' id dto' actor key)
            (λ c. lift (replay_publication_receipt env'.is_uuid c)) (publish_digest env' id dto')
            db' r found (d ∙ sym same)
          ∙ ap (λ (t : ℕ → Bool). lift (replay_publication_receipt t (replay_claim r)) db')
              same_test
          ∙ back,
    )
