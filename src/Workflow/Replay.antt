-- ===== src/Workflow/Replay.antt =====
-- Repeating a command of src/workflow/workflow.service.ts with its Idempotency-Key.
use danangmap_backend.Prelude.{
  ℕ, String, ◌+◌, ◌≡◌, refl, sym, subst, ◌∙◌, ap, inl, inr, Bool, true, Option, none, some, arith,
}
use danangmap_backend.Domain.{
  Operation, revision_submit, revision_approve, revision_request_changes, revision_publish,
  in_review, approved,
}
use danangmap_backend.Database.{
  Db, Tx, Receipt, ReceiptMetadata, Response, Etag, transition, publication, ok, revision_etag,
  legacy_sync,
}
use danangmap_backend.Database.Queries.{
  Env, Actor, next_generation, touch_layer, add_event, add_audit, add_participant, move_pointer,
  activate_snapshot,
}
use danangmap_backend.Idempotency.{
  ReceiptClaim, receipt, replay_claim, once, insert_pending, pending_receipt, settle, complete,
}
use danangmap_backend.Idempotency.Replay.{
  once-cases, once-used, receipt-complete, receipt-insert_pending,
}
use danangmap_backend.Publication.Receipts.{
  ExecutionResult, synchronous_result, replay_publication_receipt,
}
use danangmap_backend.Workflow.Guards.{replayed}
use danangmap_backend.Workflow.Review.{
  SubmitDto, CommentDto, submit, approve, submit_owned, approve_owned, submit_digest,
  approve_digest, submitted, approval,
}
use danangmap_backend.Workflow.Changes.{
  request_changes, request_changes_owned, request_changes_digest, changes_recorded,
  changes_response, copy_contents, rethrow_result,
}
use danangmap_backend.Workflow.Publish.{
  PublishDto, publish, publish_owned, publish_digest, publication_recorded, lift,
}
use danangmap_backend.Workflow.Effects.{
  submit-Submitted, approve-Approved, request_changes-Changed, publish-PublishedBy,
  changes_writes-cases, publish_writes-cases,
}
use danangmap_backend.Workflow.Refinement.{insert_snapshot-eq, insert_revision-eq}
use danangmap_backend.Workflow.History.{rethrow-ok, lift-reads}

-- A body that leaves a receipt from which its answer is played back.
abbrev pub Leaves :
    {A : Type 0} → ℕ → Operation → ℕ → String → (ReceiptClaim → Tx A) → A → Db → Type 0
Leaves a o k d replay x db =
    (r : Receipt) × (receipt a o k db ≡ some r)
    × (r.request_digest ≡ d)
    × (replay (replay_claim r) db ≡ ok (x, db))

module _ {A : Type 0} (a : ℕ) (o : Operation) (k : ℕ) (body : Tx A)
    (replay : ReceiptClaim → Tx A) where
  pub once-Leaves :
      (d : String) (db db' : Db) (x : A)
      → ((c : ReceiptClaim) (y : A) (e : Db) → replay c db ≡ ok (y, e) → e ≡ db)
      → (receipt a o k db ≡ none
          → body (insert_pending a o k d db) ≡ ok (x, db')
          → Leaves a o k d replay x db')
      → once a o k d body replay db ≡ ok (x, db')
      → Leaves a o k d replay x db'
  once-Leaves d db db' x reads leaves h = elim (once-cases a o k body replay d db db' x h) [
    | inl (u, e) ↦ leaves u e
    | inr (r, found, same, e) ↦
        let back = reads (replay_claim r) x db' e in
        subst (λ w. Leaves a o k d replay x w) (sym back)
          (r, found, same, subst (λ w. replay (replay_claim r) db ≡ ok (x, w)) back e)
  ]

-- The receipt after `complete`, on the database that the owner's claim has left.
pub completed-receipt :
    (a : ℕ) (o : Operation) (k : ℕ) (d : String) (p : Response) (code : ℕ) (e : Option Etag)
    (m : Option ReceiptMetadata) (db : Db)
    → receipt a o k db ≡ none
    → receipt a o k (complete a o k p code e m (insert_pending a o k d db))
      ≡ some (settle p code e m (pending_receipt a o k d))
completed-receipt a o k d p code e m db u =
    receipt-complete a o k p code e m (insert_pending a o k d db) (pending_receipt a o k d)
      (receipt-insert_pending a o k d db u)

submit-Leaves :
    (env : Env) (id : ℕ) (dto : SubmitDto) (actor : Actor) (key : ℕ) (res : Response) (db db' : Db)
    → submit env id dto actor key db ≡ ok (res, db')
    → Leaves actor.id revision_submit key
        (submit_digest env id dto)
        (λ c. replayed c.response)
        res
        db'
unfolding submit submitted complete touch_layer add_event add_audit
submit-Leaves env id dto actor key res db db' h =
    let d = submit_digest env id dto in
    let p = transition id in_review in
    let r = settle p 202 none none (pending_receipt actor.id revision_submit key d) in
    once-Leaves actor.id revision_submit key (submit_owned env id dto actor key)
      (λ c. replayed c.response) d db db' res (λ c y e q. ground arith)
      (λ u b.
        let w = submit-Submitted env id dto actor key res _ db' b in
        (
          r,
          subst (λ x. receipt actor.id revision_submit key x ≡ some r) (sym w.after)
              (completed-receipt actor.id revision_submit key d p 202 none none db u),
          refl,
          ap (λ x. ok (x, db')) (sym w.answer),
        ))
      h

approve-Leaves :
    (env : Env) (id : ℕ) (dto : CommentDto) (actor : Actor) (key : ℕ) (res : Response) (db db' : Db)
    → approve env id dto actor key db ≡ ok (res, db')
    → Leaves actor.id revision_approve key
        (approve_digest env id dto)
        (λ c. replayed c.response)
        res
        db'
unfolding approve approval complete touch_layer add_event add_audit add_participant
approve-Leaves env id dto actor key res db db' h =
    let d = approve_digest env id dto in
    let p = transition id approved in
    let r = settle p 201 none none (pending_receipt actor.id revision_approve key d) in
    once-Leaves actor.id revision_approve key (approve_owned env id dto actor key)
      (λ c. replayed c.response) d db db' res (λ c y e q. ground arith)
      (λ u b.
        let w = approve-Approved env id dto actor key res _ db' b in
        (
          r,
          subst (λ x. receipt actor.id revision_approve key x ≡ some r) (sym w.after)
              (completed-receipt actor.id revision_approve key d p 201 none none db u),
          refl,
          ap (λ x. ok (x, db')) (sym w.answer),
        ))
      h

changes-Leaves :
    (env : Env) (id : ℕ) (comment : String) (actor : Actor) (key : ℕ) (res : Response) (db db' : Db)
    → request_changes env id comment actor key db ≡ ok (res, db')
    → Leaves actor.id revision_request_changes key
        (request_changes_digest env id comment)
        (λ c. replayed c.response)
        res
        db'
unfolding request_changes changes_recorded complete touch_layer add_event add_audit add_participant
    copy_contents
changes-Leaves env id comment actor key res db db' h =
    let d = request_changes_digest env id comment in
    let p = changes_response env id in
    let t : Option Etag = some (revision_etag env.fresh 1) in
    let r = settle p 201 t none (pending_receipt actor.id revision_request_changes key d) in
    once-Leaves actor.id revision_request_changes key
      (request_changes_owned env id comment actor key) (λ c. replayed c.response) d db db' res
      (λ c y e q. ground arith)
      (λ u b.
        let w = request_changes-Changed env id comment actor key res _ db' b in
        let v = changes_writes-cases env id w.row comment actor key res _ db' w.written in
        let (e, _) = insert_revision-eq _ _ _ v.insertion in
        (
          r,
          subst (λ x. receipt actor.id revision_request_changes key x ≡ some r)
              (sym (v.after ∙ ap (changes_recorded env id w.row comment actor key) e))
              (completed-receipt actor.id revision_request_changes key d p 201 t none db u),
          refl,
          ap (λ x. ok (x, db')) (sym v.answer),
        ))
      (rethrow-ok _ _ h)

abbrev pub played_back : Env → ReceiptClaim → Tx ExecutionResult
played_back env c = lift (replay_publication_receipt env.is_uuid c)

-- A generation is max + 1, so the receipt of a publication can always be played back.
replay_of_published :
    (env : Env) (d : String) (actor_id key top : ℕ) (db : Db)
    → env.is_uuid env.fresh ≡ true
    → played_back env
        (replay_claim (
          settle
            (publication env.fresh (top + 1))
            202
            none
            (some legacy_sync)
            (pending_receipt actor_id revision_publish key d)))
        db
      ≡ ok (synchronous_result (publication env.fresh (top + 1)), db)
unfolding replay_publication_receipt
replay_of_published env d actor_id key top db u = ground arith

publish-Leaves :
    (env : Env) (id : ℕ) (dto : PublishDto) (actor : Actor) (key : ℕ) (res : ExecutionResult)
    (db db' : Db)
    → env.is_uuid env.fresh ≡ true
    → publish env id dto actor key db ≡ ok (res, db')
    → Leaves actor.id revision_publish key (publish_digest env id dto) (played_back env) res db'
unfolding publish publication_recorded complete touch_layer add_event add_audit add_participant
    move_pointer activate_snapshot
publish-Leaves env id dto actor key res db db' v4 h =
    let d = publish_digest env id dto in
    once-Leaves actor.id revision_publish key (publish_owned env id dto actor key) (played_back env)
      d db db' res (λ c y e q. lift-reads (replay_publication_receipt env.is_uuid c) _ y e q)
      (λ u b.
        let w = publish-PublishedBy env id dto actor key res _ db' b in
        let v = publish_writes-cases env id w.row dto actor key res _ db' w.written in
        let (e, _) = insert_snapshot-eq _ _ _ v.insertion in
        let g = next_generation w.row.layer_id db in
        let p = publication env.fresh g in
        let r =
          settle p 202 none (some legacy_sync) (pending_receipt actor.id revision_publish key d) in
        (
          r,
          subst (λ x. receipt actor.id revision_publish key x ≡ some r)
              (sym (v.after ∙ ap (publication_recorded env id w.row dto actor key g) e))
              (completed-receipt actor.id revision_publish key d p 202 none (some legacy_sync) db
                u),
          refl,
          subst (λ x. played_back env (replay_claim r) db' ≡ ok (x, db')) (sym v.answer)
              (replay_of_published env d actor.id key _ db' v4),
        ))
      h

module _ (env env' : Env) (id : ℕ) (actor : Actor) (key : ℕ) (db db' : Db) where
  -- A `submit` that has succeeded, sent again with its key and a body of the same digest, gives the
  -- same answer and writes nothing.
  pub submit_repeated :
      (dto dto' : SubmitDto) (res : Response)
      → submit env id dto actor key db ≡ ok (res, db')
      → submit_digest env' id dto' ≡ submit_digest env id dto
      → submit env' id dto' actor key db' ≡ ok (res, db')
  unfolding submit
  submit_repeated dto dto' res h same =
      let (r, found, d, back) = submit-Leaves env id dto actor key res db db' h in
      once-used actor.id revision_submit key _ _ (submit_digest env' id dto') db' r found
        (d ∙ sym same)
      ∙ back

  -- An `approve` that has succeeded, sent again with its key and a body of the same digest, gives the
  -- same answer and writes nothing.
  pub approve_repeated :
      (dto dto' : CommentDto) (res : Response)
      → approve env id dto actor key db ≡ ok (res, db')
      → approve_digest env' id dto' ≡ approve_digest env id dto
      → approve env' id dto' actor key db' ≡ ok (res, db')
  unfolding approve
  approve_repeated dto dto' res h same =
      let (r, found, d, back) = approve-Leaves env id dto actor key res db db' h in
      once-used actor.id revision_approve key _ _ (approve_digest env' id dto') db' r found
        (d ∙ sym same)
      ∙ back

  -- A `requestChanges` that has succeeded, sent again with its key and a comment of the same digest,
  -- gives the same answer and writes nothing, so it makes no second successor.
  pub request_changes_repeated :
      (comment comment' : String) (res : Response)
      → request_changes env id comment actor key db ≡ ok (res, db')
      → request_changes_digest env' id comment' ≡ request_changes_digest env id comment
      → request_changes env' id comment' actor key db' ≡ ok (res, db')
  unfolding request_changes
  request_changes_repeated comment comment' res h same =
      let (r, found, d, back) = changes-Leaves env id comment actor key res db db' h in
      ap rethrow_result (
        once-used actor.id revision_request_changes key _ _
          (request_changes_digest env' id comment') db' r found (d ∙ sym same)
        ∙ back)

  -- A `publish` that has succeeded, sent again with its key and a body of the same digest, gives the
  -- same answer and writes nothing, so it makes no second snapshot. The generated id has the form of a
  -- UUID, and both requests test that form alike.
  pub publish_repeated :
      (dto dto' : PublishDto) (res : ExecutionResult)
      → env.is_uuid env.fresh ≡ true
      → env'.is_uuid ≡ env.is_uuid
      → publish env id dto actor key db ≡ ok (res, db')
      → publish_digest env' id dto' ≡ publish_digest env id dto
      → publish env' id dto' actor key db' ≡ ok (res, db')
  unfolding publish
  publish_repeated dto dto' res v4 same_test h same =
      let (r, found, d, back) = publish-Leaves env id dto actor key res db db' v4 h in
      once-used actor.id revision_publish key _ _ (publish_digest env' id dto') db' r found
        (d ∙ sym same)
      ∙ ap (λ (t : ℕ → Bool). lift (replay_publication_receipt t (replay_claim r)) db') same_test
      ∙ back
