-- ===== src/Workflow/History.antt =====
-- Histories of workflow commands, each of them one transaction of src/workflow/workflow.service.ts.
use danangmap_backend.Prelude.{ℕ, String, ◌≡◌, refl, sym, subst, inl, inr, Option, arith}
use danangmap_backend.Domain.{
  Operation, revision_submit, revision_approve, revision_request_changes, revision_publish,
}
use danangmap_backend.Database.{Db, Tx, Response, Result, ok, err, commit, transaction}
use danangmap_backend.Database.Queries.{Env, Actor}
use danangmap_backend.Idempotency.{ReceiptClaim, replay_claim, once, insert_pending}
use danangmap_backend.Idempotency.Replay.{once-cases}
use danangmap_backend.Ledger.{view, Move, rest}
use danangmap_backend.Publication.Receipts.{replay_publication_receipt}
use danangmap_backend.Workflow.Guards.{replayed}
use danangmap_backend.Workflow.Review.{
  SubmitDto, CommentDto, submit, approve, submit_digest, approve_digest,
}
use danangmap_backend.Workflow.Changes.{request_changes, request_changes_digest, rethrow_result}
use danangmap_backend.Workflow.Publish.{PublishDto, publish, publish_digest, lift}
use danangmap_backend.Workflow.Effects.{
  submit-Submitted, approve-Approved, request_changes-Changed, publish-PublishedBy,
}
use danangmap_backend.Workflow.Refinement.{
  Submitted-Move, approval-Move, changes-Move, publication-Move,
}

pub data Request : Type 0 where
  submits : SubmitDto → Request
  approves : CommentDto → Request
  requests_changes : String → Request
  publishes : PublishDto → Request

-- A request of a user about a revision, with its Idempotency-Key.
pub record Command : Type 0 where
  pub env : Env
  pub actor : Actor
  pub revision_id : ℕ
  pub key : ℕ
  pub request : Request

abbrev pub dispatch : Request → Command → Db → Db
dispatch (submits dto) c db = (transaction (submit c.env c.revision_id dto c.actor c.key) db).1
dispatch (approves dto) c db = (transaction (approve c.env c.revision_id dto c.actor c.key) db).1
dispatch (requests_changes comment) c db =
    (transaction (request_changes c.env c.revision_id comment c.actor c.key) db).1
dispatch (publishes dto) c db = (transaction (publish c.env c.revision_id dto c.actor c.key) db).1

-- The database after a command, which is the old one if the command threw.
abbrev pub execute : Command → Db → Db
execute c db = dispatch c.request c db

-- A transaction whose success is a move is one also where it is rolled back.
transaction-Move :
    {A : Type 0} (m : Tx A) (db : Db)
    → ((x : A) (db' : Db) → m db ≡ ok (x, db') → Move (view db) (view db'))
    → Move (view db) (view (transaction m db).1)
transaction-Move {A} m db h = go (m db) refl
  where
    go : (r : Result (A × Db)) → m db ≡ r → Move (view db) (view (commit db r).1)
    go (ok (a, d)) e = h a d e
    go (err e') e = rest (λ j. refl) (λ r u k. refl)

-- A command that runs once is a move if the body of its owner is, and a replay reads only.
once-Move :
    {A : Type 0} (a : ℕ) (o : Operation) (k : ℕ) (d : String) (body : Tx A)
    (replay : ReceiptClaim → Tx A) (db : Db) (x : A) (db' : Db)
    → ((c : ReceiptClaim) (y : A) (e : Db) → replay c db ≡ ok (y, e) → e ≡ db)
    → ((e : Db) → body (insert_pending a o k d db) ≡ ok (x, e) → Move (view db) (view e))
    → once a o k d body replay db ≡ ok (x, db')
    → Move (view db) (view db')
once-Move a o k d body replay db x db' reads moves h =
    elim (once-cases a o k body replay d db db' x h) [
      | inl (_, e) ↦ moves db' e
      | inr (r, _, _, e) ↦
          subst (λ w. Move (view db) (view w)) (sym (reads (replay_claim r) x db' e))
            (rest (λ j. refl) (λ r u k. refl))
    ]

pub replayed-reads :
    (o : Option Response) (db : Db) (y : Response) (e : Db) → replayed o db ≡ ok (y, e) → e ≡ db
replayed-reads o db y e h = ground arith

pub lift-reads :
    {A : Type 0} (r : Result A) (db : Db) (y : A) (e : Db) → lift r db ≡ ok (y, e) → e ≡ db
lift-reads (ok a) db y e h = ground arith
lift-reads (err e') db y e h = absurd (cc)

pub rethrow-ok : {A : Type 0} (r : Result A) (x : A) → rethrow_result r ≡ ok x → r ≡ ok x
rethrow-ok (ok a) x h = h
rethrow-ok (err e) x h = absurd (cc)

request-Move : (q : Request) (c : Command) (db : Db) → Move (view db) (view (dispatch q c db))
unfolding submit approve request_changes publish
request-Move (submits dto) c db =
    transaction-Move (submit c.env c.revision_id dto c.actor c.key) db λ x db' h.
      once-Move c.actor.id revision_submit c.key (submit_digest c.env c.revision_id dto) _ _ db x
        db' (λ r. replayed-reads r.response db)
        (λ e k. Submitted-Move _ _ _ _ _ _ _ _ (submit-Submitted _ _ _ _ _ _ _ _ k)) h
request-Move (approves dto) c db =
    transaction-Move (approve c.env c.revision_id dto c.actor c.key) db λ x db' h.
      once-Move c.actor.id revision_approve c.key (approve_digest c.env c.revision_id dto) _ _ db x
        db' (λ r. replayed-reads r.response db)
        (λ e k. approval-Move _ _ _ _ _ _ _ _ (approve-Approved _ _ _ _ _ _ _ _ k)) h
request-Move (requests_changes comment) c db =
    transaction-Move (request_changes c.env c.revision_id comment c.actor c.key) db λ x db' h.
      once-Move c.actor.id revision_request_changes c.key
        (request_changes_digest c.env c.revision_id comment) _ _ db x db'
        (λ r. replayed-reads r.response db)
        (λ e k. changes-Move _ _ _ _ _ _ _ _ (request_changes-Changed _ _ _ _ _ _ _ _ k))
        (rethrow-ok _ _ h)
request-Move (publishes dto) c db =
    transaction-Move (publish c.env c.revision_id dto c.actor c.key) db λ x db' h.
      once-Move c.actor.id revision_publish c.key (publish_digest c.env c.revision_id dto) _ _ db x
        db' (λ r. lift-reads (replay_publication_receipt c.env.is_uuid r) db)
        (λ e k. publication-Move _ _ _ _ _ _ _ _ (publish-PublishedBy _ _ _ _ _ _ _ _ k)) h

-- Every command is one move of the ledger, whether it succeeds, is replayed, or throws.
pub execute-Move : (c : Command) (db : Db) → Move (view db) (view (execute c db))
execute-Move c db = request-Move c.request c db
