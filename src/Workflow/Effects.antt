-- ===== src/Workflow/Effects.antt =====
-- What a successful operation of the workflow has checked and written: one record for each operation,
-- and its inversion.
use danangmap_backend.Prelude.{
  ℕ, String, ◌≡◌, inl, inr, true, false, some, ◌==◌, same?, arith, Option-cases,
}
use danangmap_backend.Domain.{in_review, draft, approved, ParticipationType}
use danangmap_backend.Database.{Db, Revision, Response, transition, publication, ok}
use danangmap_backend.Database.Queries.{
  Env, Actor, revision, layer, participates, is_editorial, insert_revision, insert_snapshot,
  next_generation,
}
use danangmap_backend.Database.Lookup.{revision-id, >>=-eq-ok}
use danangmap_backend.Publication.Receipts.{ExecutionResult, synchronous_result}
use danangmap_backend.Workflow.Guards.{
  has_invalid_geometry, active_revision, base_revision, attachments_at_fault,
}
use danangmap_backend.Workflow.Review.{
  SubmitDto, CommentDto, submitted, approval, is_editor_of, submit_owned, approve_owned,
}
use danangmap_backend.Workflow.Changes.{
  request_changes_owned, has_draft, close_reviewed, successor, next_revision_no, changes_recorded,
  changes_response, changes_writes,
}
use danangmap_backend.Workflow.Publish.{
  PublishDto, publish_owned, publish_writes, sync_snapshot, mark_publishing, publication_recorded,
}

-- The checks and the writes, on the database that already holds the request's own receipt.
pub record Submitted (env : Env) (id : ℕ) (dto : SubmitDto) (actor : Actor) (key : ℕ)
    (res : Response) (db db' : Db) : Type 0 where
  pub row : Revision
  pub found : revision id db ≡ some row
  pub was_draft : row.status ≡ draft
  pub editor : is_editor_of id row actor.id db ≡ true
  pub valid : has_invalid_geometry env id db ≡ false
  pub answer : res ≡ transition id in_review
  pub after : db' ≡ submitted env id row dto actor key db

pub record Approved (env : Env) (id : ℕ) (dto : CommentDto) (actor : Actor) (key : ℕ)
    (res : Response) (db db' : Db) : Type 0 where
  pub row : Revision
  pub found : revision id db ≡ some row
  pub was_in_review : row.status ≡ in_review
  pub not_creator : (row.created_by == actor.id) ≡ false
  pub not_editor : participates id actor.id ParticipationType.edit db ≡ false
  pub answer : res ≡ transition id approved
  pub after : db' ≡ approval env id row dto actor key db

pub record Changed (env : Env) (id : ℕ) (comment : String) (actor : Actor) (key : ℕ)
    (res : Response) (db db' : Db) : Type 0 where
  pub row : Revision
  pub found : revision id db ≡ some row
  pub was_in_review : row.status ≡ in_review
  pub not_creator : (row.created_by == actor.id) ≡ false
  pub not_editor : participates id actor.id ParticipationType.edit db ≡ false
  pub no_draft : has_draft row.layer_id db ≡ false
  pub written : changes_writes env id row comment actor key db ≡ ok (res, db')

pub record PublishedBy (env : Env) (id : ℕ) (dto : PublishDto) (actor : Actor) (key : ℕ)
    (res : ExecutionResult) (db db' : Db) : Type 0 where
  pub row : Revision
  pub found : revision id db ≡ some row
  pub was_approved : row.status ≡ approved
  pub not_editorial : is_editorial id actor.id db ≡ false
  pub current : same? (active_revision row.layer_id db) (base_revision row db) ≡ true
  pub files_ready : attachments_at_fault id db ≡ false
  pub written : publish_writes env id row dto actor key db ≡ ok (res, db')

pub submit-Submitted :
    (env : Env) (id : ℕ) (dto : SubmitDto) (actor : Actor) (key : ℕ) (res : Response) (db db' : Db)
    → submit_owned env id dto actor key db ≡ ok (res, db')
    → Submitted env id dto actor key res db db'
unfolding submit_owned
submit-Submitted env id dto actor key res db db' h = elim (Option-cases (revision id db)) [
  | inl e ↦ absurd (ground arith)
  | inr (r, e) ↦ record {
    row = r;
    found = e;
    was_draft = ground arith;
    editor = ground arith;
    valid = ground arith;
    answer = ground arith;
    after = ground arith;
  }
]

pub approve-Approved :
    (env : Env) (id : ℕ) (dto : CommentDto) (actor : Actor) (key : ℕ) (res : Response) (db db' : Db)
    → approve_owned env id dto actor key db ≡ ok (res, db')
    → Approved env id dto actor key res db db'
unfolding approve_owned
approve-Approved env id dto actor key res db db' h = elim (Option-cases (revision id db)) [
  | inl e ↦ absurd (ground arith)
  | inr (r, e) ↦ record {
    row = r;
    found = e;
    was_in_review = ground arith;
    not_creator = ground arith;
    not_editor = ground (arith, revision-id id db r e);
    answer = ground arith;
    after = ground arith;
  }
]

pub request_changes-Changed :
    (env : Env) (id : ℕ) (comment : String) (actor : Actor) (key : ℕ) (res : Response) (db db' : Db)
    → request_changes_owned env id comment actor key db ≡ ok (res, db')
    → Changed env id comment actor key res db db'
unfolding request_changes_owned
request_changes-Changed env id comment actor key res db db' h =
    elim (Option-cases (revision id db)) [
      | inl e ↦ absurd (ground arith)
      | inr (r, e) ↦ record {
        row = r;
        found = e;
        was_in_review = ground arith;
        not_creator = ground arith;
        not_editor = ground (arith, revision-id id db r e);
        no_draft = ground arith;
        written = ground arith;
      }
    ]

pub publish-PublishedBy :
    (env : Env) (id : ℕ) (dto : PublishDto) (actor : Actor) (key : ℕ) (res : ExecutionResult)
    (db db' : Db)
    → publish_owned env id dto actor key db ≡ ok (res, db')
    → PublishedBy env id dto actor key res db db'
unfolding publish_owned
publish-PublishedBy env id dto actor key res db db' h = elim (Option-cases (revision id db)) [
  | inl e ↦ absurd (ground arith)
  | inr (r, e) ↦ elim (Option-cases (layer r.layer_id db)) [
    | inl f ↦ absurd (ground arith)
    | inr (l, f) ↦ record {
      row = r;
      found = e;
      was_approved = ground arith;
      not_editorial = ground arith;
      current = ground arith;
      files_ready = ground arith;
      written = ground arith;
    }
  ]
]

-- The insertion of the successor has succeeded in between.
pub record ChangesWritten (env : Env) (id : ℕ) (r : Revision) (comment : String) (actor : Actor)
    (key : ℕ) (res : Response) (db db' : Db) : Type 0 where
  pub inserted : Db
  pub insertion :
      insert_revision
        (successor env id r (next_revision_no r.layer_id db))
        (close_reviewed env id db)
      ≡ ok (tt, inserted)
  pub answer : res ≡ changes_response env id
  pub after : db' ≡ changes_recorded env id r comment actor key inserted

pub changes_writes-cases :
    (env : Env) (id : ℕ) (r : Revision) (comment : String) (actor : Actor) (key : ℕ)
    (res : Response) (db db' : Db)
    → changes_writes env id r comment actor key db ≡ ok (res, db')
    → ChangesWritten env id r comment actor key res db db'
unfolding changes_writes
changes_writes-cases env id r comment actor key res db db' h =
    let (u, d, e, k) =
      >>=-eq-ok (insert_revision (successor env id r (next_revision_no r.layer_id db)))
        (λ _ d. ok (changes_response env id, changes_recorded env id r comment actor key d))
        (close_reviewed env id db) h in
    record { inserted = d; insertion = e; answer = ground arith; after = ground arith }

-- The insertion of the snapshot has succeeded in between.
pub record PublicationWritten (env : Env) (id : ℕ) (r : Revision) (dto : PublishDto) (actor : Actor)
    (key : ℕ) (res : ExecutionResult) (db db' : Db) : Type 0 where
  pub inserted : Db
  pub insertion :
      insert_snapshot
        (sync_snapshot env id r actor (mark_publishing env id db))
        (mark_publishing env id db)
      ≡ ok (tt, inserted)
  pub answer : res ≡ synchronous_result (publication env.fresh (next_generation r.layer_id db))
  pub after :
      db' ≡ publication_recorded env id r dto actor key (next_generation r.layer_id db) inserted

pub publish_writes-cases :
    (env : Env) (id : ℕ) (r : Revision) (dto : PublishDto) (actor : Actor) (key : ℕ)
    (res : ExecutionResult) (db db' : Db)
    → publish_writes env id r dto actor key db ≡ ok (res, db')
    → PublicationWritten env id r dto actor key res db db'
unfolding publish_writes
publish_writes-cases env id r dto actor key res db db' h =
    let (u, d, e, k) =
      >>=-eq-ok (insert_snapshot (sync_snapshot env id r actor (mark_publishing env id db)))
        (λ _ d. ok (
          synchronous_result (publication env.fresh (next_generation r.layer_id db)),
          publication_recorded env id r dto actor key (next_generation r.layer_id db) d,
        ))
        (mark_publishing env id db) h in
    record { inserted = d; insertion = e; answer = ground arith; after = ground arith }
