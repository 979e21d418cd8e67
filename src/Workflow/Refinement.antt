-- ===== src/Workflow/Refinement.antt =====
-- Every operation of src/workflow/workflow.service.ts is one move of the ledger.
use danangmap_backend.Prelude.{
  ℕ, String, ◌≡◌, refl, sym, subst, ap, ◌∙◌, ◌++◌, [], ◌∷◌, inl, inr, ◌||◌, none, some, ◌==◌, arith,
  find_by, find_by-append, ◌&&◌, if◌then◌else◌, Option-cases,
}
use danangmap_backend.Domain.{
  RevisionStatus, draft, in_review, approved, published, ParticipationType, edit, review,
  changes_requested, same_participation,
}
use danangmap_backend.Database.{Db, Revision, Response, Snapshot, ok}
use danangmap_backend.Database.Queries.{
  Env, Actor, revision, participates, update_revision, touch_layer, add_participant, add_event,
  add_audit, snapshot, insert_snapshot, move_pointer, activate_snapshot, next_generation,
  insert_revision,
}
use danangmap_backend.Database.Lookup.{revision-update_revision, participates-add_participant}
use danangmap_backend.Idempotency.{complete}
use danangmap_backend.Ledger.{
  Entry, view, entry_of, with_status, Move, advance, approves, sends_back, publishes, submits, Edge,
}
use danangmap_backend.Workflow.Review.{
  SubmitDto, CommentDto, submitted, approval, set_in_review, set_approved,
}
use danangmap_backend.Publication.Receipts.{ExecutionResult}
use danangmap_backend.Workflow.Changes.{
  close_reviewed, successor, set_changes_requested, changes_recorded, copy_contents,
  next_revision_no,
}
use danangmap_backend.Workflow.Publish.{
  PublishDto, publication_recorded, set_publishing, set_published, mark_publishing, mark_published,
}
use danangmap_backend.Workflow.Effects.{
  Submitted, Approved, PublishedBy, publish_writes-cases, Changed, changes_writes-cases,
}

-- An UPDATE that sets the status and leaves the id, the author and the layer alone.
pub entry-update_revision :
    (id : ℕ) (to : RevisionStatus) (f : Revision → Revision) (db : Db)
    → ((r : Revision) → (f r).id ≡ r.id)
    → ((r : Revision) → entry_of (some (f r)) ≡ with_status to (entry_of (some r)))
    → (j : ℕ)
    → entry_of (revision j (update_revision id f db))
      ≡ (if j == id then with_status to (entry_of (revision j db)) else entry_of (revision j db))
entry-update_revision id to f db k e j = elim (Option-cases (revision j db)) [
  | inl h ↦ ground (arith, h, revision-update_revision j id f db k)
  | inr (r, h) ↦ ground (arith, h, revision-update_revision j id f db k, e r)
]

abbrev entry_row : Revision → Entry
entry_row r = record { status = r.status; created_by = r.created_by; layer_id = r.layer_id }

pub approval-Move :
    (env : Env) (id : ℕ) (dto : CommentDto) (actor : Actor) (key : ℕ) (res : Response) (db db' : Db)
    → Approved env id dto actor key res db db'
    → Move (view db) (view db')
unfolding approval touch_layer add_event add_audit complete add_participant
approval-Move env id dto actor key res db db' a =
    subst (λ d. Move (view db) (view d)) (sym a.after)
      (approves id actor.id (entry_row a.row) (ap entry_of a.found) a.was_in_review
        (ground (arith, a.not_creator)) a.not_editor
        (λ j. entry-update_revision id approved (set_approved env) db (λ r. refl) (λ r. refl) j)
        (λ r u k. participates-add_participant id actor.id r u review k db))

pub Submitted-Move :
    (env : Env) (id : ℕ) (dto : SubmitDto) (actor : Actor) (key : ℕ) (res : Response) (db db' : Db)
    → Submitted env id dto actor key res db db'
    → Move (view db) (view db')
unfolding submitted touch_layer add_event add_audit complete
Submitted-Move env id dto actor key res db db' a =
    subst (λ d. Move (view db) (view d)) (sym a.after)
      (advance id (entry_row a.row) in_review (ap entry_of a.found)
        (subst (λ s. Edge s in_review) (sym a.was_draft) submits)
        (λ j. entry-update_revision id in_review (set_in_review env) db (λ r. refl) (λ r. refl) j)
        (λ r u k. refl))

-- After the insertion the database is the old one with the snapshot behind the others.
pub insert_snapshot-eq :
    (row : Snapshot) (d d' : Db)
    → insert_snapshot row d ≡ ok (tt, d')
    → (d' ≡ record d { snapshots = d.snapshots ++ row ∷ [] }) × (snapshot row.id d ≡ none)
unfolding insert_snapshot
insert_snapshot-eq row d d' h = (ground arith, ground arith)

published-entry :
    (env : Env) (id : ℕ) (db : Db) (j : ℕ)
    → entry_of (revision j (mark_published env id (mark_publishing env id db))) ≡ (
        if j == id
        then with_status published (entry_of (revision j db))
        else entry_of (revision j db))
published-entry env id db j = ground (
  arith,
  entry-update_revision id published (set_published env) (mark_publishing env id db) (λ r. refl)
      (λ r. refl) j,
  entry-update_revision id RevisionStatus.publishing (set_publishing env) db (λ r. refl) (λ r. refl)
      j,
)

pub publication-Move :
    (env : Env) (id : ℕ) (dto : PublishDto) (actor : Actor) (key : ℕ) (res : ExecutionResult)
    (db db' : Db)
    → PublishedBy env id dto actor key res db db'
    → Move (view db) (view db')
unfolding publication_recorded touch_layer add_event add_audit complete move_pointer
    activate_snapshot add_participant
publication-Move env id dto actor key res db db' a =
    let c = publish_writes-cases env id a.row dto actor key res db db' a.written in
    let (e, _) = insert_snapshot-eq _ _ _ c.insertion in
    subst (λ d. Move (view db) (view d))
      (sym (
        c.after
        ∙ ap (publication_recorded env id a.row dto actor key (next_generation a.row.layer_id db))
            e))
      (publishes id actor.id (entry_row a.row) (ap entry_of a.found) (inl a.was_approved)
        (ground (arith, a.not_editorial)) (ground (arith, a.not_editorial))
        (λ j. published-entry env id db j)
        (λ r u k. participates-add_participant id actor.id r u ParticipationType.publish k db))

-- After the insertion the database is the old one with the revision behind the others.
pub insert_revision-eq :
    (row : Revision) (d d' : Db)
    → insert_revision row d ≡ ok (tt, d')
    → (d' ≡ record d { revisions = d.revisions ++ row ∷ [] }) × (revision row.id d ≡ none)
unfolding insert_revision
insert_revision-eq row d d' h = (ground arith, ground arith)

pub revision-insert :
    (row : Revision) (d : Db) (j : ℕ)
    → revision row.id d ≡ none
    → revision j (record d { revisions = d.revisions ++ row ∷ [] })
      ≡ (if j == row.id then some row else revision j d)
unfolding find_by
revision-insert row d j h =
    ground (arith, h, find_by-append (λ (r : Revision). r.id == j) d.revisions (row ∷ []))

changes-entry :
    (env : Env) (id : ℕ) (row : Revision) (number : ℕ) (db : Db) (j : ℕ)
    → revision env.fresh (close_reviewed env id db) ≡ none
    → entry_of (
        revision j (record (close_reviewed env id db) {
          revisions = (close_reviewed env id db).revisions ++ successor env id row number ∷ [];
        }))
      ≡ (if j == env.fresh
          then some
              (record { status = draft; created_by = row.created_by; layer_id = row.layer_id })
          else if j == id
          then with_status changes_requested (entry_of (revision j db))
          else entry_of (revision j db))
changes-entry env id row number db j h = ground (
  arith,
  revision-insert (successor env id row number) (close_reviewed env id db) j h,
  entry-update_revision id changes_requested (set_changes_requested env) db (λ r. refl) (λ r. refl)
      j,
)

revision-update-none :
    (j id : ℕ) (f : Revision → Revision) (db : Db)
    → ((r : Revision) → (f r).id ≡ r.id)
    → revision j (update_revision id f db) ≡ none
    → revision j db ≡ none
revision-update-none j id f db k h = elim (Option-cases (revision j db)) [
  | inl e ↦ e
  | inr (r, e) ↦ ground (arith, e, revision-update_revision j id f db k)
]

changes-part :
    (r u a b c d : ℕ) (k : ParticipationType) (db : Db)
    → participates r u k (add_participant c d edit (add_participant a b review db)) ≡ (
        participates r u k db
        || (a == r && b == u && same_participation review k)
        || (c == r && d == u && same_participation edit k))
changes-part r u a b c d k db = ground (
  arith,
  participates-add_participant c d r u edit k (add_participant a b review db),
  participates-add_participant a b r u review k db,
)

pub changes-Move :
    (env : Env) (id : ℕ) (comment : String) (actor : Actor) (key : ℕ) (res : Response) (db db' : Db)
    → Changed env id comment actor key res db db'
    → Move (view db) (view db')
unfolding changes_recorded touch_layer add_event add_audit complete copy_contents add_participant
changes-Move env id comment actor key res db db' a =
    let c = changes_writes-cases env id a.row comment actor key res db db' a.written in
    let number = next_revision_no a.row.layer_id db in
    let (e, new) = insert_revision-eq _ _ _ c.insertion in
    subst (λ d. Move (view db) (view d))
      (sym (c.after ∙ ap (changes_recorded env id a.row comment actor key) e))
      (sends_back id actor.id env.fresh (entry_row a.row) (ap entry_of a.found) a.was_in_review
        (ground (arith, a.not_creator)) a.not_editor
        (ap entry_of
          (revision-update-none env.fresh id (set_changes_requested env) db (λ r. refl) new))
        (λ j. changes-entry env id a.row number db j new)
        (λ r u k. changes-part r u id actor.id env.fresh a.row.created_by k db))
