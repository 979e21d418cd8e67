-- ===== src/Workflow/Successors.antt =====
-- `requestChanges` of src/workflow/workflow.service.ts against the unique indexes of layer_revisions.
use danangmap_backend.Prelude.{
  ℕ, String, ◌<◌, ◌≡◌, refl, ap, ==-refl, max_by-update_where, true, false, ◌&&◌, none, some, [],
  ◌∷◌, ◌++◌, List, ◌==◌, arith, exists_by, update_where, max_by, max_by-fresh, All, All-exists_by,
  update_where,
}
use danangmap_backend.Domain.{RevisionStatus, in_review, ParticipationType, is_open_chain, is_draft}
use danangmap_backend.Database.{Db, Revision, ok}
use danangmap_backend.Database.Queries.{
  Env, Actor, revision, participates, insert_revision, touch_layer, add_event, add_audit,
  add_participant,
}
use danangmap_backend.Database.Lookup.{revision-id, revision-update_revision}
use danangmap_backend.Workflow.Changes.{
  request_changes_owned, changes_writes, changes_recorded, changes_response, successor,
  next_revision_no, copy_contents, close_reviewed, set_changes_requested,
}
use danangmap_backend.Idempotency.{complete}
use danangmap_backend.Workflow.Refinement.{revision-insert}

-- uq_layer_open_editorial_chain, seen from a revision: no other row of its layer is open.
abbrev pub IsOnlyOpen : Revision → Db → Type 0
IsOnlyOpen r db =
    All (λ s. (s.layer_id == r.layer_id && is_open_chain s.status) ≡ true → s ≡ r) db.revisions

draft-is_open : (s : RevisionStatus) → is_draft s ≡ true → is_open_chain s ≡ true
draft-is_open s h = ground arith

module _ (env : Env) (id : ℕ) (r : Revision) (db : Db) (found : revision id db ≡ some r)
    (only : IsOnlyOpen r db) where
  undrafted :
      (xs : List Revision)
      → r.status ≡ in_review
      → All (λ s. (s.layer_id == r.layer_id && is_open_chain s.status) ≡ true → s ≡ r) xs
      → exists_by (λ s. s.layer_id == r.layer_id && is_draft s.status) xs ≡ false
  unfolding exists_by
  undrafted [] st h = refl
  undrafted (s ∷ xs) st h =
      ground (arith, undrafted xs st h.1, h.0, draft-is_open s.status, ap-status s)
    where
      ap-status : (s : Revision) → s ≡ r → s.status ≡ r.status
      ap-status s e = ap (λ (t : Revision). t.status) e

  closed :
      (xs : List Revision)
      → All (λ s. (s.layer_id == r.layer_id && is_open_chain s.status) ≡ true → s ≡ r) xs
      → All
          (λ s. (s.layer_id == r.layer_id && is_open_chain s.status) ≡ false)
          (update_where (λ s. s.id == id) (set_changes_requested env) xs)
  unfolding update_where
  closed [] h = tt
  closed (s ∷ xs) h = (ground (arith, h.0, revision-id id db r found), closed xs h.1)

  -- The successor meets none of the indexes: its id is new, its number is the next one, and the
  -- reviewed revision has left the open chain.
  insert_successor :
      (number : ℕ)
      → max_by (λ s. s.layer_id == r.layer_id) (λ s. s.revision_no) db.revisions < number
      → revision env.fresh db ≡ none
      → insert_revision (successor env id r number) (close_reviewed env id db)
        ≡ ok (
          tt,
          record (close_reviewed env id db) {
            revisions = (close_reviewed env id db).revisions ++ successor env id r number ∷ [];
          },
        )
  unfolding insert_revision
  insert_successor number above fresh = ground (
    arith,
    revision-update_revision env.fresh id (set_changes_requested env) db (λ s. refl),
    max_by-update_where (λ (s : Revision). s.layer_id == r.layer_id) (λ s. s.revision_no)
        (λ s. s.id == id) (set_changes_requested env) db.revisions (λ s. refl) (λ s. refl),
    max_by-fresh (λ (s : Revision). s.layer_id == r.layer_id) (λ s. s.revision_no)
        (close_reviewed env id db).revisions number,
    All-exists_by (λ (s : Revision). s.layer_id == r.layer_id && is_open_chain s.status)
        (close_reviewed env id db).revisions (closed db.revisions only),
  )

  -- A reviewer who neither wrote nor edited a revision in review can always send it back: where its layer
  -- has no other open revision and the generated id is new, `requestChanges` succeeds behind its receipt,
  -- and the successor is stored under the generated id.
  pub request_changes_total :
      (comment : String) (actor : Actor) (key : ℕ)
      → r.status ≡ in_review
      → (r.created_by == actor.id) ≡ false
      → participates id actor.id ParticipationType.edit db ≡ false
      → revision env.fresh db ≡ none
      → (db' : Db) × (request_changes_owned env id comment actor key db
          ≡ ok (changes_response env id, db'))
        × (revision env.fresh db' ≡ some (successor env id r (next_revision_no r.layer_id db)))
  unfolding request_changes_owned changes_writes changes_recorded copy_contents touch_layer
      add_event add_audit add_participant complete
  request_changes_total comment actor key st author editor fresh = (
    changes_recorded env id r comment actor key (record (close_reviewed env id db) {
      revisions =
          (close_reviewed env id db).revisions
          ++ successor env id r (next_revision_no r.layer_id db) ∷ [];
    }),
    ground (
      arith,
      found,
      revision-id id db r found,
      undrafted db.revisions st only,
      insert_successor (next_revision_no r.layer_id db) (omega arith) fresh,
    ),
    ground (
      arith,
      revision-insert (successor env id r (next_revision_no r.layer_id db))
          (close_reviewed env id db) env.fresh,
      revision-update_revision env.fresh id (set_changes_requested env) db (λ s. refl),
      ==-refl env.fresh,
    ),
  )
