-- ===== src/Layers/Done.antt =====
-- What a batch of src/layers/feature-sync.service.ts that succeeds has checked and written.
use danangmap_backend.Prelude.{
  ℕ, suc, ◌≡◌, refl, List, [], ◌∷◌, Option, none, some, arith, Option-cases, inl, inr,
}
use danangmap_backend.Domain.{draft}
use danangmap_backend.Database.{Db, Revision, Etag, ok}
use danangmap_backend.Database.Sync.{SyncResult}
use danangmap_backend.Database.Lookup.{>>=-eq-ok}
use danangmap_backend.Database.Queries.{Env, Actor, revision, add_audit}
use danangmap_backend.Layers.{Mutation, BatchDto}
use danangmap_backend.Layers.Mutations.{refuse_if}
use danangmap_backend.Layers.Batch.{
  Progress, require_revision_version, check_hashes, load_receipts, load_mappings, new_mutations,
  assert_preconditions, sync_items,
}
use danangmap_backend.Layers.Loop.{sync_items-replayed}
use danangmap_backend.Layers.Commit.{
  SyncResponse, sync_response, sync_batch, sync_locked, commit_batch, audit_batch, start, context,
}

pub record Done (env : Env) (retention id : ℕ) (dto : BatchDto) (actor : Actor) (r : Revision)
    (x : SyncResponse) (db d : Db) : Type 0 where
  pub expected : ℕ
  pub base_cursor : ℕ
  pub hashes_agree :
      check_hashes env (load_receipts r.id dto.client_id dto.mutations db) dto.mutations ≡ none
  pub may_edit :
      assert_preconditions r expected base_cursor
        (new_mutations (load_receipts r.id dto.client_id dto.mutations db) dto.mutations)
      ≡ none
  pub progress : Progress
  pub looped : Db
  pub loop :
      sync_items
        (context env dto actor r db)
        (load_receipts r.id dto.client_id dto.mutations db)
        dto.mutations
        (start r (load_mappings r.id dto.client_id db))
        db
      ≡ ok (progress, looped)
  pub answer : x ≡ sync_response r progress
  pub after :
      d
      ≡ audit_batch env dto actor r.id
          (new_mutations (load_receipts r.id dto.client_id dto.mutations db) dto.mutations)
          progress.results
          (commit_batch env retention r actor.id progress looped)

sync_locked-Done :
    (env : Env) (retention id : ℕ) (dto : BatchDto) (actor : Actor) (expected base_cursor : ℕ)
    (r : Revision) (x : SyncResponse) (db d : Db)
    → sync_locked env retention dto actor expected base_cursor r db ≡ ok (x, d)
    → Done env retention id dto actor r x db d
unfolding sync_locked
sync_locked-Done env retention id dto actor expected base_cursor r x db d h =
    let rs = load_receipts r.id dto.client_id dto.mutations db in
    let (_, d1, e1, k1) = >>=-eq-ok (refuse_if (check_hashes env rs dto.mutations)) _ db h in
    let (_, d2, e2, k2) =
      >>=-eq-ok
        (refuse_if (assert_preconditions r expected base_cursor (new_mutations rs dto.mutations))) _
        d1 k1 in
    let (p, d3, e3, k3) =
      >>=-eq-ok
        (sync_items (context env dto actor r db) rs dto.mutations
          (start r (load_mappings r.id dto.client_id db)))
        _ d2 k2 in
    record {
      expected = expected;
      base_cursor = base_cursor;
      hashes_agree = ground (arith, e1);
      may_edit = ground (arith, e2);
      progress = p;
      looped = d3;
      loop = ground (arith, e1, e2, e3);
      answer = ground (arith, k3);
      after = ground (arith, k3);
    }

pub sync_batch-Done :
    (env : Env) (retention id : ℕ) (dto : BatchDto) (etag : Option Etag) (actor : Actor)
    (x : SyncResponse) (db d : Db)
    → sync_batch env retention id dto etag actor db ≡ ok (x, d)
    → (r : Revision) × (revision id db ≡ some r) × Done env retention id dto actor r x db d
unfolding sync_batch require_revision_version
sync_batch-Done env retention id dto etag actor x db d h = elim (Option-cases (revision id db)) [
  | inl e ↦ absurd (ground arith)
  | inr (r, e) ↦
      let (expected, d1, e1, k1) = >>=-eq-ok (require_revision_version etag id) _ db h in
      elim (Option-cases dto.base_cursor) [
        | inl f ↦ absurd (ground arith)
        | inr (base, f) ↦ (
          r,
          e,
          sync_locked-Done env retention id dto actor expected base r x db d
              (ground (arith, e1, k1)),
        )
      ]
]

-- The writes after the loop, seen through the tables.
pub audit_batch-keeps :
    (env : Env) (dto : BatchDto) (actor : Actor) (id : ℕ) (ms : List Mutation)
    (rs : List SyncResult) (db : Db)
    → ((audit_batch env dto actor id ms rs db).revisions ≡ db.revisions)
      × ((audit_batch env dto actor id ms rs db).participants ≡ db.participants)
      × ((audit_batch env dto actor id ms rs db).jobs ≡ db.jobs)
      × ((audit_batch env dto actor id ms rs db).changes ≡ db.changes)
      × ((audit_batch env dto actor id ms rs db).mutations ≡ db.mutations)
unfolding audit_batch add_audit
audit_batch-keeps env dto actor id [] rs db = (refl, refl, refl, refl, refl)
audit_batch-keeps env dto actor id (m ∷ ms) rs db = (refl, refl, refl, refl, refl)

-- Where a batch applied something, its revision was a draft.
pub applied-draft :
    (env : Env) (retention id : ℕ) (dto : BatchDto) (actor : Actor) (r : Revision)
    (x : SyncResponse) (db d : Db) (done : Done env retention id dto actor r x db d) (n : ℕ)
    → done.progress.applied_count ≡ suc n
    → r.status ≡ draft
unfolding assert_preconditions
applied-draft env retention id dto actor r x db d done n h =
    let rs = load_receipts r.id dto.client_id dto.mutations db in
    go (new_mutations rs dto.mutations) refl
  where
    go :
        (new : List Mutation)
        → new_mutations (load_receipts r.id dto.client_id dto.mutations db) dto.mutations ≡ new
        → r.status ≡ draft
    go [] e = absurd (
        ground (
          arith,
          sync_items-replayed (context env dto actor r db)
              (load_receipts r.id dto.client_id dto.mutations db) dto.mutations
              (start r (load_mappings r.id dto.client_id db)) done.progress db done.looped e
              done.loop,
        ))
    go (m ∷ ms) e = ground (arith, done.may_edit, e)
