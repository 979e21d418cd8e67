-- ===== src/Layers/Again.antt =====
-- `syncBatch` of src/layers/feature-sync.service.ts, sent again after it has succeeded.
use danangmap_backend.Prelude.{
  ℕ, ◌+◌, ◌≡◌, refl, sym, subst, ap, ◌∙◌, List, [], Option, none, some, ◌==◌, ◌&&◌, exists_by,
  select_by, find_by, arith, inl, inr, Option-cases,
}
use danangmap_backend.Database.{Db, Revision, Etag, ok}
use danangmap_backend.Database.Lookup.{>>=-eq-ok, revision-id}
use danangmap_backend.Database.Queries.{Env, Actor, revision, add_participant}
use danangmap_backend.Layers.{Mutation, BatchDto}
use danangmap_backend.Layers.Batch.{
  Progress, require_revision_version, load_receipts, load_mappings, check_hashes, new_mutations,
  assert_preconditions, sync_items, mutation_payload_hash, is_of_client,
}
use danangmap_backend.Layers.Commit.{
  SyncResponse, sync_response, sync_batch, sync_locked, commit_batch, audit_batch, prune, start,
  context,
}
use danangmap_backend.Layers.Loop.{sync_items-Synced}
use danangmap_backend.Layers.Done.{Done, sync_batch-Done, audit_batch-keeps}
use danangmap_backend.Layers.Committed.{commit-revision, committed}
use danangmap_backend.Layers.Gapless.{zero-cases}
use danangmap_backend.Layers.Repeat.{AllAnswered, sync_items-AllAnswered, Holds, sync_items-Holds}
use danangmap_backend.Layers.Loading.{
  Among-itself, check_hashes-Loaded, Answered-Holds, Answered-check_hashes, Holds-new_mutations,
}

-- The revision after the batch, as far as the response reads it.
record Advanced (r : Revision) (id : ℕ) (p : Progress) (d : Db) : Type 0 where
  row : Revision
  found : revision id d ≡ some row
  same_id : row.id ≡ r.id
  at_cursor : row.cursor_seq ≡ p.cursor
  at_version : row.lock_version ≡ r.lock_version + p.applied_count

commit-mutations :
    (env : Env) (retention actor_id : ℕ) (r : Revision) (p : Progress) (db : Db)
    → (commit_batch env retention r actor_id p db).mutations ≡ db.mutations
unfolding commit_batch prune add_participant
commit-mutations env retention actor_id r p db = ground arith

module _ (env : Env) (retention id : ℕ) (dto : BatchDto) (actor : Actor) (r : Revision)
    (x : SyncResponse) (db d : Db) (keyed : revision id db ≡ some r)
    (done : Done env retention id dto actor r x db d) where
  done-mutations : d.mutations ≡ done.looped.mutations
  done-mutations =
      let (_, _, _, _, mutations) =
        audit_batch-keeps env dto actor r.id
          (new_mutations (load_receipts r.id dto.client_id dto.mutations db) dto.mutations)
          done.progress.results (commit_batch env retention r actor.id done.progress done.looped) in
      ap (λ (d : Db). d.mutations) done.after
      ∙ mutations
      ∙ commit-mutations env retention actor.id r done.progress done.looped

  done-Advanced : Advanced r id done.progress d
  unfolding commit_batch
  done-Advanced =
      let s = sync_items-Synced _ _ _ _ _ _ _ done.loop in
      let p = done.progress in
      let (revisions, _, _, _, _) =
        audit_batch-keeps env dto actor r.id
          (new_mutations (load_receipts r.id dto.client_id dto.mutations db) dto.mutations)
          p.results (commit_batch env retention r actor.id p done.looped) in
      let here = ap (λ (d : Db). d.revisions) done.after ∙ revisions in
      let key = revision-id id db r keyed in
      let stored =
        ap (λ rs. find_by (λ (t : Revision). t.id == r.id) rs) s.revisions
        ∙ subst (λ i. revision i db ≡ some r) (sym key) keyed in
      let seen = ap (λ rs. find_by (λ (t : Revision). t.id == id) rs) here in
      elim (zero-cases p.applied_count) [
        | inl z ↦ record {
          row = r;
          found =
              ap (λ rs. find_by (λ (t : Revision). t.id == id) rs)
                (here ∙ ground (arith, s.revisions))
              ∙ keyed;
          same_id = refl;
          at_cursor = ground (arith, s.counted);
          at_version = ground arith;
        }
        | inr (n, z) ↦ record {
          row = committed env retention p r;
          found =
              seen
              ∙ subst
                  (λ i.
                    revision i (commit_batch env retention r actor.id p done.looped)
                    ≡ some (committed env retention p r))
                  key (commit-revision env retention actor.id r p done.looped n z stored);
          same_id = refl;
          at_cursor = refl;
          at_version = refl;
        }
      ]

  done-AllAnswered :
      AllAnswered
        (context env dto actor r db)
        dto.mutations
        (start r (load_mappings r.id dto.client_id db))
        done.progress
        db
        done.looped
  done-AllAnswered =
      sync_items-AllAnswered (context env dto actor r db)
        (load_receipts r.id dto.client_id dto.mutations db) dto.mutations _ done.progress db
        done.looped
        (check_hashes-Loaded (context env dto actor r db) dto.mutations dto.mutations db
          (Among-itself dto.mutations) done.hashes_agree)
        done.loop

-- A batch whose mutations all have receipts.
locked_again :
    (later : Env) (retention : ℕ) (dto : BatchDto) (actor : Actor) (expected base : ℕ)
    (r : Revision) (q : Progress) (d : Db)
    → check_hashes later (load_receipts r.id dto.client_id dto.mutations d) dto.mutations ≡ none
    → new_mutations (load_receipts r.id dto.client_id dto.mutations d) dto.mutations ≡ []
    → sync_items
        (context later dto actor r d)
        (load_receipts r.id dto.client_id dto.mutations d)
        dto.mutations
        (start r (load_mappings r.id dto.client_id d))
        d
      ≡ ok (q, d)
    → q.applied_count ≡ 0
    → sync_locked later retention dto actor expected base r d ≡ ok (sync_response r q, d)
unfolding sync_locked commit_batch audit_batch assert_preconditions
locked_again later retention dto actor expected base r q d hashes none_new run z = ground arith

require-again :
    (etag : Option Etag) (id v : ℕ) (db db' d : Db)
    → require_revision_version etag id db ≡ ok (v, db')
    → require_revision_version etag id d ≡ ok (v, d)
unfolding require_revision_version
require-again etag id v db db' d h = ground arith

-- What the head of `syncBatch` takes from the request does not depend on the database.
head_again :
    (env later : Env) (retention later_retention id : ℕ) (dto : BatchDto) (etag : Option Etag)
    (actor later_actor : Actor) (x y : SyncResponse) (db d : Db) (r : Revision)
    → sync_batch env retention id dto etag actor db ≡ ok (x, d)
    → revision id d ≡ some r
    → ((expected base : ℕ)
        → sync_locked later later_retention dto later_actor expected base r d ≡ ok (y, d))
    → sync_batch later later_retention id dto etag later_actor d ≡ ok (y, d)
unfolding sync_batch
head_again env later retention later_retention id dto etag actor later_actor x y db d r h found k =
    let (expected, d1, e1, k1) = >>=-eq-ok (require_revision_version etag id) _ db h in
    elim (Option-cases dto.base_cursor) [
      | inl f ↦ absurd (ground arith)
      | inr (base, f) ↦ ground (arith, require-again etag id expected db d1 d e1, k expected base)
    ]

loaded-eq :
    (id id' client : ℕ) (ms : List Mutation) (d d' : Db)
    → id ≡ id'
    → d.mutations ≡ d'.mutations
    → load_receipts id client ms d ≡ load_receipts id' client ms d'
loaded-eq id id' client ms d d' e f =
    subst (λ i. load_receipts id client ms d ≡ load_receipts i client ms d') e
      (ap
        (select_by (λ r.
          is_of_client id client r
          && exists_by (λ (m : Mutation). m.client_mutation_id == r.mutation_id) ms))
        f)

same_response :
    (r' r : Revision) (q p : Progress)
    → q.results ≡ p.results
    → q.cursor ≡ p.cursor
    → q.applied_count ≡ 0
    → r'.id ≡ r.id
    → r'.lock_version ≡ r.lock_version + p.applied_count
    → sync_response r' q ≡ sync_response r p
same_response r' r q p a b c e f = ground (arith, a, b, c, e, f)

-- A batch that has succeeded, sent again with the same If-Match by whoever and whenever, answers the
-- same, results, cursor and ETag, and writes nothing, where the digests of its mutations are the same.
pub sync_batch_repeated :
    (env later : Env) (retention later_retention id : ℕ) (dto : BatchDto) (etag : Option Etag)
    (actor later_actor : Actor) (x : SyncResponse) (db d : Db)
    → sync_batch env retention id dto etag actor db ≡ ok (x, d)
    → ((m : Mutation) → mutation_payload_hash later m ≡ mutation_payload_hash env m)
    → sync_batch later later_retention id dto etag later_actor d ≡ ok (x, d)
sync_batch_repeated env later retention later_retention id dto etag actor later_actor x db d h
      same =
    let (r, keyed, done) = sync_batch-Done env retention id dto etag actor x db d h in
    let a = done-AllAnswered env retention id dto actor r x db d keyed done in
    let row = done-Advanced env retention id dto actor r x db d keyed done in
    let mutations = done-mutations env retention id dto actor r x db d keyed done in
    let c = context env dto actor r db in
    let ms = dto.mutations in
    let loaded : load_receipts row.row.id dto.client_id ms d
        ≡ load_receipts r.id dto.client_id ms done.looped =
      loaded-eq row.row.id r.id dto.client_id ms d done.looped row.same_id mutations in
    let held =
      subst (λ rs. Holds rs ms a.out) (sym loaded)
        (Answered-Holds c ms ms a.out done.looped (Among-itself ms) a.answered) in
    let checked =
      ap (λ rs. check_hashes later rs ms) loaded
      ∙ Answered-check_hashes later c (load_receipts r.id dto.client_id ms db) ms ms a.out
          done.looped same (Among-itself ms) done.hashes_agree a.answered in
    let (q, run, results, cursor, count) =
      sync_items-Holds (context later dto later_actor row.row d)
        (load_receipts row.row.id dto.client_id ms d) ms a.out
        (start row.row (load_mappings row.row.id dto.client_id d)) d held in
    head_again env later retention later_retention id dto etag actor later_actor x x db d row.row h
      row.found
      (λ expected base.
        locked_again later later_retention dto later_actor expected base row.row q d checked
          (Holds-new_mutations (load_receipts row.row.id dto.client_id ms d) ms a.out held) run
          count
        ∙ ap (λ y. ok (y, d))
            (same_response row.row r q done.progress (results ∙ sym a.results)
                (cursor ∙ row.at_cursor) count row.same_id row.at_version
              ∙ sym done.answer))
