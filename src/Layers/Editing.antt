-- ===== src/Layers/Editing.antt =====
-- A batch of src/layers/feature-sync.service.ts is a move of the ledger: who applies a mutation to a
-- draft takes part in it as an editor.
use danangmap_backend.Prelude.{
  ℕ, suc, ◌≡◌, sym, subst, ap, ◌∙◌, Option, some, ◌==◌, find_by, arith, Bool-cases, inl, inr,
}
use danangmap_backend.Domain.{ParticipationType}
use danangmap_backend.Database.{Db, Revision, Etag, ok}
use danangmap_backend.Database.Lookup.{revision-id, participates-add_participant}
use danangmap_backend.Database.Queries.{Env, Actor, revision, participates, add_participant}
use danangmap_backend.Ledger.{view, entry_of, Move, rest, edits}
use danangmap_backend.Layers.{BatchDto}
use danangmap_backend.Layers.Batch.{Progress, load_receipts, new_mutations}
use danangmap_backend.Layers.Commit.{SyncResponse, sync_batch, commit_batch, prune}
use danangmap_backend.Layers.Loop.{sync_items-Synced}
use danangmap_backend.Layers.Done.{sync_batch-Done, audit_batch-keeps, applied-draft}
use danangmap_backend.Layers.Committed.{commit-revision, commit-other}
use danangmap_backend.Layers.Gapless.{zero-cases}

commit-entry :
    (env : Env) (retention actor_id j : ℕ) (r : Revision) (p : Progress) (db : Db) (n : ℕ)
    → p.applied_count ≡ suc n
    → revision r.id db ≡ some r
    → entry_of (revision j (commit_batch env retention r actor_id p db)) ≡ entry_of (revision j db)
commit-entry env retention actor_id j r p db n a e = elim (Bool-cases (j == r.id)) [
  | inl i ↦
      subst
        (λ k.
          entry_of (revision k (commit_batch env retention r actor_id p db))
          ≡ entry_of (revision k db))
        (ground arith)
        (ap entry_of (commit-revision env retention actor_id r p db n a e) ∙ ap entry_of (sym e))
  | inr i ↦ ap entry_of (commit-other env retention actor_id j r p db (ground arith))
]

commit-part :
    (env : Env) (retention actor_id : ℕ) (r : Revision) (p : Progress) (db : Db) (n id u : ℕ)
    (k : ParticipationType)
    → p.applied_count ≡ suc n
    → participates id u k (commit_batch env retention r actor_id p db)
      ≡ participates id u k (add_participant r.id actor_id ParticipationType.edit db)
unfolding commit_batch prune add_participant
commit-part env retention actor_id r p db n id u k a = ground arith

entry-eq :
    (db d : Db) (j : ℕ)
    → d.revisions ≡ db.revisions
    → entry_of (revision j d) ≡ entry_of (revision j db)
entry-eq db d j e = ap (λ rs. entry_of (find_by (λ (r : Revision). r.id == j) rs)) e

part-eq :
    (db d : Db) (r u : ℕ) (k : ParticipationType)
    → d.participants ≡ db.participants
    → participates r u k d ≡ participates r u k db
part-eq db d r u k e = ground (arith, e)

-- A batch that succeeds leaves every entry of the ledger alone; where it applies a mutation, the
-- revision is a draft and its actor becomes an editor of it.
pub sync_batch-Move :
    (env : Env) (retention id : ℕ) (dto : BatchDto) (etag : Option Etag) (actor : Actor)
    (x : SyncResponse) (db d : Db)
    → sync_batch env retention id dto etag actor db ≡ ok (x, d)
    → Move (view db) (view d)
unfolding commit_batch
sync_batch-Move env retention id dto etag actor x db d h =
    let (r, found, done) = sync_batch-Done env retention id dto etag actor x db d h in
    let s = sync_items-Synced _ _ _ _ _ _ _ done.loop in
    let p = done.progress in
    let (revisions, participants, _, _, _) =
      audit_batch-keeps env dto actor r.id
        (new_mutations (load_receipts r.id dto.client_id dto.mutations db) dto.mutations) p.results
        (commit_batch env retention r actor.id p done.looped) in
    let here = ap (λ (d : Db). d.revisions) done.after ∙ revisions in
    let parts = ap (λ (d : Db). d.participants) done.after ∙ participants in
    let keyed = subst (λ i. revision i db ≡ some r) (sym (revision-id id db r found)) found in
    let stored = ap (λ rs. find_by (λ (t : Revision). t.id == r.id) rs) s.revisions ∙ keyed in
    elim (zero-cases p.applied_count) [
      | inl z ↦
          rest (λ j. entry-eq db d j (ground (arith, here, s.revisions)))
            (λ i u k. part-eq db d i u k (ground (arith, parts, s.participants)))
      | inr (n, z) ↦
          edits r.id actor.id _ (ap entry_of keyed)
            (applied-draft env retention id dto actor r x db d done n z)
            (λ j.
              entry-eq (commit_batch env retention r actor.id p done.looped) d j here
              ∙ commit-entry env retention actor.id j r p done.looped n z stored
              ∙ entry-eq db done.looped j s.revisions)
            (λ i u k.
              part-eq (commit_batch env retention r actor.id p done.looped) d i u k parts
              ∙ commit-part env retention actor.id r p done.looped n i u k z
              ∙ participates-add_participant r.id actor.id i u ParticipationType.edit k done.looped
              ∙ ground (arith, part-eq db done.looped i u k s.participants))
    ]

commit-jobs :
    (env : Env) (retention actor_id : ℕ) (r : Revision) (p : Progress) (db : Db)
    → (commit_batch env retention r actor_id p db).jobs ≡ db.jobs
unfolding commit_batch prune add_participant
commit-jobs env retention actor_id r p db = ground arith

pub sync_batch-jobs :
    (env : Env) (retention id : ℕ) (dto : BatchDto) (etag : Option Etag) (actor : Actor)
    (x : SyncResponse) (db d : Db)
    → sync_batch env retention id dto etag actor db ≡ ok (x, d)
    → d.jobs ≡ db.jobs
sync_batch-jobs env retention id dto etag actor x db d h =
    let (r, found, done) = sync_batch-Done env retention id dto etag actor x db d h in
    let s = sync_items-Synced _ _ _ _ _ _ _ done.loop in
    let p = done.progress in
    let (_, _, jobs, _, _) =
      audit_batch-keeps env dto actor r.id
        (new_mutations (load_receipts r.id dto.client_id dto.mutations db) dto.mutations) p.results
        (commit_batch env retention r actor.id p done.looped) in
    ap (λ (d : Db). d.jobs) done.after
    ∙ jobs
    ∙ commit-jobs env retention actor.id r p done.looped
    ∙ s.jobs
