-- ===== src/Layers/Gapless.antt =====
-- The change feed of src/layers/feature-sync.service.ts has no gaps: after every batch, the rows of a
-- revision carry every cursor above its floor, up to its current one, in order.
use danangmap_backend.Prelude.{
  append-nil, ℕ, zero, suc, ◌≡◌, ◌⊎◌, refl, sym, subst, ap, ◌∙◌, List, ◌++◌, Option, some, ◌==◌,
  find_by, arith, Bool-cases, inl, inr,
}
use danangmap_backend.Database.{Db, Revision, Etag, ok}
use danangmap_backend.Database.Sync.{Change}
use danangmap_backend.Database.Lookup.{revision-id}
use danangmap_backend.Database.Queries.{Env, Actor, revision}
use danangmap_backend.Layers.{BatchDto}
use danangmap_backend.Layers.Batch.{Progress, new_mutations, load_receipts}
use danangmap_backend.Layers.Commit.{SyncResponse, sync_batch, commit_batch}
use danangmap_backend.Layers.Runs.{Runs, feed}
use danangmap_backend.Layers.Loop.{sync_items-Synced}
use danangmap_backend.Layers.Done.{sync_batch-Done, audit_batch-keeps}
use danangmap_backend.Layers.Committed.{
  committed, floor_after, commit-revision, commit-other, commit-same, commit-others, Runs-none,
}

unfoldable pub IsGapless : Db → Type 0
IsGapless db =
    (j : ℕ) (r : Revision)
    → revision j db ≡ some r
    → Runs j r.change_cursor_floor (feed j db.changes) r.cursor_seq

commit-IsGapless :
    (env : Env) (retention actor_id : ℕ) (r : Revision) (p : Progress) (before db : Db) (n : ℕ)
    (rows : List Change)
    → p.applied_count ≡ suc n
    → IsGapless before
    → revision r.id before ≡ some r
    → db.revisions ≡ before.revisions
    → db.changes ≡ before.changes ++ rows
    → Runs r.id r.cursor_seq rows p.cursor
    → IsGapless (commit_batch env retention r actor_id p db)
unfolding IsGapless
commit-IsGapless env retention actor_id r p before db n rows a g e same f k j s q =
    let here = ap (λ rs. find_by (λ (r : Revision). r.id == j) rs) same in
    let found = ap (λ rs. find_by (λ (t : Revision). t.id == r.id) rs) same ∙ e in
    elim (Bool-cases (j == r.id)) [
      | inl i ↦
          let stored = commit-revision env retention actor_id r p db n a found in
          let row : s ≡ committed env retention p r = ground arith in
          subst
            (λ (t : Revision).
              Runs j t.change_cursor_floor
                (feed j (commit_batch env retention r actor_id p db).changes) t.cursor_seq)
            (sym row)
            (subst
              (λ i.
                Runs i (floor_after retention p r)
                  (feed i (commit_batch env retention r actor_id p db).changes) p.cursor)
              (ground arith)
              (commit-same env retention actor_id r p db n before.changes rows a found (g r.id r e)
                f k))
      | inr i ↦
          subst (λ xs. Runs j s.change_cursor_floor xs s.cursor_seq)
            (sym (
              commit-others env retention actor_id j r p db n before.changes rows a found f k
                (ground arith)))
            (g j s
              (sym here ∙ sym (commit-other env retention actor_id j r p db (ground arith)) ∙ q))
    ]

pub zero-cases : (n : ℕ) → (n ≡ 0) ⊎ ((m : ℕ) × (n ≡ suc m))
zero-cases zero = inl refl
zero-cases (suc m) = inr (m, refl)

IsGapless-eq :
    (db d : Db) → d.revisions ≡ db.revisions → d.changes ≡ db.changes → IsGapless db → IsGapless d
unfolding IsGapless
IsGapless-eq db d e f g j r h =
    subst (λ xs. Runs j r.change_cursor_floor (feed j xs) r.cursor_seq) (sym f)
      (g j r (sym (ap (λ rs. find_by (λ (r : Revision). r.id == j) rs) e) ∙ h))

-- A batch that succeeds, whatever its mutations do, leaves the change feed of every revision without a
-- gap: where the rows of each revision carried the cursors from just above its floor up to its current
-- one, in order, they still do, with what the retention prunes taken off at the floor.
pub sync_batch-IsGapless :
    (env : Env) (retention id : ℕ) (dto : BatchDto) (etag : Option Etag) (actor : Actor)
    (x : SyncResponse) (db d : Db)
    → IsGapless db
    → sync_batch env retention id dto etag actor db ≡ ok (x, d)
    → IsGapless d
unfolding IsGapless commit_batch
sync_batch-IsGapless env retention id dto etag actor x db d g h =
    let (r, found, done) = sync_batch-Done env retention id dto etag actor x db d h in
    let s = sync_items-Synced _ _ _ _ _ _ _ done.loop in
    let p = done.progress in
    let (revisions, _, _, changes, _) =
      audit_batch-keeps env dto actor r.id
        (new_mutations (load_receipts r.id dto.client_id dto.mutations db) dto.mutations) p.results
        (commit_batch env retention r actor.id p done.looped) in
    let keyed = subst (λ i. revision i db ≡ some r) (sym (revision-id id db r found)) found in
    IsGapless-eq (commit_batch env retention r actor.id p done.looped) d
      (ap (λ (d : Db). d.revisions) done.after ∙ revisions)
      (ap (λ (d : Db). d.changes) done.after ∙ changes)
      (elim (zero-cases p.applied_count) [
        | inl z ↦
            IsGapless-eq db (commit_batch env retention r actor.id p done.looped)
              (ground (arith, s.revisions))
              (ground (
                arith,
                s.feed,
                append-nil db.changes,
                Runs-none r.id r.cursor_seq s.rows,
                s.runs,
                s.counted,
              ))
              g
        | inr (n, z) ↦
            commit-IsGapless env retention actor.id r p db done.looped n s.rows z g keyed
              s.revisions s.feed s.runs
      ])
