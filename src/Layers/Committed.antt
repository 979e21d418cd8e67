-- ===== src/Layers/Committed.antt =====
-- What the commit of a batch of src/layers/feature-sync.service.ts does to the change feeds.
use danangmap_backend.Prelude.{
  append-nil, ℕ, suc, ◌-◌, ◌+◌, ◌≤◌, ◌≡◌, ◌≢◌, ◌⊎◌, refl, sym, subst, ap, ◌∙◌, List, [], ◌∷◌, ◌++◌,
  some, max, ◌==◌, ==-refl, select_by, arith, Bool-cases, inl, inr,
}
use danangmap_backend.Database.{Db, Revision}
use danangmap_backend.Database.Sync.{Change}
use danangmap_backend.Database.Lookup.{revision-update_revision}
use danangmap_backend.Database.Queries.{Env, revision, update_revision, add_participant}
use danangmap_backend.Layers.Batch.{Progress}
use danangmap_backend.Layers.Commit.{commit_batch, prune, set_synced}
use danangmap_backend.Layers.Runs.{
  Runs, Runs-eq, Runs-append, Runs-le, Runs-drop, is_kept, feed, feed-Runs, feed-other,
  select_by-append, select_by_comm, select_by-implied,
}

-- A revision after its batch.
abbrev pub committed : Env → ℕ → Progress → Revision → Revision
committed env retention p r =
    record (set_synced env (r.lock_version + p.applied_count) p.cursor r) {
      change_cursor_floor = max r.change_cursor_floor (p.cursor - retention);
    }

-- The rows that a commit keeps.
abbrev pub floor_after : ℕ → Progress → Revision → ℕ
floor_after retention p r = max r.change_cursor_floor (p.cursor - retention)

pub commit-revision :
    (env : Env) (retention actor_id : ℕ) (r : Revision) (p : Progress) (db : Db) (n : ℕ)
    → p.applied_count ≡ suc n
    → revision r.id db ≡ some r
    → revision r.id (commit_batch env retention r actor_id p db)
      ≡ some (committed env retention p r)
unfolding commit_batch prune add_participant
commit-revision env retention actor_id r p db n a e =
    let f = set_synced env (r.lock_version + p.applied_count) p.cursor in
    let d = update_revision r.id f db in
    ground (
      arith,
      ==-refl r.id,
      revision-update_revision r.id r.id f db (λ r. refl),
      revision-update_revision r.id r.id
          (λ r. record r { change_cursor_floor = max r.change_cursor_floor (p.cursor - retention) })
          d (λ r. refl),
    )

pub commit-other :
    (env : Env) (retention actor_id j : ℕ) (r : Revision) (p : Progress) (db : Db)
    → j ≢ r.id
    → revision j (commit_batch env retention r actor_id p db) ≡ revision j db
unfolding commit_batch prune add_participant
commit-other env retention actor_id j r p db n =
    let f = set_synced env (r.lock_version + p.applied_count) p.cursor in
    let d = update_revision r.id f db in
    ground (
      arith,
      revision-update_revision j r.id f db (λ r. refl),
      revision-update_revision j r.id
          (λ r. record r { change_cursor_floor = max r.change_cursor_floor (p.cursor - retention) })
          d (λ r. refl),
    )

pub commit-changes :
    (env : Env) (retention actor_id : ℕ) (r : Revision) (p : Progress) (db : Db) (n : ℕ)
    → p.applied_count ≡ suc n
    → revision r.id db ≡ some r
    → ((p.cursor - retention ≡ 0)
        × ((commit_batch env retention r actor_id p db).changes ≡ db.changes))
      ⊎ ((commit_batch env retention r actor_id p db).changes
          ≡ select_by (is_kept r.id (floor_after retention p r)) db.changes)
unfolding commit_batch prune add_participant
commit-changes env retention actor_id r p db n a e =
    let f = set_synced env (r.lock_version + p.applied_count) p.cursor in
    let d = update_revision r.id f db in
    elim (Bool-cases ((p.cursor - retention) == 0)) [
      | inl q ↦ inl (ground arith, ground arith)
      | inr q ↦ inr (
          ground (
            arith,
            ==-refl r.id,
            revision-update_revision r.id r.id f db (λ r. refl),
            revision-update_revision r.id r.id
                (λ r. record r {
                  change_cursor_floor = max r.change_cursor_floor (p.cursor - retention);
                })
                d (λ r. refl),
          ))
    ]

-- The rows of the batch's revision, before anything is pruned.
extended :
    (id : ℕ) (r : Revision) (p : Progress) (before after rows : List Change)
    → Runs id r.change_cursor_floor (feed id before) r.cursor_seq
    → after ≡ before ++ rows
    → Runs id r.cursor_seq rows p.cursor
    → Runs id r.change_cursor_floor (feed id after) p.cursor
extended id r p before after rows g e k =
    subst (λ xs. Runs id r.change_cursor_floor xs p.cursor)
      (sym (
        ap (feed id) e
        ∙ select_by-append (λ (c : Change). c.revision_id == id) before rows
        ∙ ap (λ ys. feed id before ++ ys) (feed-Runs id r.cursor_seq p.cursor rows k)))
      (Runs-append id r.change_cursor_floor r.cursor_seq p.cursor (feed id before) rows g k)

-- Pruned to a floor that is not above the cursor, they still have no gap.
pruned :
    (id a b floor : ℕ) (changes : List Change)
    → Runs id a (feed id changes) b
    → floor ≤ b
    → Runs id (max a floor) (feed id (select_by (is_kept id floor) changes)) b
pruned id a b floor changes g h =
    subst (λ xs. Runs id (max a floor) xs b)
      (select_by_comm (is_kept id floor) (λ (c : Change). c.revision_id == id) changes)
      (Runs-drop id a b floor (feed id changes) g h)

-- The rows of another revision are left alone.
other_feed :
    (id j a b floor : ℕ) (before rows : List Change)
    → Runs id a rows b
    → j ≢ id
    → (feed j (before ++ rows) ≡ feed j before)
      × (feed j (select_by (is_kept id floor) (before ++ rows)) ≡ feed j before)
other_feed id j a b floor before rows k n =
    let same = select_by-append (λ (c : Change). c.revision_id == j) before rows in
    let kept =
      select_by-implied (λ (c : Change). c.revision_id == j) (is_kept id floor) (before ++ rows)
        (λ c e. ground arith) in
    (
      ground (arith, same, feed-other id j a b rows k n, append-nil (feed j before)),
      ground (arith, kept, same, feed-other id j a b rows k n, append-nil (feed j before)),
    )

pub Runs-none : (id a : ℕ) (xs : List Change) → Runs id a xs a → xs ≡ []
Runs-none id a [] h = refl
Runs-none id a (x ∷ xs) h = absurd (ground (arith, Runs-le id (suc a) a xs h.2))

pub commit-same :
    (env : Env) (retention actor_id : ℕ) (r : Revision) (p : Progress) (db : Db) (n : ℕ)
    (before rows : List Change)
    → p.applied_count ≡ suc n
    → revision r.id db ≡ some r
    → Runs r.id r.change_cursor_floor (feed r.id before) r.cursor_seq
    → db.changes ≡ before ++ rows
    → Runs r.id r.cursor_seq rows p.cursor
    → Runs r.id
        (floor_after retention p r)
        (feed r.id (commit_batch env retention r actor_id p db).changes)
        p.cursor
commit-same env retention actor_id r p db n before rows a e g f k =
    let whole = extended r.id r p before db.changes rows g f k in
    let above = Runs-le r.id r.cursor_seq p.cursor rows k in
    let floored = Runs-le r.id r.change_cursor_floor r.cursor_seq (feed r.id before) g in
    let floor = floor_after retention p r in
    elim (commit-changes env retention actor_id r p db n a e) [
      | inl (q, same) ↦
          Runs-eq r.id r.change_cursor_floor floor p.cursor (feed r.id db.changes) _ (omega arith)
            (ap (feed r.id) (sym same)) whole
      | inr same ↦
          Runs-eq r.id (max r.change_cursor_floor floor) floor p.cursor
            (feed r.id (select_by (is_kept r.id floor) db.changes)) _ (omega arith)
            (ap (feed r.id) (sym same))
            (pruned r.id r.change_cursor_floor p.cursor floor db.changes whole (omega arith))
    ]

pub commit-others :
    (env : Env) (retention actor_id j : ℕ) (r : Revision) (p : Progress) (db : Db) (n : ℕ)
    (before rows : List Change)
    → p.applied_count ≡ suc n
    → revision r.id db ≡ some r
    → db.changes ≡ before ++ rows
    → Runs r.id r.cursor_seq rows p.cursor
    → j ≢ r.id
    → feed j (commit_batch env retention r actor_id p db).changes ≡ feed j before
commit-others env retention actor_id j r p db n before rows a e f k ne =
    let (plain, cut) =
      other_feed r.id j r.cursor_seq p.cursor (floor_after retention p r) before rows k ne in
    elim (commit-changes env retention actor_id r p db n a e) [
      | inl (q, same) ↦ ap (feed j) (same ∙ f) ∙ plain
      | inr same ↦
          ap (feed j) (same ∙ ap (select_by (is_kept r.id (floor_after retention p r))) f) ∙ cut
    ]
