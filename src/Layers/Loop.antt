-- ===== src/Layers/Loop.antt =====
-- The loop of `syncBatch`: the rows that it adds to the change feed have consecutive cursors.
use danangmap_backend.Prelude.{
  append-nil, append_assoc, ◌+◌, ◌≡◌, ◌∙◌, List, [], ◌∷◌, ◌++◌, select_by, arith, Option-cases, inl,
  inr,
}
use danangmap_backend.Database.{Db, ok}
use danangmap_backend.Database.Sync.{ClientMutation, Change}
use danangmap_backend.Database.Lookup.{>>=-eq-ok}
use danangmap_backend.Layers.{Mutation}
use danangmap_backend.Layers.Mutations.{Context}
use danangmap_backend.Layers.Batch.{
  Progress, attempt, persist_receipt, sync_new, sync_item, sync_items, receipt_of,
  replayed_progress, new_mutations,
}
use danangmap_backend.Layers.Conflicts.{attempt-Outcome}
use danangmap_backend.Layers.Runs.{Runs, Runs-append}

pub record Synced (c : Context) (p q : Progress) (before after : Db) : Type 0 where
  pub revisions : after.revisions ≡ before.revisions
  pub participants : after.participants ≡ before.participants
  pub jobs : after.jobs ≡ before.jobs
  pub rows : List Change
  pub feed : after.changes ≡ before.changes ++ rows
  pub runs : Runs c.revision.id p.cursor rows q.cursor
  pub counted : p.cursor + q.applied_count ≡ q.cursor + p.applied_count

sync_new-Synced :
    (c : Context) (m : Mutation) (p q : Progress) (db d : Db)
    → sync_new c m p db ≡ ok (q, d)
    → Synced c p q db d
unfolding sync_new persist_receipt
sync_new-Synced c m p q db d h =
    let (r, d', e, k) = >>=-eq-ok (attempt c m p.mappings p.cursor) _ db h in
    elim (attempt-Outcome c m p.mappings p.cursor db d' r e) [
      | inl (a, f) ↦ record {
        revisions = ground (arith, f.kept.revisions);
        participants = ground (arith, f.kept.participants);
        jobs = ground (arith, f.kept.jobs);
        rows = f.row ∷ [];
        feed = ground (arith, f.feed);
        runs = (f.of_revision, f.at_cursor, ground arith);
        counted = ground arith;
      }
      | inr (a, same) ↦ record {
        revisions = ground arith;
        participants = ground arith;
        jobs = ground arith;
        rows = [];
        feed = ground (arith, append-nil db.changes);
        runs = ground arith;
        counted = ground arith;
      }
    ]

sync_item-Synced :
    (c : Context) (rs : List ClientMutation) (m : Mutation) (p q : Progress) (db d : Db)
    → sync_item c rs m p db ≡ ok (q, d)
    → Synced c p q db d
unfolding sync_item
sync_item-Synced c rs m p q db d h = elim (Option-cases (receipt_of m.client_mutation_id rs)) [
  | inl e ↦ sync_new-Synced c m p q db d (ground arith)
  | inr (r, e) ↦ record {
    revisions = ground arith;
    participants = ground arith;
    jobs = ground arith;
    rows = [];
    feed = ground (arith, append-nil db.changes);
    runs = ground arith;
    counted = ground arith;
  }
]

pub sync_items-Synced :
    (c : Context) (rs : List ClientMutation) (ms : List Mutation) (p q : Progress) (db d : Db)
    → sync_items c rs ms p db ≡ ok (q, d)
    → Synced c p q db d
unfolding sync_items
sync_items-Synced c rs [] p q db d h = record {
  revisions = ground arith;
  participants = ground arith;
  jobs = ground arith;
  rows = [];
  feed = ground (arith, append-nil db.changes);
  runs = ground arith;
  counted = ground arith;
}
sync_items-Synced c rs (m ∷ ms) p q db d h =
    let (p', d', e, k) = >>=-eq-ok (sync_item c rs m p) _ db h in
    let s = sync_item-Synced c rs m p p' db d' e in
    let t = sync_items-Synced c rs ms p' q d' d k in
    record {
      revisions = t.revisions ∙ s.revisions;
      participants = t.participants ∙ s.participants;
      jobs = t.jobs ∙ s.jobs;
      rows = s.rows ++ t.rows;
      feed = ground (arith, s.feed, t.feed, append_assoc db.changes s.rows t.rows);
      runs = Runs-append c.revision.id p.cursor p'.cursor q.cursor s.rows t.rows s.runs t.runs;
      counted = ground (arith, s.counted, t.counted);
    }

-- A batch of nothing but mutations with receipts writes nothing.
pub sync_items-replayed :
    (c : Context) (rs : List ClientMutation) (ms : List Mutation) (p q : Progress) (db d : Db)
    → new_mutations rs ms ≡ []
    → sync_items c rs ms p db ≡ ok (q, d)
    → (d ≡ db) × (q.applied_count ≡ p.applied_count) × (q.cursor ≡ p.cursor)
unfolding sync_items sync_item select_by
sync_items-replayed c rs [] p q db d n h = (ground arith, ground arith, ground arith)
sync_items-replayed c rs (m ∷ ms) p q db d n h =
    elim (Option-cases (receipt_of m.client_mutation_id rs)) [
      | inl e ↦ absurd (ground arith)
      | inr (r, e) ↦
          sync_items-replayed c rs ms (replayed_progress r p) q db d (ground arith) (ground arith)
    ]
