-- ===== src/Publication/Scan/Turns.antt =====
-- What one turn of the loop of `build` reads of the features that are left, and what it leaves.
use danangmap_backend.Prelude.{
  ℕ, String, ◌+◌, ◌≤◌, ◌≡◌, refl, sym, subst, ap, ◌∙◌, true, ltb, List, [], ◌∷◌, ◌++◌, Option, none,
  some, length, All, select_by, arith, Option-cases, inl, inr,
}
use danangmap_backend.Database.{Db, ok, guard, RevisionFeature}
use danangmap_backend.Domain.{build_error, build_limit_exceeded}
use danangmap_backend.Database.Publication.{PublicationJob, BatchRow}
use danangmap_backend.Database.Queries.{Env}
use danangmap_backend.Database.Lookup.{>>=-eq-ok}
use danangmap_backend.Layers.Runs.{select_by-implied}
use danangmap_backend.Publication.Jobs.{job, commit_batch, processed_features}
use danangmap_backend.Publication.Workers.Progress.{processed-append}
use danangmap_backend.Publication.Scan.{
  PublicRow, Checkpoint, ScanConfig, after?, public_rows, public_batch, batch_row, commit_rows,
  is_within_limit, last_of, checkpoint_of, turn,
}
use danangmap_backend.Publication.Scan.Order.{RisesFrom, IsPast, last_id-le, public_batch-ordered}
use danangmap_backend.Publication.Scan.Total.{commit_rows_progress}
use danangmap_backend.Publication.Scan.Remaining.{
  AreDistinct, Climbs, public_rows-Climbs, public_rows-select, select-Climbs, batch_split,
}

-- The public features of a revision above a checkpoint.
abbrev pub remaining : Env → ℕ → Option Checkpoint → Db → List PublicRow
remaining env id c db = public_rows env id (last_of c) db.revision_features db

-- `commitBatch` writes jobs and batches only.
commit_batch-writes :
    (env : Env) (bounds : List BatchRow → Option String) (row : BatchRow) (token lease : ℕ)
    (db d : Db) (x : ℕ × ℕ)
    → commit_batch env bounds row token lease db ≡ ok (x, d)
    → d ≡ record db { jobs = d.jobs; batches = d.batches }
unfolding commit_batch
commit_batch-writes env bounds row token lease db d x h = elim (Option-cases (job row.job_id db)) [
  | inl e ↦ absurd (ground arith)
  | inr (j, e) ↦ ground arith
]

public_rows-writes :
    (env : Env) (id : ℕ) (last : Option ℕ) (ms : List RevisionFeature) (db : Db)
    (js : List PublicationJob) (bs : List BatchRow)
    → public_rows env id last ms (record db { jobs = js; batches = bs })
      ≡ public_rows env id last ms db
unfolding public_rows
public_rows-writes env id last [] db js bs = refl
public_rows-writes env id last (m ∷ ms) db js bs =
    ground (arith, public_rows-writes env id last ms db js bs)

past_trans :
    (c : Option Checkpoint) (r s : PublicRow) (l : ℕ)
    → IsPast (last_of c) r
    → r.feature_id ≤ l
    → ltb l s.feature_id ≡ true
    → after? (last_of c) s.feature_id ≡ true
past_trans none r s l h le k = refl
past_trans (some c) r s l h le k = ground arith

-- The rows after a batch are those of the rows before it that are above its last one.
remaining-next :
    (env : Env) (id : ℕ) (c : Option Checkpoint) (n : ℕ) (r : PublicRow) (l : ℕ) (db : Db)
    (js : List PublicationJob) (bs : List BatchRow)
    → IsPast (last_of c) r
    → r.feature_id ≤ l
    → remaining env id
        (some (record { batch_no = n; last_feature_id = l }))
        (record db { jobs = js; batches = bs })
      ≡ select_by (λ s. ltb l s.feature_id) (remaining env id c db)
remaining-next env id c n r l db js bs h le =
    let all = public_rows env id none db.revision_features db in
    public_rows-writes env id (some l) db.revision_features db js bs
    ∙ public_rows-select env id (some l) db.revision_features db
    ∙ sym (
        select_by-implied (λ (s : PublicRow). ltb l s.feature_id)
          (λ s. after? (last_of c) s.feature_id) all (λ s k. past_trans c r s l h le k))
    ∙ ap (select_by (λ (s : PublicRow). ltb l s.feature_id))
        (sym (public_rows-select env id (last_of c) db.revision_features db))

remaining-Climbs :
    (env : Env) (id : ℕ) (c : Option Checkpoint) (db : Db)
    → AreDistinct db.revision_features
    → Climbs (remaining env id c db)
remaining-Climbs env id c db h =
    subst Climbs (sym (public_rows-select env id (last_of c) db.revision_features db)) (
      select-Climbs (λ s. after? (last_of c) s.feature_id)
        (public_rows env id none db.revision_features db)
        (public_rows-Climbs env id db.revision_features db h))

module _ (env : Env) (bounds : List BatchRow → Option String) (config : ScanConfig)
    (j : PublicationJob) (token : ℕ) where
  commit_rows-writes :
      (checkpoint : Option Checkpoint) (r : PublicRow) (rs : List PublicRow) (db d : Db)
      (x : Checkpoint × ℕ)
      → commit_rows env bounds config j token checkpoint (r ∷ rs) db ≡ ok (x, d)
      → d ≡ record db { jobs = d.jobs; batches = d.batches }
  unfolding commit_rows
  commit_rows-writes checkpoint r rs db d x h =
      let row = batch_row env j checkpoint r rs in
      let (_, d0, g, h') =
        >>=-eq-ok (guard (is_within_limit env (r ∷ rs)) (build_error build_limit_exceeded)) _ db
          h in
      let (y, d', e, k) =
        >>=-eq-ok (commit_batch env bounds row token config.lease_seconds) _ d0 h' in
      ground (arith, g, k, commit_batch-writes env bounds row token config.lease_seconds d0 d' y e)

  -- What a turn has read, and what it leaves.
  pub record Consumed (checkpoint : Option Checkpoint) (db d : Db) (x : Checkpoint × ℕ)
      : Type 0 where
    pub first : PublicRow
    pub others : List PublicRow
    pub batches_after : d.batches ≡ db.batches ++ batch_row env j checkpoint first others ∷ []
    pub progress : x.1 ≡ processed_features j.id d.batches
    pub counted :
        processed_features j.id d.batches
        ≡ processed_features j.id db.batches + length (first ∷ others)
    pub same_rows : d.revision_features ≡ db.revision_features
    pub left :
        (first ∷ others) ++ remaining env j.revision_id (some x.0) d
        ≡ remaining env j.revision_id checkpoint db
    pub rises : RisesFrom first.feature_id others

  commit_rows-Consumed :
      (c : Option Checkpoint) (rows : List PublicRow) (db d : Db) (x : Checkpoint × ℕ)
      → AreDistinct db.revision_features
      → RisesFrom 0 rows
      → All (IsPast (last_of c)) rows
      → public_batch env j.revision_id (last_of c) config.batch_size db ≡ rows
      → commit_rows env bounds config j token c rows db ≡ ok (x, d)
      → Consumed c db d x
  unfolding commit_rows batch_row public_batch
  commit_rows-Consumed c [] db d x ne rising past e h = absurd (ground arith)
  commit_rows-Consumed c (r ∷ rs) db d x ne rising past e h =
      let (answer, after, progress, raised) =
        commit_rows_progress env bounds config j token c r rs db d x h in
      let b = batch_row env j c r rs in
      let w = commit_rows-writes c r rs db d x h in
      let next =
        ap (λ (p : Checkpoint). remaining env j.revision_id (some p) d) answer
        ∙ ap (remaining env j.revision_id (some (checkpoint_of b))) w
        ∙ remaining-next env j.revision_id c b.batch_no r b.last_feature_id db d.jobs d.batches
            past.0 (last_id-le r.feature_id rs rising.1) in
      record {
        first = r;
        others = rs;
        batches_after = after;
        progress = progress;
        counted = ap (processed_features j.id) after ∙ processed-append j.id db.batches b refl;
        same_rows = ap (λ (e : Db). e.revision_features) w;
        left =
            ap (λ ss. (r ∷ rs) ++ ss) next
            ∙ batch_split config.batch_size (remaining env j.revision_id c db) r rs
                (remaining-Climbs env j.revision_id c db ne) e;
        rises = rising.1;
      }

  pub turn-Consumed :
      (c : Option Checkpoint) (db d : Db) (x : Checkpoint × ℕ)
      → AreDistinct db.revision_features
      → turn env bounds config j token c db ≡ ok (x, d)
      → Consumed c db d x
  turn-Consumed c db d x ne h =
      let (rising, past, _) =
        public_batch-ordered env j.revision_id (last_of c) config.batch_size db in
      commit_rows-Consumed c _ db d x ne rising past refl h
