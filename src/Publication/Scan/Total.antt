-- ===== src/Publication/Scan/Total.antt =====
-- The loop of `build` ends.
use danangmap_backend.Prelude.{
  ℕ, String, zero, suc, ◌+◌, ◌≤◌, ◌<◌, ◌≡◌, ◌⊎◌, refl, sym, subst, ap, ◌∙◌, List, [], ◌∷◌, ◌++◌,
  Option, none, some, ltb, length, All, append-nil, append_assoc, arith, Bool-cases, inl, inr,
}
use danangmap_backend.Database.{Db, Result, ok, err, guard}
use danangmap_backend.Domain.{Error, build_error, build_limit_exceeded}
use danangmap_backend.Database.Publication.{PublicationJob, BatchRow}
use danangmap_backend.Database.Queries.{Env}
use danangmap_backend.Database.Lookup.{>>=-eq-ok}
use danangmap_backend.Publication.Jobs.{commit_batch, processed_features}
use danangmap_backend.Publication.Workers.After.{commit_batch-Committed}
use danangmap_backend.Publication.Workers.Progress.{processed-append}
use danangmap_backend.Publication.Scan.{
  PublicRow, Checkpoint, ScanConfig, batch_row, checkpoint_of, last_of, commit_rows,
  is_within_limit, turn, scan,
}
use danangmap_backend.Publication.Scan.Order.{RisesFrom, IsPast, last_id-le, public_batch-ordered}

-- The batch after a checkpoint: it has the next number and begins above the last feature.
abbrev pub IsNext : Option Checkpoint → BatchRow → Type 0
IsNext none b = b.batch_no ≡ 1
IsNext (some c) b = (b.batch_no ≡ c.batch_no + 1) × (c.last_feature_id < b.first_feature_id)

-- Batches of a job that follow each other and a checkpoint, none of them empty or above the size.
abbrev pub IsChain : ℕ → ℕ → Option Checkpoint → List BatchRow → Type 0
IsChain id size c [] = Unit
IsChain id size c (b ∷ bs) =
    (b.job_id ≡ id)
    × IsNext c b
    × (b.first_feature_id ≤ b.last_feature_id)
    × (1 ≤ b.feature_count)
    × (b.feature_count ≤ size)
    × IsChain id size (some (checkpoint_of b)) bs

-- The loop has added such batches behind those of the table, and it has thrown, or the counts of the
-- job's batches come to this total.
pub record HasEnded (j : PublicationJob) (size total : ℕ) (checkpoint : Option Checkpoint) (db : Db)
    (r : Result (Unit {0}) × Db) : Type 0 where
  pub added : List BatchRow
  pub batches_after : r.1.batches ≡ db.batches ++ added
  pub chain : IsChain j.id size checkpoint added
  pub end : ((e : Error) × (r.0 ≡ err e)) ⊎ (total ≤ processed_features j.id r.1.batches)

module _ (env : Env) (bounds : List BatchRow → Option String) (config : ScanConfig)
    (j : PublicationJob) (token : ℕ) where
  -- A turn that commits adds the batch of its rows, and answers the sum over all batches, which it has
  -- raised.
  pub commit_rows_progress :
      (checkpoint : Option Checkpoint) (r : PublicRow) (rs : List PublicRow) (db d : Db)
      (x : Checkpoint × ℕ)
      → commit_rows env bounds config j token checkpoint (r ∷ rs) db ≡ ok (x, d)
      → (x.0 ≡ checkpoint_of (batch_row env j checkpoint r rs))
        × (d.batches ≡ db.batches ++ batch_row env j checkpoint r rs ∷ [])
        × (x.1 ≡ processed_features j.id d.batches)
        × (suc (processed_features j.id db.batches) ≤ processed_features j.id d.batches)
  unfolding commit_rows batch_row
  commit_rows_progress checkpoint r rs db d x h =
      let row = batch_row env j checkpoint r rs in
      let (_, d0, g, h') =
        >>=-eq-ok (guard (is_within_limit env (r ∷ rs)) (build_error build_limit_exceeded)) _ db
          h in
      let (y, d', e, k) =
        >>=-eq-ok (commit_batch env bounds row token config.lease_seconds) _ d0 h' in
      let c = commit_batch-Committed env bounds row token config.lease_seconds d0 d' y e in
      (
        ground (arith, g, k),
        ground (arith, g, k, c.batches_after),
        ground (arith, g, k, c.answer),
        ground (arith, g, k, c.batches_after, processed-append j.id db.batches row refl),
      )

  batch_row-IsNext :
      (checkpoint : Option Checkpoint) (r : PublicRow) (rs : List PublicRow)
      → IsPast (last_of checkpoint) r
      → IsNext checkpoint (batch_row env j checkpoint r rs)
  unfolding batch_row
  batch_row-IsNext none r rs h = refl
  batch_row-IsNext (some c) r rs h = (refl, h)

  -- One batch that follows the checkpoint, and what a turn has done with it.
  record Turned (checkpoint : Option Checkpoint) (db d : Db) (x : Checkpoint × ℕ) : Type 0 where
    batch : BatchRow
    answer : x.0 ≡ checkpoint_of batch
    batches_after : d.batches ≡ db.batches ++ batch ∷ []
    of_job : batch.job_id ≡ j.id
    next : IsNext checkpoint batch
    rises : batch.first_feature_id ≤ batch.last_feature_id
    filled : (1 ≤ batch.feature_count) × (batch.feature_count ≤ config.batch_size)
    progress : x.1 ≡ processed_features j.id d.batches
    raised : suc (processed_features j.id db.batches) ≤ processed_features j.id d.batches

  commit_rows-Turned :
      (checkpoint : Option Checkpoint) (rows : List PublicRow) (db d : Db) (x : Checkpoint × ℕ)
      → RisesFrom 0 rows
      → All (IsPast (last_of checkpoint)) rows
      → length rows ≤ config.batch_size
      → commit_rows env bounds config j token checkpoint rows db ≡ ok (x, d)
      → Turned checkpoint db d x
  unfolding commit_rows batch_row
  commit_rows-Turned checkpoint [] db d x rising past size h = absurd (ground arith)
  commit_rows-Turned checkpoint (r ∷ rs) db d x rising past size h =
      let (answer, after, progress, raised) = commit_rows_progress checkpoint r rs db d x h in
      record {
        batch = batch_row env j checkpoint r rs;
        answer = answer;
        batches_after = after;
        of_job = refl;
        next = batch_row-IsNext checkpoint r rs past.0;
        rises = last_id-le r.feature_id rs rising.1;
        filled = (omega arith, size);
        progress = progress;
        raised = raised;
      }

  turn-Turned :
      (checkpoint : Option Checkpoint) (db d : Db) (x : Checkpoint × ℕ)
      → turn env bounds config j token checkpoint db ≡ ok (x, d)
      → Turned checkpoint db d x
  turn-Turned checkpoint db d x h =
      let (rising, past, size) =
        public_batch-ordered env j.revision_id (last_of checkpoint) config.batch_size db in
      commit_rows-Turned checkpoint _ db d x rising past size h

  -- What follows a turn, with its batch in front.
  HasEnded-turn :
      (total : ℕ) (checkpoint : Option Checkpoint) (db d : Db) (x : Checkpoint × ℕ)
      (r : Result (Unit {0}) × Db)
      → Turned checkpoint db d x
      → HasEnded j config.batch_size total (some x.0) d r
      → HasEnded j config.batch_size total checkpoint db r
  HasEnded-turn total checkpoint db d x r t e = record {
    added = t.batch ∷ e.added;
    batches_after =
        e.batches_after
        ∙ ap (λ bs. bs ++ e.added) t.batches_after
        ∙ append_assoc db.batches (t.batch ∷ []) e.added;
    chain = (
      t.of_job,
      t.next,
      t.rises,
      t.filled.0,
      t.filled.1,
      subst (λ c. IsChain j.id config.batch_size (some c) e.added) t.answer e.chain,
    );
    end = e.end;
  }

  HasEnded-stop :
      (total : ℕ) (checkpoint : Option Checkpoint) (db : Db) (r : Result (Unit {0}))
      → ((e : Error) × (r ≡ err e)) ⊎ (total ≤ processed_features j.id db.batches)
      → HasEnded j config.batch_size total checkpoint db (r, db)
  HasEnded-stop total checkpoint db r e = record {
    added = [];
    batches_after = sym (append-nil db.batches);
    chain = tt;
    end = e;
  }

  pub turn_cases :
      (r : Result ((Checkpoint × ℕ) × Db))
      → ((e : Error) × (r ≡ err e)) ⊎ ((x : Checkpoint × ℕ) × (d : Db) × (r ≡ ok (x, d)))
  turn_cases (err e) = inl (e, refl)
  turn_cases (ok (x, d)) = inr (x, d, refl)

  -- Once the progress is the sum of the batches, as much fuel as there are features left is enough.
  scan_fuel :
      (fuel total : ℕ) (checkpoint : Option Checkpoint) (db : Db)
      → total ≤ processed_features j.id db.batches + fuel
      → (r : Result (Unit {0}) × Db) × (scan fuel env bounds config j token total checkpoint
            (processed_features j.id db.batches)
            db
          ≡ some r)
        × HasEnded j config.batch_size total checkpoint db r
  unfolding scan
  scan_fuel zero total checkpoint db h =
      ((ok tt, db), ground arith, HasEnded-stop total checkpoint db (ok tt) (inr (omega arith)))
  scan_fuel (suc fuel) total checkpoint db h =
      elim (Bool-cases (ltb (processed_features j.id db.batches) total)) [
        | inr e ↦ (
          (ok tt, db),
          ground arith,
          HasEnded-stop total checkpoint db (ok tt) (inr (ground arith)),
        )
        | inl e ↦ elim (turn_cases (turn env bounds config j token checkpoint db)) [
          | inl (x, f) ↦
              ((err x, db), ground arith, HasEnded-stop total checkpoint db (err x) (inl (x, refl)))
          | inr (x, d, f) ↦
              let t = turn-Turned checkpoint db d x f in
              let (r, rest, ended) =
                scan_fuel fuel total (some x.0) d (omega (arith, h, t.raised)) in
              (r, ground (arith, t.progress, rest), HasEnded-turn total checkpoint db d x r t ended)
        ]
      ]

-- The loop of `build` ends after at most one turn more than the total that it is given, where the
-- progress that it starts from is not above the sum of the job's batches. It ends with the error of a
-- turn, or with batches of the job whose counts sum to the total at least. What it has added either way
-- are batches with consecutive numbers after the checkpoint, none of them empty or above the batch size,
-- each of which begins above the last feature of the one before.
pub scan_total :
    (env : Env) (bounds : List BatchRow → Option String) (config : ScanConfig) (j : PublicationJob)
    (token total : ℕ) (checkpoint : Option Checkpoint) (processed : ℕ) (db : Db)
    → processed ≤ processed_features j.id db.batches
    → (r : Result (Unit {0}) × Db) × (scan
          (suc total)
          env
          bounds
          config
          j
          token
          total
          checkpoint
          processed
          db
        ≡ some r)
      × HasEnded j config.batch_size total checkpoint db r
unfolding scan
scan_total env bounds config j token total checkpoint processed db below =
    let stop = HasEnded-stop env bounds config j token total checkpoint db in
    elim (Bool-cases (ltb processed total)) [
      | inr e ↦ ((ok tt, db), ground arith, stop (ok tt) (inr (ground arith)))
      | inl e ↦
          elim (turn_cases env bounds config j token
            (turn env bounds config j token checkpoint db)) [
              | inl (x, f) ↦ ((err x, db), ground arith, stop (err x) (inl (x, refl)))
              | inr (x, d, f) ↦
                  let t = turn-Turned env bounds config j token checkpoint db d x f in
                  let (r, rest, ended) =
                    scan_fuel env bounds config j token total total (some x.0) d (omega arith) in
                  (
                    r,
                    ground (arith, t.progress, rest),
                    HasEnded-turn env bounds config j token total checkpoint db d x r t ended,
                  )
            ]
    ]
