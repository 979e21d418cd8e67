-- ===== src/Examples/Builds.antt =====
-- The build of a leased job: its loop over the features, and its end after an error.
use danangmap_backend.Prelude.{◌≡◌, some, none, [], ◌∷◌, arith}
use danangmap_backend.Domain.{RevisionStatus}
use danangmap_backend.Database.{Db, Result}
use danangmap_backend.Database.Publication.{PublicationJob, JobPhase}
use danangmap_backend.Publication.Scan.{ScanConfig, scan}
use danangmap_backend.Publication.Scan.Total.{scan_total, HasEnded}
use danangmap_backend.Examples.{env_at, db_with}
use danangmap_backend.Examples.Pipeline.{leased_job}

abbrev scanned_job : PublicationJob
scanned_job = record leased_job {
  phase = JobPhase.scanning_features;
  feature_total = some 1;
  feature_processed = 0;
}

abbrev leased_db : Db
leased_db = record (db_with RevisionStatus.publishing) { jobs = scanned_job ∷ [] }

abbrev sizes : ScanConfig
sizes = record { batch_size = 1; lease_seconds = 60 }

scan_total_example :
    (r : Result (Unit {0}) × Db) × (scan 2
        (env_at 40 140)
        (λ bs. none)
        sizes
        scanned_job
        77
        1
        none
        0
        leased_db
      ≡ some r)
    × HasEnded scanned_job 1 1 none leased_db r
scan_total_example =
    scan_total (env_at 40 140) (λ bs. none) sizes scanned_job 77 1 none 0 leased_db (omega arith)
