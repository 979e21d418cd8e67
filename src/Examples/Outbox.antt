-- ===== src/Examples/Outbox.antt =====
-- An outbox row that is claimed, released, claimed again and dispatched.
use danangmap_backend.Prelude.{
  ◌≡◌, refl, some, none, [], ◌∷◌, List, find_by, update_where, exists_by, select_by,
}
use danangmap_backend.Domain.{RevisionStatus}
use danangmap_backend.Database.{Db}
use danangmap_backend.Database.Publication.{OutboxRow, OutboxStatus}
use danangmap_backend.Database.Queries.{Env}
use danangmap_backend.Publication.Outbox.{
  OutboxCall, claims, marks, releases, outbox_run, claim_outbox, mark_outbox_dispatched,
  release_outbox_claim, due_rows, dispatch_delay,
}
use danangmap_backend.Publication.Outbox.Transitions.{
  IsAccepted, outbox_row, outbox_calls-IsAccepted,
}
use danangmap_backend.Examples.{env_at, db_with}

abbrev queued_row : OutboxRow
queued_row = record {
  id = 61;
  publication_job_id = 60;
  payload_version = 1;
  status = OutboxStatus.pending;
  attempts = 0;
  available_at = 30;
  lease_token = none;
  lease_owner = none;
  lease_expires_at = none;
  dispatched_at = none;
  last_error_code = none;
}

abbrev outbox_db : Db
outbox_db = record (db_with RevisionStatus.publishing) { outbox = queued_row ∷ [] }

abbrev sweep : List (Env × OutboxCall)
sweep =
    (env_at 40 1, claims 10 "api" 30)
    ∷ (env_at 41 1, releases 61 8061 1 "PUBLICATION_QUEUE_UNAVAILABLE")
    ∷ (env_at 50 1, claims 10 "api" 30)
    ∷ (env_at 51 1, marks 61 8061)
    ∷ []

outbox_calls-IsAccepted_example : IsAccepted sweep 61 queued_row outbox_db
unfolding find_by
outbox_calls-IsAccepted_example = outbox_calls-IsAccepted sweep 61 queued_row outbox_db refl

sweep_dispatched :
    outbox_row 61 (outbox_run sweep outbox_db)
    ≡ some (record queued_row {
      status = OutboxStatus.dispatched;
      attempts = 2;
      available_at = 43;
      dispatched_at = some 51;
    })
unfolding find_by outbox_run claim_outbox mark_outbox_dispatched release_outbox_claim due_rows
    dispatch_delay update_where exists_by select_by
sweep_dispatched = refl
