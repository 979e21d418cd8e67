-- ===== src/Examples/Authors.antt =====
-- The editorial run where the authors are recorded as editors.
use danangmap_backend.Prelude.{
  ◌≡◌, refl, false, some, [], ◌∷◌, arith, find_by, exists_by, update_where, max_by, select_by,
}
use danangmap_backend.Domain.{draft, published, ParticipationType}
use danangmap_backend.Database.{Db}
use danangmap_backend.Database.Queries.{
  insert_snapshot, touch_layer, add_participant, add_event, add_audit, move_pointer,
  activate_snapshot,
}
use danangmap_backend.Idempotency.{claim, complete}
use danangmap_backend.Ledger.{Entry, view}
use danangmap_backend.Ledger.Authors.{AuthorsEdit}
use danangmap_backend.Ledger.Separation.{IsSeparated}
use danangmap_backend.Publication.Receipts.{replay_publication_receipt}
use danangmap_backend.Workflow.Guards.{
  active_revision, nearest_published, members, has_invalid_geometry, attachments_at_fault,
}
use danangmap_backend.Workflow.Review.{
  submit, approve, submit_owned, approve_owned, submitted, approval,
}
use danangmap_backend.Workflow.Publish.{
  publish, publish_owned, publish_writes, publication_recorded, checksum_input,
}
use danangmap_backend.System.{run, run-author_apart}
use danangmap_backend.Examples.{db_with}
use danangmap_backend.Examples.Editorial.{review_and_publish}

abbrev authored_db : Db
authored_db = record (db_with draft) {
  participants =
      record { revision_id = 1; user_id = 7; participation_type = ParticipationType.edit }
      ∷ record { revision_id = 2; user_id = 7; participation_type = ParticipationType.edit }
      ∷ [];
}

authored-IsSeparated : IsSeparated (view authored_db)
unfolding find_by exists_by
authored-IsSeparated = record {
  reviewer_apart = λ r u h. ground arith;
  publisher_apart = λ r u h. ground arith;
  author_apart = λ r e h. ground arith;
  known = λ r u k h. ground arith;
  draft_unreviewed = λ r u e h f. ground arith;
  unpublished = λ r u e h f. ground arith;
}

authored-AuthorsEdit : AuthorsEdit (view authored_db)
unfolding find_by exists_by
authored-AuthorsEdit = record { author_edits = λ r e h. ground arith }

abbrev published_entry : Entry
published_entry = record { status = published; created_by = 7; layer_id = 10 }

published_by_run : (view (run review_and_publish authored_db)).entry 2 ≡ some published_entry
unfolding run find_by exists_by update_where max_by submit approve publish submit_owned
    approve_owned publish_owned publish_writes submitted approval publication_recorded
    checksum_input claim complete members has_invalid_geometry attachments_at_fault
    nearest_published active_revision insert_snapshot touch_layer add_participant add_event
    add_audit move_pointer activate_snapshot replay_publication_receipt select_by
published_by_run = refl

run-author_apart_example :
    (view (run review_and_publish authored_db)).part 2 7 ParticipationType.publish ≡ false
run-author_apart_example =
    run-author_apart review_and_publish authored_db 2 published_entry authored-IsSeparated
      authored-AuthorsEdit published_by_run
