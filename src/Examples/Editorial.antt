-- ===== src/Examples/Editorial.antt =====
-- Runs of the editorial workflow.
use danangmap_backend.Prelude.{
  ◌≡◌, refl, ◌↔◌, inr, none, some, [], ◌∷◌, Option, List, arith, find_by, exists_by, update_where,
  max_by, select_by,
}
use danangmap_backend.Domain.{RevisionStatus, draft, in_review, approved, published}
use danangmap_backend.Database.{Db, Revision, transition, publication, ok, transaction}
use danangmap_backend.Database.Queries.{
  revision, next_generation, insert_snapshot, insert_revision, touch_layer, add_participant,
  add_event, add_audit, move_pointer, activate_snapshot,
}
use danangmap_backend.Idempotency.{claim, complete}
use danangmap_backend.Idempotency.Canonical.{digest}
use danangmap_backend.Ledger.{view}
use danangmap_backend.Ledger.Separation.{IsSeparated}
use danangmap_backend.Publication.Receipts.{synchronous_result, replay_publication_receipt}
use danangmap_backend.Workflow.Guards.{
  base_revision, active_revision, nearest_published, members, has_invalid_geometry,
  attachments_at_fault,
}
use danangmap_backend.Workflow.Review.{
  SubmitDto, CommentDto, submit, approve, submit_owned, approve_owned, submitted, approval,
}
use danangmap_backend.Workflow.Changes.{
  request_changes, request_changes_owned, changes_response, changes_writes, changes_recorded,
  copy_contents, successor, next_revision_no,
}
use danangmap_backend.Workflow.Publish.{
  PublishDto, publish, publish_owned, publish_writes, publication_recorded, checksum_input,
}
use danangmap_backend.Workflow.Snapshots.{IsLive, CanPublish, publish_total}
use danangmap_backend.Workflow.Successors.{IsOnlyOpen, request_changes_total}
use danangmap_backend.Workflow.Lineage.{IsRanked, Nearest, base_revision_iff}
use danangmap_backend.Workflow.Replay.{
  submit_repeated, approve_repeated, request_changes_repeated, publish_repeated,
}
use danangmap_backend.Workflow.History.{submits, approves, publishes}
use danangmap_backend.System.{Event, commands, apply, apply-Move, run, run-IsSeparated, run-final}
use danangmap_backend.Ledger.{Move}
use danangmap_backend.Examples.{env_at, author, checker, issuer, second_row, db_with}

abbrev pub review_and_publish : List Event
review_and_publish =
    commands (record {
      env = env_at 20 100;
      actor = author;
      revision_id = 2;
      key = 1;
      request = submits (record { summary = "wards"; reviewer_note = none });
    })
    ∷ commands (record {
      env = env_at 21 101;
      actor = checker;
      revision_id = 2;
      key = 2;
      request = approves (record { comment = none });
    })
    ∷ commands (record {
      env = env_at 22 102;
      actor = issuer;
      revision_id = 2;
      key = 3;
      request = publishes (record { release_note = "r2"; client_intent = none });
    })
    ∷ []

drafted-IsSeparated : IsSeparated (view (db_with draft))
unfolding exists_by
drafted-IsSeparated = record {
  reviewer_apart = λ r u h. refl;
  publisher_apart = λ r u h. (refl, refl);
  author_apart = λ r e h. refl;
  known = λ r u k h. refl;
  draft_unreviewed = λ r u e h f. refl;
  unpublished = λ r u e h f. refl;
}

run-IsSeparated_example : IsSeparated (view (run review_and_publish (db_with draft)))
run-IsSeparated_example = run-IsSeparated review_and_publish (db_with draft) drafted-IsSeparated

-- The run above publishes the revision.
abbrev status_of : Option Revision → Option RevisionStatus
status_of none = none
status_of (some r) = some r.status

published_by_run : status_of (revision 2 (run review_and_publish (db_with draft))) ≡ some published
unfolding run find_by exists_by update_where max_by submit approve publish submit_owned
    approve_owned publish_owned publish_writes submitted approval publication_recorded
    checksum_input claim complete members has_invalid_geometry attachments_at_fault
    nearest_published active_revision insert_snapshot touch_layer add_participant add_event
    add_audit move_pointer activate_snapshot replay_publication_receipt select_by
published_by_run = refl

run-final_example :
    (view (run review_and_publish (db_with draft))).entry 1
    ≡ some (record { status = published; created_by = 7; layer_id = 10 })
unfolding find_by
run-final_example =
    run-final review_and_publish (db_with draft) 1
      (record { status = published; created_by = 7; layer_id = 10 }) refl (inr refl)

abbrev submission : Event
submission = commands (record {
  env = env_at 20 100;
  actor = author;
  revision_id = 2;
  key = 1;
  request = submits (record { summary = "wards"; reviewer_note = none });
})

apply-Move_example : Move (view (db_with draft)) (view (apply submission (db_with draft)))
apply-Move_example = apply-Move submission (db_with draft)

abbrev release : PublishDto
release = record { release_note = "r2"; client_intent = none }

can_publish : CanPublish (env_at 22 102) 2 issuer (second_row approved) (db_with approved)
unfolding find_by exists_by active_revision nearest_published max_by attachments_at_fault members
    select_by
can_publish = record {
  found = refl;
  layer_row = record { id = 10; lock_version = 1; updated_at = 0 };
  has_layer = refl;
  is_approved = refl;
  not_editorial = refl;
  current = refl;
  files_ready = refl;
  unused_id = refl;
}

publish_total_example :
    (db' : Db) × (publish_owned (env_at 22 102) 2 release issuer 3 (db_with approved)
      ≡ ok (synchronous_result (publication 102 (next_generation 10 (db_with approved))), db'))
    × IsLive (env_at 22 102) 2 (second_row approved) (db_with approved) db'
publish_total_example =
    publish_total (env_at 22 102) 2 release issuer 3 (second_row approved) (db_with approved)
      can_publish

only_open : IsOnlyOpen (second_row in_review) (db_with in_review)
only_open = ((λ e. ground arith), ((λ e. refl), tt))

request_changes_total_example :
    (db' : Db) × (request_changes_owned (env_at 21 101) 2 "names" checker 2 (db_with in_review)
      ≡ ok (changes_response (env_at 21 101) 2, db'))
    × (revision 101 db'
        ≡ some (
            successor
              (env_at 21 101)
              2
              (second_row in_review)
              (next_revision_no 10 (db_with in_review))))
unfolding find_by exists_by
request_changes_total_example =
    request_changes_total (env_at 21 101) 2 (second_row in_review) (db_with in_review) refl
      only_open "names" checker 2 refl refl refl refl

ranked : IsRanked (db_with approved)
unfolding find_by
ranked id j r s e f g = ground arith

base_revision_iff_example :
    (base_revision (second_row approved) (db_with approved) ≡ some 1)
    ↔ Nearest (db_with approved) 1 (some 1)
base_revision_iff_example = base_revision_iff (second_row approved) (db_with approved) 1 ranked

abbrev summary : SubmitDto
summary = record { summary = "wards"; reviewer_note = none }

abbrev after_submit : Db
after_submit = (transaction (submit (env_at 20 100) 2 summary author 1) (db_with draft)).1

submit_ok :
    submit (env_at 20 100) 2 summary author 1 (db_with draft)
    ≡ ok (transition 2 in_review, after_submit)
unfolding submit submit_owned submitted claim complete members has_invalid_geometry select_by
    find_by exists_by update_where touch_layer add_event add_audit
submit_ok = refl

submit_repeated_example :
    submit (env_at 30 200) 2 summary author 1 after_submit
    ≡ ok (transition 2 in_review, after_submit)
unfolding digest
submit_repeated_example =
    submit_repeated (env_at 20 100) (env_at 30 200) 2 author 1 (db_with draft) after_submit summary
      summary (transition 2 in_review) submit_ok refl

abbrev comment : CommentDto
comment = record { comment = some "fine" }

abbrev after_approve : Db
after_approve = (transaction (approve (env_at 21 101) 2 comment checker 2) (db_with in_review)).1

approve_ok :
    approve (env_at 21 101) 2 comment checker 2 (db_with in_review)
    ≡ ok (transition 2 approved, after_approve)
unfolding approve approve_owned approval claim complete find_by exists_by update_where touch_layer
    add_event add_audit add_participant
approve_ok = refl

approve_repeated_example :
    approve (env_at 30 200) 2 comment checker 2 after_approve
    ≡ ok (transition 2 approved, after_approve)
unfolding digest
approve_repeated_example =
    approve_repeated (env_at 21 101) (env_at 30 200) 2 checker 2 (db_with in_review) after_approve
      comment comment (transition 2 approved) approve_ok refl

abbrev after_changes : Db
after_changes =
    (transaction (request_changes (env_at 21 101) 2 "names" checker 2) (db_with in_review)).1

changes_ok :
    request_changes (env_at 21 101) 2 "names" checker 2 (db_with in_review)
    ≡ ok (changes_response (env_at 21 101) 2, after_changes)
unfolding request_changes request_changes_owned changes_writes changes_recorded copy_contents
    insert_revision claim complete find_by exists_by update_where max_by select_by touch_layer
    add_event add_audit add_participant
changes_ok = refl

request_changes_repeated_example :
    request_changes (env_at 30 200) 2 "names" checker 2 after_changes
    ≡ ok (changes_response (env_at 21 101) 2, after_changes)
unfolding digest
request_changes_repeated_example =
    request_changes_repeated (env_at 21 101) (env_at 30 200) 2 checker 2 (db_with in_review)
      after_changes "names" "names" (changes_response (env_at 21 101) 2) changes_ok refl

abbrev after_publish : Db
after_publish = (transaction (publish (env_at 22 102) 2 release issuer 3) (db_with approved)).1

publish_ok :
    publish (env_at 22 102) 2 release issuer 3 (db_with approved)
    ≡ ok (synchronous_result (publication 102 3), after_publish)
unfolding publish publish_owned publish_writes publication_recorded checksum_input claim complete
    members attachments_at_fault nearest_published active_revision insert_snapshot touch_layer
    add_participant add_event add_audit move_pointer activate_snapshot find_by exists_by
    update_where max_by select_by
publish_ok = refl

publish_repeated_example :
    publish (env_at 30 200) 2 release issuer 3 after_publish
    ≡ ok (synchronous_result (publication 102 3), after_publish)
unfolding digest
publish_repeated_example =
    publish_repeated (env_at 22 102) (env_at 30 200) 2 issuer 3 (db_with approved) after_publish
      release release (synchronous_result (publication 102 3)) refl refl publish_ok refl
