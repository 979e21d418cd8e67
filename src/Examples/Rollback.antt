-- ===== src/Examples/Rollback.antt =====
-- A run of a rollback.
use danangmap_backend.Prelude.{◌≡◌, refl, some, find_by, exists_by, update_where, max_by}
use danangmap_backend.Domain.{approved}
use danangmap_backend.Database.{Db, Etag, publication_pointer_etag, rolled_back, ok, transaction}
use danangmap_backend.Database.Queries.{
  next_generation, insert_snapshot, touch_layer, add_audit, activate_snapshot,
}
use danangmap_backend.Idempotency.{claim as claim_receipt, complete}
use danangmap_backend.Rollback.{
  RollbackDto, rollback, rollback_owned, rollback_writes, rollback_recorded, rollback_response,
  repoint, active_pointer, require_pointer_etag,
}
use danangmap_backend.Rollback.Effects.{
  CanRollback, Serves, Untouched, rollback_total, rollback-Untouched,
}
use danangmap_backend.Examples.{env_at, issuer, db_with, snapshot_row, pointer_row}

abbrev back : RollbackDto
back = record { target_snapshot_id = 40; reason = "wrong names"; client_intent = some "desktop" }

abbrev current : Etag
current = publication_pointer_etag 10 41 2

can_rollback :
    CanRollback
      (env_at 40 130)
      10
      back
      current
      issuer
      pointer_row
      (snapshot_row 40 1)
      (db_with approved)
unfolding find_by exists_by active_pointer
can_rollback = record {
  layer_row = record { id = 10; lock_version = 1; updated_at = 0 };
  has_layer = refl;
  active_row = snapshot_row 41 2;
  points = refl;
  joins = refl;
  matches = refl;
  not_active = refl;
  has_target = refl;
  not_editorial = refl;
  unused_id = refl;
}

rollback_total_example :
    (db' : Db) × (rollback_owned (env_at 40 130) 10 back current issuer 5 (db_with approved)
      ≡ ok (
        (
          rollback_response
              (env_at 40 130)
              (snapshot_row 40 1)
              (next_generation 10 (db_with approved)),
          publication_pointer_etag 10 130 (next_generation 10 (db_with approved)),
        ),
        db',
      ))
    × Serves (env_at 40 130) 10 pointer_row (snapshot_row 40 1) (db_with approved) db'
rollback_total_example =
    rollback_total (env_at 40 130) 10 back current issuer 5 pointer_row (snapshot_row 40 1)
      (db_with approved) can_rollback

abbrev rolled_db : Db
rolled_db =
    (transaction (rollback (env_at 40 130) 10 back (some current) issuer 5) (db_with approved)).1

rollback_ok :
    rollback (env_at 40 130) 10 back (some current) issuer 5 (db_with approved)
    ≡ ok ((rolled_back 130 40 3 1, publication_pointer_etag 10 130 3), rolled_db)
unfolding rollback rollback_owned rollback_writes rollback_recorded repoint require_pointer_etag
    active_pointer claim_receipt complete find_by exists_by update_where max_by insert_snapshot
    activate_snapshot touch_layer add_audit
rollback_ok = refl

rollback-Untouched_example : Untouched (db_with approved) rolled_db
rollback-Untouched_example =
    rollback-Untouched (env_at 40 130) 10 back (some current) issuer 5 (db_with approved) rolled_db
      (rolled_back 130 40 3 1, publication_pointer_etag 10 130 3) rollback_ok
