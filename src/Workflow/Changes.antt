-- ===== src/Workflow/Changes.antt =====
-- `requestChanges` of src/workflow/workflow.service.ts: the reviewed revision is closed, and a draft
-- that supersedes it takes over its fields and features.
use danangmap_backend.Prelude.{
  ℕ, String, Bool, not, ◌+◌, ◌&&◌, [], ◌∷◌, ◌++◌, none, some, ◌==◌, exists_by, select_by, max_by,
  map,
}
use danangmap_backend.Json.{str, ident, object}
use danangmap_backend.Domain.{
  draft, in_review, changes_requested, ParticipationType, revision_request_changes, Error, app,
  query_failed, uq_layer_open_editorial_chain, uq_layer_revision_number, not_found,
  workflow_transition_invalid, draft_already_exists, is_in_review, is_draft,
}
use danangmap_backend.Database.{
  Db, Tx, Revision, LayerField, RevisionFeature, Response, changes, revision_etag, Result, ok, err,
  guard, modify, pure, first_or, ◌>>=◌, ◌>>◌,
}
use danangmap_backend.Database.Queries.{
  Env, Actor, revision, lock_revision, insert_revision, update_revision, touch_layer,
  add_participant, add_event,
}
use danangmap_backend.Idempotency.{once, complete}
use danangmap_backend.Idempotency.Canonical.{digest}
use danangmap_backend.Workflow.Guards.{replayed, assert_can_review}
use danangmap_backend.Workflow.Review.{audit}

abbrev pub request_changes_digest : Env → ℕ → String → String
request_changes_digest env id comment =
    digest env
      (object (("revisionId", ident id) ∷ ("dto", object (("comment", str comment) ∷ [])) ∷ []))

-- `rethrowDraftConflict`
abbrev rethrow_draft_conflict : Error → Error
rethrow_draft_conflict (query_failed uq_layer_open_editorial_chain) = app draft_already_exists
rethrow_draft_conflict (query_failed uq_layer_revision_number) = app draft_already_exists
rethrow_draft_conflict e = e

abbrev pub rethrow_result : {A : Type 0} → Result A → Result A
rethrow_result (ok a) = ok a
rethrow_result (err e) = err (rethrow_draft_conflict e)

abbrev pub catch_draft_conflict : {A : Type 0} → Tx A → Tx A
catch_draft_conflict m db = rethrow_result (m db)

-- COALESCE(max(revision_no),0)+1
abbrev pub next_revision_no : ℕ → Db → ℕ
next_revision_no layer_id db =
    max_by (λ r. r.layer_id == layer_id) (λ r. r.revision_no) db.revisions + 1

abbrev pub has_draft : ℕ → Db → Bool
has_draft layer_id db = exists_by (λ r. r.layer_id == layer_id && is_draft r.status) db.revisions

abbrev pub successor : Env → ℕ → Revision → ℕ → Revision
successor env id r revision_no = record r {
  id = env.fresh;
  revision_no = revision_no;
  status = draft;
  lock_version = 1;
  cursor_seq = 0;
  change_cursor_floor = 0;
  supersedes_revision_id = some id;
  submitted_at = none;
  approved_at = none;
  published_at = none;
  updated_at = env.now;
}

-- The two INSERT ... SELECT of `requestChanges`.
unfoldable pub copy_contents : Env → ℕ → ℕ → Db → Db
copy_contents env from to db = record db {
  fields =
      db.fields
      ++ map (λ (f : LayerField). record f { id = env.field_uuid f.id; revision_id = to })
          (select_by (λ f. f.revision_id == from) db.fields);
  revision_features =
      db.revision_features
      ++ map (λ (m : RevisionFeature). record m { revision_id = to })
          (select_by (λ m. m.revision_id == from) db.revision_features);
}

abbrev pub set_changes_requested : Env → Revision → Revision
set_changes_requested env row = record row {
  status = changes_requested;
  lock_version = row.lock_version + 1;
  updated_at = env.now;
}

abbrev pub close_reviewed : Env → ℕ → Db → Db
close_reviewed env id = update_revision id (set_changes_requested env)

abbrev pub changes_response : Env → ℕ → Response
changes_response env id = changes id env.fresh (revision_etag env.fresh 1)

-- What is written after the successor is inserted.
unfoldable pub changes_recorded : Env → ℕ → Revision → String → Actor → ℕ → Db → Db
changes_recorded env id r comment actor key db =
    let d = copy_contents env id env.fresh db in
    let d = add_participant id actor.id ParticipationType.review d in
    let d = add_participant env.fresh r.created_by ParticipationType.edit d in
    let d = touch_layer env r.layer_id d in
    let d = add_event id in_review changes_requested actor.id (some comment) d in
    let d =
      audit env actor "revision.changes_requested" id
        (object (("comment", str comment) ∷ ("successorRevisionId", ident env.fresh) ∷ [])) d in
    complete actor.id revision_request_changes key (changes_response env id) 201
      (some (revision_etag env.fresh 1)) none d

-- The writes of `requestChanges`, the insertion of the successor among them.
unfoldable pub changes_writes : Env → ℕ → Revision → String → Actor → ℕ → Tx Response
changes_writes env id r comment actor key db =
    (do
      modify (close_reviewed env id)
      insert_revision (successor env id r (next_revision_no r.layer_id db))
      modify (changes_recorded env id r comment actor key)
      pure (changes_response env id))
      db

unfoldable pub request_changes_owned : Env → ℕ → String → Actor → ℕ → Tx Response
request_changes_owned env id comment actor key = do
  first_or (revision id) (app not_found) >>= λ _. pure tt
  r ← lock_revision id
  guard (is_in_review r.status) (app workflow_transition_invalid)
  assert_can_review r actor.id
  λ db. guard (not (has_draft r.layer_id db)) (app draft_already_exists) db
  changes_writes env id r comment actor key

-- `requestChanges`
unfoldable pub request_changes : Env → ℕ → String → Actor → ℕ → Tx Response
request_changes env id comment actor key = catch_draft_conflict (
    once actor.id revision_request_changes key (request_changes_digest env id comment)
      (request_changes_owned env id comment actor key) (λ c. replayed c.response))
