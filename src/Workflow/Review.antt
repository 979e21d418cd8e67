-- ===== src/Workflow/Review.antt =====
-- `submit` and `approve` of src/workflow/workflow.service.ts.
use danangmap_backend.Prelude.{ℕ, String, Bool, not, ◌+◌, ◌||◌, [], ◌∷◌, Option, none, some, ◌==◌}
use danangmap_backend.Json.{Json, str, ident, object, str?}
use danangmap_backend.Domain.{
  draft, in_review, approved, ParticipationType, revision_submit, revision_approve, app,
  separation_of_duties, workflow_transition_invalid, geometry_invalid, is_draft, is_in_review,
}
use danangmap_backend.Database.{
  Db, Tx, Revision, Response, transition, guard, modify, pure, ◌>>=◌, ◌>>◌,
}
use danangmap_backend.Database.Queries.{
  Env, Actor, participates, lock_revision, update_revision, touch_layer, add_participant, add_event,
  add_audit,
}
use danangmap_backend.Idempotency.{once, complete}
use danangmap_backend.Idempotency.Canonical.{digest}
use danangmap_backend.Workflow.Guards.{replayed, assert_can_review, has_invalid_geometry}

pub record SubmitDto : Type 0 where
  pub summary : String
  pub reviewer_note : Option String

pub record CommentDto : Type 0 where
  pub comment : Option String

abbrev pub submit_digest : Env → ℕ → SubmitDto → String
submit_digest env id dto = digest env (
    object (
      ("revisionId", ident id)
      ∷ (
        "dto",
        object (("summary", str dto.summary) ∷ ("reviewerNote", str? dto.reviewer_note) ∷ []),
      )
      ∷ []))

abbrev pub approve_digest : Env → ℕ → CommentDto → String
approve_digest env id dto =
    digest env (
      object (("revisionId", ident id) ∷ ("dto", object (("comment", str? dto.comment) ∷ [])) ∷ []))

-- `private audit`: a log row of resource type layer_revision.
abbrev pub audit : Env → Actor → String → ℕ → Json → Db → Db
audit env actor action id metadata = add_audit (record {
  actor_id = actor.id;
  actor_role = actor.role;
  action = action;
  resource_type = "layer_revision";
  resource_id = id;
  request_id = env.request_id;
  before_digest = none;
  after_digest = none;
  metadata = metadata;
})

-- `dto.note ?? null` in a log row.
abbrev note : Option String → Json
note none = Json.null
note (some s) = str s

-- The UPDATEs of layer_revisions.
abbrev pub set_in_review : Env → Revision → Revision
set_in_review env row = record row {
  status = in_review;
  submitted_at = some env.now;
  lock_version = row.lock_version + 1;
  updated_at = env.now;
}

abbrev pub set_approved : Env → Revision → Revision
set_approved env row = record row {
  status = approved;
  approved_at = some env.now;
  lock_version = row.lock_version + 1;
  updated_at = env.now;
}

-- What `submit` writes once its checks have passed.
unfoldable pub submitted : Env → ℕ → Revision → SubmitDto → Actor → ℕ → Db → Db
submitted env id r dto actor key db =
    let d = update_revision id (set_in_review env) db in
    let d = touch_layer env r.layer_id d in
    let d = add_event id draft in_review actor.id (some dto.summary) d in
    let d =
      audit env actor "revision.submitted" id
        (object (("summary", str dto.summary) ∷ ("reviewerNote", note dto.reviewer_note) ∷ [])) d in
    complete actor.id revision_submit key (transition id in_review) 202 none none d

-- Whether the actor wrote the revision or takes part in it as an editor.
abbrev pub is_editor_of : ℕ → Revision → ℕ → Db → Bool
is_editor_of id r actor_id db =
    r.created_by == actor_id || participates id actor_id ParticipationType.edit db

unfoldable pub submit_owned : Env → ℕ → SubmitDto → Actor → ℕ → Tx Response
submit_owned env id dto actor key = do
  r ← lock_revision id
  guard (is_draft r.status) (app workflow_transition_invalid)
  λ db. guard (is_editor_of id r actor.id db) (app separation_of_duties) db
  λ db. guard (not (has_invalid_geometry env id db)) (app geometry_invalid) db
  modify (submitted env id r dto actor key)
  pure (transition id in_review)

-- `submit`
unfoldable pub submit : Env → ℕ → SubmitDto → Actor → ℕ → Tx Response
submit env id dto actor key =
    once actor.id revision_submit key (submit_digest env id dto) (submit_owned env id dto actor key)
      (λ c. replayed c.response)

-- What `approve` writes once its checks have passed.
unfoldable pub approval : Env → ℕ → Revision → CommentDto → Actor → ℕ → Db → Db
approval env id r dto actor key db =
    let d = update_revision id (set_approved env) db in
    let d = touch_layer env r.layer_id d in
    let d = add_participant id actor.id ParticipationType.review d in
    let d = add_event id in_review approved actor.id dto.comment d in
    let d =
      audit env actor "revision.approved" id (object (("comment", note dto.comment) ∷ [])) d in
    complete actor.id revision_approve key (transition id approved) 201 none none d

unfoldable pub approve_owned : Env → ℕ → CommentDto → Actor → ℕ → Tx Response
approve_owned env id dto actor key = do
  r ← lock_revision id
  guard (is_in_review r.status) (app workflow_transition_invalid)
  assert_can_review r actor.id
  modify (approval env id r dto actor key)
  pure (transition id approved)

-- `approve`
unfoldable pub approve : Env → ℕ → CommentDto → Actor → ℕ → Tx Response
approve env id dto actor key =
    once actor.id revision_approve key (approve_digest env id dto)
      (approve_owned env id dto actor key) (λ c. replayed c.response)
