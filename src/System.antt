-- ===== src/System.antt =====
-- The whole of what changes a revision after it is written: the commands of
-- src/workflow/workflow.service.ts, src/publications/publication-admission.service.ts,
-- src/publications/publication-activation.service.ts, src/history/publication-rollback.service.ts and
-- src/layers/feature-sync.service.ts, and the calls of workers and of the dispatcher of the outbox, in
-- any order.
mod Commands
mod Calls
use danangmap_backend.Prelude.{some, false, ℕ, ◌≡◌, refl, sym, subst, Option, [], ◌∷◌, List}
use danangmap_backend.Domain.{PublicationFailureCode, ParticipationType}
use danangmap_backend.Database.{Db, Tx, Etag, ok, transaction}
use danangmap_backend.Database.Queries.{Env, Actor}
use danangmap_backend.Database.Lookup.{transaction_keeps}
use danangmap_backend.Ledger.{Entry, view, Move, rest}
use danangmap_backend.Ledger.Authors.{AuthorsEdit, Move-AuthorsEdit, IsSeparated-author}
use danangmap_backend.Ledger.Final.{IsFinal, Move-final}
use danangmap_backend.Ledger.Separation.{IsSeparated, Move-IsSeparated}
use danangmap_backend.Workflow.Publish.{PublishDto}
use danangmap_backend.Workflow.History.{Command, execute, execute-Move}
use danangmap_backend.Publication.Admission.{Config, admit}
use danangmap_backend.Publication.Admission.Effects.{admit-Move, admit-AllValid}
use danangmap_backend.Publication.Activation.{activate}
use danangmap_backend.Publication.Failure.{fail}
use danangmap_backend.Publication.Activation.Refinement.{
  activate-Move, activate-AllValid, fail-Move, fail-AllValid,
}
use danangmap_backend.Publication.Workers.{Call, step}
use danangmap_backend.Publication.Workers.Valid.{AllValid, step-AllValid}
use danangmap_backend.Publication.Outbox.{OutboxCall, outbox_step}
use danangmap_backend.Rollback.{RollbackDto, rollback}
use danangmap_backend.Rollback.Effects.{rollback-Untouched, Untouched-Move}
use danangmap_backend.Layers.{BatchDto}
use danangmap_backend.Layers.Commit.{sync_batch}
use danangmap_backend.Layers.Editing.{sync_batch-Move, sync_batch-jobs}
use Commands.{execute-jobs}
use Calls.{step-Editorial, outbox-Editorial, outbox-jobs, Editorial-Move}

pub data Event : Type 0 where
  commands : Command → Event
  admissions : Env → Config → (id : ℕ) → PublishDto → Actor → (key : ℕ) → Event
  calls : Env → Call → Event
  activations : Env → (id token : ℕ) → Event
  failures : Env → (id : ℕ) → Option ℕ → PublicationFailureCode → (correlation_id : ℕ) → Event
  batches : Env → (retention revision_id : ℕ) → BatchDto → Option Etag → Actor → Event
  outbox_calls : Env → OutboxCall → Event
  rollbacks : Env → (layer_id : ℕ) → RollbackDto → Option Etag → Actor → (key : ℕ) → Event

-- The database after an event, which is the old one if its transaction threw.
abbrev pub apply : Event → Db → Db
apply (commands c) db = execute c db
apply (admissions env config id dto actor key) db =
    (transaction (admit env config id dto actor key) db).1
apply (calls env c) db = step env c db
apply (activations env id token) db = (transaction (activate env id token) db).1
apply (failures env id token code correlation_id) db =
    (transaction (fail env id token code correlation_id) db).1
apply (batches env retention id dto etag actor) db =
    (transaction (sync_batch env retention id dto etag actor) db).1
apply (outbox_calls env c) db = outbox_step env c db
apply (rollbacks env layer_id dto etag actor key) db =
    (transaction (rollback env layer_id dto etag actor key) db).1

unfoldable pub run : List Event → Db → Db
run [] db = db
run (e ∷ es) db = run es (apply e db)

stays : (db : Db) → Move (view db) (view db)
stays db = rest (λ j. refl) (λ r u k. refl)

-- Every event is one move of the ledger, whether it succeeds, is replayed, or throws.
pub apply-Move : (e : Event) (db : Db) → Move (view db) (view (apply e db))
apply-Move (commands c) db = execute-Move c db
apply-Move (admissions env config id dto actor key) db =
    transaction_keeps (λ d. Move (view db) (view d)) (admit env config id dto actor key) db
      (stays db) (λ x d h. admit-Move env config id dto actor key x db d h)
apply-Move (calls env c) db = Editorial-Move db (step env c db) (step-Editorial env c db)
apply-Move (activations env id token) db =
    transaction_keeps (λ d. Move (view db) (view d)) (activate env id token) db (stays db)
      (λ x d h. activate-Move env id token db d x h)
apply-Move (failures env id token code correlation_id) db =
    transaction_keeps (λ d. Move (view db) (view d)) (fail env id token code correlation_id) db
      (stays db) (λ x d h. fail-Move env id token code correlation_id db d x h)
apply-Move (batches env retention id dto etag actor) db =
    transaction_keeps (λ d. Move (view db) (view d)) (sync_batch env retention id dto etag actor) db
      (stays db) (λ x d h. sync_batch-Move env retention id dto etag actor x db d h)
apply-Move (outbox_calls env c) db =
    Editorial-Move db (outbox_step env c db) (outbox-Editorial env c db)
apply-Move (rollbacks env layer_id dto etag actor key) db =
    transaction_keeps (λ d. Move (view db) (view d)) (rollback env layer_id dto etag actor key) db
      (stays db)
      (λ x d h. Untouched-Move db d (rollback-Untouched env layer_id dto etag actor key db d x h))

-- Every event keeps the constraints of every job.
pub apply-AllValid : (e : Event) (db : Db) → AllValid db.jobs → AllValid (apply e db).jobs
apply-AllValid (commands c) db v = subst AllValid (sym (execute-jobs c db)) v
apply-AllValid (admissions env config id dto actor key) db v =
    transaction_keeps (λ d. AllValid d.jobs) (admit env config id dto actor key) db v
      (λ x d h. admit-AllValid env config id dto actor key x db d h v)
apply-AllValid (calls env c) db v = step-AllValid env c db v
apply-AllValid (activations env id token) db v =
    transaction_keeps (λ d. AllValid d.jobs) (activate env id token) db v
      (λ x d h. activate-AllValid env id token db d x h v)
apply-AllValid (failures env id token code correlation_id) db v =
    transaction_keeps (λ d. AllValid d.jobs) (fail env id token code correlation_id) db v
      (λ x d h. fail-AllValid env id token code correlation_id db d x h v)
apply-AllValid (batches env retention id dto etag actor) db v =
    transaction_keeps (λ d. AllValid d.jobs) (sync_batch env retention id dto etag actor) db v
      (λ x d h. subst AllValid (sym (sync_batch-jobs env retention id dto etag actor x db d h)) v)
apply-AllValid (outbox_calls env c) db v = subst AllValid (sym (outbox-jobs env c db)) v
apply-AllValid (rollbacks env layer_id dto etag actor key) db v =
    transaction_keeps (λ d. AllValid d.jobs) (rollback env layer_id dto etag actor key) db v
      (λ x d h.
        subst AllValid (sym (rollback-Untouched env layer_id dto etag actor key db d x h).jobs) v)

-- In every interleaving of commands, admissions, worker calls, activations, failures, sync batches,
-- outbox calls and rollbacks it stays so that nobody has reviewed a revision that he wrote or edited, and
-- nobody has published one that he edited or reviewed. Writing a revision is not by itself editing it.
pub run-IsSeparated :
    (es : List Event) (db : Db) → IsSeparated (view db) → IsSeparated (view (run es db))
unfolding run
run-IsSeparated [] db s = s
run-IsSeparated (e ∷ es) db s =
    run-IsSeparated es (apply e db) (Move-IsSeparated _ _ (apply-Move e db) s)

run-AuthorsEdit :
    (es : List Event) (db : Db) → AuthorsEdit (view db) → AuthorsEdit (view (run es db))
unfolding run
run-AuthorsEdit [] db a = a
run-AuthorsEdit (e ∷ es) db a =
    run-AuthorsEdit es (apply e db) (Move-AuthorsEdit _ _ (apply-Move e db) a)

-- Where at first the duties are separated and the author of each revision is recorded as an editor of it,
-- no author has published a revision that he wrote, after any such interleaving; the revisions that
-- it creates are included.
pub run-author_apart :
    (es : List Event) (db : Db) (r : ℕ) (e : Entry)
    → IsSeparated (view db)
    → AuthorsEdit (view db)
    → (view (run es db)).entry r ≡ some e
    → (view (run es db)).part r e.created_by ParticipationType.publish ≡ false
run-author_apart es db r e s a h =
    IsSeparated-author (view (run es db)) r e (run-IsSeparated es db s) (run-AuthorsEdit es db a) h

-- In every such interleaving each job keeps the constraints of publication_jobs on its state, its progress
-- and its lease, only building jobs have a lease, nothing is processed before the total is known, and no
-- job is tried more often than its admission allows.
pub run-AllValid : (es : List Event) (db : Db) → AllValid db.jobs → AllValid (run es db).jobs
unfolding run
run-AllValid [] db v = v
run-AllValid (e ∷ es) db v = run-AllValid es (apply e db) (apply-AllValid e db v)

-- A revision that is published, or that was sent back, keeps its status, its author and its layer in
-- every such interleaving.
pub run-final :
    (es : List Event) (db : Db) (id : ℕ) (e : Entry)
    → (view db).entry id ≡ some e
    → IsFinal e.status
    → (view (run es db)).entry id ≡ some e
unfolding run
run-final [] db id e h f = h
run-final (c ∷ es) db id e h f =
    run-final es (apply c db) id e (Move-final _ _ id e (apply-Move c db) h f) f
