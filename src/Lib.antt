-- ===== src/Lib.antt =====
-- danangmap-backend: the editorial workflow, feature sync and the publication pipeline of the
-- spatial CMS.
--
-- The program is a NestJS service over PostgreSQL. A layer has revisions; an editor submits one, a
-- reviewer approves it or sends it back, and a publisher publishes it as a snapshot that the
-- layer's pointer makes active. A draft's features are edited by batches of mutations that a client
-- sends. A publication is done at once, or is admitted as a durable job that workers build under a
-- lease and activate; a rollback serves an earlier snapshot again. A command carries an
-- Idempotency-Key and leaves a receipt under it. Every operation is one transaction.
--
-- Parts:
--   Prelude, Json, Domain    helpers, JSON values, and the enumerations and errors of
--                            src/domain/enums.ts and src/common/http/app.exception.ts
--   Database                 the tables as lists of rows, Tx (dataSource.transaction: a throw keeps the
--                            old database), and the statements that several services send, with the
--                            unique indexes that they can violate
--   Idempotency              src/common/idempotency/idempotency.service.ts: claim, prepare, complete,
--                            digest; `once` is how a command uses them
--   Workflow                 src/workflow/workflow.service.ts: submit and approve (Review), requestChanges
--                            (Changes), publish (Publish), their checks (Guards)
--   Publication              src/publications: results and receipts (Receipts), the worker's statements
--                            (Jobs), the revision fingerprint (Fingerprint), admission and the command's
--                            choice (Admission), activate (Activation), fail (Failure), the loop of the
--                            builder (Scan), the end of a delivery after an error (Retry), the outbox
--                            of jobs (Outbox); Workers has the calls of workers as data
--   Rollback                 src/history/publication-rollback.service.ts with src/layers/etag.ts
--   Layers                   src/layers: feature sync. A client sends batches of mutations of a draft's
--                            features (Batch, Commit), each applied in a savepoint (Mutations, Edits)
--                            after its validation (Schema, Geometry) and merge (Patch); Feed reads the
--                            changes back. Definitions validates the configuration of a layer
--   Ledger                   the abstract view: a revision's status, author and layer, and who took part
--                            in it; `Move` says what one transaction may do to it
--   System                   all these transactions as events, in any order
--   Examples                 a concrete database, tests and witnesses
--
-- An operation `f` of a service is `f`; `f_owned` is what runs behind the receipt, and `f_writes`,
-- `f_recorded` are its statements after the checks. Inserts that an index can refuse are Tx steps.
--
-- Representation: identifiers and instants are natural numbers, and lease times are in the unit of
-- the clock; now() and Date.now() are one clock. An ETag is kept as the values that its text is
-- made of, and `malformed` holds a text that has none of the forms. A uuid that the database or the
-- process generates is a function of Env. Hashing, JSON text, localeCompare, geometry functions,
-- floating point and the form of a UUID are functions of Env. Response payloads keep their variable
-- fields, and message texts are left out. A JSON object is a list of entries; keys that are array
-- indices, which JavaScript reorders, do not occur. A number that is not a natural one is a sign,
-- digits and a decimal scale, which every double has. A change cursor is the number that its text
-- encodes. Row locks are not modelled, since each transaction is one step.
--
-- Fuel: the lineage query recurses on the largest revision number plus one. The number falls from a
-- revision to the one that it supersedes, so this is enough. The builder's loop takes as fuel the
-- total that it is given plus one; every turn that does not throw commits a batch of at least one.
--
-- Not modelled: the builder's validation and the processor around these transactions, the dispatch
-- and recovery loops; reads for clients other than the change feed; the creation and configuration
-- of layers, attachments, imports, identity, mail, the public API, configuration and storage; the
-- updates of gauges in publication_worker_state; the triggers of the database, but for the order of
-- an outbox row's states.
pub mod Prelude
pub mod Json
pub mod Domain
pub mod Database
pub mod Idempotency
pub mod Layers
pub mod Ledger
pub mod Workflow
pub mod Publication
pub mod Rollback
pub mod System
pub mod Examples
