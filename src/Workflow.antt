-- ===== src/Workflow.antt =====
-- src/workflow/workflow.service.ts: the editorial workflow of a revision. Each operation is one
-- transaction; what it writes after its last check is a function of its own.
pub mod Guards
pub mod Review
pub mod Changes
pub mod Publish
pub mod Effects
pub mod Refinement
pub mod History
pub mod Replay
pub mod Snapshots
pub mod Successors
pub mod Lineage
