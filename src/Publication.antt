-- ===== src/Publication.antt =====
-- src/publications/: the durable publication pipeline, from the admission of a job to its end.
pub mod Receipts
pub mod Jobs
pub mod Fingerprint
pub mod Activation
pub mod Failure
pub mod Admission
pub mod Workers
pub mod Scan
pub mod Outbox
pub mod Retry
