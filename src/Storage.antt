-- ===== src/Storage.antt =====
-- src/experience_hub/storage: the event store, and the receipts that make commands idempotent.
pub mod EventStore
pub mod Idempotency
