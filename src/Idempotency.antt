-- ===== src/Idempotency.antt =====
-- internal/platform/idempotency: the keys of inbound requests. Proofs are in the modules below.
pub mod Keys
pub mod Once
mod Tests
