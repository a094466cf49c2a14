-- ===== src/Bus.antt =====
-- internal/platform/eventbus: the outbox, its dispatcher and its cleanup. Proofs are in the modules
-- below.
pub mod Dispatch
pub mod Delivery
mod Tests
