-- ===== src/Session.antt =====
-- internal/session: the payment session, its state machine and its sweeps. Proofs are in the modules
-- below.
pub mod Tables
pub mod Services
pub mod Cas
pub mod Create
pub mod Handlers
pub mod Ttl
pub mod Diagram
pub mod Evolves
pub mod Moves
pub mod Steps
pub mod Runs
pub mod Sla
mod Tests
pub mod Admission
pub mod Deadline
pub mod Exclusive
pub mod Expiry
pub mod Offer
