-- ===== src/Settlement.antt =====
-- internal/settlement: the payout pipeline over the ledger and the sessions. Proofs are in the
-- modules below.
pub mod Tables
pub mod Services
pub mod Calls
pub mod Transition
pub mod Attempts
pub mod Failure
pub mod Dispatch
pub mod Process
pub mod Webhook
pub mod Ops
pub mod Inbound
pub mod Diagram
pub mod Advance
pub mod Sound
pub mod Rules
pub mod Writes
pub mod Payouts
pub mod Aside
pub mod Asked
pub mod Queue
pub mod Callbacks
pub mod Presses
pub mod ByOperators
pub mod Runs
pub mod Once
pub mod Leads
pub mod Steady
pub mod GiveUp
pub mod Counted
pub mod Ends
pub mod Choice
mod Tests
