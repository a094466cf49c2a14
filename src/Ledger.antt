-- ===== src/Ledger.antt =====
-- internal/ledger: the double-entry ledger. Rows, posting and account lookups; proofs are in the
-- modules below.
pub mod Tables
pub mod Post
pub mod Reconcile
pub mod Balanced
pub mod Atomic
pub mod Exact
pub mod Consistent
pub mod Claims
pub mod Sweep
pub mod Resolve
pub mod Accounts
pub mod Owners
mod Tests
pub use Tables.*
