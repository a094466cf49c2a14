-- ===== src/Rlp.antt =====
-- internal/treasury/wallet/rlp.go: the RLP codec of transactions. Proofs are in the modules below.
pub mod Codec
pub mod Lengths
pub mod RoundTrip
mod Tests
