-- ===== src/ChainCore.antt =====
-- crates/chain-core: the byte formats and hashes that the ledger and the verifier share.
pub mod Hashing
pub mod CanonicalJson
pub mod Encode
pub mod Merkle
pub mod Chain
