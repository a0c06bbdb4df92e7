-- ===== src/Ledger.antt =====
-- services/ledger: the append-only store, its hash chains, its write routes and its anchors.
pub mod Db
pub mod Guards
pub mod Tls
pub mod Queries
pub mod Records
pub mod Chain
pub mod Anchoring
pub mod Routes
pub mod Exports
