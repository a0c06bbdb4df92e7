-- ===== src/Verifier.antt =====
-- tools/verifier/src: the offline check of an export bundle (lib.rs) and of an anchor (anchor.rs).
pub mod Bundle
pub mod Anchor
pub mod Binding
pub mod Accepts
pub mod LedgerCheck
pub mod Cli
