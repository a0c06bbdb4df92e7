-- ===== src/Gateway.antt =====
-- services/gateway: the side of an agent's calls.
pub mod Approval
pub mod Http
pub mod Config
pub mod Auth
pub mod Registry
pub mod LedgerClient
pub mod LedgerApi
pub mod ToolProxy
pub mod RetrievalProxy
