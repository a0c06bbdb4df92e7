-- ===== src/Examples.antt =====
-- Tests and concrete instances of the results.
pub mod Fixtures
mod ChainCoreExamples
pub mod LedgerExamples
pub mod AnchoringExamples
mod VerifierExamples
mod RouteExamples
mod RecordExamples
mod TlsExamples
mod GatewayExamples
mod ProxyExamples
mod GuardExamples
mod ExportExamples
