-- ===== src/Ledger/Records.antt =====
-- services/ledger/src/routes: the runs, versions and cases beside the chained tables, and the handlers
-- that read.
pub mod Runs
pub mod Versions
pub mod Bindings
pub mod Cases
pub mod Pages
pub mod Registration
