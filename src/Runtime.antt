-- ===== src/Runtime.antt =====
-- Parts of runtime/src/lib.rs and runtime/src/xcm_config.rs that are not configuration.
pub mod Fees
pub mod Filters
pub mod Codes
pub mod Merge
pub mod Ethereum
pub mod Weights
pub mod Governance
mod Tests
