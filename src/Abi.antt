-- ===== src/Abi.antt =====
-- The Solidity ABI codec of precompiles/utils/src/data.rs.
pub mod Failure
pub mod Reader
pub mod Writer
pub mod Types
pub mod Layout
pub mod Words
pub mod Lawful
pub mod Fields
pub mod Scalars
pub mod Pointers
pub mod Arrays
pub mod Tuples
pub mod Calls
mod Tests
