-- ===== src/Tests.antt =====
-- A device in memory and small databases on it, for the tests below.
pub mod Memory
pub mod Empty
pub mod Common
pub mod Series
pub mod AllFull
pub mod Short
pub mod Queries
pub mod Keys
pub mod Pairs
pub mod Stored
pub mod Found
pub mod Replace
pub mod LongKey
pub mod Iterate
