-- ===== src/Tests.antt =====
-- Runs at concrete inputs, and the theorems applied to them.
pub mod Platform
pub mod Objects
pub mod Memory
pub mod Vectors
pub mod Lifetimes
pub mod Calls
pub mod Contents
pub mod Duplicates
pub mod Locking
pub mod Registration
pub mod Shown
pub mod Strings
pub mod Names
pub mod Raw
pub mod SharedSubsets
pub mod Protection
