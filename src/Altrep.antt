-- ===== src/Altrep.antt =====
-- The vectors that R sees: src/altrep.cpp and the operations that it registers.
pub mod Bytes
pub mod StringVector
pub mod Types
pub mod ProtectGuard
pub mod Registration
pub mod CopyData
pub mod Subset
pub mod SharedVector
