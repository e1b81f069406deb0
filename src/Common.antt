-- ===== src/Common.antt =====
-- The crate common/: the constants, the timelocks and the transfer helpers that both escrow
-- programs share. (Its errors are in Base/Results.antt.)
pub mod Constants
pub mod Timelocks
pub mod Escrow
