-- ===== src/Src.antt =====
-- The program programs/cross-chain-escrow-src: orders on the source chain, the escrows that fill
-- them, and the auction and Merkle arithmetic that a fill uses.
pub mod State
pub mod Accounts
pub mod Settle
pub mod CreateEscrow
pub mod CancelOrder
pub mod Create
pub mod Rescue
pub mod Auction
pub mod Merkle
pub mod Fill
pub mod DstAmount
