-- ===== src/Lib.antt =====
-- Two Solana programs by which a maker and a taker swap assets across chains with hash-locked,
-- time-locked escrows, and a third that keeps the list of the resolvers that may act for others.
--
-- programs/cross-chain-escrow-src is the side of the maker's order. A maker opens an order; takers
-- fill it, whole or in parts, and each fill moves its share of the order's tokens into an escrow of
-- its own, whose hashlock is the order's or the leaf of a Merkle tree of secrets. Behind it the
-- taker withdraws with the secret, or the escrow is cancelled, in windows that the timelocks set.
-- programs/cross-chain-escrow-dst is the mirrored side, programs/whitelist the list of resolvers,
-- and common the code that both sides call.
--
-- Which file models what:
--   Base         numbers with overflow as an error, results, bits, bytes, rounding divisions
--   Uint256      the 256-bit numbers of a crate that is not in the repository: their operators are
--                a record that definitions take, with laws; Uint256/Reference meets them
--   Ledger       lamports, token accounts, mints with the fee that each withholds of a transfer
--                (Token-2022), data of the programs' accounts and the clock, as tables under keys;
--                common/src/utils.rs
--   Platform     the calls of the runtime, the token programs and the framework: a record of
--                functions on the ledger that definitions take. Platform/Laws is what their
--                documentation says of calls that succeed, Platform/Accounts the account attributes
--   Common       common/src: constants.rs, timelocks.rs, escrow.rs
--   Src          programs/cross-chain-escrow-src/src: auction.rs (Auction), merkle_tree.rs (Merkle),
--                the partial fills, destination amounts and handlers of lib.rs (Fill, DstAmount,
--                Create, CreateEscrow, Settle, CancelOrder, Rescue), utils.rs (Settle), and the
--                account structs (Accounts, State)
--   Dst          programs/cross-chain-escrow-dst/src: lib.rs and utils.rs, with the account structs
--                (Accounts, State)
--   Whitelist    programs/whitelist/src/lib.rs: the four instructions with their account structs
--                (State, Ids); error.rs is in Base/Results
--   Tests        the theorems at concrete inputs, on a platform of simple functions (Tests/Model)
--
-- A handler is a function from the keys of its accounts, its arguments and the ledger to a result:
-- the new ledger or the error of the source. `signed` says which keys signed. The framework's checks
-- come first, in an order that only decides which error is seen; the body follows in the order of
-- the source; what the framework does on exit (writing accounts back, `close = …`) comes last. A
-- failed handler leaves the ledger as it was, since the runtime drops what a failed transaction
-- wrote. Integers are numbers; the operators that the build makes panic on overflow
-- (`overflow-checks = true` in Cargo.toml) return the error `panicked`. No definition needs fuel:
-- every loop runs over a list.
--
-- Left out: serialization (the encodings are parameters), events and messages, the rent that the
-- system program charges (inside the calls of Platform), compute limits, and the tests under
-- common/tests and programs/*/tests. Of the account attributes, `mut` and the types `Interface`,
-- `Program` and `Sysvar` have no check of their own: the key of a token program is an argument of
-- the calls of Platform, and the keys of the system and associated-token programs and of the rent
-- are not looked at, so a handler of the model may succeed where the framework refuses such an
-- account, and what is proved of the successes holds of the code's.
pub mod Base
pub mod Uint256
pub mod Common
pub mod Src
pub mod Dst
pub mod Whitelist
pub mod Ledger
pub mod Platform
pub mod Tests
