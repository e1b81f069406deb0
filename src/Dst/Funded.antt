-- ===== src/Dst/Funded.antt =====
-- What `create` on the destination side deposits.
use solana_crosschain_protoc.Base.{ℕ, ◌+◌, ◌≤◌, Bool, true, false}
use solana_crosschain_protoc.Ledger.{Ledger, balance, fee_of}
use solana_crosschain_protoc.Platform.{Platform}
use solana_crosschain_protoc.Dst.Accounts.{Create}

-- What the escrow's token account holds: lamports, or tokens with the fee that the mint withheld.
abbrev pub Holds : Create → ℕ → Ledger → Ledger → Bool → Type 0
Holds a amount l l' true = amount ≤ l'.lamports a.escrow_ata
Holds a amount l l' false = amount ≤ balance l' a.escrow_ata + fee_of l a.mint amount
