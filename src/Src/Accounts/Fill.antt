-- ===== src/Src/Accounts/Fill.antt =====
-- The accounts of `create_escrow`.
use solana_crosschain_protoc.Base.{
  ℕ, ◌+◌, Bool, Result, ok, ◌>>=◌, ◌>>◌, ◌==◌, require, invalid_account, invalid_mint, Option,
}
use solana_crosschain_protoc.Ledger.{Ledger}
use solana_crosschain_protoc.Common.Constants.{discriminator_bytes}
use solana_crosschain_protoc.Src.Fill.{get_escrow_hashlock}
use solana_crosschain_protoc.Src.Merkle.{MerkleProof}
use solana_crosschain_protoc.Src.State.{Order, escrow_src_space}
use solana_crosschain_protoc.Src.Accounts.{
  src_id, escrow_seeds, order_seeds, load_order, check_resolver,
}
use solana_crosschain_protoc.Platform.{Platform}
use solana_crosschain_protoc.Platform.Accounts.{
  MintInfo, TokenInfo, load_mint, load_associated, init_associated, check_seeds, find_bump,
}

pub record CreateEscrow : Type 0 where
  pub taker : ℕ
  pub resolver_access : ℕ
  pub maker : ℕ
  pub mint : ℕ
  pub order : ℕ
  pub order_ata : ℕ
  pub escrow : ℕ
  pub escrow_ata : ℕ
  pub token_program : ℕ

-- The accounts as read at the start, the bump of the new escrow, and the ledger with the new
-- accounts in it.
pub record FillAccounts : Type 0 where
  pub mint : MintInfo
  pub order : Order
  pub order_ata : TokenInfo
  pub escrow_ata : TokenInfo
  pub bump : ℕ
  pub ledger : Ledger

module _ (p : Platform) (signed : ℕ → Bool) where
  unfoldable pub load_create_escrow :
      CreateEscrow → ℕ → Option MerkleProof → Ledger → Result FillAccounts
  load_create_escrow a amount merkle_proof l = do
    check_resolver p signed src_id a.taker a.resolver_access l
    mint ← load_mint l a.mint
    order ← load_order l a.order
    order_ata ← load_associated p l a.order_ata a.mint a.order a.token_program
    bump ←
        find_bump p a.escrow
          (escrow_seeds order.order_hash (get_escrow_hashlock order.hashlock merkle_proof) a.taker
            amount)
          src_id
    l₁ ← p.init_account a.taker a.escrow (discriminator_bytes + escrow_src_space) src_id l
    (escrow_ata, l₂) ← init_associated p l₁ a.taker a.escrow_ata a.mint a.escrow a.token_program
    require (a.maker == order.creator) invalid_account
    require (a.mint == order.token) invalid_mint
    check_seeds p a.order (order_seeds order.order_hash) order.bump src_id
    ok (record {
      mint = mint;
      order = order;
      order_ata = order_ata;
      escrow_ata = escrow_ata;
      bump = bump;
      ledger = l₂;
    })
