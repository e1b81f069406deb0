-- ===== src/Platform/Accounts/Facts.antt =====
-- What the checks of an account say, where they pass.
use solana_crosschain_protoc.Base.{
  ℕ, ◌≡◌, ◌≢◌, refl, sym, ap, subst, ◌∙◌, Option, none, some, Option-cases, inl, inr, ok, >>=-eq-ok,
  arith,
}
use solana_crosschain_protoc.Ledger.{TokenAccount, Ledger, balance}
use solana_crosschain_protoc.Platform.{Platform}
use solana_crosschain_protoc.Platform.Accounts.{
  MintInfo, TokenInfo, load_mint, load_associated, load_optional,
}

pub load_mint-key : (l : Ledger) (k : ℕ) {m : MintInfo} → load_mint l k ≡ ok m → m.key ≡ k
load_mint-key l k h = elim (Option-cases (l.mints k)) [
  | inl e ↦ absurd (ground arith)
  | inr (d, e) ↦ ground arith
]

module _ (p : Platform) where
  -- The associated token account of an authority, as it was at the start.
  pub record IsAssociated (l : Ledger) (k mint authority program : ℕ) (t : TokenInfo) : Type 0 where
    pub found : TokenAccount
    pub present : l.tokens k ≡ some found
    pub owned : found.owner ≡ authority
    pub minted : found.mint ≡ mint
    pub derived : k ≡ p.associated_token_address authority mint program
    pub key_is : t.key ≡ k
    pub amount_is : t.amount ≡ balance l k

  pub load_associated-IsAssociated :
      (l : Ledger) (k mint authority program : ℕ) {t : TokenInfo}
      → load_associated p l k mint authority program ≡ ok t
      → IsAssociated l k mint authority program t
  unfolding load_associated
  load_associated-IsAssociated l k mint authority program h = elim (Option-cases (l.tokens k)) [
    | inl absent ↦ absurd (ground arith)
    | inr (s, e) ↦ record {
      found = s;
      present = e;
      owned = ground arith;
      minted = ground arith;
      derived = ground arith;
      key_is = ground arith;
      amount_is = ground arith;
    }
  ]

  -- Two authorities' accounts are two accounts.
  pub IsAssociated-ne :
      {l : Ledger} {k j mint mint' authority authority' program program' : ℕ} {t s : TokenInfo}
      → IsAssociated l k mint authority program t
      → IsAssociated l j mint' authority' program' s
      → authority ≢ authority'
      → k ≢ j
  IsAssociated-ne {l} g h d e =
      let same : g.found ≡ h.found = cc (g.present, ap l.tokens e, h.present) in
      d (sym g.owned ∙ ap (λ (o : TokenAccount). o.owner) same ∙ h.owned)

  pub load_optional-IsAssociated :
      (l : Ledger) (k : Option ℕ) (mint authority program : ℕ) {t : TokenInfo}
      → load_optional p l k mint authority program ≡ ok (some t)
      → (j : ℕ) × (k ≡ some j) × IsAssociated l j mint authority program t
  unfolding load_optional
  load_optional-IsAssociated l none mint authority program h = cc
  load_optional-IsAssociated l (some j) mint authority program {t} h =
      let (s, e, q) = >>=-eq-ok (load_associated p l j mint authority program) _ h in
      (
        j,
        refl,
        subst (λ x. IsAssociated l j mint authority program x) (let e' : s ≡ t = cc in e')
            (load_associated-IsAssociated l j mint authority program e),
      )
