-- ===== src/Whitelist/Ids.antt =====
-- programs/whitelist/src/lib.rs: the program's address and the seed of its state.
use solana_crosschain_protoc.Base.{ℕ, List, [], ◌∷◌}

-- `declare_id!`, decoded from base 58.
abbrev pub whitelist_id : ℕ
whitelist_id = 0xaa05f44f9210774ae68f2ee2125e274a4d5386c967dbede20a293f849366f06e

-- `b"whitelist_state"`
abbrev pub whitelist_state_seed : List ℕ
whitelist_state_seed =
    b'w' ∷ b'h' ∷ b'i' ∷ b't' ∷ b'e' ∷ b'l' ∷ b'i' ∷ b's' ∷ b't' ∷ b'_' ∷ b's' ∷ b't' ∷ b'a' ∷ b't'
    ∷ b'e' ∷ []
