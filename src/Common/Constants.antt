-- ===== src/Common/Constants.antt =====
-- common/src/constants.rs
use solana_crosschain_protoc.Base.{ℕ}

abbrev pub discriminator_bytes : ℕ
discriminator_bytes = 8

-- Eight days, in seconds.
abbrev pub rescue_delay : ℕ
rescue_delay = 691200

abbrev pub base_1e7 : ℕ
base_1e7 = 10_000_000
