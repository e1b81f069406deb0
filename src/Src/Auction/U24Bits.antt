-- ===== src/Src/Auction/U24Bits.antt =====
-- The bytes of a 24-bit number.
use solana_crosschain_protoc.Base.{ℕ, ◌+◌, ◌*◌, ◌/◌, ◌%◌, ◌^◌, ◌<◌, ◌≡◌, ok, ◌>>=◌, arith}
use solana_crosschain_protoc.Base.Bits.{or_fields}
use solana_crosschain_protoc.Src.Auction.{U24, IsU24, to_u32, to_u64, from_u32}

-- The shifts and unions are the big-endian value.
pub to_u32_value : (n : U24) → IsU24 n → to_u32 n ≡ n.byte0 * 2 ^ 16 + n.byte1 * 2 ^ 8 + n.byte2
unfolding to_u32
to_u32_value n h =
    ground (
      arith,
      or_fields 16 n.byte0 (n.byte1 * 2 ^ 8),
      or_fields 8 (n.byte0 * 2 ^ 8 + n.byte1) n.byte2,
    )

pub to_u64-lt : (n : U24) → IsU24 n → to_u64 n < 2 ^ 24
unfolding to_u64
to_u64-lt n h = omega (arith, to_u32_value n h)

-- Below 2^24, `From<u32>` succeeds, and `to_u32` gives back the number.
pub from_u32-to_u32 : (val : ℕ) → val < 2 ^ 24 → (from_u32 val >>= λ n. ok (to_u32 n)) ≡ ok val
unfolding from_u32
from_u32-to_u32 val h = ground (
  arith,
  to_u32_value
      (record { byte0 = val / 2 ^ 16 % 256; byte1 = val / 2 ^ 8 % 256; byte2 = val % 256 }),
)

-- `to_u32` then `From<u32>` gives back the bytes.
pub to_u32-from_u32 : (n : U24) → IsU24 n → from_u32 (to_u32 n) ≡ ok n
unfolding from_u32
to_u32-from_u32 n h = ground (arith, to_u32_value n h)
