-- ===== src/Crc.antt =====
-- hash/crc32 with the Castagnoli polynomial, one byte at a time and without the table.
use gigaquizz.Common.{
  ℕ, zero, suc, ◌-◌, ◌/◌, ◌%◌, ◌^◌, ◌<◌, ◌≡◌, refl, [], ◌∷◌, ◌==◌, if◌then◌else◌, arith,
}
use gigaquizz.Common.Bytes.{Bytes}
use Prim.Native.Nat.{bit_xor}

crc_rounds : ℕ → ℕ → ℕ
crc_rounds zero c = c
crc_rounds (suc n) c = crc_rounds n (if c % 2 == 1 then bit_xor (c / 2) 0x82f63b78 else c / 2)

crc_update : ℕ → Bytes → ℕ
unfolding crc_rounds
crc_update c [] = c
crc_update c (b ∷ bs) = crc_update (crc_rounds 8 (bit_xor c b)) bs

-- `crc32.Checksum(b, crcTable)`; `~c` on uint32 is 2 ^ 32 - 1 - c.
unfoldable pub checksum : Bytes → ℕ
unfolding crc_update
checksum b = 2 ^ 32 - 1 - crc_update (2 ^ 32 - 1) b

pub checksum-lt : (b : Bytes) → checksum b < 2 ^ 32
unfolding checksum
checksum-lt b = omega arith

-- The check value of CRC-32C: the checksum of the text 123456789.
check_value :
    checksum (b'1' ∷ b'2' ∷ b'3' ∷ b'4' ∷ b'5' ∷ b'6' ∷ b'7' ∷ b'8' ∷ b'9' ∷ []) ≡ 0xe3069283
unfolding checksum
check_value = refl
