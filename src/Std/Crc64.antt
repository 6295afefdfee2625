-- ===== src/Std/Crc64.antt =====
-- `crc64.Checksum` with the table of the ECMA polynomial, bit by bit.
use Prim.Native.Nat.{bit_xor}
use k_lsm_engine.Prelude.{
  ℕ, zero, suc, ◌-◌, ◌/◌, ◌%◌, ◌^◌, ◌<◌, ◌≡◌, refl, [], ◌∷◌, arith, ◌==◌, if◌then◌else◌, Bytes,
}

abbrev poly : ℕ
poly = 0xC96C5795D7870F42

abbrev mask : ℕ
mask = 0xFFFFFFFFFFFFFFFF

step_bits : ℕ → ℕ → ℕ
step_bits zero crc = crc
step_bits (suc n) crc = step_bits n (if crc % 2 == 1 then bit_xor (crc / 2) poly else crc / 2)

update : ℕ → Bytes → ℕ
update crc [] = crc
update crc (b ∷ bs) = update (step_bits 8 (bit_xor crc b)) bs

-- The complement of a uint64 is its distance from the mask.
unfoldable pub checksum : Bytes → ℕ
unfolding update step_bits
checksum bs = mask - update mask bs

pub checksum-lt : (bs : Bytes) → checksum bs < 2 ^ 64
unfolding checksum
checksum-lt bs = omega arith

-- The check value of this CRC, for the digits 1 to 9.
checksum_digits : checksum (49 ∷ 50 ∷ 51 ∷ 52 ∷ 53 ∷ 54 ∷ 55 ∷ 56 ∷ 57 ∷ []) ≡ 0x995DC9BBDF1939FA
unfolding checksum
checksum_digits = refl
