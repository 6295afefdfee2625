-- ===== src/Std/Crc32.antt =====
-- `crc32.ChecksumIEEE`, bit by bit, and `fmt.Sprintf("%08x", sum)`.
use Prim.Native.Nat.{bit_xor}
use k_lsm_engine.Prelude.{
  ℕ, zero, suc, ◌+◌, ◌-◌, ◌/◌, ◌%◌, ◌≡◌, refl, [], ◌∷◌, ◌==◌, ltb, if◌then◌else◌, Bytes,
}

abbrev poly : ℕ
poly = 0xEDB88320

abbrev mask : ℕ
mask = 0xFFFFFFFF

step_bits : ℕ → ℕ → ℕ
step_bits zero crc = crc
step_bits (suc n) crc = step_bits n (if crc % 2 == 1 then bit_xor (crc / 2) poly else crc / 2)

update : ℕ → Bytes → ℕ
update crc [] = crc
update crc (b ∷ bs) = update (step_bits 8 (bit_xor crc b)) bs

unfoldable pub checksum_ieee : Bytes → ℕ
unfolding update step_bits
checksum_ieee bs = mask - update mask bs

-- The check value of this CRC, for the digits 1 to 9.
checksum_digits : checksum_ieee (49 ∷ 50 ∷ 51 ∷ 52 ∷ 53 ∷ 54 ∷ 55 ∷ 56 ∷ 57 ∷ []) ≡ 0xCBF43926
unfolding checksum_ieee
checksum_digits = refl

-- the lower case digit
abbrev pub hex_digit : ℕ → ℕ
hex_digit d = if ltb d 10 then 48 + d else 87 + d

hex_digits : ℕ → ℕ → Bytes → Bytes
hex_digits zero n tail = tail
hex_digits (suc w) n tail = hex_digits w (n / 16) (hex_digit (n % 16) ∷ tail)

-- the last eight digits in base 16, which are all of a 32-bit number
unfoldable pub hex8 : ℕ → Bytes
unfolding hex_digits
hex8 n = hex_digits 8 n []
