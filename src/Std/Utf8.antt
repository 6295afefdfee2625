-- ===== src/Std/Utf8.antt =====
-- The runes of UTF-8.
pub mod Runes
use k_lsm_engine.Prelude.{
  ℕ, zero, suc, ◌+◌, ◌-◌, ◌*◌, ◌/◌, ◌%◌, Bool, true, false, ◌&&◌, ◌||◌, [], ◌∷◌, ltb, leb, ◌==◌,
  if◌then◌else◌, Bytes, take,
}

-- How many bytes after the first a rune of several bytes has, and the bounds of the second byte;
-- none after the first means that no such rune begins with the byte.
pub record RuneStart : Type 0 where
  pub after : ℕ
  pub low : ℕ
  pub high : ℕ

unfoldable pub rune_start : ℕ → RuneStart
rune_start b =
    if leb 0xC2 b && leb b 0xDF
    then record { after = 1; low = 0x80; high = 0xBF }
    else if b == 0xE0
    then record { after = 2; low = 0xA0; high = 0xBF }
    else if b == 0xED
    then record { after = 2; low = 0x80; high = 0x9F }
    else if leb 0xE1 b && leb b 0xEF
    then record { after = 2; low = 0x80; high = 0xBF }
    else if b == 0xF0
    then record { after = 3; low = 0x90; high = 0xBF }
    else if leb 0xF1 b && leb b 0xF3
    then record { after = 3; low = 0x80; high = 0xBF }
    else if b == 0xF4
    then record { after = 3; low = 0x80; high = 0x8F }
    else record { after = 0; low = 0x80; high = 0xBF }

-- whether so many bytes continue a rune, the first of them within the bounds
unfoldable pub are_trailing : ℕ → ℕ → ℕ → Bytes → Bool
are_trailing zero low high s = true
are_trailing (suc n) low high [] = false
are_trailing (suc n) low high (b ∷ s) = leb low b && leb b high && are_trailing n 0x80 0xBF s

-- whether the bytes that follow make a valid rune with the first one
unfoldable pub is_rune : RuneStart → Bytes → Bool
is_rune r s = ltb 0 r.after && are_trailing r.after r.low r.high s

-- the bytes behind the first one of the rune that begins there
unfoldable pub rune_rest : ℕ → Bytes → Bytes
rune_rest b s = take (rune_start b).after s

-- the number of a valid rune of several bytes
unfoldable pub rune_value : ℕ → Bytes → ℕ
rune_value b [] = b
rune_value b (c ∷ []) = (b - 0xC0) * 64 + (c - 0x80)
rune_value b (c ∷ d ∷ []) = (b - 0xE0) * 4096 + (c - 0x80) * 64 + (d - 0x80)
rune_value b (c ∷ d ∷ e ∷ s) =
    (b - 0xF0) * 262144 + (c - 0x80) * 4096 + (d - 0x80) * 64 + (e - 0x80)

-- `utf8.ValidRune`
unfoldable pub is_valid_rune : ℕ → Bool
is_valid_rune r = ltb r 0xD800 || leb 0xE000 r && leb r 0x10FFFF

-- `utf8.AppendRune` of a valid rune
unfoldable pub encode_rune : ℕ → Bytes
encode_rune r =
    if ltb r 0x80
    then r ∷ []
    else if ltb r 0x800
    then (0xC0 + r / 64) ∷ (0x80 + r % 64) ∷ []
    else if ltb r 0x10000
    then (0xE0 + r / 4096) ∷ (0x80 + r / 64 % 64) ∷ (0x80 + r % 64) ∷ []
    else (0xF0 + r / 262144) ∷ (0x80 + r / 4096 % 64) ∷ (0x80 + r / 64 % 64) ∷ (0x80 + r % 64) ∷ []
