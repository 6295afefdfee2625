-- ===== src/Std/Utf8/Runes.antt =====
-- The number of a valid rune, encoded again, gives its bytes.
use k_lsm_engine.Prelude.{
  ℕ, zero, suc, ◌+◌, ◌*◌, ◌≤◌, ◌<◌, ◌≡◌, ◌⊎◌, inl, inr, refl, ap, true, ◌&&◌, [], ◌∷◌, ◌++◌, ltb,
  leb, ◌==◌, Bytes, take, drop, Bool-cases, arith,
}
use k_lsm_engine.Std.Utf8.{
  rune_start, are_trailing, is_rune, rune_rest, rune_value, is_valid_rune, encode_rune,
}

pub record IsRune (b : ℕ) (cs : Bytes) : Type 0 where
  pub valid : is_valid_rune (rune_value b cs) ≡ true
  pub encodes : encode_rune (rune_value b cs) ≡ b ∷ cs
  pub above : 0x80 ≤ rune_value b cs
  pub below : rune_value b cs < 0x110000

-- What the first byte says of the ones behind it.
abbrev Fits : ℕ → ℕ → ℕ → ℕ → Type 0
Fits b zero low high = Unit
Fits b (suc zero) low high = (0xC2 ≤ b) × (b ≤ 0xDF) × (0x80 ≤ low) × (high ≤ 0xBF)
Fits b (suc (suc zero)) low high =
    (0xE0 ≤ b)
    × (b ≤ 0xEF)
    × (0x80 ≤ low)
    × (high ≤ 0xBF)
    × (0xE0 * 64 + 0xA0 ≤ b * 64 + low)
    × ((b * 64 + high ≤ 0xED * 64 + 0x9F) ⊎ (0xEE ≤ b))
Fits b (suc (suc (suc zero))) low high =
    (0xF0 ≤ b)
    × (b ≤ 0xF4)
    × (0x80 ≤ low)
    × (high ≤ 0xBF)
    × (0xF0 * 64 + 0x90 ≤ b * 64 + low)
    × (b * 64 + high ≤ 0xF4 * 64 + 0x8F)
Fits b (suc (suc (suc (suc n)))) low high = ⊥

rune_start-Fits : (b : ℕ) → Fits b (rune_start b).after (rune_start b).low (rune_start b).high
unfolding rune_start
rune_start-Fits b = elim (Bool-cases (leb 0xC2 b && leb b 0xDF)) [
  | inl e ↦ rw e (ground arith)
  | inr n1 ↦ elim (Bool-cases (b == 0xE0)) [
    | inl e ↦ rw (n1, e) (ground arith)
    | inr n2 ↦ elim (Bool-cases (b == 0xED)) [
      | inl e ↦ rw (n1, n2, e) (ground arith)
      | inr n3 ↦ elim (Bool-cases (leb 0xE1 b && leb b 0xEF)) [
        | inl e ↦ rw (n1, n2, n3, e) (ground arith)
        | inr n4 ↦ elim (Bool-cases (b == 0xF0)) [
          | inl e ↦ rw (n1, n2, n3, n4, e) (ground arith)
          | inr n5 ↦ elim (Bool-cases (leb 0xF1 b && leb b 0xF3)) [
            | inl e ↦ rw (n1, n2, n3, n4, n5, e) (ground arith)
            | inr n6 ↦ elim (Bool-cases (b == 0xF4)) [
              | inl e ↦ rw (n1, n2, n3, n4, n5, n6, e) (ground arith)
              | inr n7 ↦ rw (n1, n2, n3, n4, n5, n6, n7) tt
            ]
          ]
        ]
      ]
    ]
  ]
]

two_bytes : (b c : ℕ) → 0xC2 ≤ b → b ≤ 0xDF → 0x80 ≤ c → c ≤ 0xBF → IsRune b (c ∷ [])
unfolding is_valid_rune encode_rune rune_value
two_bytes b c h h' k k' = record {
  valid = ground arith;
  encodes = ground arith;
  above = omega arith;
  below = omega arith;
}

three_bytes :
    (b c d : ℕ)
    → 0xE0 ≤ b
    → b ≤ 0xEF
    → 0x80 ≤ c
    → c ≤ 0xBF
    → 0xE0 * 64 + 0xA0 ≤ b * 64 + c
    → (b * 64 + c ≤ 0xED * 64 + 0x9F) ⊎ (0xEE ≤ b)
    → 0x80 ≤ d
    → d ≤ 0xBF
    → IsRune b (c ∷ d ∷ [])
unfolding is_valid_rune encode_rune rune_value
three_bytes b c d h h' k k' low high m m' = record {
  valid = ground arith;
  encodes = ground arith;
  above = omega arith;
  below = omega arith;
}

four_bytes :
    (b c d e : ℕ)
    → 0xF0 ≤ b
    → b ≤ 0xF4
    → 0x80 ≤ c
    → c ≤ 0xBF
    → 0xF0 * 64 + 0x90 ≤ b * 64 + c
    → b * 64 + c ≤ 0xF4 * 64 + 0x8F
    → 0x80 ≤ d
    → d ≤ 0xBF
    → 0x80 ≤ e
    → e ≤ 0xBF
    → IsRune b (c ∷ d ∷ e ∷ [])
unfolding is_valid_rune encode_rune rune_value
four_bytes b c d e h h' k k' low high m m' n n' = record {
  valid = ground arith;
  encodes = ground arith;
  above = omega arith;
  below = omega arith;
}

IsRune-trailing :
    (b n low high : ℕ) (s : Bytes)
    → Fits b n low high
    → (ltb 0 n && are_trailing n low high s) ≡ true
    → IsRune b (take n s)
unfolding are_trailing
IsRune-trailing b zero low high s f h = cc
IsRune-trailing b (suc zero) low high [] f h = cc
IsRune-trailing b (suc zero) low high (c ∷ s) f h =
    two_bytes b c f.0 f.1 (ground arith) (ground arith)
IsRune-trailing b (suc (suc zero)) low high [] f h = cc
IsRune-trailing b (suc (suc zero)) low high (c ∷ []) f h = ground arith
IsRune-trailing b (suc (suc zero)) low high (c ∷ d ∷ s) f h =
    let bounds : (low ≤ c) × (c ≤ high) × (0x80 ≤ d) × (d ≤ 0xBF) = ground arith in
    three_bytes b c d f.0 f.1 (omega arith) (omega arith) (omega arith) (ground arith) bounds.2
      bounds.3
IsRune-trailing b (suc (suc (suc zero))) low high [] f h = cc
IsRune-trailing b (suc (suc (suc zero))) low high (c ∷ []) f h = ground arith
IsRune-trailing b (suc (suc (suc zero))) low high (c ∷ d ∷ []) f h = ground arith
IsRune-trailing b (suc (suc (suc zero))) low high (c ∷ d ∷ e ∷ s) f h =
    let bounds : (low ≤ c) × (c ≤ high) × (0x80 ≤ d) × (d ≤ 0xBF) × (0x80 ≤ e) × (e ≤ 0xBF) =
      ground arith in
    four_bytes b c d e f.0 f.1 (omega arith) (omega arith) (omega arith) (omega arith) bounds.2
      bounds.3 bounds.4 bounds.5
IsRune-trailing b (suc (suc (suc (suc n)))) low high s f h = absurd f

pub is_rune-IsRune :
    (b : ℕ) (s : Bytes) → is_rune (rune_start b) s ≡ true → IsRune b (rune_rest b s)
unfolding is_rune rune_rest
is_rune-IsRune b s h =
    let r = rune_start b in IsRune-trailing b r.after r.low r.high s (rune_start-Fits b) h

-- The bytes behind the first one can be taken off again, whatever follows.
pub record IsKept (n low high : ℕ) (s rest : Bytes) : Type 0 where
  pub trailing : are_trailing n low high (take n s ++ rest) ≡ true
  pub taken : take n (take n s ++ rest) ≡ take n s
  pub dropped : drop n (take n s ++ rest) ≡ rest

pub are_trailing-IsKept :
    (n low high : ℕ) (s rest : Bytes) → are_trailing n low high s ≡ true → IsKept n low high s rest
unfolding are_trailing
are_trailing-IsKept zero low high s rest h = record {
  trailing = refl;
  taken = refl;
  dropped = refl;
}
are_trailing-IsKept (suc n) low high [] rest h = cc
are_trailing-IsKept (suc n) low high (c ∷ s) rest h =
    let k = are_trailing-IsKept n 0x80 0xBF s rest (ground arith) in
    record {
      trailing = ground (arith, k.trailing);
      taken = ap (◌∷◌ c) k.taken;
      dropped = k.dropped;
    }

pub is_rune-high : (b : ℕ) (s : Bytes) → is_rune (rune_start b) s ≡ true → 0x80 ≤ b
unfolding is_rune rune_start
is_rune-high b s h = ground arith
