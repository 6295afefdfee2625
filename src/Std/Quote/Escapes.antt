-- ===== src/Std/Quote/Escapes.antt =====
-- How the escapes of a quoted ASCII character are read.
use mathlib.Core.Path.{subst}
use k_lsm_engine.Prelude.{
  ℕ, suc, ◌+◌, ◌*◌, ◌/◌, ◌%◌, ◌≤◌, ◌<◌, ◌≡◌, ◌≢◌, inl, inr, refl, sym, ap, ◌∙◌, true, false, ◌&&◌,
  ◌||◌, Option, some, [], ◌∷◌, ◌++◌, length, All, arith, leb, ◌==◌, Bool-cases, ==_iff, Bytes,
  append_assoc,
}
use k_lsm_engine.Std.Crc32.{hex_digit}
use k_lsm_engine.Std.Quote.{
  hex2, hex4, quote_ascii, unhex, and_then, hex_value, byte_escape, unquote_escape, unquote_char,
}

abbrev pub AreBytes : Bytes → Type 0
AreBytes s = All (λ b. b < 256) s

unhex-hex_digit : (d : ℕ) → d < 16 → unhex (hex_digit d) ≡ some d
unfolding unhex
unhex-hex_digit d h = ground arith

hex_value-digit :
    (k acc d : ℕ) (s : Bytes)
    → d < 16
    → hex_value (suc k) acc (hex_digit d ∷ s) ≡ hex_value k (acc * 16 + d) s
unfolding hex_value
hex_value-digit k acc d s h =
    ap (λ (o : Option ℕ). and_then o (λ d. hex_value k (acc * 16 + d) s)) (unhex-hex_digit d h)

hex_value-hex2 :
    (k acc n : ℕ) (s : Bytes)
    → hex_value (suc (suc k)) acc (hex2 n ++ s) ≡ hex_value k (acc * 256 + n % 256) s
unfolding hex2
hex_value-hex2 k acc n s =
    hex_value-digit (suc k) acc (n / 16 % 16) (hex_digit (n % 16) ∷ s) (omega arith)
    ∙ hex_value-digit k (acc * 16 + n / 16 % 16) (n % 16) s (omega arith)
    ∙ ap (λ (v : ℕ). hex_value k v s) (omega arith)

pub hex_value-hex4 :
    (k acc n : ℕ) (s : Bytes)
    → hex_value (suc (suc (suc (suc k)))) acc (hex4 n ++ s)
      ≡ hex_value k (acc * 65536 + n % 65536) s
unfolding hex4
hex_value-hex4 k acc n s =
    ap (hex_value (suc (suc (suc (suc k)))) acc) (append_assoc (hex2 (n / 256)) (hex2 n) s)
    ∙ hex_value-hex2 (suc (suc k)) acc (n / 256) (hex2 n ++ s)
    ∙ hex_value-hex2 k (acc * 256 + n / 256 % 256) n s
    ∙ ap (λ (v : ℕ). hex_value k v s) (omega arith)

abbrev pub IsGraphic : Bytes → Type 0
IsGraphic s = All (λ b. 32 ≤ b) s

-- The first character of what is quoted, and what it is read back as.
pub record IsRead (quoted : Bytes) (text : Bytes) : Type 0 where
  pub first : ℕ
  pub others : Bytes
  pub starts : quoted ≡ first ∷ others
  pub no_mark : first ≢ b'"'
  pub no_newline : first ≢ 10
  pub reads : (rest : Bytes) → unquote_char b'"' first (others ++ rest) ≡ some (text, rest)
  pub graphic : IsGraphic quoted
  pub long : length text ≤ length quoted

-- a byte with an escape of its own
escaped :
    (k b : ℕ) → (b == k) ≡ true → IsRead (quote_ascii k) (k ∷ []) → IsRead (quote_ascii b) (b ∷ [])
escaped k b h r = subst (λ (x : ℕ). IsRead (quote_ascii x) (x ∷ [])) (sym ((==_iff b k).0 h)) r

hex2-IsGraphic : (n : ℕ) → IsGraphic (hex2 n)
unfolding hex2
hex2-IsGraphic n = ground arith

pub hex_byte-IsRead : (b : ℕ) → b < 256 → IsRead (b'\\' ∷ b'x' ∷ hex2 b) (b ∷ [])
unfolding unquote_char unquote_escape
hex_byte-IsRead b h = record {
  first = b'\\';
  others = b'x' ∷ hex2 b;
  starts = refl;
  no_mark = omega arith;
  no_newline = omega arith;
  reads = λ rest.
      ap byte_escape (hex_value-hex2 0 0 b rest)
      ∙ ap (λ (v : ℕ). some (v ∷ [], rest)) (omega arith);
  graphic = (omega arith, (omega arith, hex2-IsGraphic b));
  long = omega arith;
}

-- a backslash and the letter of the byte
letter-IsRead :
    (b c : ℕ)
    → ((rest : Bytes) → unquote_escape b'"' (c ∷ rest) ≡ some (b ∷ [], rest))
    → 32 ≤ c
    → IsRead (b'\\' ∷ c ∷ []) (b ∷ [])
unfolding unquote_char
letter-IsRead b c reads h = record {
  first = b'\\';
  others = c ∷ [];
  starts = refl;
  no_mark = omega arith;
  no_newline = omega arith;
  reads = reads;
  graphic = (omega arith, (h, tt));
  long = omega arith;
}

plain-IsRead :
    (b : ℕ)
    → (b == b'"' || b == b'\\') ≡ false
    → (leb 32 b && leb b 126) ≡ true
    → IsRead (b ∷ []) (b ∷ [])
unfolding unquote_char
plain-IsRead b plain printable = record {
  first = b;
  others = [];
  starts = refl;
  no_mark = ground arith;
  no_newline = ground arith;
  reads = λ rest. ground arith;
  graphic = (ground arith, tt);
  long = omega arith;
}

quote_control-IsRead :
    (b : ℕ)
    → b < 0x80
    → (b == b'"' || b == b'\\') ≡ false
    → (leb 32 b && leb b 126) ≡ false
    → IsRead (quote_ascii b) (b ∷ [])
unfolding quote_ascii unquote_escape
quote_control-IsRead b h plain control = elim (Bool-cases (b == 7)) [
  | inl e ↦ escaped 7 b e (letter-IsRead 7 b'a' (λ rest. refl) (omega arith))
  | inr n7 ↦ elim (Bool-cases (b == 8)) [
    | inl e ↦ escaped 8 b e (letter-IsRead 8 b'b' (λ rest. refl) (omega arith))
    | inr n8 ↦ elim (Bool-cases (b == 12)) [
      | inl e ↦ escaped 12 b e (letter-IsRead 12 b'f' (λ rest. refl) (omega arith))
      | inr n12 ↦ elim (Bool-cases (b == 10)) [
        | inl e ↦ escaped 10 b e (letter-IsRead 10 b'n' (λ rest. refl) (omega arith))
        | inr n10 ↦ elim (Bool-cases (b == 13)) [
          | inl e ↦ escaped 13 b e (letter-IsRead 13 b'r' (λ rest. refl) (omega arith))
          | inr n13 ↦ elim (Bool-cases (b == 9)) [
            | inl e ↦ escaped 9 b e (letter-IsRead 9 b't' (λ rest. refl) (omega arith))
            | inr n9 ↦ elim (Bool-cases (b == 11)) [
              | inl e ↦ escaped 11 b e (letter-IsRead 11 b'v' (λ rest. refl) (omega arith))
              | inr n11 ↦
                  rw (plain, control, n7, n8, n12, n10, n13, n9, n11)
                    (hex_byte-IsRead b (omega arith))
            ]
          ]
        ]
      ]
    ]
  ]
]

pub quote_ascii-IsRead : (b : ℕ) → b < 0x80 → IsRead (quote_ascii b) (b ∷ [])
unfolding quote_ascii unquote_escape
quote_ascii-IsRead b h = elim (Bool-cases (b == b'"')) [
  | inl e ↦ escaped b'"' b e (letter-IsRead b'"' b'"' (λ rest. refl) (omega arith))
  | inr n34 ↦ elim (Bool-cases (b == b'\\')) [
    | inl e ↦ escaped b'\\' b e (letter-IsRead b'\\' b'\\' (λ rest. refl) (omega arith))
    | inr n92 ↦
        let plain : (b == b'"' || b == b'\\') ≡ false = ground arith in
        elim (Bool-cases (leb 32 b && leb b 126)) [
          | inl printable ↦ rw (plain, printable) (plain-IsRead b plain printable)
          | inr control ↦ quote_control-IsRead b h plain control
        ]
  ]
]
