-- ===== src/Std/Quote/Chars.antt =====
-- How a quoted character of any width is read.
use mathlib.Core.Path.{subst}
use k_lsm_engine.Prelude.{
  ℕ, zero, suc, ◌+◌, ◌*◌, ◌/◌, ◌%◌, ◌≤◌, ◌<◌, ◌≡◌, inl, inr, refl, ap, ◌∙◌, Bool, true, false, some,
  [], ◌∷◌, ◌++◌, length, take, arith, ltb, leb, ◌==◌, Bool-cases, length-append, Bytes,
  append_assoc,
}
use k_lsm_engine.Std.Utf8.{
  rune_start, are_trailing, is_rune, rune_rest, rune_value, is_valid_rune, encode_rune,
}
use k_lsm_engine.Std.Utf8.Runes.{IsRune, is_rune-IsRune, are_trailing-IsKept, is_rune-high}
use k_lsm_engine.Std.Quote.{
  hex2, hex4, escape_rune, width_after, quote_char, hex_value, rune_escape, unquote_escape,
  unquote_char,
}
use k_lsm_engine.Std.Quote.Escapes.{
  IsGraphic, IsRead, hex_value-hex4, hex_byte-IsRead, quote_ascii-IsRead,
}

trailing-IsGraphic :
    (n low high : ℕ) (s : Bytes)
    → 32 ≤ low
    → are_trailing n low high s ≡ true
    → IsGraphic (take n s)
unfolding are_trailing
trailing-IsGraphic zero low high s le h = tt
trailing-IsGraphic (suc n) low high [] le h = tt
trailing-IsGraphic (suc n) low high (c ∷ s) le h =
    (ground arith, trailing-IsGraphic n 0x80 0xBF s (omega arith) (ground arith))

rune_start-low : (b : ℕ) → 32 ≤ (rune_start b).low
unfolding rune_start
rune_start-low b = ground arith

-- A rune that is copied.
raw-IsRead :
    (b : ℕ) (s : Bytes)
    → is_rune (rune_start b) s ≡ true
    → IsRead (b ∷ rune_rest b s) (b ∷ rune_rest b s)
unfolding unquote_char rune_rest is_rune
raw-IsRead b s h =
    let r = rune_start b in
    let high = is_rune-high b s h in
    let trailing : are_trailing r.after r.low r.high s ≡ true = ground arith in
    record {
      first = b;
      others = rune_rest b s;
      starts = refl;
      no_mark = omega arith;
      no_newline = omega arith;
      reads = λ rest.
          let k = are_trailing-IsKept r.after r.low r.high s rest trailing in
          let mark : (b == b'"') ≡ false = ground arith in
          let above : leb 0x80 b ≡ true = ground arith in
          let some_after : ltb 0 r.after ≡ true = ground arith in
          rw (mark, above, some_after, k.trailing, k.taken, k.dropped) refl;
      graphic =
          (omega arith, trailing-IsGraphic r.after r.low r.high s (rune_start-low b) trailing);
      long = omega arith;
    }

hex4-IsGraphic : (n : ℕ) → IsGraphic (hex4 n)
unfolding hex4 hex2
hex4-IsGraphic n = ground arith

pub IsGraphic-append : (a b : Bytes) → IsGraphic a → IsGraphic b → IsGraphic (a ++ b)
IsGraphic-append [] b h h' = h'
IsGraphic-append (x ∷ a) b h h' = (h.0, IsGraphic-append a b h.1 h')

rune_escape_of :
    (r : ℕ) (rest : Bytes)
    → is_valid_rune r ≡ true
    → rune_escape (some (r, rest)) ≡ some (encode_rune r, rest)
unfolding rune_escape
rune_escape_of r rest h = rw h refl

length-hex4 : (n : ℕ) → length (hex4 n) ≡ 4
unfolding hex4 hex2
length-hex4 n = refl

length-encode_rune : (r : ℕ) → length (encode_rune r) ≤ 4
unfolding encode_rune
length-encode_rune r = ground arith

small_escape-IsRead :
    (r : ℕ) → r < 0x10000 → is_valid_rune r ≡ true → IsRead (b'\\' ∷ b'u' ∷ hex4 r) (encode_rune r)
unfolding unquote_char unquote_escape
small_escape-IsRead r h valid = record {
  first = b'\\';
  others = b'u' ∷ hex4 r;
  starts = refl;
  no_mark = omega arith;
  no_newline = omega arith;
  reads = λ rest.
      ap rune_escape (hex_value-hex4 0 0 r rest ∙ ap (λ (v : ℕ). some (v, rest)) (omega arith))
      ∙ rune_escape_of r rest valid;
  graphic = (omega arith, (omega arith, hex4-IsGraphic r));
  long = omega (arith, length-encode_rune r, length-hex4 r);
}

large_escape-IsRead :
    (r : ℕ)
    → r < 0x110000
    → is_valid_rune r ≡ true
    → IsRead (b'\\' ∷ b'U' ∷ (hex4 (r / 0x10000) ++ hex4 r)) (encode_rune r)
unfolding unquote_char unquote_escape
large_escape-IsRead r h valid = record {
  first = b'\\';
  others = b'U' ∷ (hex4 (r / 0x10000) ++ hex4 r);
  starts = refl;
  no_mark = omega arith;
  no_newline = omega arith;
  reads = λ rest.
      ap rune_escape (
        ap (hex_value 8 0) (append_assoc (hex4 (r / 0x10000)) (hex4 r) rest)
        ∙ hex_value-hex4 4 0 (r / 0x10000) (hex4 r ++ rest)
        ∙ hex_value-hex4 0 (0 * 65536 + r / 0x10000 % 65536) r rest
        ∙ ap (λ (v : ℕ). some (v, rest)) (omega arith))
      ∙ rune_escape_of r rest valid;
  graphic = (
    omega arith,
    (
      omega arith,
      IsGraphic-append (hex4 (r / 0x10000)) (hex4 r) (hex4-IsGraphic (r / 0x10000))
          (hex4-IsGraphic r),
    ),
  );
  long = omega (
    arith,
    length-encode_rune r,
    length-append (hex4 (r / 0x10000)) (hex4 r),
    length-hex4 r,
    length-hex4 (r / 0x10000),
  );
}

escape_rune-IsRead :
    (b : ℕ) (cs : Bytes) → IsRune b cs → IsRead (escape_rune (rune_value b cs)) (b ∷ cs)
unfolding escape_rune
escape_rune-IsRead b cs u =
    let r = rune_value b cs in
    subst (IsRead (escape_rune r)) u.encodes (elim (Bool-cases (ltb r 0x10000)) [
      | inl small ↦ rw small (small_escape-IsRead r (ground arith) u.valid)
      | inr large ↦ rw large (large_escape-IsRead r u.below u.valid)
    ])

module _ (is_print : ℕ → Bool) where
  pub quote_char-IsRead :
      (b : ℕ) (s : Bytes)
      → b < 256
      → IsRead (quote_char is_print b s) (b ∷ take (width_after b s) s)
  unfolding quote_char width_after rune_rest
  quote_char-IsRead b s h = elim (Bool-cases (ltb b 0x80)) [
    | inl plain ↦ rw plain (quote_ascii-IsRead b (ground arith))
    | inr high ↦ elim (Bool-cases (is_rune (rune_start b) s)) [
      | inr invalid ↦ rw (high, invalid) (hex_byte-IsRead b h)
      | inl rune ↦ elim (Bool-cases (is_print (rune_value b (rune_rest b s)))) [
        | inl printable ↦ rw (high, rune, printable) (raw-IsRead b s rune)
        | inr hidden ↦
            rw (high, rune, hidden) (escape_rune-IsRead b (rune_rest b s) (is_rune-IsRune b s rune))
      ]
    ]
  ]
