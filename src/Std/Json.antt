-- ===== src/Std/Json.antt =====
-- `json.Marshal` of a string, with the escapes of encoding/json: control characters, quotes, the
-- characters <, > and &, U+2028 and U+2029, and U+FFFD for a byte that is no valid UTF-8.
use k_lsm_engine.Prelude.{
  ℕ, zero, suc, ◌/◌, ◌%◌, ◌≤◌, ◌≡◌, ◌≢◌, inl, inr, Bool, true, false, ◌&&◌, ◌||◌, [], ◌∷◌, ◌++◌,
  All, arith, ltb, ◌==◌, if◌then◌else◌, Bool-cases, Bytes,
}
use k_lsm_engine.Std.Crc32.{hex_digit}
use k_lsm_engine.Std.Utf8.{rune_start, are_trailing, is_rune}

-- whether the rune is U+2028 or U+2029
is_separator : ℕ → Bytes → Bool
is_separator b [] = false
is_separator b (c ∷ []) = false
is_separator b (c ∷ d ∷ s) = b == 0xE2 && c == 0x80 && (d == 0xA8 || d == 0xA9)

last_digit : Bytes → ℕ
last_digit [] = 48
last_digit (c ∷ []) = 48
last_digit (c ∷ d ∷ s) = hex_digit (d % 16)

-- a byte below 0x80
ascii : ℕ → Bytes
ascii b =
    if b == 34 || b == 92
    then 92 ∷ b ∷ []
    else if b == 8
    then 92 ∷ 98 ∷ []
    else if b == 12
    then 92 ∷ 102 ∷ []
    else if b == 10
    then 92 ∷ 110 ∷ []
    else if b == 13
    then 92 ∷ 114 ∷ []
    else if b == 9
    then 92 ∷ 116 ∷ []
    else if ltb b 32 || b == 60 || b == 62 || b == 38
    then 92 ∷ 117 ∷ 48 ∷ 48 ∷ hex_digit (b / 16) ∷ hex_digit (b % 16) ∷ []
    else b ∷ []

-- What becomes of the bytes of a rune behind its first one.
pub data Pending : Type 0 where
  copied dropped : ℕ → Pending

-- between two runes: the first byte, and the escape of the rest
escape_rune : ℕ → Bytes → (Pending → Bytes) → Bytes
escape_rune b s rest =
    let start = rune_start b in
    if ltb b 0x80
    then ascii b ++ rest (copied 0)
    else if is_separator b s
    then 92 ∷ 117 ∷ 50 ∷ 48 ∷ 50 ∷ last_digit s ∷ rest (dropped 2)
    else if is_rune start s
    then b ∷ rest (copied start.after)
    else 92 ∷ 117 ∷ 102 ∷ 102 ∷ 102 ∷ 100 ∷ rest (copied 0)

escape : Pending → Bytes → Bytes
escape pending [] = []
escape (copied zero) (b ∷ s) = escape_rune b s (λ p. escape p s)
escape (copied (suc n)) (b ∷ s) = b ∷ escape (copied n) s
escape (dropped zero) (b ∷ s) = escape_rune b s (λ p. escape p s)
escape (dropped (suc n)) (b ∷ s) = escape (dropped n) s

unfoldable pub encode_string : Bytes → Bytes
unfolding escape escape_rune ascii rune_start are_trailing is_rune is_separator last_digit
encode_string s = 34 ∷ escape (copied 0) s ++ 34 ∷ []

-- The bytes that are copied hold no newline.
abbrev IsPending : Pending → Bytes → Type 0
IsPending (copied zero) s = Unit {0}
IsPending (copied (suc n)) [] = Unit {0}
IsPending (copied (suc n)) (b ∷ s) = (b ≢ 10) × IsPending (copied n) s
IsPending (dropped n) s = Unit {0}

abbrev pub HasNoNewline : Bytes → Type 0
HasNoNewline s = All (λ b. b ≢ 10) s

pub HasNoNewline-append : (a b : Bytes) → HasNoNewline a → HasNoNewline b → HasNoNewline (a ++ b)
HasNoNewline-append [] b h h' = h'
HasNoNewline-append (x ∷ a) b h h' = (h.0, HasNoNewline-append a b h.1 h')

are_trailing-IsPending :
    (n low high : ℕ) (s : Bytes)
    → 128 ≤ low
    → are_trailing n low high s ≡ true
    → IsPending (copied n) s
unfolding are_trailing
are_trailing-IsPending zero low high s le h = tt
are_trailing-IsPending (suc n) low high [] le h = tt
are_trailing-IsPending (suc n) low high (b ∷ s) le h =
    (ground arith, are_trailing-IsPending n 0x80 0xBF s (omega arith) (ground arith))

rune_start-low : (b : ℕ) → 128 ≤ (rune_start b).low
unfolding rune_start
rune_start-low b = ground arith

is_rune-IsPending :
    (b : ℕ) (s : Bytes)
    → is_rune (rune_start b) s ≡ true
    → IsPending (copied (rune_start b).after) s
unfolding is_rune
is_rune-IsPending b s h =
    let r = rune_start b in
    are_trailing-IsPending r.after r.low r.high s (rune_start-low b) (ground arith)

hex_digit-ne_newline : (d : ℕ) → hex_digit d ≢ 10
hex_digit-ne_newline d = ground arith

ascii-HasNoNewline : (b : ℕ) → HasNoNewline (ascii b)
unfolding ascii
ascii-HasNoNewline b = ground (arith, hex_digit-ne_newline (b / 16), hex_digit-ne_newline (b % 16))

last_digit-ne_newline : (s : Bytes) → last_digit s ≢ 10
unfolding last_digit
last_digit-ne_newline [] = omega arith
last_digit-ne_newline (c ∷ []) = omega arith
last_digit-ne_newline (c ∷ d ∷ s) = hex_digit-ne_newline (d % 16)

escape_rune-HasNoNewline :
    (b : ℕ) (s : Bytes) (rest : Pending → Bytes)
    → ((p : Pending) → IsPending p s → HasNoNewline (rest p))
    → HasNoNewline (escape_rune b s rest)
unfolding escape_rune
escape_rune-HasNoNewline b s rest h = elim (Bool-cases (ltb b 0x80)) [
  | inl plain ↦
      rw plain
        (HasNoNewline-append (ascii b) (rest (copied 0)) (ascii-HasNoNewline b) (h (copied 0) tt))
  | inr high ↦ elim (Bool-cases (is_separator b s)) [
    | inl separator ↦
        let later = h (dropped 2) tt in
        rw (high, separator)
          (HasNoNewline-append (92 ∷ 117 ∷ 50 ∷ 48 ∷ 50 ∷ []) (last_digit s ∷ rest (dropped 2))
            (omega arith) (last_digit-ne_newline s, later))
    | inr single ↦ elim (Bool-cases (is_rune (rune_start b) s)) [
      | inl rune ↦
          rw (high, single, rune)
            (ground arith, h (copied (rune_start b).after) (is_rune-IsPending b s rune))
      | inr invalid ↦
          rw (high, single, invalid)
            (HasNoNewline-append (92 ∷ 117 ∷ 102 ∷ 102 ∷ 102 ∷ 100 ∷ []) (rest (copied 0))
              (omega arith) (h (copied 0) tt))
    ]
  ]
]

escape-HasNoNewline : (p : Pending) (s : Bytes) → IsPending p s → HasNoNewline (escape p s)
unfolding escape
escape-HasNoNewline (copied zero) [] h = tt
escape-HasNoNewline (copied (suc n)) [] h = tt
escape-HasNoNewline (dropped zero) [] h = tt
escape-HasNoNewline (dropped (suc n)) [] h = tt
escape-HasNoNewline (copied zero) (b ∷ s) h =
    escape_rune-HasNoNewline b s (λ p. escape p s) (λ p. escape-HasNoNewline p s)
escape-HasNoNewline (copied (suc n)) (b ∷ s) h = (h.0, escape-HasNoNewline (copied n) s h.1)
escape-HasNoNewline (dropped zero) (b ∷ s) h =
    escape_rune-HasNoNewline b s (λ p. escape p s) (λ p. escape-HasNoNewline p s)
escape-HasNoNewline (dropped (suc n)) (b ∷ s) h = escape-HasNoNewline (dropped n) s tt

pub encode_string-HasNoNewline : (s : Bytes) → HasNoNewline (encode_string s)
unfolding encode_string
encode_string-HasNoNewline s = (
  omega arith,
  HasNoNewline-append (escape (copied 0) s) (34 ∷ []) (escape-HasNoNewline (copied 0) s tt)
      (omega arith),
)
