-- ===== src/Std/Quote.antt =====
-- `strconv.Quote`, which `fmt.Sprintf("%q", s)` is, and `strconv.Unquote`. Which runes above ASCII
-- are printable is given.
pub mod Escapes
pub mod Chars
pub mod RoundTrip
use k_lsm_engine.Prelude.{
  ℕ, zero, suc, ◌+◌, ◌-◌, ◌*◌, ◌/◌, ◌%◌, Bool, true, false, ◌&&◌, ◌||◌, not, Option, none, some, [],
  ◌∷◌, ◌++◌, length, take, drop, ltb, leb, ◌==◌, if◌then◌else◌, Bytes,
}
use k_lsm_engine.Std.Crc32.{hex_digit}
use k_lsm_engine.Std.Utf8.{
  RuneStart, rune_start, are_trailing, is_rune, rune_rest, rune_value, is_valid_rune, encode_rune,
}

pub hex2 : ℕ → Bytes
hex2 n = hex_digit (n / 16 % 16) ∷ hex_digit (n % 16) ∷ []

pub hex4 : ℕ → Bytes
unfolding hex2
hex4 n = hex2 (n / 256) ++ hex2 n

-- an ASCII character
pub quote_ascii : ℕ → Bytes
unfolding hex2
quote_ascii b =
    if b == b'"' || b == b'\\'
    then b'\\' ∷ b ∷ []
    else if leb 32 b && leb b 126
    then b ∷ []
    else if b == 7
    then b'\\' ∷ b'a' ∷ []
    else if b == 8
    then b'\\' ∷ b'b' ∷ []
    else if b == 12
    then b'\\' ∷ b'f' ∷ []
    else if b == 10
    then b'\\' ∷ b'n' ∷ []
    else if b == 13
    then b'\\' ∷ b'r' ∷ []
    else if b == 9
    then b'\\' ∷ b't' ∷ []
    else if b == 11
    then b'\\' ∷ b'v' ∷ []
    else b'\\' ∷ b'x' ∷ hex2 b

-- a rune above ASCII that is not printable
escape_rune : ℕ → Bytes
unfolding hex4
escape_rune r =
    if ltb r 0x10000 then b'\\' ∷ b'u' ∷ hex4 r else b'\\' ∷ b'U' ∷ (hex4 (r / 0x10000) ++ hex4 r)

-- how many bytes behind the first one belong to the character
pub width_after : ℕ → Bytes → ℕ
width_after b s =
    if ltb b 0x80 then 0 else if is_rune (rune_start b) s then (rune_start b).after else 0

module _ (is_print : ℕ → Bool) where
  -- `appendEscapedRune` for the character that begins with the byte
  pub quote_char : ℕ → Bytes → Bytes
  unfolding quote_ascii escape_rune
  quote_char b s =
      let rest = rune_rest b s in
      let r = rune_value b rest in
      if ltb b 0x80
      then quote_ascii b
      else if is_rune (rune_start b) s
      then (if is_print r then b ∷ rest else escape_rune r)
      else b'\\' ∷ b'x' ∷ hex2 b

  -- Each round takes a byte at least.
  pub quote_body : ℕ → Bytes → Bytes
  quote_body zero s = []
  quote_body (suc fuel) [] = []
  quote_body (suc fuel) (b ∷ s) = quote_char b s ++ quote_body fuel (drop (width_after b s) s)

  unfoldable pub quote : Bytes → Bytes
  unfolding quote_body quote_char width_after
  quote s = b'"' ∷ (quote_body (length s) s ++ b'"' ∷ [])

abbrev and_then {ℓ κ} : {A : Type ℓ} {B : Type κ} → Option A → (A → Option B) → Option B
and_then none f = none
and_then (some a) f = f a

unhex : ℕ → Option ℕ
unhex c =
    if leb b'0' c && leb c b'9'
    then some (c - b'0')
    else if leb b'a' c && leb c b'f'
    then some (c - b'a' + 10)
    else if leb b'A' c && leb c b'F'
    then some (c - b'A' + 10)
    else none

-- the value of so many digits, and what is behind them
pub hex_value : ℕ → ℕ → Bytes → Option (ℕ × Bytes)
unfolding unhex
hex_value zero acc s = some (acc, s)
hex_value (suc n) acc [] = none
hex_value (suc n) acc (c ∷ s) = and_then (unhex c) (λ d. hex_value n (acc * 16 + d) s)

-- `\x`, and `\u` and `\U`
byte_escape : Option (ℕ × Bytes) → Option (Bytes × Bytes)
byte_escape none = none
byte_escape (some (v, s)) = some (v ∷ [], s)

rune_escape : Option (ℕ × Bytes) → Option (Bytes × Bytes)
rune_escape none = none
rune_escape (some (v, s)) = if is_valid_rune v then some (encode_rune v, s) else none

is_octal : ℕ → Bool
is_octal c = leb b'0' c && leb c b'7'

octal_escape : ℕ → Bytes → Option (Bytes × Bytes)
octal_escape c [] = none
octal_escape c (d ∷ []) = none
octal_escape c (d ∷ e ∷ s) =
    let v = (c - b'0') * 64 + (d - b'0') * 8 + (e - b'0') in
    if is_octal d && is_octal e && leb v 255 then some (v ∷ [], s) else none

-- what stands behind a backslash: the character, and the rest
unquote_escape : ℕ → Bytes → Option (Bytes × Bytes)
unfolding hex_value byte_escape rune_escape octal_escape is_octal
unquote_escape mark [] = none
unquote_escape mark (c ∷ s) =
    if c == b'a'
    then some (7 ∷ [], s)
    else if c == b'b'
    then some (8 ∷ [], s)
    else if c == b'f'
    then some (12 ∷ [], s)
    else if c == b'n'
    then some (10 ∷ [], s)
    else if c == b'r'
    then some (13 ∷ [], s)
    else if c == b't'
    then some (9 ∷ [], s)
    else if c == b'v'
    then some (11 ∷ [], s)
    else if c == b'x'
    then byte_escape (hex_value 2 0 s)
    else if c == b'u'
    then rune_escape (hex_value 4 0 s)
    else if c == b'U'
    then rune_escape (hex_value 8 0 s)
    else if is_octal c
    then octal_escape c s
    else if c == b'\\' || c == mark
    then some (c ∷ [], s)
    else none

-- `UnquoteChar`, with the bytes that are appended for the rune. The mark is a quote.
pub unquote_char : ℕ → ℕ → Bytes → Option (Bytes × Bytes)
unfolding unquote_escape
unquote_char mark c s =
    if c == mark
    then none
    else if leb 0x80 c
    then (if is_rune (rune_start c) s
        then some (c ∷ rune_rest c s, drop (rune_start c).after s)
        else some (0xEF ∷ 0xBF ∷ 0xBD ∷ [], s))
    else if c == b'\\'
    then unquote_escape mark s
    else some (c ∷ [], s)

-- The text up to the closing quote, and what is behind that. A quoted character is a single one. A
-- text without a backslash is copied by the source, which is what the rounds come to.
unquote_loop : ℕ → ℕ → Bytes → Option (Bytes × Bytes)
unquote_loop zero mark s = none
unquote_loop (suc fuel) mark [] = none
unquote_loop (suc fuel) mark (c ∷ s) =
    let more = and_then (unquote_char mark c s) (λ (out, rest).
      and_then (unquote_loop fuel mark rest) (λ (text, behind). some (out ++ text, behind))) in
    if c == mark then some ([], s) else if c == 10 then none else more

-- between backquotes
raw_text : Bytes → Option (Bytes × Bytes)
raw_text [] = none
raw_text (c ∷ s) =
    let rest = raw_text s in
    if c == b'`' then some ([], s) else elim rest [
      | none ↦ none
      | some (text, behind) ↦ some (if c == 13 then text else c ∷ text, behind)
    ]

whole : Option (Bytes × Bytes) → Option Bytes
whole none = none
whole (some (text, [])) = some text
whole (some (text, b ∷ behind)) = none

-- None is a syntax error.
unfoldable pub unquote : Bytes → Option Bytes
unfolding whole raw_text unquote_loop unquote_char
unquote [] = none
unquote (c ∷ s) =
    if c == b'"'
    then whole (unquote_loop (length s) c s)
    else if c == b'\''
    then whole (unquote_loop 2 c s)
    else if c == b'`'
    then whole (raw_text s)
    else none
