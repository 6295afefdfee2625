-- ===== src/Std/Fields.antt =====
-- `strings.Fields`, `strings.Join` and `strings.ToUpper`. unicode.ToUpper beyond ASCII is given.
use k_lsm_engine.Prelude.{
  ℕ, zero, suc, ◌-◌, ◌<◌, ◌≡◌, refl, ap, true, false, ◌&&◌, List, [], ◌∷◌, ◌++◌, All, arith, ltb,
  leb, if◌then◌else◌, Bytes, none, some,
}
use k_lsm_engine.Std.Trim.{space_after, IsPlain, space_after-plain}
use k_lsm_engine.Std.Utf8.{rune_start, is_rune, rune_rest, rune_value, encode_rune}

add_word : Bytes × List Bytes → List Bytes
add_word ([], words) = words
add_word (b ∷ word, words) = (b ∷ word) ∷ words

-- The word at the front, which may be empty, and the words behind it. The number of bytes that
-- still belong to a space is counted down.
split_words : ℕ → Bytes → Bytes × List Bytes
unfolding add_word
split_words n [] = ([], [])
split_words (suc n) (b ∷ s) = ([], add_word (split_words n s))
split_words zero (b ∷ s) = elim (space_after b s) [
  | none ↦ let rest = split_words 0 s in (b ∷ rest.0, rest.1)
  | some n ↦ ([], add_word (split_words n s))
]

unfoldable pub fields : Bytes → List Bytes
unfolding split_words
fields s = add_word (split_words 0 s)

unfoldable pub join : Bytes → List Bytes → Bytes
join sep [] = []
join sep (w ∷ []) = w
join sep (w ∷ v ∷ ws) = w ++ (sep ++ join sep (v ∷ ws))

upper_ascii : ℕ → ℕ
upper_ascii b = if leb 97 b && leb b 122 then b - 32 else b

module _ (upper_rune : ℕ → ℕ) where
  -- A byte that begins no rune becomes U+FFFD.
  upper_runes : ℕ → Bytes → Bytes
  unfolding upper_ascii
  upper_runes n [] = []
  upper_runes (suc n) (b ∷ s) = upper_runes n s
  upper_runes zero (b ∷ s) =
      let one = upper_runes 0 s in
      let whole = upper_runes (rune_start b).after s in
      if ltb b 0x80
      then upper_ascii b ∷ one
      else if is_rune (rune_start b) s
      then encode_rune (upper_rune (rune_value b (rune_rest b s))) ++ whole
      else 0xEF ∷ 0xBF ∷ 0xBD ∷ one

  unfoldable pub to_upper : Bytes → Bytes
  unfolding upper_runes
  to_upper s = upper_runes 0 s

-- a word of ASCII characters
abbrev pub IsWord : Bytes → Type 0
IsWord w = All IsPlain w

space_after-blank : (s : Bytes) → space_after 32 s ≡ some 0
unfolding space_after
space_after-blank [] = refl
space_after-blank (c ∷ s) = refl

split_words-word : (w s : Bytes) → IsWord w → split_words 0 (w ++ 32 ∷ s) ≡ (w, fields s)
unfolding split_words fields
split_words-word [] s h = rw (split_words, space_after-blank s) refl
split_words-word (b ∷ w) s h =
    rw (split_words, space_after-plain b (w ++ 32 ∷ s) h.0, split_words-word w s h.1) refl

split_words-last : (w : Bytes) → IsWord w → split_words 0 w ≡ (w, [])
unfolding split_words
split_words-last [] h = refl
split_words-last (b ∷ w) h =
    rw (split_words, space_after-plain b w h.0, split_words-last w h.1) refl

-- A word up to a blank is a field.
pub fields-word :
    (b : ℕ) (w s : Bytes) → IsWord (b ∷ w) → fields ((b ∷ w) ++ 32 ∷ s) ≡ (b ∷ w) ∷ fields s
unfolding fields
fields-word b w s h = ap add_word (split_words-word (b ∷ w) s h)

pub fields-last : (b : ℕ) (w : Bytes) → IsWord (b ∷ w) → fields (b ∷ w) ≡ (b ∷ w) ∷ []
unfolding fields
fields-last b w h = ap add_word (split_words-last (b ∷ w) h)

-- A text of ASCII characters, none of them a small letter, is kept.
pub to_upper-kept :
    (upper_rune : ℕ → ℕ) (s : Bytes) → All (λ b. b < 97) s → to_upper upper_rune s ≡ s
unfolding to_upper upper_runes upper_ascii
to_upper-kept upper_rune [] h = refl
to_upper-kept upper_rune (b ∷ s) h =
    let low : ltb b 0x80 ≡ true = ground arith in
    let no_letter : leb 97 b ≡ false = ground arith in
    rw (low, no_letter) (ap (◌∷◌ b) (to_upper-kept upper_rune s h.1))
