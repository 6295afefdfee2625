-- ===== src/Std/Trim.antt =====
-- `strings.TrimSpace`, with the white space of Unicode in its UTF-8 bytes.
use mathlib.Core.List.{reverse, reverse-append, reverse-reverse}
use k_lsm_engine.Prelude.{
  ℕ, zero, suc, ◌≤◌, ◌≡◌, refl, sym, ap, ◌∙◌, Bool, ◌&&◌, ◌||◌, Option, none, some, [], ◌∷◌, ◌++◌,
  arith, leb, ◌==◌, if◌then◌else◌, Bytes,
}

is_ascii_space : ℕ → Bool
is_ascii_space b = leb 9 b && leb b 13 || b == 32

-- U+0085 and U+00A0
is_narrow : ℕ → ℕ → Bool
is_narrow b c = b == 0xC2 && (c == 0x85 || c == 0xA0)

-- U+1680, U+2000 to U+200A, U+2028, U+2029, U+202F, U+205F and U+3000
is_wide : ℕ → ℕ → ℕ → Bool
is_wide b c d =
    b == 0xE1 && c == 0x9A && d == 0x80
    || b == 0xE2 && c == 0x80 && (leb 0x80 d && leb d 0x8A || d == 0xA8 || d == 0xA9 || d == 0xAF)
    || b == 0xE2 && c == 0x81 && d == 0x9F
    || b == 0xE3 && c == 0x80 && d == 0x80

-- how many bytes a space has besides the first of the list; none is no space
wider : (ℕ → ℕ → ℕ → Bool) → ℕ → Bytes → Option ℕ
wider wide b [] = none
wider wide b (c ∷ []) = none
wider wide b (c ∷ d ∷ s) = if wide b c d then some 2 else none

space_with : (ℕ → ℕ → Bool) → (ℕ → ℕ → ℕ → Bool) → ℕ → Bytes → Option ℕ
unfolding wider is_ascii_space
space_with narrow wide b [] = if is_ascii_space b then some 0 else none
space_with narrow wide b (c ∷ s) =
    if is_ascii_space b then some 0 else if narrow b c then some 1 else wider wide b (c ∷ s)

-- at the front of a text, and at the front of a reversed text
unfoldable pub space_after : ℕ → Bytes → Option ℕ
unfolding space_with is_narrow is_wide
space_after = space_with is_narrow is_wide

space_before : ℕ → Bytes → Option ℕ
unfolding space_with is_narrow is_wide
space_before = space_with (λ b c. is_narrow c b) (λ b c d. is_wide d c b)

-- The number of bytes that still belong to a space is counted down.
trim_front : (ℕ → Bytes → Option ℕ) → ℕ → Bytes → Bytes
trim_front space n [] = []
trim_front space (suc n) (b ∷ s) = trim_front space n s
trim_front space zero (b ∷ s) = elim (space b s) [ none ↦ b ∷ s | some n ↦ trim_front space n s ]

unfoldable pub trim_space : Bytes → Bytes
unfolding trim_front space_after space_before
trim_space s = reverse (trim_front space_before 0 (reverse (trim_front space_after 0 s)))

-- an ASCII character that is no space
pub record IsPlain (b : ℕ) : Type 0 where
  pub above : 33 ≤ b
  pub below : b ≤ 126

pub space_after-plain : (b : ℕ) (s : Bytes) → IsPlain b → space_after b s ≡ none
unfolding space_after
space_after-plain b [] p = ground arith
space_after-plain b (c ∷ []) p = ground arith
space_after-plain b (c ∷ d ∷ s) p = ground arith

space_before-plain : (b : ℕ) (s : Bytes) → IsPlain b → space_before b s ≡ none
unfolding space_before
space_before-plain b [] p = ground arith
space_before-plain b (c ∷ []) p = ground arith
space_before-plain b (c ∷ d ∷ s) p = ground arith

trim_front-kept :
    (space : ℕ → Bytes → Option ℕ) (b : ℕ) (s : Bytes)
    → space b s ≡ none
    → trim_front space 0 (b ∷ s) ≡ b ∷ s
unfolding trim_front
trim_front-kept space b s h = rw (trim_front, h) refl

-- A text whose first and last characters are no spaces is left alone.
pub trim_space-kept :
    (b c : ℕ) (s t : Bytes)
    → IsPlain b
    → IsPlain c
    → b ∷ s ≡ t ++ c ∷ []
    → trim_space (b ∷ s) ≡ b ∷ s
unfolding trim_space
trim_space-kept b c s t p q e =
    ap (λ (x : Bytes). reverse (trim_front space_before 0 (reverse x)))
      (trim_front-kept space_after b s (space_after-plain b s p))
    ∙ ap (λ (x : Bytes). reverse (trim_front space_before 0 x))
        (ap reverse e ∙ reverse-append t (c ∷ []))
    ∙ ap reverse (trim_front-kept space_before c (reverse t) (space_before-plain c (reverse t) q))
    ∙ ap reverse (sym (ap reverse e ∙ reverse-append t (c ∷ [])))
    ∙ reverse-reverse (b ∷ s)
