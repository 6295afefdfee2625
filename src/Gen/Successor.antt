-- ===== src/Gen/Successor.antt =====
-- The next key is the least text above a key, among the texts of small letters of its length.
use k_lsm_engine.Prelude.{
  ◌+◌, ◌≤◌, ◌≡◌, inl, inr, refl, sym, ◌∙◌, true, false, none, some, [], ◌∷◌, length, All, arith,
  ltb, Bool-cases, Option-cases, Bytes, str_lt,
}
use k_lsm_engine.Gen.Range.{bump, next_key}
use k_lsm_engine.Gen.Valid.{IsKey}
use k_lsm_engine.Gen.Within.{some-injective}

abbrev AllUpToZ : Bytes → Type 0
AllUpToZ k = All (λ b. b ≤ 122) k

-- A text that cannot be raised is above all of its length.
bump-none : (s k : Bytes) → length k ≡ length s → AllUpToZ k → bump s ≡ none → str_lt s k ≡ false
unfolding bump str_lt
bump-none [] [] n h e = refl
bump-none [] (c ∷ k) n h e = absurd (omega (arith, n))
bump-none (b ∷ s) [] n h e = refl
bump-none (b ∷ s) (c ∷ k) n h e = elim (Option-cases (bump s)) [
  | inr (u, raised) ↦ let e' = rw raised at e in cc
  | inl no_raise ↦
      let e' = rw no_raise at e in
      let same_length : length k ≡ length s = omega (arith, n) in
      elim (Bool-cases (ltb b 122)) [
        | inl small ↦ let e'' = rw small at e' in cc
        | inr last ↦ ground (arith, h.0, bump-none s k same_length h.1 no_raise)
      ]
]

str_lt-nil : (k : Bytes) → str_lt k [] ≡ false
unfolding str_lt
str_lt-nil [] = refl
str_lt-nil (c ∷ k) = refl

bump-least :
    (s t k : Bytes)
    → length k ≡ length s
    → AllUpToZ k
    → bump s ≡ some t
    → str_lt k t ≡ true
    → str_lt s k ≡ false
unfolding bump str_lt
bump-least [] t k n h e lt = cc
bump-least (b ∷ s) t [] n h e lt = refl
bump-least (b ∷ s) t (c ∷ k) n h e lt =
    let same_length : length k ≡ length s = omega (arith, n) in
    elim (Option-cases (bump s)) [
      | inr (u, raised) ↦
          let t' = some-injective (b ∷ u) t (rw raised at e) in
          let lt' = rw t' at lt in ground (arith, lt', bump-least s u k same_length h.1 raised)
      | inl no_raise ↦
          let e' = rw no_raise at e in
          elim (Bool-cases (ltb b 122)) [
            | inl small ↦
                let lt' = rw (some-injective ((b + 1) ∷ []) t (rw small at e')) at lt in
                ground (arith, lt', str_lt-nil k, bump-none s k same_length h.1 no_raise)
            | inr last ↦ let e'' = rw last at e' in cc
          ]
    ]

letters-AllUpToZ : (k : Bytes) → All (λ b. (97 ≤ b) × (b ≤ 122)) k → AllUpToZ k
letters-AllUpToZ [] h = tt
letters-AllUpToZ (b ∷ k) h = (h.0.1, letters-AllUpToZ k h.1)

-- A key below the next key is not above the key.
pub next_key-least :
    (s k : Bytes) → IsKey s → IsKey k → str_lt k (next_key s) ≡ true → str_lt s k ≡ false
unfolding next_key
next_key-least s k hs hk lt =
    let n = hk.sized ∙ sym hs.sized in
    let up = letters-AllUpToZ k hk.letters in
    elim (Option-cases (bump s)) [
      | inl e ↦ bump-none s k n up e
      | inr (t, e) ↦ bump-least s t k n up e (rw (next_key, e) at lt)
    ]
