-- ===== src/Std/Strconv.antt =====
-- Decimal numbers: `fmt.Sprintf("%d", n)`, and the digits of `strconv.Atoi`.
use k_lsm_engine.Prelude.{
  ℕ, zero, suc, ◌+◌, ◌-◌, ◌*◌, ◌/◌, ◌%◌, ◌≤◌, ◌<◌, ◌≡◌, ◌≢◌, inl, inr, ap, ◌∙◌, Bool, ◌&&◌, Option,
  none, some, [], ◌∷◌, ◌++◌, length, length-append, All, arith, ltb, leb, if◌then◌else◌, Bool-cases,
  Bytes,
}

unfoldable pub decimal_digits : ℕ → ℕ → Bytes
decimal_digits zero n = []
decimal_digits (suc fuel) n =
    let more = decimal_digits fuel (n / 10) ++ (48 + n % 10) ∷ [] in
    if ltb n 10 then (48 + n) ∷ [] else more

-- A number has at most as many digits as it counts, and one more.
unfoldable pub decimal : ℕ → Bytes
unfolding decimal_digits
decimal n = decimal_digits (suc n) n

abbrev pub is_digit : ℕ → Bool
is_digit d = leb 48 d && leb d 57

-- the digits of `strconv.Atoi`; none is a syntax error
unfoldable pub digits_value : ℕ → Bytes → Option ℕ
digits_value acc [] = some acc
digits_value acc (d ∷ ds) = if is_digit d then digits_value (acc * 10 + (d - 48)) ds else none

digits_value-append :
    (acc n d : ℕ) (ds : Bytes)
    → digits_value acc ds ≡ some n
    → d < 10
    → digits_value acc (ds ++ (48 + d) ∷ []) ≡ some (n * 10 + d)
unfolding digits_value
digits_value-append acc n d [] h lt = ground arith
digits_value-append acc n d (e ∷ ds) h lt = elim (Bool-cases (is_digit e)) [
  | inl digit ↦ rw digit (digits_value-append (acc * 10 + (e - 48)) n d ds (rw digit at h) lt)
  | inr not_digit ↦ let h' = rw not_digit at h in cc
]

decimal_digits-value : (fuel n : ℕ) → n < fuel → digits_value 0 (decimal_digits fuel n) ≡ some n
unfolding decimal_digits digits_value
decimal_digits-value zero n h = absurd (omega arith)
decimal_digits-value (suc fuel) n h = elim (Bool-cases (ltb n 10)) [
  | inl small ↦ rw small (ground arith)
  | inr large ↦
      let whole =
        digits_value-append 0 (n / 10) (n % 10) (decimal_digits fuel (n / 10))
          (decimal_digits-value fuel (n / 10) (ground arith)) (omega arith) in
      rw large (whole ∙ ap some (omega arith))
]

pub digits_value-decimal : (n : ℕ) → digits_value 0 (decimal n) ≡ some n
unfolding decimal
digits_value-decimal n = decimal_digits-value (suc n) n (omega arith)

abbrev pub IsDigits : Bytes → Type 0
IsDigits s = All (λ d. (48 ≤ d) × (d ≤ 57)) s

IsDigits-append : (a b : Bytes) → IsDigits a → IsDigits b → IsDigits (a ++ b)
IsDigits-append [] b h h' = h'
IsDigits-append (d ∷ a) b h h' = (h.0, IsDigits-append a b h.1 h')

decimal_digits-IsDigits : (fuel n : ℕ) → IsDigits (decimal_digits fuel n)
unfolding decimal_digits
decimal_digits-IsDigits zero n = tt
decimal_digits-IsDigits (suc fuel) n = elim (Bool-cases (ltb n 10)) [
  | inl small ↦ rw small ((omega arith, ground arith), tt)
  | inr large ↦ rw large (
      IsDigits-append (decimal_digits fuel (n / 10)) ((48 + n % 10) ∷ [])
        (decimal_digits-IsDigits fuel (n / 10)) ((omega arith, omega arith), tt))
]

pub decimal-IsDigits : (n : ℕ) → IsDigits (decimal n)
unfolding decimal
decimal-IsDigits n = decimal_digits-IsDigits (suc n) n

append_ne : (ds : Bytes) (d : ℕ) → ds ++ d ∷ [] ≢ []
append_ne [] d h = cc
append_ne (e ∷ ds) d h = cc

pub decimal-ne-nil : (n : ℕ) → decimal n ≢ []
unfolding decimal decimal_digits
decimal-ne-nil n h = elim (Bool-cases (ltb n 10)) [
  | inl small ↦ let h' = rw small at h in cc
  | inr large ↦ append_ne (decimal_digits n (n / 10)) (48 + n % 10) (rw large at h)
]

decimal_digits-length : (fuel n : ℕ) → length (decimal_digits fuel n) ≤ fuel
unfolding decimal_digits
decimal_digits-length zero n = omega arith
decimal_digits-length (suc fuel) n = elim (Bool-cases (ltb n 10)) [
  | inl small ↦ rw small (omega arith)
  | inr large ↦ rw large (
      omega (
        arith,
        decimal_digits-length fuel (n / 10),
        length-append (decimal_digits fuel (n / 10)) ((48 + n % 10) ∷ []),
      ))
]

pub length-decimal : (n : ℕ) → length (decimal n) ≤ suc n
unfolding decimal
length-decimal n = decimal_digits-length (suc n) n
