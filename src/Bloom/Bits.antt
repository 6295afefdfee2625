-- ===== src/Bloom/Bits.antt =====
-- Setting a bit of a byte, checked for every byte.
use native.Mathlib.Decide.{ℕ_discrete}
use Prim.Native.Nat.{bit_and, bit_or}
use k_lsm_engine.Prelude.{
  ℕ, zero, suc, ◌/◌, ◌%◌, ◌^◌, ◌<◌, ◌≡◌, refl, Bool, true, false, ◌&&◌, ◌||◌, not, [], ◌∷◌, length,
  get_or, set, All, ltb, ◌==◌, arith, Bytes, length-set, if◌then◌else◌, ==_iff, ==-eq-false,
}
use k_lsm_engine.Bloom.{set_bit, bit_clear}

every : (ℕ → Bool) → ℕ → Bool
every test zero = true
every test (suc n) = if test n then every test n else false

every-at : (test : ℕ → Bool) (n : ℕ) → every test n ≡ true → (k : ℕ) → k < n → test k ≡ true
unfolding every
every-at test zero h = λ k lt. absurd (omega arith)
every-at test (suc n) h = λ k lt. ground (arith, every-at test n _ k)

-- With the bit k set: the byte stays a byte, the bit k is set, and so is each bit j that was.
abbrev sets_bit : ℕ → ℕ → ℕ → Bool
sets_bit x k j =
    ltb (bit_or x (2 ^ k)) 256
    && not (bit_and (bit_or x (2 ^ k)) (2 ^ k) == 0)
    && (bit_and x (2 ^ j) == 0 || not (bit_and (bit_or x (2 ^ k)) (2 ^ j) == 0))

bits_table : every (λ x. every (λ k. every (sets_bit x k) 8) 8) 256 ≡ true
unfolding every
bits_table = refl

sets_bit_all : (x k j : ℕ) → x < 256 → k < 8 → j < 8 → sets_bit x k j ≡ true
sets_bit_all x k j hx hk hj =
    let row = every-at (λ x. every (λ k. every (sets_bit x k) 8) 8) 256 bits_table x hx in
    every-at (sets_bit x k) 8 (every-at (λ k. every (sets_bit x k) 8) 8 row k hk) j hj

-- What the table says of a byte x, of a bit that is set, and of a bit that was.
bit_or-bound : (x k : ℕ) → x < 256 → k < 8 → bit_or x (2 ^ k) < 256
bit_or-bound x k hx hk = ground (arith, sets_bit_all x k 0 hx hk (omega arith))

bit_or-sets : (x k : ℕ) → x < 256 → k < 8 → (bit_and (bit_or x (2 ^ k)) (2 ^ k) == 0) ≡ false
bit_or-sets x k hx hk = ground (arith, sets_bit_all x k 0 hx hk (omega arith))

bit_or-keeps :
    (x k j : ℕ)
    → x < 256
    → k < 8
    → j < 8
    → (bit_and x (2 ^ j) == 0) ≡ false
    → (bit_and (bit_or x (2 ^ k)) (2 ^ j) == 0) ≡ false
bit_or-keeps x k j hx hk hj h = ground (arith, sets_bit_all x k j hx hk hj)

abbrev pub IsBytes : Bytes → Type 0
IsBytes = All (λ b. b < 256)

get_or-IsBytes : (bits : Bytes) (i : ℕ) → IsBytes bits → get_or bits i 0 < 256
get_or-IsBytes [] i h = omega arith
get_or-IsBytes (b ∷ bits) zero h = h.0
get_or-IsBytes (b ∷ bits) (suc i) h = get_or-IsBytes bits i h.1

set-IsBytes : (bits : Bytes) (i v : ℕ) → IsBytes bits → v < 256 → IsBytes (set bits i v)
set-IsBytes [] i v h lt = tt
set-IsBytes (b ∷ bits) zero v h lt = (lt, h.1)
set-IsBytes (b ∷ bits) (suc i) v h lt = (h.0, set-IsBytes bits i v h.1 lt)

get_or-set :
    (bits : Bytes) (i j v : ℕ)
    → i < length bits
    → get_or (set bits i v) j 0 ≡ (if i == j then v else get_or bits j 0)
get_or-set [] i j v h = absurd (omega arith)
get_or-set (b ∷ bits) zero zero v h = refl
get_or-set (b ∷ bits) zero (suc j) v h = ground arith
get_or-set (b ∷ bits) (suc i) zero v h = ground arith
get_or-set (b ∷ bits) (suc i) (suc j) v h = ground (arith, get_or-set bits i j v)

pub length-set_bit : (bits : Bytes) (i : ℕ) → length (set_bit bits i) ≡ length bits
unfolding set_bit
length-set_bit bits i = length-set bits (i / 8) _

module _ (bits : Bytes) (i : ℕ) (bytes : IsBytes bits) where
  pub set_bit-IsBytes : IsBytes (set_bit bits i)
  unfolding set_bit
  set_bit-IsBytes =
      set-IsBytes bits (i / 8) _ bytes
        (bit_or-bound _ (i % 8) (get_or-IsBytes bits (i / 8) bytes) (omega arith))

  -- The bit i is set, and no bit is cleared.
  pub bit_clear-set_bit_self : i / 8 < length bits → bit_clear (set_bit bits i) i ≡ false
  unfolding set_bit bit_clear
  bit_clear-set_bit_self h =
      let x = get_or bits (i / 8) 0 in
      rw
        (
          get_or-set bits (i / 8) (i / 8) (bit_or x (2 ^ (i % 8))) h,
          (==_iff (i / 8) (i / 8)).1 refl,
        )
        (bit_or-sets x (i % 8) (get_or-IsBytes bits (i / 8) bytes) (omega arith))

  pub bit_clear-set_bit :
      (j : ℕ)
      → i / 8 < length bits
      → bit_clear bits j ≡ false
      → bit_clear (set_bit bits i) j ≡ false
  unfolding set_bit bit_clear
  bit_clear-set_bit j h clear =
      let x = get_or bits (i / 8) 0 in
      rw (get_or-set bits (i / 8) (j / 8) (bit_or x (2 ^ (i % 8))) h)
        (elim (ℕ_discrete (i / 8) (j / 8)) [
          | yes e ↦ rw ((==_iff (i / 8) (j / 8)).1 e) (
              bit_or-keeps x (i % 8) (j % 8) (get_or-IsBytes bits (i / 8) bytes) (omega arith)
                (omega arith) (rw e clear))
          | no ne ↦ rw (==-eq-false (i / 8) (j / 8) ne) clear
        ])
