-- ===== src/Table/Padded.antt =====
-- Strings padded with NUL bytes: what is accepted, and that a field reads back.
use k_lsm_engine.Prelude.{
  ℕ, zero, suc, ◌-◌, ◌≤◌, ◌≡◌, refl, ap, ◌∙◌, true, false, [], ◌∷◌, ◌++◌, length, drop, replicate,
  window, copy_at, length-replicate, window-copy_at_self, take-replicate, copy-eq-append,
  drop-replicate, arith, Bytes, ok,
}
use k_lsm_engine.Table.{is_empty, has_nul, write_padded_string, read_padded_string, all_zero}

-- What a field of n bytes can hold.
pub record IsStorable (n : ℕ) (s : Bytes) : Type 0 where
  pub filled : is_empty s ≡ false
  pub fits : length s ≤ n
  pub no_nul : has_nul s ≡ false

pub write_padded_string-ok :
    (block : Bytes) (off n : ℕ) (s : Bytes)
    → IsStorable n s
    → write_padded_string block off n s ≡ ok (copy_at block off s)
unfolding write_padded_string
write_padded_string-ok block off n s h = ground arith

pub write_padded_string-inv :
    (block : Bytes) (off n : ℕ) (s : Bytes) {b : Bytes}
    → write_padded_string block off n s ≡ ok b
    → IsStorable n s × (copy_at block off s ≡ b)
unfolding write_padded_string
write_padded_string-inv block off n s h = ground arith

read_padded_string-zeros : (n : ℕ) → read_padded_string (replicate n 0) ≡ []
unfolding read_padded_string
read_padded_string-zeros zero = refl
read_padded_string-zeros (suc n) = rw (read_padded_string-zeros n)

-- Trimming takes the padding away and nothing else.
pub read_padded_string-append :
    (s : Bytes) (n : ℕ) → has_nul s ≡ false → read_padded_string (s ++ replicate n 0) ≡ s
unfolding read_padded_string has_nul
read_padded_string-append [] n h = read_padded_string-zeros n
read_padded_string-append (zero ∷ s) n h = cc
read_padded_string-append (suc b ∷ s) n h = ground (arith, read_padded_string-append s n)

pub all_zero-replicate : (n : ℕ) → all_zero (replicate n 0) ≡ true
unfolding all_zero
all_zero-replicate zero = refl
all_zero-replicate (suc n) = all_zero-replicate n

all_zero-append : (s t : Bytes) → is_empty s ≡ false → has_nul s ≡ false → all_zero (s ++ t) ≡ false
unfolding all_zero is_empty has_nul
all_zero-append [] t h k = cc
all_zero-append (b ∷ s) t h k = ground arith

module _ (block : Bytes) (off m n : ℕ) (zeros : drop off block ≡ replicate m 0) (room : n ≤ m) where
  -- A window of zeros
  pub window-zeros : window block off n ≡ replicate n 0
  window-zeros = rw zeros (take-replicate n m 0 room)

  field_layout :
      (s : Bytes)
      → IsStorable n s
      → window (copy_at block off s) off n ≡ s ++ replicate (n - length s) 0
  field_layout s h =
      window-copy_at_self block off n s
      ∙ rw window-zeros (
          copy-eq-append (replicate n 0) s (rw length-replicate h.fits)
          ∙ ap (◌++◌ s) (drop-replicate (length s) n 0))

  -- A string written over zeros reads back, and its field is not all zero.
  pub field-read_back :
      (s : Bytes)
      → IsStorable n s
      → (read_padded_string (window (copy_at block off s) off n) ≡ s)
        × (all_zero (window (copy_at block off s) off n) ≡ false)
  field-read_back s h =
      rw (field_layout s h)
        (read_padded_string-append s (n - length s) h.no_nul, all_zero-append s _ h.filled h.no_nul)
