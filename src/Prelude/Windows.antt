-- ===== src/Prelude/Windows.antt =====
-- Lemmas on Go's `copy` into a slice, and on windows of a slice.
use Prim.Native.Nat.{ℕ, zero, suc, ◌+◌, ◌-◌, ◌≤◌, ◌<◌, min}
use mathlib.Core.Path.{◌≡◌, refl, ap, sym, ◌∙◌, subst}
use mathlib.Core.List.{List, [], ◌∷◌, ◌++◌}
use native.Mathlib.Omega.{arith}
use native.Mathlib.Nat.{sub-zero, zero-sub, suc-sub-suc, zero-min, min-zero, suc-min-suc}
use k_lsm_engine.Prelude.Lists.{
  length, get_or, take, drop, replicate, window, copy, copy_at, length-take, length-drop, drop-nil,
  drop-drop,
}

module _ {ℓ} {A : Type ℓ} where
  pub take-copy : (n : ℕ) (dst src : List A) → take n (copy dst src) ≡ copy (take n dst) src
  take-copy zero dst src = refl
  take-copy (suc n) [] src = refl
  take-copy (suc n) (d ∷ dst) [] = refl
  take-copy (suc n) (d ∷ dst) (s ∷ src) = ap (◌∷◌ s) (take-copy n dst src)

  pub copy-eq-append :
      (dst src : List A) → length src ≤ length dst → copy dst src ≡ src ++ drop (length src) dst
  copy-eq-append [] [] h = refl
  copy-eq-append [] (s ∷ src) h = absurd (omega arith)
  copy-eq-append (d ∷ dst) [] h = refl
  copy-eq-append (d ∷ dst) (s ∷ src) h = ap (◌∷◌ s) (copy-eq-append dst src (omega arith))

  -- What a write reads back as: at its place, and below and above it.
  pub window-copy_at_self :
      (dst : List A) (off n : ℕ) (src : List A)
      → window (copy_at dst off src) off n ≡ copy (window dst off n) src
  window-copy_at_self dst zero n src = take-copy n dst src
  window-copy_at_self [] (suc off) zero src = refl
  window-copy_at_self [] (suc off) (suc n) src = refl
  window-copy_at_self (d ∷ dst) (suc off) n src = window-copy_at_self dst off n src

  pub take-copy_at :
      (dst : List A) (off n : ℕ) (src : List A)
      → n ≤ off
      → take n (copy_at dst off src) ≡ take n dst
  take-copy_at dst off zero src h = refl
  take-copy_at dst zero (suc n) src h = absurd (omega arith)
  take-copy_at [] (suc off) (suc n) src h = refl
  take-copy_at (d ∷ dst) (suc off) (suc n) src h =
      ap (◌∷◌ d) (take-copy_at dst off n src (omega arith))

  pub window-copy_at_below :
      (dst : List A) (off at n : ℕ) (src : List A)
      → at + n ≤ off
      → window (copy_at dst off src) at n ≡ window dst at n
  window-copy_at_below dst off zero n src h = take-copy_at dst off n src (omega arith)
  window-copy_at_below dst zero (suc at) n src h = absurd (omega arith)
  window-copy_at_below [] (suc off) (suc at) n src h = refl
  window-copy_at_below (d ∷ dst) (suc off) (suc at) n src h =
      window-copy_at_below dst off at n src (omega arith)

  pub copy_full : (dst src : List A) → length dst ≡ length src → copy dst src ≡ src
  copy_full [] [] h = refl
  copy_full [] (s ∷ src) h = absurd (omega arith)
  copy_full (d ∷ dst) [] h = absurd (omega arith)
  copy_full (d ∷ dst) (s ∷ src) h = ap (◌∷◌ s) (copy_full dst src (omega arith))

  pub drop-copy : (n : ℕ) (dst src : List A) → length src ≤ n → drop n (copy dst src) ≡ drop n dst
  drop-copy n [] src h = refl
  drop-copy zero (d ∷ dst) [] h = refl
  drop-copy zero (d ∷ dst) (s ∷ src) h = absurd (omega arith)
  drop-copy (suc n) (d ∷ dst) [] h = refl
  drop-copy (suc n) (d ∷ dst) (s ∷ src) h = drop-copy n dst src (omega arith)

  pub drop-copy_at :
      (dst : List A) (off at : ℕ) (src : List A)
      → off + length src ≤ at
      → drop at (copy_at dst off src) ≡ drop at dst
  drop-copy_at dst zero at src h = drop-copy at dst src (omega arith)
  drop-copy_at [] (suc off) at src h = refl
  drop-copy_at (d ∷ dst) (suc off) zero src h = absurd (omega arith)
  drop-copy_at (d ∷ dst) (suc off) (suc at) src h = drop-copy_at dst off at src (omega arith)

  pub drop-replicate : (n k : ℕ) (a : A) → drop n (replicate k a) ≡ replicate (k - n) a
  drop-replicate zero k a = rw sub-zero
  drop-replicate (suc n) zero a = rw zero-sub
  drop-replicate (suc n) (suc k) a = rw suc-sub-suc (drop-replicate n k a)

  pub take-replicate : (n k : ℕ) (a : A) → n ≤ k → take n (replicate k a) ≡ replicate n a
  take-replicate zero k a h = refl
  take-replicate (suc n) zero a h = absurd (omega arith)
  take-replicate (suc n) (suc k) a h = ap (◌∷◌ a) (take-replicate n k a (omega arith))

  pub take-all : (n : ℕ) (xs : List A) → length xs ≤ n → take n xs ≡ xs
  take-all zero [] h = refl
  take-all zero (x ∷ xs) h = absurd (omega arith)
  take-all (suc n) [] h = refl
  take-all (suc n) (x ∷ xs) h = ap (◌∷◌ x) (take-all n xs (omega arith))

  pub drop-all : (n : ℕ) (xs : List A) → length xs ≤ n → drop n xs ≡ []
  drop-all n [] h = drop-nil n
  drop-all zero (x ∷ xs) h = absurd (omega arith)
  drop-all (suc n) (x ∷ xs) h = drop-all n xs (omega arith)

  pub drop_add : (m n : ℕ) (a b : List A) → drop m a ≡ drop m b → m ≤ n → drop n a ≡ drop n b
  drop_add m n a b h le =
      let e : m + (n - m) ≡ n = omega arith in
      subst (λ (k : ℕ). drop k a ≡ drop k b) e
        (sym (drop-drop (n - m) m a) ∙ ap (drop (n - m)) h ∙ drop-drop (n - m) m b)

  take-take : (m n : ℕ) (xs : List A) → m ≤ n → take m (take n xs) ≡ take m xs
  take-take zero n xs h = refl
  take-take (suc m) zero xs h = absurd (omega arith)
  take-take (suc m) (suc n) [] h = refl
  take-take (suc m) (suc n) (x ∷ xs) h = ap (◌∷◌ x) (take-take m n xs (omega arith))

  window-take : (m at n : ℕ) (xs : List A) → at + n ≤ m → window (take m xs) at n ≡ window xs at n
  window-take m zero n xs h = take-take n m xs (omega arith)
  window-take zero (suc at) n xs h = absurd (omega arith)
  window-take (suc m) (suc at) n [] h = refl
  window-take (suc m) (suc at) n (x ∷ xs) h = window-take m at n xs (omega arith)

  -- Windows below a common prefix agree.
  pub window_of_take :
      (m at n : ℕ) (a b : List A) → take m a ≡ take m b → at + n ≤ m → window a at n ≡ window b at n
  window_of_take m at n a b h le =
      sym (window-take m at n a le)
      ∙ ap (λ (xs : List A). window xs at n) h
      ∙ window-take m at n b le

  pub take_of_take : (m n : ℕ) (a b : List A) → take m a ≡ take m b → n ≤ m → take n a ≡ take n b
  take_of_take m n a b h le = window_of_take m 0 n a b h (omega arith)

  get_or-take : (m i : ℕ) (xs : List A) (d : A) → i < m → get_or (take m xs) i d ≡ get_or xs i d
  get_or-take zero i xs d h = absurd (omega arith)
  get_or-take (suc m) i [] d h = refl
  get_or-take (suc m) zero (x ∷ xs) d h = refl
  get_or-take (suc m) (suc i) (x ∷ xs) d h = get_or-take m i xs d (omega arith)

  pub get_or_of_take :
      (m i : ℕ) (a b : List A) (d : A) → take m a ≡ take m b → i < m → get_or a i d ≡ get_or b i d
  get_or_of_take m i a b d h lt =
      sym (get_or-take m i a d lt) ∙ ap (λ (xs : List A). get_or xs i d) h ∙ get_or-take m i b d lt

  get_or-drop : (i : ℕ) (xs : List A) (d : A) → get_or xs i d ≡ get_or (drop i xs) 0 d
  get_or-drop zero xs d = refl
  get_or-drop (suc i) [] d = refl
  get_or-drop (suc i) (x ∷ xs) d = get_or-drop i xs d

  pub get_or_of_drop :
      (i : ℕ) (a b : List A) (d : A) → drop i a ≡ drop i b → get_or a i d ≡ get_or b i d
  get_or_of_drop i a b d h =
      get_or-drop i a d ∙ ap (λ (xs : List A). get_or xs 0 d) h ∙ sym (get_or-drop i b d)

  pub get_or-copy_at :
      (dst : List A) (off : ℕ) (s : A) (src : List A) (d : A)
      → off < length dst
      → get_or (copy_at dst off (s ∷ src)) off d ≡ s
  get_or-copy_at [] off s src d h = absurd (omega arith)
  get_or-copy_at (x ∷ dst) zero s src d h = refl
  get_or-copy_at (x ∷ dst) (suc off) s src d h = get_or-copy_at dst off s src d (omega arith)

  pub window-append_below :
      (xs ys : List A) (at n : ℕ) → at + n ≤ length xs → window (xs ++ ys) at n ≡ window xs at n
  window-append_below xs ys at zero h = refl
  window-append_below [] ys at (suc n) h = absurd (omega arith)
  window-append_below (x ∷ xs) ys zero (suc n) h =
      ap (◌∷◌ x) (window-append_below xs ys zero n (omega arith))
  window-append_below (x ∷ xs) ys (suc at) (suc n) h =
      window-append_below xs ys at (suc n) (omega arith)

  pub drop-append_above :
      (xs ys : List A) (n : ℕ) → length xs ≤ n → drop n (xs ++ ys) ≡ drop (n - length xs) ys
  drop-append_above [] ys n h = rw sub-zero
  drop-append_above (x ∷ xs) ys zero h = absurd (omega arith)
  drop-append_above (x ∷ xs) ys (suc n) h = rw suc-sub-suc (drop-append_above xs ys n (omega arith))

  pub length-window : (xs : List A) (at n : ℕ) → at + n ≤ length xs → length (window xs at n) ≡ n
  length-window xs at n h = omega (arith, length-take n (drop at xs), length-drop at xs)

  -- A bound above the length does not matter.
  pub take-min : (n : ℕ) (xs : List A) → take (min n (length xs)) xs ≡ take n xs
  take-min zero xs = rw zero-min
  take-min (suc n) [] = rw min-zero
  take-min (suc n) (x ∷ xs) = rw suc-min-suc (ap (◌∷◌ x) (take-min n xs))
