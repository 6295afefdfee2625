-- ===== src/Std/Search.antt =====
-- `sort.Search`: binary search for the first index at which a monotone test holds.
use mathlib.Core.Path.{subst}
use k_lsm_engine.Prelude.{
  ℕ, zero, suc, ◌+◌, ◌-◌, ◌/◌, ◌≤◌, ◌<◌, ◌≡◌, Bool, true, false, arith, ltb, Bool-cases, inl, inr,
  if◌then◌else◌,
}

-- Each round halves `j - i`, so `n` rounds are enough.
search_loop : ℕ → (ℕ → Bool) → ℕ → ℕ → ℕ
search_loop zero f i j = i
search_loop (suc fuel) f i j =
    let h = (i + j) / 2 in
    let above = search_loop fuel f (h + 1) j in
    let below = search_loop fuel f i h in if ltb i j then (if f h then below else above) else i

unfoldable pub sort_search : ℕ → (ℕ → Bool) → ℕ
unfolding search_loop
sort_search n f = search_loop n f 0 n

-- Below n, what follows an index that passes the test passes it too.
abbrev pub IsMonotone : ℕ → (ℕ → Bool) → Type 0
IsMonotone n f = (a b : ℕ) → a ≤ b → b < n → f a ≡ true → f b ≡ true

-- `r` is the first index below `n` that passes the test, or `n`.
pub record IsFirst (n : ℕ) (f : ℕ → Bool) (r : ℕ) : Type 0 where
  pub le : r ≤ n
  pub below : (a : ℕ) → a < r → f a ≡ false
  pub at : r < n → f r ≡ true

module _ (n : ℕ) (f : ℕ → Bool) (mono : IsMonotone n f) where
  search_loop-IsFirst :
      (fuel i j : ℕ)
      → i ≤ j
      → j ≤ n
      → j - i ≤ fuel
      → ((a : ℕ) → a < i → f a ≡ false)
      → (j < n → f j ≡ true)
      → IsFirst n f (search_loop fuel f i j)
  unfolding search_loop
  search_loop-IsFirst zero i j le top small low high = record {
    le = omega arith;
    below = low;
    at = λ h. subst (λ (k : ℕ). f k ≡ true) {x = j} {y = i} (omega arith) (high (omega arith));
  }
  search_loop-IsFirst (suc fuel) i j le top small low high =
      let h = (i + j) / 2 in
      elim (Bool-cases (ltb i j)) [
        | inr e ↦ rw e (record {
          le = omega arith;
          below = low;
          at = λ p.
              subst (λ (k : ℕ). f k ≡ true) {x = j} {y = i} (ground arith) (high (ground arith));
        })
        | inl e ↦ elim (Bool-cases (f h)) [
          | inl t ↦
              rw (e, t)
                (search_loop-IsFirst fuel i h (ground arith) (ground arith) (ground arith) low
                  (λ _. t))
          | inr u ↦
              rw (e, u)
                (search_loop-IsFirst fuel (h + 1) j (ground arith) top (ground arith)
                  (λ a p. elim (Bool-cases (f a)) [
                    | inl v ↦ cc (mono a h (omega arith) (ground arith) v)
                    | inr w ↦ w
                  ])
                  high)
        ]
      ]

  pub sort_search-IsFirst : IsFirst n f (sort_search n f)
  unfolding sort_search
  sort_search-IsFirst =
      search_loop-IsFirst n 0 n (omega arith) (omega arith) (omega arith)
        (λ a h. absurd (omega arith)) (λ h. absurd (omega arith))
