-- ===== src/Gen/Within.antt =====
-- Sorted keys and the ends of a range.
use k_lsm_engine.Prelude.{
  ℕ, zero, suc, ◌+◌, ◌≡◌, inl, inr, refl, Bool, true, false, some, List, [], ◌∷◌, ◌++◌, All, arith,
  ltb, Bool-cases, Option-cases, Bytes, str_lt, str_lt_asymm, str_lt_le_trans, str_le_lt_trans,
  take,
}
use k_lsm_engine.Gen.Draws.{State}
use k_lsm_engine.Gen.Range.{bump, next_key, insert_key, sort_keys, keep_keys, last_key, range_end}

str_lt-append : (s : Bytes) (b : ℕ) → str_lt s (s ++ b ∷ []) ≡ true
unfolding str_lt
str_lt-append [] b = refl
str_lt-append (c ∷ s) b = ground (arith, str_lt-append s b)

pub some-injective : (a b : Bytes) → some a ≡ some b → b ≡ a
some-injective a b h = cc

cons-below : (b : ℕ) (s u : Bytes) → str_lt s u ≡ true → str_lt (b ∷ s) (b ∷ u) ≡ true
unfolding str_lt
cons-below b s u h = ground (arith, h)

raised-above : (b : ℕ) (s : Bytes) → str_lt (b ∷ s) ((b + 1) ∷ []) ≡ true
unfolding str_lt
raised-above b s = ground arith

bump-above : (s t : Bytes) → bump s ≡ some t → str_lt s t ≡ true
unfolding bump
bump-above [] t h = cc
bump-above (b ∷ s) t h = elim (Option-cases (bump s)) [
  | inr (u, e) ↦ rw (some-injective (b ∷ u) t (rw e at h)) (cons-below b s u (bump-above s u e))
  | inl e ↦
      let h' = rw e at h in
      elim (Bool-cases (ltb b 122)) [
        | inl small ↦ rw (some-injective ((b + 1) ∷ []) t (rw small at h')) (raised-above b s)
        | inr last ↦ let h'' = rw last at h' in cc
      ]
]

-- The next key sorts above the key.
pub next_key-above : (s : Bytes) → str_lt s (next_key s) ≡ true
unfolding next_key
next_key-above s = elim (Option-cases (bump s)) [
  | inl e ↦ rw (next_key, e) (str_lt-append s b'a')
  | inr (t, e) ↦ rw (next_key, e) (bump-above s t e)
]

pub keep_keys-All :
    (keeps : Bytes → Bool) (σ : State) → All (λ k. keeps k ≡ true) (keep_keys keeps σ)
unfolding keep_keys
keep_keys-All keeps [] = tt
keep_keys-All keeps ((k, v) ∷ σ) = elim (Bool-cases (keeps k)) [
  | inl kept ↦ rw kept (kept, keep_keys-All keeps σ)
  | inr left ↦ rw left (keep_keys-All keeps σ)
]

module _ (P : Bytes → Type 0) where
  pub insert_key-All : (k : Bytes) (xs : List Bytes) → P k → All P xs → All P (insert_key k xs)
  unfolding insert_key
  insert_key-All k [] p h = (p, tt)
  insert_key-All k (x ∷ xs) p h = elim (Bool-cases (str_lt x k)) [
    | inl below ↦ rw below (h.0, insert_key-All k xs p h.1)
    | inr above ↦ rw above (p, h)
  ]

  pub sort_keys-All : (ks : List Bytes) → All P ks → All P (sort_keys ks)
  unfolding sort_keys
  sort_keys-All [] h = tt
  sort_keys-All (k ∷ ks) h = insert_key-All k (sort_keys ks) h.0 (sort_keys-All ks h.1)

  pub take-All : (n : ℕ) (xs : List Bytes) → All P xs → All P (take n xs)
  take-All zero xs h = tt
  take-All (suc n) [] h = tt
  take-All (suc n) (x ∷ xs) h = (h.0, take-All n xs h.1)

-- no text of the list below the key
abbrev pub AllFrom : Bytes → List Bytes → Type 0
AllFrom k xs = All (λ y. str_lt y k ≡ false) xs

unfoldable pub AreSorted : List Bytes → Type 0
AreSorted [] = Unit {0}
AreSorted (x ∷ xs) = AllFrom x xs × AreSorted xs

str_le_trans : (a b c : Bytes) → str_lt b a ≡ false → str_lt c b ≡ false → str_lt c a ≡ false
str_le_trans a b c h k = ground (arith, str_lt_le_trans c a b)

AllFrom-below : (k x : Bytes) (xs : List Bytes) → str_lt x k ≡ false → AllFrom x xs → AllFrom k xs
AllFrom-below k x [] h all = tt
AllFrom-below k x (y ∷ ys) h all = (str_le_trans k x y h all.0, AllFrom-below k x ys h all.1)

insert_key-AreSorted : (k : Bytes) (xs : List Bytes) → AreSorted xs → AreSorted (insert_key k xs)
unfolding insert_key AreSorted
insert_key-AreSorted k [] h = (tt, tt)
insert_key-AreSorted k (x ∷ xs) h = elim (Bool-cases (str_lt x k)) [
  | inl below ↦ rw below (
    insert_key-All (λ y. str_lt y x ≡ false) k xs (str_lt_asymm x k below) h.0,
    insert_key-AreSorted k xs h.1,
  )
  | inr above ↦ rw above ((above, AllFrom-below k x xs above h.0), h)
]

pub sort_keys-AreSorted : (ks : List Bytes) → AreSorted (sort_keys ks)
unfolding sort_keys AreSorted
sort_keys-AreSorted [] = tt
sort_keys-AreSorted (k ∷ ks) = insert_key-AreSorted k (sort_keys ks) (sort_keys-AreSorted ks)

pub take-AreSorted : (n : ℕ) (xs : List Bytes) → AreSorted xs → AreSorted (take n xs)
unfolding AreSorted
take-AreSorted zero xs h = tt
take-AreSorted (suc n) [] h = tt
take-AreSorted (suc n) (x ∷ xs) h =
    (take-All (λ y. str_lt y x ≡ false) n xs h.0, take-AreSorted n xs h.1)

-- Every key of a sorted list is below what follows its last key.
last_key-Most :
    (k to : Bytes) (ks : List Bytes)
    → AreSorted (k ∷ ks)
    → str_lt (last_key k ks) to ≡ true
    → All (λ y. str_lt y to ≡ true) (k ∷ ks)
unfolding last_key AreSorted
last_key-Most k to [] h lt = (lt, tt)
last_key-Most k to (x ∷ xs) h lt =
    let later = last_key-Most x to xs h.1 lt in (str_le_lt_trans k x to h.0.0 later.0, later)

pub range_end-above :
    (from : Bytes) (ks : List Bytes)
    → AreSorted ks
    → All (λ y. str_lt y (range_end from ks) ≡ true) ks
unfolding range_end
range_end-above from [] h = tt
range_end-above from (k ∷ ks) h =
    last_key-Most k (next_key (last_key k ks)) ks h (next_key-above (last_key k ks))
