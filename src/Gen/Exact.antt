-- ===== src/Gen/Exact.antt =====
-- A SCAN line lists what its range holds.
use mathlib.Core.Path.{subst}
use k_lsm_engine.Prelude.{
  ℕ, zero, suc, ◌≡◌, inl, inr, refl, sym, ap, ◌∙◌, Bool, true, false, ◌&&◌, ◌||◌, some, List, [],
  ◌∷◌, All, Bool-cases, Bytes, str_eq, str_eq_iff, str_lt, str_le, str_lt_total, take,
}
use k_lsm_engine.Std.Fields.{join}
use k_lsm_engine.Store.Disk.Loaded.{is_among}
use k_lsm_engine.Gen.Draws.{◌>>=◌, drawn, State, random_key, keys_of}
use k_lsm_engine.Gen.Range.{insert_key, sort_keys, keep_keys, last_key, range_end, bounded_range}
use k_lsm_engine.Gen.Valid.{IsKey, IsState, OfResult, Ensures, Ensures-bind, random_key-IsKey}
use k_lsm_engine.Gen.Within.{
  sort_keys-All, take-All, AreSorted, sort_keys-AreSorted, take-AreSorted, range_end-above,
}
use k_lsm_engine.Gen.Successor.{next_key-least}

and-false : (b : Bool) → (b && false) ≡ false
and-false true = refl
and-false false = refl

among-keep_keys :
    (keeps : Bytes → Bool) (k : Bytes) (σ : State)
    → is_among k (keep_keys keeps σ) ≡ (is_among k (keys_of σ) && keeps k)
unfolding is_among keep_keys
among-keep_keys keeps k [] = refl
among-keep_keys keeps k ((at, v) ∷ σ) =
    let later = among-keep_keys keeps k σ in
    elim (Bool-cases (str_eq at k)) [
      | inl same ↦
          let e = ap keeps ((str_eq_iff at k).0 same) in
          elim (Bool-cases (keeps k)) [
            | inl kept ↦ rw (e, kept, same) refl
            | inr left ↦ rw (e, left, later, same, left) (and-false (is_among k (keys_of σ)))
          ]
      | inr other ↦ elim (Bool-cases (keeps at)) [
        | inl kept ↦ rw (kept, other) later
        | inr left ↦ rw (left, other) later
      ]
    ]

among-insert_key :
    (k x : Bytes) (xs : List Bytes) → is_among k (insert_key x xs) ≡ (str_eq x k || is_among k xs)
unfolding is_among insert_key
among-insert_key k x [] = refl
among-insert_key k x (y ∷ ys) = elim (Bool-cases (str_lt y x)) [
  | inr above ↦ rw above refl
  | inl below ↦
      rw (below, among-insert_key k x ys)
        (elim (Bool-cases (str_eq y k)) [
          | inl same ↦ elim (Bool-cases (str_eq x k)) [
            | inl h ↦ rw (same, h) refl
            | inr h ↦ rw (same, h) refl
          ]
          | inr other ↦ rw other refl
        ])
]

among-sort_keys : (k : Bytes) (ks : List Bytes) → is_among k (sort_keys ks) ≡ is_among k ks
unfolding is_among sort_keys
among-sort_keys k [] = refl
among-sort_keys k (x ∷ ks) =
    among-insert_key k x (sort_keys ks) ∙ ap (λ b. str_eq x k || b) (among-sort_keys k ks)

All-among :
    (P : Bytes → Type 0) (k : Bytes) (xs : List Bytes) → All P xs → is_among k xs ≡ true → P k
unfolding is_among
All-among P k [] h among = cc
All-among P k (x ∷ xs) h among = elim (Bool-cases (str_eq x k)) [
  | inl same ↦ subst P ((str_eq_iff x k).0 same) h.0
  | inr other ↦ All-among P k xs h.1 (rw other at among)
]

among-take :
    (k : Bytes) (n : ℕ) (xs : List Bytes) → is_among k (take n xs) ≡ true → is_among k xs ≡ true
unfolding is_among
among-take k zero xs h = cc
among-take k (suc n) [] h = h
among-take k (suc n) (x ∷ xs) h = elim (Bool-cases (str_eq x k)) [
  | inl same ↦ rw same refl
  | inr other ↦ rw other (among-take k n xs (rw other at h))
]

-- A key of a sorted list that is not above the last one taken is taken.
take-among :
    (k x : Bytes) (n : ℕ) (xs : List Bytes)
    → AreSorted (x ∷ xs)
    → str_lt (last_key x (take n xs)) k ≡ false
    → is_among k (x ∷ xs) ≡ true
    → is_among k (x ∷ take n xs) ≡ true
unfolding is_among last_key AreSorted
take-among k x zero xs sorted low among = elim (Bool-cases (str_eq x k)) [
  | inl same ↦ rw same refl
  | inr other ↦
      let above = All-among (λ y. str_lt y x ≡ false) k xs sorted.0 (rw other at among) in
      let e = (str_eq_iff x k).1 (str_lt_total x k low above) in cc
]
take-among k x (suc n) [] sorted low among = among
take-among k x (suc n) (y ∷ ys) sorted low among = elim (Bool-cases (str_eq x k)) [
  | inl same ↦ rw same refl
  | inr other ↦ rw other (take-among k y n ys sorted.1 low (rw other at among))
]

last_key-IsKey : (x : Bytes) (xs : List Bytes) → IsKey x → All IsKey xs → IsKey (last_key x xs)
unfolding last_key
last_key-IsKey x [] h hs = h
last_key-IsKey x (y ∷ ys) h hs = last_key-IsKey y ys hs.0 hs.1

eq_and :
    (a b c : Bool)
    → (a ≡ true → b ≡ true)
    → (a ≡ true → c ≡ true)
    → (b ≡ true → c ≡ true → a ≡ true)
    → a ≡ (b && c)
eq_and true b c f g h = sym (rw (f refl, g refl) refl)
eq_and false true true f g h = h refl refl
eq_and false true false f g h = refl
eq_and false false c f g h = refl

-- The first keys of a sorted list are those below the end of their range.
take-IsExact :
    (from k : Bytes) (n : ℕ) (ks : List Bytes)
    → AreSorted ks
    → All IsKey ks
    → is_among k (take (suc n) ks) ≡ (is_among k ks && str_lt k (range_end from (take (suc n) ks)))
unfolding is_among range_end
take-IsExact from k n [] sorted valid = refl
take-IsExact from k n (x ∷ xs) sorted valid =
    let listed = take (suc n) (x ∷ xs) in
    let last = last_key-IsKey x (take n xs) valid.0 (take-All IsKey n xs valid.1) in
    eq_and (is_among k listed) (is_among k (x ∷ xs)) (str_lt k (range_end from listed))
      (among-take k (suc n) (x ∷ xs))
      (All-among (λ y. str_lt y (range_end from listed) ≡ true) k listed
        (range_end-above from listed (take-AreSorted (suc n) (x ∷ xs) sorted)))
      (λ held below.
        take-among k x n xs sorted
          (next_key-least (last_key x (take n xs)) k last (All-among IsKey k (x ∷ xs) valid held)
            below)
          held)

keep_keys-IsKey : (keeps : Bytes → Bool) (σ : State) → IsState σ → All IsKey (keep_keys keeps σ)
unfolding keep_keys
keep_keys-IsKey keeps [] h = tt
keep_keys-IsKey keeps ((k, v) ∷ σ) h = elim (Bool-cases (keeps k)) [
  | inl kept ↦ rw kept (h.0.0, keep_keys-IsKey keeps σ h.1)
  | inr left ↦ rw left (keep_keys-IsKey keeps σ h.1)
]

-- The keys of a SCAN line, joined by commas, are exactly the keys of the map from the first end of
-- the range to the second.
pub record IsExact (σ : State) (from to keys : Bytes) : Type 0 where
  pub listed : List Bytes
  pub joined : keys ≡ join (b',' ∷ []) listed
  pub exact :
      (k : Bytes) → is_among k listed ≡ (is_among k (keys_of σ) && (str_le from k && str_lt k to))

and_assoc : (a b c : Bool) → ((a && b) && c) ≡ (a && (b && c))
and_assoc true b c = refl
and_assoc false b c = refl

bounded_range-Ensures :
    (σ : State) → IsState σ → Ensures (bounded_range σ) (λ range. IsExact σ range.0 range.1 range.2)
unfolding bounded_range is_among join
bounded_range-Ensures [] h =
    Ensures-bind random_key (λ from. random_key >>= λ to. drawn (from, to, [])) IsKey
      (λ range. IsExact [] range.0 range.1 range.2) random_key-IsKey
      (λ from _.
        Ensures-bind random_key (λ to. drawn (from, to, [])) IsKey
          (λ range. IsExact [] range.0 range.1 range.2) random_key-IsKey
          (λ to _ draws. record { listed = []; joined = refl; exact = λ k. refl }))
bounded_range-Ensures (entry ∷ state) h =
    let σ = entry ∷ state in
    let kept = λ (from : Bytes). keep_keys (λ k. str_le from k) σ in
    let listed = λ (from : Bytes). take 10 (sort_keys (kept from)) in
    Ensures-bind random_key
      (λ from. drawn (from, range_end from (listed from), join (b',' ∷ []) (listed from))) IsKey
      (λ range. IsExact σ range.0 range.1 range.2) random_key-IsKey
      (λ from _ draws. record {
        listed = listed from;
        joined = refl;
        exact = λ k.
            take-IsExact from k 9 (sort_keys (kept from)) (sort_keys-AreSorted (kept from))
              (sort_keys-All IsKey (kept from) (keep_keys-IsKey (λ k'. str_le from k') σ h))
            ∙ ap (λ b. b && str_lt k (range_end from (listed from)))
                (among-sort_keys k (kept from) ∙ among-keep_keys (λ k'. str_le from k') k σ)
            ∙ and_assoc (is_among k (keys_of σ)) (str_le from k)
                (str_lt k (range_end from (listed from)));
      })

-- For a map of keys of the generator, `boundedRange` lists exactly the keys of the map that are not
-- below the first end of the range that it returns, and below the second.
pub bounded_range-IsExact :
    (σ : State) (draws left : List ℕ) (from to keys : Bytes)
    → IsState σ
    → bounded_range σ draws ≡ some ((from, to, keys), left)
    → IsExact σ from to keys
bounded_range-IsExact σ draws left from to keys h e =
    subst (λ r. OfResult r (λ range. IsExact σ range.0 range.1 range.2)) e
      (bounded_range-Ensures σ h draws)
