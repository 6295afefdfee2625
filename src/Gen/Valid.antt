-- ===== src/Gen/Valid.antt =====
-- What the random keys and values of the generator are, and those it takes from its map.
use k_lsm_engine.Prelude.{
  ℕ, zero, suc, ◌+◌, ◌≤◌, ◌<◌, ◌≡◌, ◌≢◌, inl, inr, refl, ap, Bool, true, false, Option, none, some,
  List, [], ◌∷◌, length, All, arith, if◌then◌else◌, Bool-cases, Bytes, str_eq, str_eq_refl,
}
use k_lsm_engine.Std.Strconv.{decimal, IsDigits, decimal-IsDigits, decimal-ne-nil, length-decimal}
use k_lsm_engine.Store.{lookup}
use k_lsm_engine.Gen.Draws.{
  Drawn, bind_drawn, ◌>>=◌, drawn, int_n, random, letters, random_key, random_value, key_length,
  State, set_key, delete_key, at_index, keys_of, existing_key, unknown_key_loop, unknown_key,
}

-- a key of the generator: small letters
pub record IsKey (k : Bytes) : Type 0 where
  pub some_letter : k ≢ []
  pub letters : All (λ b. (97 ≤ b) × (b ≤ 122)) k
  pub sized : length k ≡ key_length

-- a value of the generator: digits
pub record IsValue (v : Bytes) : Type 0 where
  pub some_digit : v ≢ []
  pub digits : IsDigits v
  pub short : length v ≤ 2000

-- What holds of a result, if the draws do not run out.
abbrev pub OfResult : {A : Type 0} → Option (A × List ℕ) → (A → Type 0) → Type 0
OfResult none P = Unit {0}
OfResult (some (a, draws)) P = P a

-- the same for all draws
abbrev pub Ensures : {A : Type 0} → Drawn A → (A → Type 0) → Type 0
Ensures m P = (draws : List ℕ) → OfResult (m draws) P

OfResult-bind :
    {A B : Type 0} (r : Option (A × List ℕ)) (f : A → Drawn B) (P : A → Type 0) (Q : B → Type 0)
    → OfResult r P
    → ((a : A) → P a → Ensures (f a) Q)
    → OfResult (bind_drawn r f) Q
OfResult-bind none f P Q h k = tt
OfResult-bind (some (a, draws)) f P Q h k = k a h draws

pub Ensures-bind :
    {A B : Type 0} (m : Drawn A) (f : A → Drawn B) (P : A → Type 0) (Q : B → Type 0)
    → Ensures m P
    → ((a : A) → P a → Ensures (f a) Q)
    → Ensures (m >>= f) Q
Ensures-bind m f P Q h k draws = OfResult-bind (m draws) f P Q (h draws) k

pub Ensures-if :
    {A : Type 0} (b : Bool) (m n : Drawn A) (P : A → Type 0)
    → Ensures m P
    → Ensures n P
    → Ensures (if b then m else n) P
Ensures-if true m n P h k = h
Ensures-if false m n P h k = k

abbrev Any : {A : Type 0} → A → Type 0
Any a = Unit {0}

pub random-Any : (max : ℕ) → Ensures (random max) Any
unfolding random int_n
random-Any max [] = tt
random-Any max (d ∷ draws) = tt

int_n-below : (n : ℕ) → 0 < n → Ensures (int_n n) (λ d. d < n)
unfolding int_n
int_n-below n h [] = tt
int_n-below n h (d ∷ draws) = omega arith

abbrev AreLetters : ℕ → Bytes → Type 0
AreLetters n k = All (λ b. (97 ≤ b) × (b ≤ 122)) k × (length k ≡ n)

letters-AreLetters : (n : ℕ) → Ensures (letters n) (AreLetters n)
unfolding letters
letters-AreLetters zero = λ draws. (tt, refl)
letters-AreLetters (suc n) =
    Ensures-bind (int_n 26) (λ d. letters n >>= λ rest. drawn ((97 + d) ∷ rest)) (λ d. d < 26)
      (AreLetters (suc n)) (int_n-below 26 (omega arith))
      (λ d below.
        Ensures-bind (letters n) (λ rest. drawn ((97 + d) ∷ rest)) (AreLetters n)
          (AreLetters (suc n)) (letters-AreLetters n)
          (λ rest h draws. (((omega arith, omega arith), h.0), ap (λ (x : ℕ). suc x) h.1)))

letters-IsKey : (k : Bytes) → AreLetters key_length k → IsKey k
letters-IsKey [] h = absurd (omega (arith, h.1))
letters-IsKey (b ∷ k) h = record { some_letter = λ e. cc; letters = h.0; sized = h.1 }

OfResult-imp :
    {A : Type 0} (r : Option (A × List ℕ)) (P Q : A → Type 0)
    → ((a : A) → P a → Q a)
    → OfResult r P
    → OfResult r Q
OfResult-imp none P Q f h = tt
OfResult-imp (some (a, draws)) P Q f h = f a h

pub random_key-IsKey : Ensures random_key IsKey
unfolding random_key
random_key-IsKey draws =
    OfResult-imp (letters key_length draws) (AreLetters key_length) IsKey letters-IsKey
      (letters-AreLetters key_length draws)

pub random_value-IsValue : (max : ℕ) → 0 < max → max ≤ 1000 → Ensures (random_value max) IsValue
unfolding random_value
random_value-IsValue max h bound =
    Ensures-bind (int_n max) (λ d. drawn (decimal d)) (λ d. d < max) IsValue (int_n-below max h)
      (λ d below draws. record {
        some_digit = decimal-ne-nil d;
        digits = decimal-IsDigits d;
        short = omega (arith, length-decimal d);
      })

-- the map of the generator
abbrev pub IsState : State → Type 0
IsState σ = All (λ entry. IsKey entry.0 × IsValue entry.1) σ

pub set_key-IsState :
    (k v : Bytes) (σ : State) → IsKey k → IsValue v → IsState σ → IsState (set_key k v σ)
unfolding set_key
set_key-IsState k v [] hk hv h = ((hk, hv), tt)
set_key-IsState k v ((at, w) ∷ σ) hk hv h = elim (Bool-cases (str_eq at k)) [
  | inl same ↦ rw same ((h.0.0, hv), h.1)
  | inr other ↦ rw other (h.0, set_key-IsState k v σ hk hv h.1)
]

pub delete_key-IsState : (k : Bytes) (σ : State) → IsState σ → IsState (delete_key k σ)
unfolding delete_key
delete_key-IsState k [] h = tt
delete_key-IsState k ((at, w) ∷ σ) h = elim (Bool-cases (str_eq at k)) [
  | inl same ↦ rw same (delete_key-IsState k σ h.1)
  | inr other ↦ rw other (h.0, delete_key-IsState k σ h.1)
]

-- a key of the map, with its value
abbrev pub IsHeld : State → Bytes → Type 0
IsHeld σ k = IsKey k × (v : Bytes) × (lookup k σ ≡ some v) × IsValue v

IsHeld-cons :
    (at w k : Bytes) (σ : State) → IsKey at × IsValue w → IsHeld σ k → IsHeld ((at, w) ∷ σ) k
unfolding lookup
IsHeld-cons at w k σ h held = elim (Bool-cases (str_eq at k)) [
  | inl same ↦ (held.0, w, rw same refl, h.1)
  | inr other ↦ (held.0, held.1, rw other held.2, held.3)
]

at_index-IsHeld : (σ : State) (i : ℕ) → IsState σ → Ensures (at_index (keys_of σ) i) (IsHeld σ)
unfolding lookup
at_index-IsHeld [] i h draws = tt
at_index-IsHeld ((at, w) ∷ σ) zero h draws = (h.0.0, w, rw (str_eq_refl at) refl, h.0.1)
at_index-IsHeld ((at, w) ∷ σ) (suc i) h draws =
    OfResult-imp (at_index (keys_of σ) i draws) (IsHeld σ) (IsHeld ((at, w) ∷ σ))
      (λ k held. IsHeld-cons at w k σ h.0 held) (at_index-IsHeld σ i h.1 draws)

int_n-Any : (n : ℕ) → Ensures (int_n n) Any
unfolding int_n
int_n-Any n [] = tt
int_n-Any n (d ∷ draws) = tt

pub existing_key-IsHeld : (σ : State) → IsState σ → Ensures (existing_key σ) (IsHeld σ)
unfolding existing_key
existing_key-IsHeld σ h =
    Ensures-bind (int_n (length (keys_of σ))) (at_index (keys_of σ)) Any (IsHeld σ)
      (int_n-Any (length (keys_of σ))) (λ i _. at_index-IsHeld σ i h)

abbrev pub IsUnknown : State → Bytes → Type 0
IsUnknown σ k = IsKey k × (lookup k σ ≡ none)

tried :
    (k : Bytes) (σ : State) (again : Drawn Bytes) (o : Option Bytes)
    → IsKey k
    → lookup k σ ≡ o
    → Ensures again (IsUnknown σ)
    → Ensures (elim o [ none ↦ drawn k | some v ↦ again ]) (IsUnknown σ)
tried k σ again none hk e h = λ draws. (hk, e)
tried k σ again (some v) hk e h = h

unknown_key_loop-IsUnknown :
    (fuel : ℕ) (σ : State) → Ensures (unknown_key_loop fuel σ) (IsUnknown σ)
unfolding unknown_key_loop
unknown_key_loop-IsUnknown zero σ = λ draws. tt
unknown_key_loop-IsUnknown (suc fuel) σ =
    Ensures-bind random_key
      (λ k. elim (lookup k σ) [ none ↦ drawn k | some v ↦ unknown_key_loop fuel σ ]) IsKey
      (IsUnknown σ) random_key-IsKey
      (λ k hk.
        tried k σ (unknown_key_loop fuel σ) (lookup k σ) hk refl
          (unknown_key_loop-IsUnknown fuel σ))

pub unknown_key-IsUnknown : (σ : State) → Ensures (unknown_key σ) (IsUnknown σ)
unfolding unknown_key
unknown_key-IsUnknown σ draws = unknown_key_loop-IsUnknown (length draws) σ draws
