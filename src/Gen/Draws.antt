-- ===== src/Gen/Draws.antt =====
-- Random numbers, keys and values of cmd/gen/main.go, and its map.
use k_lsm_engine.Prelude.{
  ℕ, zero, suc, ◌+◌, ◌%◌, Bool, Option, none, some, List, [], ◌∷◌, map, length, ◌==◌, if◌then◌else◌,
  Bytes, str_eq, get_elem?,
}
use k_lsm_engine.Std.Strconv.{decimal}
use k_lsm_engine.Store.{lookup}

abbrev pub key_length : ℕ
key_length = 5

-- what is computed with draws, and the draws that are left
abbrev pub Drawn : Type 0 → Type 0
Drawn A = List ℕ → Option (A × List ℕ)

abbrev pub bind_drawn : {A B : Type 0} → Option (A × List ℕ) → (A → Drawn B) → Option (B × List ℕ)
bind_drawn none rest = none
bind_drawn (some (a, draws)) rest = rest a draws

infixl 5 ◌>>=◌
abbrev pub ◌>>=◌ : {A B : Type 0} → Drawn A → (A → Drawn B) → Drawn B
step >>= rest = λ draws. bind_drawn (step draws) rest

abbrev pub drawn : {A : Type 0} → A → Drawn A
drawn a draws = some (a, draws)

-- `rand.IntN(n)`
unfoldable pub int_n : ℕ → Drawn ℕ
int_n n [] = none
int_n n (d ∷ draws) = some (d % n, draws)

unfoldable pub random : ℕ → Drawn Bool
unfolding int_n
random max = do d ← int_n max; drawn (d == 0)

unfoldable pub letters : ℕ → Drawn Bytes
unfolding int_n
letters zero = drawn []
letters (suc n) = do d ← int_n 26; rest ← letters n; drawn ((97 + d) ∷ rest)

unfoldable pub random_key : Drawn Bytes
unfolding letters
random_key = letters key_length

unfoldable pub random_value : ℕ → Drawn Bytes
unfolding int_n
random_value max = do d ← int_n max; drawn (decimal d)

-- A Go map is a list of its keys and values; `state[k] = v` and `delete(state, k)`.
abbrev pub State : Type 0
State = List (Bytes × Bytes)

unfoldable pub set_key : Bytes → Bytes → State → State
set_key key v [] = (key, v) ∷ []
set_key key v ((at, w) ∷ rest) =
    let later = set_key key v rest in if str_eq at key then (at, v) ∷ rest else (at, w) ∷ later

unfoldable pub delete_key : Bytes → State → State
delete_key key [] = []
delete_key key ((at, w) ∷ rest) =
    let later = delete_key key rest in if str_eq at key then later else (at, w) ∷ later

abbrev pub keys_of : State → List Bytes
keys_of = map (λ entry. entry.0)

-- An index out of range would panic; none stands for it as well.
abbrev pub at_index : {A : Type 0} → List A → ℕ → Drawn A
at_index xs i draws = elim (get_elem? xs i) [ none ↦ none | some x ↦ some (x, draws) ]

-- The keys stand in the order of the list, where Go has any order.
unfoldable pub existing_key : State → Drawn Bytes
unfolding int_n
existing_key state = do i ← int_n (length (keys_of state)); at_index (keys_of state) i

-- Each round takes draws, so that there are at most as many rounds as draws.
unfoldable pub unknown_key_loop : ℕ → State → Drawn Bytes
unfolding random_key
unknown_key_loop zero state = λ draws. none
unknown_key_loop (suc fuel) state = do
  k ← random_key
  let again = unknown_key_loop fuel state
  elim (lookup k state) [ none ↦ drawn k | some v ↦ again ]

unfoldable pub unknown_key : State → Drawn Bytes
unfolding unknown_key_loop
unknown_key state draws = unknown_key_loop (length draws) state draws
