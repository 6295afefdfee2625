-- ===== src/Gen/Tests.antt =====
-- A range of a map of two keys.
use k_lsm_engine.Prelude.{ℕ, ◌≤◌, ◌≡◌, ◌≢◌, All, length, arith, refl, some, [], ◌∷◌, Bytes, str_lt}
use k_lsm_engine.Std.Fields.{join}
use k_lsm_engine.Gen.Draws.{key_length, State, int_n, letters, random_key}
use k_lsm_engine.Gen.Range.{
  bump, next_key, insert_key, sort_keys, keep_keys, last_key, range_end, bounded_range,
}
use k_lsm_engine.Gen.Valid.{IsKey, IsValue, IsState}
use k_lsm_engine.Gen.Exact.{IsExact, bounded_range-IsExact}

abbrev two_keys : State
two_keys =
    (b'z' ∷ b'z' ∷ b'a' ∷ b'a' ∷ b'a' ∷ [], b'1' ∷ [])
    ∷ (b'b' ∷ b'b' ∷ b'a' ∷ b'a' ∷ b'z' ∷ [], b'2' ∷ [])
    ∷ []

-- "baaaa", "zzaab", and the two keys in their order
abbrev from : Bytes
from = b'b' ∷ b'a' ∷ b'a' ∷ b'a' ∷ b'a' ∷ []

abbrev to : Bytes
to = b'z' ∷ b'z' ∷ b'a' ∷ b'a' ∷ b'b' ∷ []

abbrev keys : Bytes
keys = b'b' ∷ b'b' ∷ b'a' ∷ b'a' ∷ b'z' ∷ b',' ∷ b'z' ∷ b'z' ∷ b'a' ∷ b'a' ∷ b'a' ∷ []

range_of_two : bounded_range two_keys (1 ∷ 0 ∷ 0 ∷ 0 ∷ 0 ∷ []) ≡ some ((from, to, keys), [])
unfolding bounded_range random_key letters int_n sort_keys insert_key keep_keys range_end next_key
    bump last_key join str_lt
range_of_two = refl

key_of : (k : Bytes) → k ≢ [] → All (λ b. (97 ≤ b) × (b ≤ 122)) k → length k ≡ key_length → IsKey k
key_of k filled letters sized = record { some_letter = filled; letters = letters; sized = sized }

digit-IsValue : (d : ℕ) → 48 ≤ d → d ≤ 57 → IsValue (d ∷ [])
digit-IsValue d low high = record {
  some_digit = λ e. cc;
  digits = ((low, high), tt);
  short = omega arith;
}

two_keys-IsState : IsState two_keys
two_keys-IsState = (
  (
    key_of (b'z' ∷ b'z' ∷ b'a' ∷ b'a' ∷ b'a' ∷ []) (λ e. cc) (omega arith) refl,
    digit-IsValue b'1' (omega arith) (omega arith),
  ),
  (
    (
      key_of (b'b' ∷ b'b' ∷ b'a' ∷ b'a' ∷ b'z' ∷ []) (λ e. cc) (omega arith) refl,
      digit-IsValue b'2' (omega arith) (omega arith),
    ),
    tt,
  ),
)

bounded_range-IsExact_example : IsExact two_keys from to keys
bounded_range-IsExact_example =
    bounded_range-IsExact two_keys (1 ∷ 0 ∷ 0 ∷ 0 ∷ 0 ∷ []) [] from to keys two_keys-IsState
      range_of_two
