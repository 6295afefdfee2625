-- ===== src/Gen/Ops.antt =====
-- The rounds of `run1` and `run2` as operations on a map.
use k_lsm_engine.Prelude.{◌≡◌, refl, ap, ◌||◌, Option, none, some, arith, if◌then◌else◌, Bytes}
use k_lsm_engine.Store.{lookup}
use k_lsm_engine.Gen.Draws.{
  drawn, random, random_value, State, set_key, delete_key, existing_key, unknown_key,
}
use k_lsm_engine.Gen.Script.{
  is_empty, format_get, format_not_found, format_put, format_delete, value_or_empty, max_value,
  write_not_found, write_existing, write_get, write_value, write_update, write_new, write_put,
  write_deleted, write_delete, write_delete_or_put, round1, round2, get_frequency,
  not_found_frequency, update_frequency, delete_frequency,
}
use k_lsm_engine.Gen.Valid.{
  IsKey, IsValue, IsState, Ensures, Ensures-bind, Ensures-if, random-Any, random_value-IsValue,
  IsHeld, existing_key-IsHeld, IsUnknown, unknown_key-IsUnknown, set_key-IsState,
  delete_key-IsState,
}

-- What a line asks of the server.
pub data Op : Type 0 where
  put found : Bytes → Bytes → Op
  missing delete : Bytes → Op

unfoldable pub op_text : Op → Bytes
op_text (put k v) = format_put k v
op_text (found k v) = format_get k v
op_text (missing k) = format_not_found k
op_text (delete k) = format_delete k

-- The map is as the line says.
unfoldable pub IsLegal : State → Op → Type 0
IsLegal σ (put k v) = IsKey k × IsValue v
IsLegal σ (found k v) = IsKey k × IsValue v × (lookup k σ ≡ some v)
IsLegal σ (missing k) = IsKey k × (lookup k σ ≡ none)
IsLegal σ (delete k) = IsKey k

unfoldable pub apply : Op → State → State
apply (put k v) σ = set_key k v σ
apply (delete k) σ = delete_key k σ
apply op σ = σ

-- What a round writes is the line of a legal operation, and the state is the one after it.
pub record IsWritten (σ : State) (text : Bytes) (σ' : State) : Type 0 where
  pub op : Op
  pub text_of : text ≡ op_text op
  pub legal : IsLegal σ op
  pub state_of : σ' ≡ apply op σ
  pub valid : IsState σ'

unfoldable pub IsRound : State → Option (Bytes × State) → Type 0
IsRound σ none = Unit {0}
IsRound σ (some (text, σ')) = IsWritten σ text σ'

module _ (σ : State) (h : IsState σ) where
  write_not_found-IsRound : Ensures (write_not_found σ) (IsRound σ)
  unfolding write_not_found IsRound op_text IsLegal apply
  write_not_found-IsRound =
      Ensures-bind (unknown_key σ) (λ k. drawn (some (format_not_found k, σ))) (IsUnknown σ)
        (IsRound σ) (unknown_key-IsUnknown σ)
        (λ k unknown draws. record {
          op = missing k;
          text_of = refl;
          legal = unknown;
          state_of = refl;
          valid = h;
        })

  write_existing-IsRound : Ensures (write_existing σ) (IsRound σ)
  unfolding write_existing IsRound op_text IsLegal apply value_or_empty
  write_existing-IsRound =
      Ensures-bind (existing_key σ)
        (λ k. drawn (some (format_get k (value_or_empty (lookup k σ)), σ))) (IsHeld σ) (IsRound σ)
        (existing_key-IsHeld σ h)
        (λ k held draws. record {
          op = found k held.1;
          text_of = ap (λ o. format_get k (value_or_empty o)) held.2;
          legal = (held.0, held.3, held.2);
          state_of = refl;
          valid = h;
        })

  write_get-IsRound : Ensures (write_get σ) (IsRound σ)
  unfolding write_get
  write_get-IsRound =
      Ensures-bind (random not_found_frequency)
        (λ misses. if misses || is_empty σ then write_not_found σ else write_existing σ)
        (λ _. Unit {0}) (IsRound σ) (random-Any not_found_frequency)
        (λ misses _.
          Ensures-if (misses || is_empty σ) (write_not_found σ) (write_existing σ) (IsRound σ)
            write_not_found-IsRound write_existing-IsRound)

  write_value-IsRound : (k : Bytes) → IsKey k → Ensures (write_value σ k) (IsRound σ)
  unfolding write_value IsRound op_text IsLegal apply
  write_value-IsRound k hk =
      Ensures-bind (random_value max_value) (λ v. drawn (some (format_put k v, set_key k v σ)))
        IsValue (IsRound σ) (random_value-IsValue max_value (omega arith) (omega arith))
        (λ v hv draws. record {
          op = put k v;
          text_of = refl;
          legal = (hk, hv);
          state_of = refl;
          valid = set_key-IsState k v σ hk hv h;
        })

  write_put-IsRound : Ensures (write_put σ) (IsRound σ)
  unfolding write_put write_update write_new IsRound
  write_put-IsRound =
      let update =
        Ensures-bind (existing_key σ) (write_value σ) (IsHeld σ) (IsRound σ)
          (existing_key-IsHeld σ h) (λ k held. write_value-IsRound k held.0) in
      let new =
        Ensures-bind (unknown_key σ) (write_value σ) (IsUnknown σ) (IsRound σ)
          (unknown_key-IsUnknown σ) (λ k unknown. write_value-IsRound k unknown.0) in
      Ensures-bind (random update_frequency)
        (λ updates.
          if updates then (if is_empty σ then drawn none else write_update σ) else write_new σ)
        (λ _. Unit {0}) (IsRound σ) (random-Any update_frequency)
        (λ updates _.
          Ensures-if updates (if is_empty σ then drawn none else write_update σ) (write_new σ)
            (IsRound σ)
            (Ensures-if (is_empty σ) (drawn none) (write_update σ) (IsRound σ) (λ draws. tt) update)
            new)

  write_delete-IsRound : Ensures (write_delete σ) (IsRound σ)
  unfolding write_delete write_deleted IsRound op_text IsLegal apply
  write_delete-IsRound =
      Ensures-if (is_empty σ) (write_not_found σ) (write_deleted σ) (IsRound σ)
        write_not_found-IsRound
        (Ensures-bind (existing_key σ) (λ k. drawn (some (format_delete k, delete_key k σ)))
          (IsHeld σ) (IsRound σ) (existing_key-IsHeld σ h)
          (λ k held draws. record {
            op = delete k;
            text_of = refl;
            legal = held.0;
            state_of = refl;
            valid = delete_key-IsState k σ h;
          }))

  pub round1-IsRound : Ensures (round1 σ) (IsRound σ)
  unfolding round1
  round1-IsRound =
      Ensures-bind (random get_frequency) (λ get. if get then write_get σ else write_put σ)
        (λ _. Unit {0}) (IsRound σ) (random-Any get_frequency)
        (λ get _.
          Ensures-if get (write_get σ) (write_put σ) (IsRound σ) write_get-IsRound
            write_put-IsRound)

  write_delete_or_put-IsRound : Ensures (write_delete_or_put σ) (IsRound σ)
  unfolding write_delete_or_put
  write_delete_or_put-IsRound =
      Ensures-bind (random delete_frequency)
        (λ deletes. if deletes then write_delete σ else write_put σ) (λ _. Unit {0}) (IsRound σ)
        (random-Any delete_frequency)
        (λ deletes _.
          Ensures-if deletes (write_delete σ) (write_put σ) (IsRound σ) write_delete-IsRound
            write_put-IsRound)

  pub round2-IsRound : Ensures (round2 σ) (IsRound σ)
  unfolding round2
  round2-IsRound =
      Ensures-bind (random get_frequency)
        (λ get. if get then write_get σ else write_delete_or_put σ) (λ _. Unit {0}) (IsRound σ)
        (random-Any get_frequency)
        (λ get _.
          Ensures-if get (write_get σ) (write_delete_or_put σ) (IsRound σ) write_get-IsRound
            write_delete_or_put-IsRound)
