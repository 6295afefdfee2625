-- ===== src/Prelude/Errors.antt =====
-- Go's (value, error) pair. `panicked` is no error value: it is a run that panics, by an index out
-- of range or a nil pointer.
use mathlib.Core.Path.{◌≡◌, refl}
use mathlib.Core.Bool.{Bool, true, false}
use mathlib.Core.Option.{Option, none, some}

pub data Error : Type 0 where
  -- writing a table
  too_many_entries not_sorted empty_field field_too_long nul_byte invalid_entry_type : Error
  -- reading a table
  not_page_aligned invalid_block_count invalid_index block_out_of_range : Error
  crc_mismatch invalid_entry_count unsorted_entries : Error
  -- the bloom sidecar
  unsupported_parameters invalid_sidecar_size invalid_sidecar_header checksum_mismatch : Error
  -- the manifest
  invalid_manifest_entry invalid_key_text invalid_key_range invalid_level_header : Error
  -- the log
  line_too_long : Error
  -- a line of a script
  empty_line need_method_and_path unknown_method : Error
  -- the operating system: a file that is not there, and any other failure
  not_exist io_error : Error
  -- no error of the program: a loop has no fuel left
  out_of_fuel : Error

pub data Result {ℓ} (A : Type ℓ) : Type ℓ where
  panicked : Result A
  err : Error → Result A
  ok : A → Result A

infixl 5 ◌>>=◌
abbrev pub ◌>>=◌ {ℓ κ} : {A : Type ℓ} {B : Type κ} → Result A → (A → Result B) → Result B
panicked >>= rest = panicked
err why >>= rest = err why
ok a >>= rest = rest a

-- `if err != nil { return err }`, with no value to pass on
infixl 5 ◌>>◌
abbrev pub ◌>>◌ {ℓ} : {B : Type ℓ} → Result (Unit {0}) → Result B → Result B
check >> rest = check >>= λ _. rest

-- `if bad { return err }`
abbrev pub guard : Bool → Error → Result (Unit {0})
guard true e = err e
guard false e = ok tt

pub guard-eq-ok : (b : Bool) (e : Error) → guard b e ≡ ok tt → b ≡ false
guard-eq-ok true e h = cc
guard-eq-ok false e h = refl

-- An index out of range panics: `checked (get_elem? xs i)` is `xs[i]`.
abbrev pub checked {ℓ} : {A : Type ℓ} → Option A → Result A
checked none = panicked
checked (some a) = ok a

pub ok-injective {ℓ} : {A : Type ℓ} (a b : A) → ok a ≡ ok b → a ≡ b
ok-injective a b h = cc

module _ {ℓ κ} {A : Type ℓ} {B : Type κ} where
  -- A chain that succeeds has a first step that succeeds.
  pub bind-inv :
      (step : Result A) (rest : A → Result B) {r : B}
      → (step >>= rest) ≡ ok r
      → (a : A) × (step ≡ ok a) × (rest a ≡ ok r)
  bind-inv panicked rest done = cc
  bind-inv (err why) rest done = cc
  bind-inv (ok a) rest done = (a, refl, done)
