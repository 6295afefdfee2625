-- ===== src/Gen/Script.antt =====
-- The lines of a script and the loops of cmd/gen/main.go that write one.
use k_lsm_engine.Prelude.{
  ℕ, zero, suc, Bool, ◌||◌, Option, none, some, [], ◌∷◌, ◌++◌, length, ◌==◌, if◌then◌else◌, Bytes,
  str_eq,
}
use k_lsm_engine.Store.{lookup}
use k_lsm_engine.Gen.Draws.{
  Drawn, ◌>>=◌, drawn, State, random, random_value, existing_key, unknown_key, set_key, delete_key,
}
use k_lsm_engine.Gen.Range.{bounded_range}

abbrev pub get_frequency : ℕ
get_frequency = 5

abbrev pub delete_frequency : ℕ
delete_frequency = 10

abbrev pub not_found_frequency : ℕ
not_found_frequency = 5

abbrev pub update_frequency : ℕ
update_frequency = 2

abbrev scan_frequency : ℕ
scan_frequency = 100

abbrev pub max_value : ℕ
max_value = 1000

abbrev pub not_found : Bytes
not_found = b'N' ∷ b'O' ∷ b'T' ∷ b'_' ∷ b'F' ∷ b'O' ∷ b'U' ∷ b'N' ∷ b'D' ∷ []

unfoldable pub format_get : Bytes → Bytes → Bytes
format_get key v = b'G' ∷ b'E' ∷ b'T' ∷ b' ' ∷ (key ++ (b' ' ∷ (v ++ b'\n' ∷ [])))

unfoldable pub format_not_found : Bytes → Bytes
format_not_found key = format_get key not_found

unfoldable pub format_put : Bytes → Bytes → Bytes
format_put key v = b'P' ∷ b'U' ∷ b'T' ∷ b' ' ∷ (key ++ (b' ' ∷ (v ++ b'\n' ∷ [])))

unfoldable pub format_delete : Bytes → Bytes
format_delete key = b'D' ∷ b'E' ∷ b'L' ∷ b'E' ∷ b'T' ∷ b'E' ∷ b' ' ∷ (key ++ b'\n' ∷ [])

unfoldable pub format_range : Bytes → Bytes → Bytes → Bytes
format_range from to keys =
    b'S' ∷ b'C' ∷ b'A' ∷ b'N' ∷ b' ' ∷ (from ++ (b' ' ∷ (to ++ (b' ' ∷ (keys ++ b'\n' ∷ [])))))

-- A round of a loop writes text and changes the state; with none it is not counted (`i--`).
abbrev pub Round : Type 0
Round = State → Drawn (Option (Bytes × State))

unfoldable pub write_not_found : Round
unfolding unknown_key format_not_found
write_not_found state = do k ← unknown_key state; drawn (some (format_not_found k, state))

-- the value `state[k]`, "" if there were none
unfoldable pub value_or_empty : Option Bytes → Bytes
value_or_empty none = []
value_or_empty (some v) = v

unfoldable pub write_existing : Round
unfolding existing_key format_get value_or_empty
write_existing state = do
  k ← existing_key state
  drawn (some (format_get k (value_or_empty (lookup k state)), state))

abbrev pub is_empty : State → Bool
is_empty state = length state == 0

unfoldable pub write_get : Round
unfolding random write_not_found write_existing
write_get state = do
  missing ← random not_found_frequency
  if missing || is_empty state then write_not_found state else write_existing state

-- a put of a new value for the key
unfoldable pub write_value : State → Bytes → Drawn (Option (Bytes × State))
unfolding random_value format_put set_key
write_value state k = do
  v ← random_value max_value
  drawn (some (format_put k v, set_key k v state))

unfoldable pub write_update : Round
unfolding existing_key write_value
write_update state = do k ← existing_key state; write_value state k

unfoldable pub write_new : Round
unfolding unknown_key write_value
write_new state = do k ← unknown_key state; write_value state k

unfoldable pub write_put : Round
unfolding random write_update write_new
write_put state = do
  update ← random update_frequency
  if update then (if is_empty state then drawn none else write_update state) else write_new state

unfoldable pub write_deleted : Round
unfolding existing_key format_delete delete_key
write_deleted state = do k ← existing_key state; drawn (some (format_delete k, delete_key k state))

unfoldable pub write_delete : Round
unfolding write_not_found write_deleted
write_delete state = if is_empty state then write_not_found state else write_deleted state

-- the body of the loop of `run1`
unfoldable pub round1 : Round
unfolding random write_get write_put
round1 state = do get ← random get_frequency; if get then write_get state else write_put state

unfoldable pub write_delete_or_put : Round
unfolding random write_delete write_put
write_delete_or_put state = do
  delete ← random delete_frequency
  if delete then write_delete state else write_put state

unfoldable pub round2 : Round
unfolding random write_get write_delete_or_put
round2 state = do
  get ← random get_frequency
  if get then write_get state else write_delete_or_put state

unfoldable pub write_scan : Round
unfolding bounded_range format_range
write_scan state = do
  range ← bounded_range state
  drawn (some (format_range range.0 range.1 range.2, state))

unfoldable pub round2_scan : Round
unfolding random write_scan round2
round2_scan state = do scan ← random scan_frequency; if scan then write_scan state else round2 state

-- The loop over the lines. Each round takes a draw, so that there are at most as many as draws.
unfoldable pub run_loop : Round → ℕ → ℕ → State → Drawn Bytes
run_loop round zero lines state = λ draws. none
run_loop round (suc fuel) zero state = drawn []
run_loop round (suc fuel) (suc lines) state = do
  written ← round state
  elim written [
    | none ↦ run_loop round fuel (suc lines) state
    | some (text, state') ↦ do rest ← run_loop round fuel lines state'; drawn (text ++ rest)
  ]

-- what is written to the file
unfoldable pub run : Round → ℕ → Drawn Bytes
unfolding run_loop
run round lines draws = run_loop round (suc (length draws)) lines [] draws

abbrev pub run1 : ℕ → Drawn Bytes
run1 = run round1

abbrev pub run2 : ℕ → Drawn Bytes
run2 = run round2

abbrev pub run2_scan : ℕ → Drawn Bytes
run2_scan = run round2_scan

-- The modes of the program: the file that is written, and the run. Any other mode is refused.
abbrev put_mode : Bytes
put_mode = b'p' ∷ b'u' ∷ b't' ∷ []

abbrev put_delete_mode : Bytes
put_delete_mode = put_mode ++ (b'-' ∷ b'd' ∷ b'e' ∷ b'l' ∷ b'e' ∷ b't' ∷ b'e' ∷ [])

abbrev put_delete_scan_mode : Bytes
put_delete_scan_mode = put_delete_mode ++ (b'-' ∷ b's' ∷ b'c' ∷ b'a' ∷ b'n' ∷ [])

abbrev text_file : Bytes → Bytes
text_file mode = mode ++ (b'.' ∷ b't' ∷ b'x' ∷ b't' ∷ [])

pub run_mode : Bytes → Option (Bytes × (ℕ → Drawn Bytes))
run_mode mode =
    if str_eq mode put_mode
    then some (text_file put_mode, run1)
    else if str_eq mode put_delete_mode
    then some (text_file put_delete_mode, run2)
    else if str_eq mode put_delete_scan_mode
    then some (text_file put_delete_scan_mode, run2_scan)
    else none
