-- ===== src/Store/Names.antt =====
-- A new table gets a number above those in use.
use k_lsm_engine.Prelude.{
  ℕ, ◌+◌, ◌-◌, ◌^◌, ◌≤◌, ◌<◌, ◌≡◌, ◌≢◌, refl, ap, ◌∙◌, Bool, true, false, Option, none, some, List,
  [], ◌∷◌, ◌++◌, All, arith, Bytes, ltb, leb, ◌==◌, if◌then◌else◌, length, length-append,
  take-append, drop-append, str_eq_refl,
}
use k_lsm_engine.Std.Strconv.{
  decimal, digits_value, digits_value-decimal, IsDigits, decimal-IsDigits, decimal-ne-nil,
}
use k_lsm_engine.Store.{
  get_sstable_index, max_index, get_next_sstable_index, ss_table_ext, positive_atoi, index_of_rest,
  table_name, get_new_sstable_name, SstableLevel, find_level, get_level_sstables, tables_of,
  new_count, positive_number, positive_digits,
}

max_index-grows : (max : ℕ) (tables : List Bytes) → max ≤ max_index max tables
unfolding max_index
max_index-grows max [] = omega arith
max_index-grows max (t ∷ ts) =
    ground (
      arith,
      max_index-grows (if ltb max (get_sstable_index t) then get_sstable_index t else max) ts,
    )

max_index-bounds :
    (max : ℕ) (tables : List Bytes) → All (λ t. get_sstable_index t ≤ max_index max tables) tables
unfolding max_index
max_index-bounds max [] = tt
max_index-bounds max (t ∷ ts) =
    let next = if ltb max (get_sstable_index t) then get_sstable_index t else max in
    (ground (arith, max_index-grows next ts), max_index-bounds next ts)

-- The number of a new table is positive and above the number of every table of the level.
pub get_next_sstable_index-fresh :
    (tables : List Bytes)
    → (0 < get_next_sstable_index tables)
      × All (λ t. get_sstable_index t < get_next_sstable_index tables) tables
unfolding get_next_sstable_index
get_next_sstable_index-fresh tables =
    (omega arith, below (max_index 0 tables) tables (max_index-bounds 0 tables))
  where
    below :
        (n : ℕ) (ts : List Bytes)
        → All (λ t. get_sstable_index t ≤ n) ts
        → All (λ t. get_sstable_index t < n + 1) ts
    below n [] h = tt
    below n (t ∷ ts) h = (omega arith, below n ts h.1)

positive_atoi-digits :
    (s : Bytes) (n : ℕ)
    → IsDigits s
    → s ≢ []
    → digits_value 0 s ≡ some n
    → 0 < n
    → n < 2 ^ 63
    → positive_atoi s ≡ n
unfolding positive_atoi positive_digits positive_number
positive_atoi-digits [] n d filled h pos small = absurd (filled refl)
positive_atoi-digits (c ∷ s) n d filled h pos small =
    let plus : (c == 43) ≡ false = ground arith in
    let some_digits : (length (c ∷ s) == 0) ≡ false = ground arith in
    let fits : leb (2 ^ 63) n ≡ false = ground arith in
    ap (λ (b : Bool). positive_digits (if b then s else c ∷ s)) plus
    ∙ ap (λ (o : Option ℕ). positive_number o (c ∷ s)) h
    ∙ rw (some_digits, fits) refl

index_of_digits :
    (table d : Bytes) → index_of_rest table (some (d ++ ss_table_ext)) ≡ positive_atoi d
unfolding index_of_rest
index_of_digits table d =
    let n : length (d ++ ss_table_ext) - 3 ≡ length d =
      omega (arith, length-append d ss_table_ext) in
    let long : leb 3 (length (d ++ ss_table_ext)) ≡ true =
      ground (arith, length-append d ss_table_ext) in
    rw (long, n, drop-append d ss_table_ext, take-append d ss_table_ext, str_eq_refl ss_table_ext)
      refl

-- The name of a table has its number.
pub get_sstable_index-table_name :
    (n : ℕ) → 0 < n → n < 2 ^ 63 → get_sstable_index (table_name n) ≡ n
unfolding get_sstable_index table_name
get_sstable_index-table_name n pos small =
    index_of_digits (table_name n) (decimal n)
    ∙ positive_atoi-digits (decimal n) n (decimal-IsDigits n) (decimal-ne-nil n)
        (digits_value-decimal n) pos small

below-Among :
    (n : ℕ) (name : Bytes) (ts : List Bytes)
    → All (λ t. get_sstable_index t < n) ts
    → get_sstable_index name ≡ n
    → All (λ t. t ≢ name) ts
below-Among n name [] h e = tt
below-Among n name (t ∷ ts) h e =
    ((λ same. omega (arith, h.0, ap get_sstable_index same)), below-Among n name ts h.1 e)

new_count_lem : (o : Option SstableLevel) → new_count o ≡ get_next_sstable_index (tables_of o)
unfolding new_count get_next_sstable_index max_index tables_of
new_count_lem none = refl
new_count_lem (some l) = refl

-- The name of a new table is that of no table of the level, and has the next number, unless that
-- number leaves the range of a Go integer.
pub get_new_sstable_name-fresh :
    (levels : List SstableLevel) (level : ℕ)
    → get_next_sstable_index (get_level_sstables levels level) < 2 ^ 63
    → (get_sstable_index (get_new_sstable_name levels level)
        ≡ get_next_sstable_index (get_level_sstables levels level))
      × All (λ t. t ≢ get_new_sstable_name levels level) (get_level_sstables levels level)
unfolding get_new_sstable_name get_level_sstables
get_new_sstable_name-fresh levels level small =
    let tables = get_level_sstables levels level in
    let n = get_next_sstable_index tables in
    let (pos, below) = get_next_sstable_index-fresh tables in
    let count = ap get_sstable_index (ap table_name (new_count_lem (find_level levels level))) in
    let named = count ∙ get_sstable_index-table_name n pos small in
    (named, below-Among n (get_new_sstable_name levels level) tables below named)

max_index-snoc :
    (max : ℕ) (tables : List Bytes) (t : Bytes)
    → max_index max tables < get_sstable_index t
    → max_index max (tables ++ t ∷ []) ≡ get_sstable_index t
unfolding max_index
max_index-snoc max [] t above = ground (arith, above)
max_index-snoc max (x ∷ tables) t above =
    max_index-snoc (if ltb max (get_sstable_index x) then get_sstable_index x else max) tables t
      above

-- A level that gets the new table has the next number.
pub get_next_sstable_index-snoc :
    (tables : List Bytes) (t : Bytes)
    → get_sstable_index t ≡ get_next_sstable_index tables
    → get_next_sstable_index (tables ++ t ∷ []) ≡ get_next_sstable_index tables + 1
unfolding get_next_sstable_index
get_next_sstable_index-snoc tables t named =
    let above : max_index 0 tables < get_sstable_index t = omega (arith, named) in
    ap (λ (n : ℕ). n + 1) (max_index-snoc 0 tables t above ∙ named)

pub get_next_sstable_index-nil :
    (tables : List Bytes) → get_next_sstable_index [] ≤ get_next_sstable_index tables
unfolding get_next_sstable_index max_index
get_next_sstable_index-nil tables = omega arith
