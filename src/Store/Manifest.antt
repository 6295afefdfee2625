-- ===== src/Store/Manifest.antt =====
-- The manifest of internal/storage/sstable.go: `getAllSSTables` and `rewriteManifestFromLevels`. The
-- manifest is the list of its bytes, or none while there is no such file.
pub mod Parts
pub mod Tables
pub mod RoundTrip
use k_lsm_engine.Prelude.{
  ℕ, zero, suc, ◌*◌, ◌^◌, Bool, true, false, ◌&&◌, ◌||◌, not, Option, none, some, List, [], ◌∷◌,
  ◌++◌, length, ltb, leb, ◌==◌, if◌then◌else◌, Bytes, str_eq, str_lt, Result, ok, err, panicked,
  ◌>>=◌, ◌>>◌, guard, invalid_manifest_entry, invalid_key_text, invalid_key_range,
  invalid_level_header, line_too_long, io_error,
}
use k_lsm_engine.Std.Strconv.{decimal, digits_value, is_digit}
use k_lsm_engine.Std.Quote.{quote, unquote}
use k_lsm_engine.Std.Trim.{trim_space}
use k_lsm_engine.Std.Scanner.{split_lines, drop_cr, max_line}
use k_lsm_engine.Store.{SstableLevel, SstableKeyRange, lookup}
use k_lsm_engine.Store.Disk.{keep_range}

-- the digits up to the bracket that ends the header
level_digits : Bytes → Option Bytes
level_digits [] = none
level_digits (d ∷ s) =
    let later = level_digits s in
    if is_digit d
    then elim later [ none ↦ none | some ds ↦ some (d ∷ ds) ]
    else if str_eq (d ∷ s) (b']' ∷ [])
    then some []
    else none

some_digits : Option Bytes → Option Bytes
some_digits none = none
some_digits (some []) = none
some_digits (some (d ∷ ds)) = some (d ∷ ds)

-- the digits of a line that matches `^\[L[0-9]+\]$`
pub level_header : Bytes → Option Bytes
unfolding some_digits level_digits
level_header [] = none
level_header (b ∷ []) = none
level_header (b ∷ c ∷ s) = if b == b'[' && c == b'L' then some_digits (level_digits s) else none

-- `strings.Split(line, "\t")`
put_first : ℕ → List Bytes → List Bytes
put_first b [] = (b ∷ []) ∷ []
put_first b (part ∷ parts) = (b ∷ part) ∷ parts

pub split_tabs : Bytes → List Bytes
unfolding put_first
split_tabs [] = [] ∷ []
split_tabs (b ∷ s) = let rest = split_tabs s in if b == b'\t' then [] ∷ rest else put_first b rest

-- `strings.Contains(line, "\t")`
pub contains_tab : Bytes → Bool
contains_tab [] = false
contains_tab (b ∷ s) = b == b'\t' || contains_tab s

unquoted : Option Bytes → Result Bytes
unquoted none = err invalid_key_text
unquoted (some key) = ok key

-- the parts of a line with a range
pub parse_ranged : List Bytes → Result (Bytes × Option SstableKeyRange)
unfolding unquoted
parse_ranged ((b ∷ table) ∷ min ∷ max ∷ []) = do
  min_key ← unquoted (unquote min)
  max_key ← unquoted (unquote max)
  guard (str_lt max_key min_key) invalid_key_range
  ok (b ∷ table, some (record { min = min_key; max = max_key }))
parse_ranged parts = err invalid_manifest_entry

-- The range is none where `hasRange` is false.
pub parse_manifest_table : Bytes → ℕ → Result (Bytes × Option SstableKeyRange)
parse_manifest_table line level =
    if not (level == 1) || not (contains_tab line)
    then ok (line, none)
    else parse_ranged (split_tabs line)

-- `levels`, and `tables`, `keyRanges` and `currentLevel`, which are none while that is -1
pub record ManifestState : Type 0 where
  pub levels : List SstableLevel
  pub current : Option SstableLevel

-- `levels = append(levels, …)`, if there is a current level
pub close_level : ManifestState → List SstableLevel
close_level s = s.levels ++ elim s.current [ none ↦ [] | some l ↦ l ∷ [] ]

abbrev pub empty_level : ℕ → SstableLevel
empty_level n = record { tables = []; bloom_filters = []; key_ranges = []; level = n }

pub open_level : ManifestState → ℕ → ManifestState
unfolding close_level
open_level s n = record { levels = close_level s; current = some (empty_level n) }

-- A header ends the level before it. The `break` for a level above `upToLevel` leaves the switch
-- only, so that such a level is read as well.
pub read_header : ManifestState → Option ℕ → Result ManifestState
unfolding open_level
read_header s none = err invalid_level_header
read_header s (some n) = if leb (2 ^ 63) n then err invalid_level_header else ok (open_level s n)

pub add_table : SstableLevel → Bytes × Option SstableKeyRange → SstableLevel
add_table l (table, range) = record l {
  tables = l.tables ++ table ∷ [];
  key_ranges = keep_range l.key_ranges table range;
}

-- A table before the first header is passed over.
pub read_table_line : ManifestState → Option SstableLevel → Bytes → Result ManifestState
unfolding add_table
read_table_line s none line = ok s
read_table_line s (some l) line = do
  entry ← parse_manifest_table line l.level
  ok (record s { current = some (add_table l entry) })

pub read_trimmed : ManifestState → Bytes → Result ManifestState
unfolding read_header read_table_line
read_trimmed s [] = ok s
read_trimmed s (b ∷ line) = elim (level_header (b ∷ line)) [
  | some digits ↦ read_header s (digits_value 0 digits)
  | none ↦ read_table_line s s.current (b ∷ line)
]

-- the body of the loop
pub read_manifest_line : ManifestState → Bytes → Result ManifestState
unfolding read_trimmed
read_manifest_line s line = read_trimmed s (trim_space line)

pub manifest_loop : ManifestState → List Bytes → Result (List SstableLevel)
unfolding close_level
manifest_loop s [] = ok (close_level s)
manifest_loop s (line ∷ lines) =
    let next = read_manifest_line s (drop_cr line) >>= λ s'. manifest_loop s' lines in
    if ltb max_line (length line) then err line_too_long else next

-- The open of a file that is there may fail.
unfoldable pub get_all_sstables : Bool → Option Bytes → Result (List SstableLevel)
get_all_sstables opens none = ok []
get_all_sstables opens (some manifest) =
    if opens
    then manifest_loop (record { levels = []; current = none }) (split_lines manifest)
    else err io_error

-- `sort.Slice` by the level: an insertion sort, as it is on at most twelve levels
unfoldable pub insert_level : SstableLevel → List SstableLevel → List SstableLevel
insert_level l [] = l ∷ []
insert_level l (x ∷ xs) = if ltb x.level l.level then x ∷ insert_level l xs else l ∷ x ∷ xs

unfoldable pub sort_levels : List SstableLevel → List SstableLevel
unfolding insert_level
sort_levels [] = []
sort_levels (l ∷ ls) = insert_level l (sort_levels ls)

module _ (is_print : ℕ → Bool) where
  pub ranged_line : Bytes → Option SstableKeyRange → Bytes
  ranged_line table none = table
  ranged_line table (some r) =
      table ++ (b'\t' ∷ (quote is_print r.min ++ (b'\t' ∷ quote is_print r.max)))

  unfoldable pub manifest_line : SstableLevel → Bytes → Bytes
  unfolding ranged_line
  manifest_line l table =
      if l.level == 1 then ranged_line table (lookup table l.key_ranges) else table

  pub table_lines : SstableLevel → List Bytes → Bytes
  table_lines l [] = []
  table_lines l (table ∷ tables) = manifest_line l table ++ (b'\n' ∷ table_lines l tables)

  pub header_line : ℕ → Bytes
  header_line n = b'[' ∷ b'L' ∷ (decimal n ++ b']' ∷ [])

  -- what the loop of `rewriteManifestFromLevels` writes
  pub manifest_text : List SstableLevel → Bytes
  unfolding header_line
  manifest_text [] = []
  manifest_text (l ∷ ls) =
      header_line l.level ++ (b'\n' ∷ (table_lines l l.tables ++ (b'\n' ∷ manifest_text ls)))
